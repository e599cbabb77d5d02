-- ===== src/Db/Writer.antt =====
-- dbWriter in core-go/db.go: the batch, its flushes, and the loop over the events of its `select`.
pub mod Accounting
pub mod Flush
pub mod Rows
pub mod Captured
use zaman.Base.{
  ℕ, suc, ◌+◌, ◌≡◌, refl, Bool, true, false, Option, none, some, List, [], ◌∷◌, ◌++◌, if◌then◌else◌,
  leb, length, is_nil,
}
use zaman.Text.{Bytes}
use zaman.Core.Metrics.{Metrics}
use zaman.Db.CallState.{CaptureRecord}
use zaman.Db.Batch.{Tables, Outcome, db_batch_insert}

-- `batchSize`
abbrev pub batch_size : ℕ
batch_size = 100

pub record Writer : Type 0 where
  pub metrics : Metrics
  pub batch : List Bytes
  pub tables : Tables

-- The parsed records of a batch, and how many texts did not parse. `unmarshal` is json.Unmarshal
-- into a CaptureRecord.
unfoldable pub parse_batch : (Bytes → Option CaptureRecord) → List Bytes → List CaptureRecord × ℕ
parse_batch unmarshal [] = ([], 0)
parse_batch unmarshal (text ∷ batch) =
    let (recs, errors) = parse_batch unmarshal batch in
    elim (unmarshal text) [ none ↦ (recs, errors + 1) | some rec ↦ (rec ∷ recs, errors) ]

unfoldable pub count_flush : Bool → ℕ → ℕ → Metrics → Metrics
count_flush ok recs errors m =
    if ok
    then record m { db_err = m.db_err + errors; db_ok = m.db_ok + recs }
    else record m { db_err = m.db_err + errors + recs }

-- `flush`
unfoldable pub flush : (Bytes → Option CaptureRecord) → Outcome → Writer → Writer
unfolding parse_batch count_flush
flush unmarshal o w =
    if is_nil w.batch
    then w
    else (let (recs, errors) = parse_batch unmarshal w.batch in
        let (tables, ok) = db_batch_insert o recs w.batch w.tables in
        record {
          metrics = count_flush ok (length recs) errors w.metrics;
          batch = [];
          tables = tables;
        })

-- What the `select` receives: a record from the channel, or a tick of the flush timer. Each flush
-- that it may lead to comes with the server's answer. The ticks for partitions and retention leave
-- the batch and the counters alone.
pub data Event : Type 0 where
  received : Bytes → Outcome → Event
  flush_tick : Outcome → Event

unfoldable pub handle_event : (Bytes → Option CaptureRecord) → Event → Writer → Writer
unfolding flush
handle_event unmarshal (received rec o) w =
    let next = record w { batch = w.batch ++ rec ∷ [] } in
    if leb batch_size (length next.batch) then flush unmarshal o next else next
handle_event unmarshal (flush_tick o) w = flush unmarshal o w

unfoldable pub handle_events : (Bytes → Option CaptureRecord) → List Event → Writer → Writer
unfolding handle_event
handle_events unmarshal [] w = w
handle_events unmarshal (e ∷ es) w = handle_events unmarshal es (handle_event unmarshal e w)

-- dbWriter: the events up to the end of the context or of the channel, and the last flush.
unfoldable pub db_writer : (Bytes → Option CaptureRecord) → List Event → Outcome → Writer → Writer
unfolding handle_events flush
db_writer unmarshal es last w = flush unmarshal last (handle_events unmarshal es w)
