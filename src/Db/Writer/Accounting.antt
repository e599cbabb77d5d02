-- ===== src/Db/Writer/Accounting.antt =====
-- What becomes of every text that dbWriter receives.
use zaman.Base.{
  ℕ, suc, ◌+◌, ◌≡◌, ◌<◌, refl, Bool, true, false, Option, List, [], ◌∷◌, ◌++◌, length, arith,
  length-append, is_nil_lem,
}
use zaman.Text.{Bytes}
use zaman.Core.Metrics.{Metrics}
use zaman.Db.CallState.{CaptureRecord}
use zaman.Db.Batch.{Outcome, db_batch_insert}
use zaman.Db.Writer.{
  Writer, Event, received, flush_tick, batch_size, parse_batch, count_flush, flush, handle_event,
  handle_events, db_writer,
}

parse_batch-length :
    (unmarshal : Bytes → Option CaptureRecord) (batch : List Bytes)
    → length (parse_batch unmarshal batch).0 + (parse_batch unmarshal batch).1 ≡ length batch
unfolding parse_batch
parse_batch-length unmarshal [] = refl
parse_batch-length unmarshal (text ∷ batch) = ground (arith, parse_batch-length unmarshal batch)

count_flush-sum :
    (ok : Bool) (recs errors : ℕ) (m : Metrics)
    → (count_flush ok recs errors m).db_ok + (count_flush ok recs errors m).db_err
      ≡ m.db_ok + m.db_err + (recs + errors)
unfolding count_flush
count_flush-sum true recs errors m = omega arith
count_flush-sum false recs errors m = omega arith

-- `n` texts have been received since the counters read `before` in sum.
pub record IsWriting (n before : ℕ) (w : Writer) : Type 0 where
  pub accounted : w.metrics.db_ok + w.metrics.db_err + length w.batch ≡ n + before
  pub below_limit : length w.batch < 100

pub flush-sum :
    (unmarshal : Bytes → Option CaptureRecord) (o : Outcome) (w : Writer)
    → (let after = flush unmarshal o w in
        (after.metrics.db_ok + after.metrics.db_err
          ≡ w.metrics.db_ok + w.metrics.db_err + length w.batch)
        × (after.batch ≡ []))
unfolding flush
flush-sum unmarshal o w =
    let (recs, errors) = parse_batch unmarshal w.batch in
    let ok = (db_batch_insert o recs w.batch w.tables).1 in
    ground (
      arith,
      is_nil_lem w.batch,
      parse_batch-length unmarshal w.batch,
      count_flush-sum ok (length recs) errors w.metrics,
    )

pub received_count : List Event → ℕ
received_count [] = 0
received_count (received _ _ ∷ es) = suc (received_count es)
received_count (flush_tick _ ∷ es) = received_count es

module _ (unmarshal : Bytes → Option CaptureRecord) where
  handle_event-IsWriting :
      (n before : ℕ) (e : Event) (w : Writer)
      → IsWriting n before w
      → IsWriting (received_count (e ∷ []) + n) before (handle_event unmarshal e w)
  unfolding handle_event received_count
  handle_event-IsWriting n before (received rec o) w h = ground (
    arith,
    h,
    flush-sum unmarshal o (record w { batch = w.batch ++ rec ∷ [] }),
    length-append w.batch (rec ∷ []),
  )
  handle_event-IsWriting n before (flush_tick o) w h = ground (arith, h, flush-sum unmarshal o w)

  handle_events-IsWriting :
      (n before : ℕ) (es : List Event) (w : Writer)
      → IsWriting n before w
      → IsWriting (received_count es + n) before (handle_events unmarshal es w)
  unfolding handle_events received_count
  handle_events-IsWriting n before [] w h = ground (arith, h)
  handle_events-IsWriting n before (e ∷ es) w h = ground (
    arith,
    handle_events-IsWriting (received_count (e ∷ []) + n) before es (handle_event unmarshal e w)
        (handle_event-IsWriting n before e w h),
  )

-- The writer never holds a hundred texts between two events. When it returns, it holds none, and
-- each text that it received has been counted once, in db_ok or in db_err, whatever the server
-- answers and whichever texts do not parse.
pub db_writer-accounted :
    (unmarshal : Bytes → Option CaptureRecord) (es : List Event) (last : Outcome) (w : Writer)
    → w.batch ≡ []
    → (let after = db_writer unmarshal es last w in
        (length (handle_events unmarshal es w).batch < batch_size)
        × (after.batch ≡ [])
        × (after.metrics.db_ok + after.metrics.db_err
            ≡ received_count es + (w.metrics.db_ok + w.metrics.db_err)))
unfolding db_writer
db_writer-accounted unmarshal es last w empty =
    let begin : IsWriting 0 (w.metrics.db_ok + w.metrics.db_err) w = record {
      accounted = ground (arith, empty);
      below_limit = ground (arith, empty);
    } in
    let run = handle_events-IsWriting unmarshal 0 (w.metrics.db_ok + w.metrics.db_err) es w begin in
    ground (arith, run, flush-sum unmarshal last (handle_events unmarshal es w))
