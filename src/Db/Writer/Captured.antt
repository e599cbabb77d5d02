-- ===== src/Db/Writer/Captured.antt =====
-- From makeRecord to the table captures: the texts of captured messages, through dbWriter with the
-- json.Unmarshal of Db.Record.
use zaman.Base.{
  ◌<◌, ◌^◌, ◌≡◌, refl, sym, ap, ◌∙◌, Option, none, some, List, [], ◌∷◌, ◌++◌, All, length, map,
}
use zaman.Text.{Bytes}
use zaman.Text.Base64.{encode}
use zaman.Sip.{parse_sip}
use zaman.Sip.Redact.{redact_sip}
use zaman.Sip.Record.{Source, make_record}
use zaman.Db.CallState.{CaptureRecord}
use zaman.Db.Batch.{Outcome}
use zaman.Db.Record.{no_record, unmarshal}
use zaman.Db.Record.RoundTrip.{captured, unmarshal-make_record}
use zaman.Db.Writer.{Writer, Event, received, flush_tick, db_writer}
use zaman.Db.Writer.Flush.{IsParsed}
use zaman.Db.Writer.Rows.{
  Row, rows_of, Inserts, IsInserting, IsKnown, rows_received, db_writer-rows,
}

-- A captured message whose text the writer receives, or a tick of its timer.
pub data Arrival : Type 0 where
  message : Source → Bytes → Outcome → Arrival
  tick : Outcome → Arrival

abbrev pub event_for : Arrival → Event
event_for (message s msg o) = received (make_record s msg) o
event_for (tick o) = flush_tick o

-- The time, the number of the node and the length fit an int64, and the server inserts everything.
abbrev pub IsRegular : Arrival → Type 0
IsRegular (message s msg o) =
    (s.ts_ms < 2 ^ 63) × (s.hep_node_id < 2 ^ 63) × (length msg < 2 ^ 63) × Inserts o
IsRegular (tick o) = Inserts o

-- The row of each message: its record, beside the text that makeRecord wrote.
pub captured_rows : List Arrival → List Row
captured_rows [] = []
captured_rows (message s msg o ∷ arrivals) =
    (captured s (parse_sip msg) (length msg) (encode (redact_sip msg)), make_record s msg)
    ∷ captured_rows arrivals
captured_rows (tick o ∷ arrivals) = captured_rows arrivals

or_empty : Option CaptureRecord → CaptureRecord
or_empty none = no_record
or_empty (some r) = r

read_or_empty : Bytes → CaptureRecord
read_or_empty text = or_empty (unmarshal text)

read_or_empty-captured :
    (text : Bytes) (r : CaptureRecord)
    → unmarshal text ≡ some r
    → IsParsed unmarshal read_or_empty text × (read_or_empty text ≡ r)
unfolding read_or_empty or_empty
read_or_empty-captured text r e =
    let value : read_or_empty text ≡ r = ap or_empty e in (e ∙ ap some (sym value), value)

regular :
    (arrivals : List Arrival)
    → All IsRegular arrivals
    → All IsInserting (map event_for arrivals)
      × All (IsKnown unmarshal read_or_empty) (map event_for arrivals)
      × (rows_received unmarshal read_or_empty (map event_for arrivals) ≡ captured_rows arrivals)
unfolding rows_received captured_rows
regular [] h = (tt, tt, refl)
regular (tick o ∷ arrivals) h =
    let (inserting, known, rows) = regular arrivals h.1 in ((h.0, inserting), (tt, known), rows)
regular (message s msg o ∷ arrivals) ((time, node, bytes, ok), more) =
    let (inserting, known, rows) = regular arrivals more in
    let (parsed, e) = read_or_empty-captured _ _ (unmarshal-make_record s msg time node bytes) in
    ((ok, inserting), (parsed, known), rw (e, rows) refl)

-- From the capture to the table: where the server inserts and commits everything, the writer's loop
-- ends with a row for each message that came, once and in order, which has every field of the message
-- and the text that makeRecord wrote of it. Times, node numbers and lengths fit an int64, and the
-- writer starts with an empty batch.
pub db_writer-captured :
    (arrivals : List Arrival) (last : Outcome) (w : Writer)
    → w.batch ≡ []
    → All IsRegular arrivals
    → Inserts last
    → rows_of (db_writer unmarshal (map event_for arrivals) last w).tables.captures
      ≡ rows_of w.tables.captures ++ captured_rows arrivals
db_writer-captured arrivals last w empty h closing =
    let (inserting, known, rows) = regular arrivals h in
    db_writer-rows unmarshal read_or_empty (map event_for arrivals) last w empty inserting known
      closing
    ∙ ap (◌++◌ (rows_of w.tables.captures)) rows
