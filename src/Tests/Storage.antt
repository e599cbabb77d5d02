-- ===== src/Tests/Storage.antt =====
-- The database writer's batches, the call states and the partitions.
use zaman.Base.{
  ◌+◌, ◌*◌, ◌≡◌, ◌<◌, refl, true, Option, none, some, List, [], ◌∷◌, ◌++◌, if◌then◌else◌, length,
  All, arith, ℕ, zero, suc, map,
}
use zaman.Text.{Bytes, codes, equal}
use zaman.Text.Decimal.{pos}
use zaman.Core.Metrics.{new_metrics}
use zaman.Sip.{parse_sip}
use zaman.Sip.Redact.{redact_sip}
use zaman.Sip.Record.{Source, make_record}
use zaman.Text.Base64.{encode}
use zaman.Db.Record
use zaman.Db.Record.RoundTrip.{captured, unmarshal-make_record}
use zaman.Db.CallState.{CaptureRecord, CallState, CallEvent, event_of, find_row}
use zaman.Db.CallState.History.{upserts, events_for, Shows, find_row-Shows}
use zaman.Db.Batch.{Tables, Outcome, db_batch_insert}
use zaman.Db.Batch.Effects.{events_of, call_state-db_batch_insert}
use zaman.Db.Batch.Rollup.{daily_count, inserted_for, daily_count-db_batch_insert}
use zaman.Db.Writer.{Writer, Event, received, flush_tick, batch_size, handle_events, db_writer}
use zaman.Db.Writer.Accounting.{received_count, db_writer-accounted}
use zaman.Db.Writer.Rows.{rows_of, Inserts}
use zaman.Db.Writer.Captured.{Arrival, message, tick, event_for, captured_rows, db_writer-captured}
use zaman.Db.Partitions.{month_length, Date, day_ms, ensure_partitions, drop_old_partitions}
use zaman.Db.Partitions.Days.{IsDate, Follow, ensure_partitions-Follow}
use zaman.Db.Partitions.Retention.{partition_names, drop_old_partitions-partition_names}

abbrev pub invite : CaptureRecord
invite = record {
  ts_ms = 86400500;
  src = codes "10.0.0.1:5060";
  dst = codes "10.0.0.2:5060";
  transport = codes "UDP";
  proto = codes "sip";
  agent = codes "edge";
  kind = codes "request";
  method = codes "INVITE";
  status = pos 0;
  call_id = codes "c1";
  from = codes "a";
  to = codes "b";
  cseq = codes "1 INVITE";
  ruri = codes "sip:b@x";
  hep_node_id = 7;
  hep_node = codes "edge";
  hep_cid = [];
  size = 300;
  raw_b64 = [];
}

abbrev pub answer : CaptureRecord
answer = record invite {
  ts_ms = 86403000;
  kind = codes "response";
  method = codes "2 INVITE";
  status = pos 200;
}

abbrev other_call : CaptureRecord
other_call = record invite { call_id = codes "c2" }

abbrev events : List CallEvent
events = event_of invite 1 ∷ event_of other_call 2 ∷ event_of answer 3 ∷ []

own_events :
    events_for (codes "c1") (codes "edge") events ≡ event_of invite 1 ∷ event_of answer 3 ∷ []
unfolding events_for event_of equal
own_events = refl

find_row-Shows_example :
    (row : CallState) × (find_row (codes "c1") (codes "edge") (upserts events []) ≡ some row)
    × Shows (event_of invite 1) (event_of answer 3 ∷ []) row
find_row-Shows_example =
    find_row-Shows (codes "c1") (codes "edge") events (event_of invite 1) (event_of answer 3 ∷ [])
      own_events

abbrev no_tables : Tables
no_tables = record { captures = []; call_state = []; report_daily = [] }

abbrev committed : Outcome
committed = record { begins = true; ids = some 1 ∷ none ∷ []; commits = true }

daily_count-db_batch_insert_example :
    daily_count
      (codes "1")
      (codes "INVITE")
      (codes "UDP")
      (db_batch_insert committed (invite ∷ answer ∷ []) [] no_tables).0.report_daily
    ≡ daily_count (codes "1") (codes "INVITE") (codes "UDP") no_tables.report_daily
      + (if (db_batch_insert committed (invite ∷ answer ∷ []) [] no_tables).1
          then inserted_for
              (codes "1")
              (codes "INVITE")
              (codes "UDP")
              (invite ∷ answer ∷ [])
              committed.ids
          else 0)
daily_count-db_batch_insert_example =
    daily_count-db_batch_insert (codes "1") (codes "INVITE") (codes "UDP") committed
      (invite ∷ answer ∷ []) [] no_tables (ground arith) (ground arith) refl (ground arith)

call_state-db_batch_insert_example :
    (db_batch_insert committed (invite ∷ answer ∷ []) [] no_tables).0.call_state ≡ (
      if (db_batch_insert committed (invite ∷ answer ∷ []) [] no_tables).1
      then upserts (events_of (invite ∷ answer ∷ []) committed.ids) no_tables.call_state
      else no_tables.call_state)
call_state-db_batch_insert_example =
    call_state-db_batch_insert committed (invite ∷ answer ∷ []) [] no_tables

-- Only one text stands for a record.
abbrev unmarshal : Bytes → Option CaptureRecord
unmarshal [] = none
unmarshal (c ∷ text) = some invite

abbrev idle : Writer
idle = record { metrics = new_metrics; batch = []; tables = no_tables }

abbrev arrivals : List Event
arrivals = received (codes "{}") committed ∷ flush_tick committed ∷ received [] committed ∷ []

db_writer-accounted_example :
    (length (handle_events unmarshal arrivals idle).batch < batch_size)
    × ((db_writer unmarshal arrivals committed idle).batch ≡ [])
    × ((db_writer unmarshal arrivals committed idle).metrics.db_ok
          + (db_writer unmarshal arrivals committed idle).metrics.db_err
        ≡ received_count arrivals + (idle.metrics.db_ok + idle.metrics.db_err))
db_writer-accounted_example = db_writer-accounted unmarshal arrivals committed idle refl

abbrev leap_day : Date
leap_day = record { year = 2024; month = 2; day = 28 }

leap_day-IsDate : IsDate leap_day
unfolding month_length
leap_day-IsDate = record {
  month_from = omega arith;
  month_to = omega arith;
  day_from = omega arith;
  day_to = omega arith;
}

ensure_partitions-Follow_example :
    Follow (ensure_partitions leap_day)
    × All (λ p. p.end_ms ≡ p.start_ms + day_ms) (ensure_partitions leap_day)
ensure_partitions-Follow_example = ensure_partitions-Follow leap_day leap_day-IsDate

drop_old_partitions-partition_names_example :
    drop_old_partitions 14 (800000 * day_ms) (partition_names (leap_day ∷ [])) ≡ []
drop_old_partitions-partition_names_example =
    drop_old_partitions-partition_names 14 (800000 * day_ms) (leap_day ∷ [])

abbrev from_edge : Source
from_edge = record {
  src = codes "10.0.0.1:5060";
  dst = codes "10.0.0.2:5060";
  transport = codes "UDP";
  agent = codes "edge \"7\"";
  proto = codes "sip";
  ts_ms = 86400500;
  hep_node_id = 7;
  hep_node_name = codes "edge";
  hep_correlation = [];
}

abbrev options : Bytes
options = codes "OPTIONS sip:b@x SIP/2.0\r\nCall-ID: c1\r\nAuthorization: secret\r\n\r\n"

unmarshal-make_record_example :
    Record.unmarshal (make_record from_edge options)
    ≡ some (captured from_edge (parse_sip options) (length options) (encode (redact_sip options)))
unmarshal-make_record_example =
    unmarshal-make_record from_edge options (ground arith) (ground arith) (ground arith)

abbrev numbers : ℕ → ℕ → List ℕ
numbers zero from = []
numbers (suc n) from = from ∷ numbers n (suc from)

abbrev inserting : Outcome
inserting = record { begins = true; ids = map some (numbers 100 1); commits = true }

inserting-Inserts : Inserts inserting
inserting-Inserts = record {
  numbers = numbers 100 1;
  begins = refl;
  inserted = refl;
  enough = ground arith;
  commits = refl;
}

abbrev arriving : List Arrival
arriving = message from_edge options inserting ∷ tick inserting ∷ []

db_writer-captured_example :
    rows_of (db_writer Record.unmarshal (map event_for arriving) inserting idle).tables.captures
    ≡ rows_of no_tables.captures ++ captured_rows arriving
db_writer-captured_example =
    db_writer-captured arriving inserting idle refl
      ((ground arith, ground arith, ground arith, inserting-Inserts), (inserting-Inserts, tt))
      inserting-Inserts
