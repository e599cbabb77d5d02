-- ===== src/Db/Batch.antt =====
-- dbBatchInsert in core-go/db.go: one transaction over the tables captures, call_state and
-- report_daily. PostgreSQL is not modelled beyond its tables: `Outcome` says which calls of it fail.
pub mod Keys
pub mod Rollup
pub mod Effects
use zaman.Base.{
  ℕ, ◌+◌, ◌≡◌, refl, Bool, true, false, ◌&&◌, Option, none, some, List, [], ◌∷◌, ◌++◌,
  if◌then◌else◌, get_elem?, length, is_nil, suc, zero,
}
use zaman.Text.{Bytes, codes, equal, cut}
use zaman.Core.State.{day_key}
use zaman.Core.Metrics.{bump}
use zaman.Db.CallState.{CaptureRecord, CallState, event_of, upsert}

-- A row of captures: its number, the record's fields, and the text stored beside them.
pub record Capture : Type 0 where
  pub id : ℕ
  pub fields : CaptureRecord
  pub record_json : Bytes

-- A row of report_daily.
pub record DailyRow : Type 0 where
  pub day : Bytes
  pub method : Bytes
  pub transport : Bytes
  pub cnt : ℕ

pub record Tables : Type 0 where
  pub captures : List Capture
  pub call_state : List CallState
  pub report_daily : List DailyRow

-- How the server answers: whether the transaction begins (with both statements prepared), for each
-- record the number its insert returns, or none for an error, and whether the commit succeeds.
pub record Outcome : Type 0 where
  pub begins : Bool
  pub ids : List (Option ℕ)
  pub commits : Bool

-- `rec.CallID != ""`
unfoldable pub track_call : CaptureRecord → ℕ → List CallState → List CallState
unfolding event_of upsert
track_call rec id rows = if is_nil rec.call_id then rows else upsert (event_of rec id) rows

unfoldable pub daily_key : CaptureRecord → Bytes
unfolding day_key
daily_key rec = day_key rec.ts_ms ++ b'|' ∷ (rec.method ++ b'|' ∷ rec.transport)

-- `dailyCounts[key]++`
unfoldable pub count_daily : CaptureRecord → List (Bytes × ℕ) → List (Bytes × ℕ)
unfolding daily_key bump
count_daily rec daily_counts =
    if is_nil rec.method then daily_counts else bump (daily_key rec) daily_counts

-- `if i < len(rawJSONs) { rawJSON = rawJSONs[i] }`
unfoldable pub raw_at : ℕ → List Bytes → Bytes
raw_at i raw_jsons = elim (get_elem? raw_jsons i) [ none ↦ [] | some raw ↦ raw ]

-- The loop over the records; `i` is the index of the first of them.
unfoldable pub insert_loop :
    List CaptureRecord
    → ℕ
    → List Bytes
    → List (Option ℕ)
    → Tables × List (Bytes × ℕ)
    → Tables × List (Bytes × ℕ)
unfolding track_call count_daily raw_at
insert_loop (rec ∷ recs) i raw_jsons (some id ∷ ids) (t, daily_counts) =
    let capture : Capture = record { id = id; fields = rec; record_json = raw_at i raw_jsons } in
    let next : Tables = record t {
      captures = t.captures ++ capture ∷ [];
      call_state = track_call rec id t.call_state;
    } in
    insert_loop recs (suc i) raw_jsons ids (next, count_daily rec daily_counts)
insert_loop (rec ∷ recs) i raw_jsons (none ∷ ids) acc = insert_loop recs (suc i) raw_jsons ids acc
insert_loop _ _ _ _ acc = acc

-- `INSERT INTO report_daily … ON CONFLICT (day, method, transport) DO UPDATE`
unfoldable pub add_daily : Bytes → Bytes → Bytes → ℕ → List DailyRow → List DailyRow
unfolding equal
add_daily day method transport cnt [] =
    record { day = day; method = method; transport = transport; cnt = cnt } ∷ []
add_daily day method transport cnt (r ∷ rows) =
    if equal r.day day && equal r.method method && equal r.transport transport
    then record r { cnt = r.cnt + cnt } ∷ rows
    else r ∷ add_daily day method transport cnt rows

-- `strings.SplitN(key, "|", 3)`, where it has three parts
abbrev pub with_method : Bytes → Bytes → Option Bytes → Option (Bytes × Bytes × Bytes)
with_method day method none = none
with_method day method (some transport) = some (day, method, transport)

abbrev pub with_day : Bytes → Option Bytes → Option (Bytes × Bytes × Bytes)
with_day day none = none
with_day day (some rest) = with_method day (cut b'|' rest).0 (cut b'|' rest).1

unfoldable pub split_key : Bytes → Option (Bytes × Bytes × Bytes)
unfolding cut
split_key key = with_day (cut b'|' key).0 (cut b'|' key).1

-- The loop over dailyCounts. Go takes the keys of the map in any order; the list has one of them.
unfoldable pub rollup : List (Bytes × ℕ) → List DailyRow → List DailyRow
unfolding split_key add_daily
rollup [] rows = rows
rollup ((key, cnt) ∷ counts) rows = elim (split_key key) [
  | none ↦ rollup counts rows
  | some (day, method, transport) ↦ rollup counts (add_daily day method transport cnt rows)
]

-- dbBatchInsert: the tables after it, and whether it returned without an error.
unfoldable pub db_batch_insert : Outcome → List CaptureRecord → List Bytes → Tables → Tables × Bool
unfolding insert_loop rollup
db_batch_insert _ [] _ t = (t, true)
db_batch_insert o (rec ∷ recs) raw_jsons t =
    if o.begins
    then (let (inserted, daily_counts) = insert_loop (rec ∷ recs) 0 raw_jsons o.ids (t, []) in
        let done = record inserted { report_daily = rollup daily_counts inserted.report_daily } in
        if o.commits then (done, true) else (t, false))
    else (t, false)
