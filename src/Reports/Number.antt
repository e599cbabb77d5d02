-- ===== src/Reports/Number.antt =====
-- buildNumberJSON of core-go/reports.go, over the rows that its query returns.
pub mod Tally
use zaman.Base.{
  ℕ, ◌+◌, ◌-◌, ◌*◌, ◌/◌, ◌≡◌, refl, Bool, true, false, ◌&&◌, not, Option, none, some, List, [], ◌∷◌,
  ◌++◌, ltb, if◌then◌else◌, length, is_nil,
}
use zaman.Text.{Bytes, codes}
use zaman.Text.Decimal.{ℤ, pos, geb}
use zaman.Text.Json.Value.{Json, text, number, array, object, members, items}
use zaman.Db.CallState.{CallState}
use zaman.Reports.Rows.{is_failed, percent}

-- The variables of the loop; `durations` are in seconds.
pub record Counts : Type 0 where
  pub calls : List Json
  pub total : ℕ
  pub answered : ℕ
  pub failed : ℕ
  pub durations : List ℕ

abbrev pub no_counts : Counts
no_counts = record { calls = []; total = 0; answered = 0; failed = 0; durations = [] }

-- `state`
unfoldable pub number_state : CallState → Bytes
number_state r =
    if not r.is_open && r.answered
    then codes "completed"
    else if not r.is_open
    then codes "failed"
    else if r.answered
    then codes "in_progress"
    else codes "ringing"

unfoldable pub number_call_json : CallState → Json
unfolding number_state
number_call_json r = object (
    members (
      (codes "call_id", text r.call_id)
      ∷ (codes "agent", text r.agent)
      ∷ (codes "first_ts_ms", number (pos r.first_ts_ms))
      ∷ (codes "last_ts_ms", number (pos r.last_ts_ms))
      ∷ (codes "state", text (number_state r))
      ∷ (codes "status", number r.last_status)
      ∷ (codes "src", text r.src)
      ∷ (codes "dst", text r.dst)
      ∷ (codes "from", text r.from)
      ∷ (codes "to", text r.to)
      ∷ []))

-- The body of the loop.
unfoldable pub count_row : CallState → Counts → Counts
unfolding number_call_json
count_row r c = record {
  calls = c.calls ++ number_call_json r ∷ [];
  total = c.total + 1;
  answered = if r.answered then c.answered + 1 else c.answered;
  failed = if is_failed r then c.failed + 1 else c.failed;
  durations =
      if r.answered && ltb 0 r.answer_ts_ms && ltb r.answer_ts_ms r.last_ts_ms
      then c.durations ++ ((r.last_ts_ms - r.answer_ts_ms) / 1000) ∷ []
      else c.durations;
}

unfoldable pub count_rows : List CallState → Counts → Counts
unfolding count_row
count_rows [] c = c
count_rows (r ∷ rows) c = count_rows rows (count_row r c)

unfoldable pub sum : List ℕ → ℕ
sum [] = 0
sum (d ∷ ds) = d + sum ds

-- `asr`, which is not capped here
unfoldable pub number_asr : Counts → ℕ
unfolding percent
number_asr c = percent c.answered (c.answered + c.failed)

-- `acd`
unfoldable pub number_acd : Counts → ℕ
unfolding sum
number_acd c = if ltb 0 (length c.durations) then sum c.durations / length c.durations else 0

unfoldable pub number_json : Bytes → Option (List CallState) → Json
unfolding count_rows number_asr number_acd
number_json number_text none = object (
    members (
      (codes "number", text number_text)
      ∷ (codes "calls", array (items []))
      ∷ (codes "total", number (pos 0))
      ∷ []))
number_json number_text (some rows) =
    let c = count_rows rows no_counts in
    object (
      members (
        (codes "number", text number_text)
        ∷ (codes "total", number (pos c.total))
        ∷ (codes "answered", number (pos c.answered))
        ∷ (codes "failed", number (pos c.failed))
        ∷ (codes "asr", number (pos (number_asr c)))
        ∷ (codes "acd", number (pos (number_acd c)))
        ∷ (codes "calls", array (items c.calls))
        ∷ []))
