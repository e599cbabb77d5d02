-- ===== src/Reports/Calls.antt =====
-- buildActiveCallsJSON of core-go/reports.go: which calls a state asks for, and how a call is shown.
pub mod States
use zaman.Base.{
  ℕ, ◌+◌, ◌-◌, ◌/◌, ◌≡◌, refl, Bool, true, false, ◌&&◌, ◌||◌, not, Option, none, some, List, [],
  ◌∷◌, ltb, if◌then◌else◌, map,
}
use zaman.Text.{Bytes, codes, equal, contains}
use zaman.Text.Decimal.{ℤ, pos, geb}
use zaman.Text.Json.Value.{Json, text, number, array, object, members, items}
use zaman.Db.CallState.{CallState}

-- The condition that the clause of a state is.
unfoldable pub admits : Bytes → CallState → Bool
unfolding equal contains
admits state r =
    if equal state (codes "open") || equal state (codes "ringing")
    then r.is_open && not r.answered
    else if equal state (codes "answered") || equal state (codes "active")
    then r.is_open && r.answered
    else if equal state (codes "ended")
    then not r.is_open
    else if equal state (codes "failed")
    then not r.is_open && not r.answered && geb r.last_status 400
    else if equal state (codes "canceled")
    then not r.is_open && contains r.last_method (codes "CANCEL")
    else true

-- `callState`
unfoldable pub call_state_name : CallState → Bytes
call_state_name r =
    if r.is_open && r.answered
    then codes "answered"
    else if r.is_open
    then codes "ringing"
    else if not r.answered && geb r.last_status 400
    then codes "failed"
    else codes "ended"

-- `msgCount`, at least 1
unfoldable pub message_count : CallState → ℕ
message_count r = let n = r.last_id - r.invite_id in if ltb n 1 then 1 else n

flag_number : Bool → Json
flag_number b = number (pos (if b then 1 else 0))

unfoldable pub call_json : CallState → Json
unfolding call_state_name message_count flag_number
call_json r =
    let messages = message_count r in
    object (
      members (
        (codes "id", number (pos r.last_id))
        ∷ (codes "call_id", text r.call_id)
        ∷ (codes "ts_ms", number (pos r.last_ts_ms))
        ∷ (codes "ts_first", number (pos r.first_ts_ms))
        ∷ (codes "ts_last", number (pos r.last_ts_ms))
        ∷ (codes "src", text r.src)
        ∷ (codes "dst", text r.dst)
        ∷ (codes "from", text r.from)
        ∷ (codes "to", text r.to)
        ∷ (codes "from_h", text r.from)
        ∷ (codes "to_h", text r.to)
        ∷ (codes "agent", text r.agent)
        ∷ (codes "transport", text (codes "HEP3"))
        ∷ (codes "method", text (codes "INVITE"))
        ∷ (codes "status", number r.last_status)
        ∷ (codes "kind", text (codes "request"))
        ∷ (codes "state", text (call_state_name r))
        ∷ (codes "messages", number (pos messages))
        ∷ (codes "requests", number (pos (messages / 2)))
        ∷ (codes "responses", number (pos (messages - messages / 2)))
        ∷ (codes "answered", flag_number r.answered)
        ∷ (codes "open", flag_number r.is_open)
        ∷ (codes "last_status", number r.last_status)
        ∷ (codes "first_ts_ms", number (pos r.first_ts_ms))
        ∷ []))

-- The text of a list of rows: `"[" + strings.Join(parts, ",") + "]"`, and `[]` where the query failed.
unfoldable pub rows_json {ℓ} : {A : Type ℓ} → (A → Json) → Option (List A) → Json
rows_json row none = array (items [])
rows_json row (some rows) = array (items (map row rows))

unfoldable pub active_calls_json : Option (List CallState) → Json
unfolding rows_json call_json
active_calls_json = rows_json call_json
