-- ===== src/Api/Delete.antt =====
-- The route /api/delete of core-go/api.go, on the tables captures and call_state.
use zaman.Base.{
  ◌&&◌, ℕ, ◌≡◌, refl, Bool, true, false, not, none, List, [], ◌∷◌, ltb, if◌then◌else◌, is_nil,
  arith,
}
use zaman.Text.{Bytes, equal}
use zaman.Text.Split.{equal_iff}
use zaman.Text.Decimal.{ℤ, pos, negsuc, is_pos, parse_int}
use zaman.Db.CallState.{CallState, find_row}
use zaman.Db.Batch.{Capture, Tables}
use zaman.Reports.Rows.{filter_rows}

pub record DeleteRequest : Type 0 where
  pub is_post : Bool
  pub call_id : Bytes
  pub before_ts : Bytes

pub data DeleteReply : Type 0 where
  method_not_allowed deleted nothing_written parameter_required : DeleteReply

-- Which of the two statements the server carries out; the other fails. Each is its own transaction.
pub record Executed : Type 0 where
  pub captures : Bool
  pub call_state : Bool

-- `DELETE FROM captures WHERE call_id=$1` and the same for call_state. The errors are not looked at.
unfoldable pub delete_call : Executed → Bytes → Tables → Tables
unfolding filter_rows equal
delete_call done call_id t = record t {
  captures =
      if done.captures
      then filter_rows (λ c. not (equal c.fields.call_id call_id)) t.captures
      else t.captures;
  call_state =
      if done.call_state
      then filter_rows (λ r. not (equal r.call_id call_id)) t.call_state
      else t.call_state;
}

-- `ts_ms < $1`, for a positive time
abbrev is_before : ℕ → ℤ → Bool
is_before t (pos ts) = ltb t ts
is_before t (negsuc n) = false

unfoldable pub delete_before : Executed → ℤ → Tables → Tables
unfolding filter_rows
delete_before done ts t = record t {
  captures =
      if done.captures
      then filter_rows (λ c. not (is_before c.fields.ts_ms ts)) t.captures
      else t.captures;
  call_state =
      if done.call_state
      then filter_rows (λ r. not (is_before r.last_ts_ms ts)) t.call_state
      else t.call_state;
}

-- The handler: `deleted` is the answer `{"ok":true}`, whether the statements fail or not.
unfoldable pub handle_delete : Executed → DeleteRequest → Tables → DeleteReply × Tables
unfolding delete_call delete_before parse_int
handle_delete done r t =
    if not r.is_post
    then (method_not_allowed, t)
    else if not (is_nil r.call_id)
    then (deleted, delete_call done r.call_id t)
    else if not (is_nil r.before_ts)
    then (let ts = parse_int r.before_ts in
        if is_pos ts then (deleted, delete_before done ts t) else (nothing_written, t))
    else (parameter_required, t)

find_row-filter_rows :
    (deleted_id call_id agent : Bytes) (rows : List CallState)
    → find_row call_id agent (filter_rows (λ r. not (equal r.call_id deleted_id)) rows)
      ≡ (if equal deleted_id call_id then none else find_row call_id agent rows)
unfolding filter_rows find_row
find_row-filter_rows deleted_id call_id agent [] = ground arith
find_row-filter_rows deleted_id call_id agent (r ∷ rows) = ground (
  arith,
  equal_iff r.call_id call_id,
  equal_iff deleted_id call_id,
  equal_iff r.call_id deleted_id,
  find_row-filter_rows deleted_id call_id agent rows,
)

-- The captures of a call, in order.
pub captures_of : Bytes → List Capture → List Capture
captures_of call_id = filter_rows (λ c. equal c.fields.call_id call_id)

captures_of-filter_rows :
    (deleted_id call_id : Bytes) (cs : List Capture)
    → captures_of call_id (filter_rows (λ c. not (equal c.fields.call_id deleted_id)) cs)
      ≡ (if equal deleted_id call_id then [] else captures_of call_id cs)
unfolding captures_of filter_rows
captures_of-filter_rows deleted_id call_id [] = ground arith
captures_of-filter_rows deleted_id call_id (c ∷ cs) = ground (
  arith,
  equal_iff c.fields.call_id call_id,
  equal_iff deleted_id call_id,
  equal_iff c.fields.call_id deleted_id,
  captures_of-filter_rows deleted_id call_id cs,
)

find_row-if :
    (done : Bool) (deleted_id call_id agent : Bytes) (rows : List CallState)
    → find_row call_id agent
        (if done then filter_rows (λ r. not (equal r.call_id deleted_id)) rows else rows)
      ≡ (if done && equal deleted_id call_id then none else find_row call_id agent rows)
find_row-if true deleted_id call_id agent rows = find_row-filter_rows deleted_id call_id agent rows
find_row-if false deleted_id call_id agent rows = refl

captures_of-if :
    (done : Bool) (deleted_id call_id : Bytes) (cs : List Capture)
    → captures_of call_id
        (if done then filter_rows (λ c. not (equal c.fields.call_id deleted_id)) cs else cs)
      ≡ (if done && equal deleted_id call_id then [] else captures_of call_id cs)
captures_of-if true deleted_id call_id cs = captures_of-filter_rows deleted_id call_id cs
captures_of-if false deleted_id call_id cs = refl

-- A request to delete a call is answered with ok whatever the server does. Of the table whose statement
-- it carries out no row of the call is left, for any agent, and every other call keeps its rows; a table
-- whose statement fails, and the daily counts, are left as they are.
pub handle_delete-call :
    (done : Executed) (r : DeleteRequest) (t : Tables) (call_id agent : Bytes)
    → r.is_post ≡ true
    → is_nil r.call_id ≡ false
    → let (reply, after) = handle_delete done r t in
      (reply ≡ deleted)
      × (find_row call_id agent after.call_state ≡ (
          if done.call_state && equal r.call_id call_id
          then none
          else find_row call_id agent t.call_state))
      × (captures_of call_id after.captures ≡ (
          if done.captures && equal r.call_id call_id then [] else captures_of call_id t.captures))
      × (after.report_daily ≡ t.report_daily)
unfolding handle_delete
handle_delete-call done r t call_id agent post given =
    rw (post, given)
      (
        refl,
        find_row-if done.call_state r.call_id call_id agent t.call_state,
        captures_of-if done.captures r.call_id call_id t.captures,
        refl,
      )
