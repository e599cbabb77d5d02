-- ===== src/Db/CallState/History.antt =====
-- The table against the history of the events.
use zaman.Base.{
  ℕ, ◌≡◌, refl, ap, ◌∙◌, Bool, false, not, ◌&&◌, ◌||◌, Option, none, some, List, [], ◌∷◌, max, ◌==◌,
  if◌then◌else◌, arith, Bool-cases, inl, inr,
}
use zaman.Text.{Bytes, equal}
use zaman.Text.Split.{equal_iff}
use zaman.Db.CallState.{CallEvent, CallState, insert_row, update_row, upsert, find_row}

-- The events in the order in which they were written.
unfoldable pub upserts : List CallEvent → List CallState → List CallState
upserts [] rows = rows
upserts (e ∷ es) rows = upserts es (upsert e rows)

keys_kept :
    (e : CallEvent) (r : CallState)
    → ((update_row e r).call_id ≡ r.call_id)
      × ((update_row e r).agent ≡ r.agent)
      × ((insert_row e).call_id ≡ e.call_id)
      × ((insert_row e).agent ≡ e.agent)
unfolding update_row insert_row
keys_kept e r = (refl, refl, refl, refl)

abbrev pub is_for : Bytes → Bytes → CallEvent → Bool
is_for call_id agent e = equal e.call_id call_id && equal e.agent agent

-- The row that an event makes of the one there is.
abbrev pub next_row : CallEvent → Option CallState → CallState
next_row e none = insert_row e
next_row e (some r) = update_row e r

-- An event writes the row of its own key, and leaves every other row.
pub find_row-upsert :
    (call_id agent : Bytes) (e : CallEvent) (rows : List CallState)
    → find_row call_id agent (upsert e rows) ≡ (
        if is_for call_id agent e
        then some (next_row e (find_row call_id agent rows))
        else find_row call_id agent rows)
unfolding upsert find_row
find_row-upsert call_id agent e [] =
    ground (arith, keys_kept e (insert_row e), equal_iff e.call_id call_id, equal_iff e.agent agent)
find_row-upsert call_id agent e (r ∷ rows) = ground (
  arith,
  keys_kept e r,
  equal_iff e.call_id call_id,
  equal_iff e.agent agent,
  equal_iff r.call_id call_id,
  equal_iff r.agent agent,
  equal_iff r.call_id e.call_id,
  equal_iff r.agent e.agent,
  find_row-upsert call_id agent e rows,
)

-- What the events of one call leave, as a function of them; `none` before the first.
pub row_of : Option CallState → List CallEvent → Option CallState
row_of r [] = r
row_of r (e ∷ es) = row_of (some (next_row e r)) es

unfoldable pub events_for : Bytes → Bytes → List CallEvent → List CallEvent
events_for call_id agent [] = []
events_for call_id agent (e ∷ es) =
    let rest = events_for call_id agent es in if is_for call_id agent e then e ∷ rest else rest

-- Each row of the table is what the events of its own call and agent make of it, whatever events of
-- other calls are written between them.
pub find_row-upserts :
    (call_id agent : Bytes) (es : List CallEvent) (rows : List CallState)
    → find_row call_id agent (upserts es rows)
      ≡ row_of (find_row call_id agent rows) (events_for call_id agent es)
unfolding upserts row_of events_for
find_row-upserts call_id agent [] rows = refl
find_row-upserts call_id agent (e ∷ es) rows = elim (Bool-cases (is_for call_id agent e)) [
  | inl own ↦ find_row-upserts call_id agent es (upsert e rows) ∙ rw (find_row-upsert, own)
  | inr other ↦ find_row-upserts call_id agent es (upsert e rows) ∙ rw (find_row-upsert, other)
]

-- The abstract view of a call: what its first event says, and folds over all its events.
abbrev pub max_ts : ℕ → List CallEvent → ℕ
max_ts t [] = t
max_ts t (e ∷ es) = max_ts (max t e.ts_ms) es

abbrev pub any_of : (CallEvent → Bool) → List CallEvent → Bool
any_of test [] = false
any_of test (e ∷ es) = test e || any_of test es

-- The first number that is not 0 among the events that pass the test.
abbrev pub first_of_events : (CallEvent → Bool) → (CallEvent → ℕ) → List CallEvent → ℕ
first_of_events test value [] = 0
first_of_events test value (e ∷ es) =
    let rest = first_of_events test value es in
    if test e then (if value e == 0 then rest else value e) else rest

abbrev pub last_event : CallEvent → List CallEvent → CallEvent
last_event e [] = e
last_event e (f ∷ es) = last_event f es

-- `r` is the row that the events `e ∷ es` of a call should leave.
pub record Shows (e : CallEvent) (es : List CallEvent) (r : CallState) : Type 0 where
  pub first_ts_ms : r.first_ts_ms ≡ e.ts_ms
  pub src : r.src ≡ e.src
  pub dst : r.dst ≡ e.dst
  pub from : r.from ≡ e.from
  pub to : r.to ≡ e.to
  pub last_ts_ms : r.last_ts_ms ≡ max_ts e.ts_ms es
  pub last_id : r.last_id ≡ (last_event e es).id
  pub last_method : r.last_method ≡ (last_event e es).method
  pub last_status : r.last_status ≡ (last_event e es).status
  pub answered : r.answered ≡ any_of (λ f. f.answered) (e ∷ es)
  pub is_open : r.is_open ≡ not (any_of (λ f. f.closed) (e ∷ es))
  pub invite_id : r.invite_id ≡ first_of_events (λ f. f.invite) (λ f. f.id) (e ∷ es)
  pub answer_ts_ms : r.answer_ts_ms ≡ first_of_events (λ f. f.answered) (λ f. f.ts_ms) (e ∷ es)

pub rows_after : CallState → List CallEvent → CallState
rows_after r [] = r
rows_after r (e ∷ es) = rows_after (update_row e r) es

row_of-some : (r : CallState) (es : List CallEvent) → row_of (some r) es ≡ some (rows_after r es)
unfolding row_of rows_after
row_of-some r [] = refl
row_of-some r (e ∷ es) = row_of-some (update_row e r) es

rows_after-first :
    (r : CallState) (es : List CallEvent)
    → (let after = rows_after r es in
        (after.first_ts_ms ≡ r.first_ts_ms)
        × (after.src ≡ r.src)
        × (after.dst ≡ r.dst)
        × (after.from ≡ r.from)
        × (after.to ≡ r.to))
unfolding rows_after update_row
rows_after-first r [] = (refl, refl, refl, refl, refl)
rows_after-first r (e ∷ es) = rows_after-first (update_row e r) es

rows_after-last :
    (r : CallState) (e : CallEvent) (es : List CallEvent)
    → (let after = rows_after r (e ∷ es) in
        (after.last_id ≡ (last_event e es).id)
        × (after.last_method ≡ (last_event e es).method)
        × (after.last_status ≡ (last_event e es).status))
unfolding rows_after update_row
rows_after-last r e [] = (refl, refl, refl)
rows_after-last r e (f ∷ es) = rows_after-last (update_row e r) f es

rows_after-last_ts_ms :
    (r : CallState) (es : List CallEvent) → (rows_after r es).last_ts_ms ≡ max_ts r.last_ts_ms es
unfolding rows_after update_row
rows_after-last_ts_ms r [] = refl
rows_after-last_ts_ms r (e ∷ es) = rows_after-last_ts_ms (update_row e r) es

rows_after-answered :
    (r : CallState) (es : List CallEvent)
    → (rows_after r es).answered ≡ r.answered || any_of (λ f. f.answered) es
unfolding rows_after update_row
rows_after-answered r [] = ground arith
rows_after-answered r (e ∷ es) = ground (arith, rows_after-answered (update_row e r) es)

rows_after-is_open :
    (r : CallState) (es : List CallEvent)
    → (rows_after r es).is_open ≡ r.is_open && not (any_of (λ f. f.closed) es)
unfolding rows_after update_row
rows_after-is_open r [] = ground arith
rows_after-is_open r (e ∷ es) = ground (arith, rows_after-is_open (update_row e r) es)

rows_after-invite_id :
    (r : CallState) (es : List CallEvent)
    → (rows_after r es).invite_id
      ≡ (if r.invite_id == 0 then first_of_events (λ f. f.invite) (λ f. f.id) es else r.invite_id)
unfolding rows_after update_row
rows_after-invite_id r [] = ground arith
rows_after-invite_id r (e ∷ es) = ground (arith, rows_after-invite_id (update_row e r) es)

rows_after-answer_ts_ms :
    (r : CallState) (es : List CallEvent)
    → (rows_after r es).answer_ts_ms ≡ (
        if r.answer_ts_ms == 0
        then first_of_events (λ f. f.answered) (λ f. f.ts_ms) es
        else r.answer_ts_ms)
unfolding rows_after update_row
rows_after-answer_ts_ms r [] = ground arith
rows_after-answer_ts_ms r (e ∷ es) = ground (arith, rows_after-answer_ts_ms (update_row e r) es)

rows_after-insert-last :
    (e : CallEvent) (es : List CallEvent)
    → (let after = rows_after (insert_row e) es in
        (after.last_id ≡ (last_event e es).id)
        × (after.last_method ≡ (last_event e es).method)
        × (after.last_status ≡ (last_event e es).status))
unfolding rows_after insert_row
rows_after-insert-last e [] = (refl, refl, refl)
rows_after-insert-last e (f ∷ es) = rows_after-last (insert_row e) f es

insert-Shows : (e : CallEvent) (es : List CallEvent) → Shows e es (rows_after (insert_row e) es)
unfolding insert_row
insert-Shows e es =
    let (first, src, dst, from, to) = rows_after-first (insert_row e) es in
    let (id, method, status) = rows_after-insert-last e es in
    record {
      first_ts_ms = first;
      src = src;
      dst = dst;
      from = from;
      to = to;
      last_ts_ms = rows_after-last_ts_ms (insert_row e) es;
      last_id = id;
      last_method = method;
      last_status = status;
      answered = rows_after-answered (insert_row e) es;
      is_open = ground (arith, rows_after-is_open (insert_row e) es);
      invite_id = ground (arith, rows_after-invite_id (insert_row e) es);
      answer_ts_ms = ground (arith, rows_after-answer_ts_ms (insert_row e) es);
    }

-- In a table that began empty, the row of a call and agent shows what the events of that call and
-- agent say, taken in order: the first event's time and parties, the last one's method and status,
-- whether any of them answered or closed the call, and the first INVITE's and answer's number and
-- time. Events of other calls, wherever they stand between, do not matter.
pub find_row-Shows :
    (call_id agent : Bytes) (es : List CallEvent) (e : CallEvent) (rest : List CallEvent)
    → events_for call_id agent es ≡ e ∷ rest
    → (row : CallState) × (find_row call_id agent (upserts es []) ≡ some row) × Shows e rest row
unfolding row_of find_row
find_row-Shows call_id agent es e rest own = (
  rows_after (insert_row e) rest,
  find_row-upserts call_id agent es [] ∙ ap (row_of none) own ∙ row_of-some (insert_row e) rest,
  insert-Shows e rest,
)
