-- ===== src/Db/CallState.antt =====
-- The call_state statement of dbBatchInsert in core-go/db.go: an upsert on (call_id, agent).
pub mod History
use zaman.Base.{
  ℕ, ◌+◌, ◌≡◌, refl, Bool, true, false, ◌&&◌, ◌||◌, Option, none, some, List, [], ◌∷◌, ◌++◌, max,
  ◌==◌, if◌then◌else◌,
}
use zaman.Text.{Bytes, codes, cut, equal}
use zaman.Text.Decimal.{ℤ, geb, ltb_ℤ}
use zaman.Sip.{Kind, request, response, is_response}

-- CaptureRecord. Its time is a number of milliseconds that makeRecord wrote, so it is not negative.
pub record CaptureRecord : Type 0 where
  pub ts_ms : ℕ
  pub src : Bytes
  pub dst : Bytes
  pub transport : Bytes
  pub proto : Bytes
  pub agent : Bytes
  pub kind : Bytes
  pub method : Bytes
  pub status : ℤ
  pub call_id : Bytes
  pub from : Bytes
  pub to : Bytes
  pub cseq : Bytes
  pub ruri : Bytes
  pub hep_node_id : ℕ
  pub hep_node : Bytes
  pub hep_cid : Bytes
  pub size : ℕ
  pub raw_b64 : Bytes

-- The arguments $1 to $14 of the statement.
pub record CallEvent : Type 0 where
  pub call_id : Bytes
  pub agent : Bytes
  pub ts_ms : ℕ
  pub id : ℕ
  pub method : Bytes
  pub status : ℤ
  pub closed : Bool
  pub answered : Bool
  pub invite : Bool
  pub src : Bytes
  pub dst : Bytes
  pub from : Bytes
  pub to : Bytes
  pub record_json : Bytes

-- A row of the table, less the QoS columns, which the core never writes.
pub record CallState : Type 0 where
  pub call_id : Bytes
  pub agent : Bytes
  pub first_ts_ms : ℕ
  pub answer_ts_ms : ℕ
  pub last_ts_ms : ℕ
  pub last_id : ℕ
  pub invite_id : ℕ
  pub last_method : Bytes
  pub last_status : ℤ
  pub answered : Bool
  pub is_open : Bool
  pub src : Bytes
  pub dst : Bytes
  pub from : Bytes
  pub to : Bytes
  pub record_json : Bytes

-- The method behind the class of the status, if there is one.
unfoldable pub base_method : Bytes → Bytes
base_method method = elim (cut b' ' method).1 [ none ↦ method | some rest ↦ rest ]

unfoldable pub event_of : CaptureRecord → ℕ → CallEvent
unfolding base_method cut equal
event_of rec id =
    let base = base_method rec.method in
    let is_2xx = geb rec.status 200 && ltb_ℤ rec.status 300 in
    let invite = equal base (codes "INVITE") in
    record {
      call_id = rec.call_id;
      agent = rec.agent;
      ts_ms = rec.ts_ms;
      id = id;
      method = rec.method;
      status = rec.status;
      closed = equal base (codes "BYE") || equal base (codes "CANCEL");
      answered = invite && equal rec.kind (codes "response") && is_2xx;
      invite = invite && equal rec.kind (codes "request");
      src = rec.src;
      dst = rec.dst;
      from = rec.from;
      to = rec.to;
      record_json = rec.method ++ codes " record";
    }

-- `INSERT … VALUES`
unfoldable pub insert_row : CallEvent → CallState
insert_row e = record {
  call_id = e.call_id;
  agent = e.agent;
  first_ts_ms = e.ts_ms;
  answer_ts_ms = if e.answered then e.ts_ms else 0;
  last_ts_ms = e.ts_ms;
  last_id = e.id;
  invite_id = if e.invite then e.id else 0;
  last_method = e.method;
  last_status = e.status;
  answered = e.answered;
  is_open = if e.closed then false else true;
  src = e.src;
  dst = e.dst;
  from = e.from;
  to = e.to;
  record_json = e.record_json;
}

-- `ON CONFLICT (call_id, agent) DO UPDATE SET`
unfoldable pub update_row : CallEvent → CallState → CallState
update_row e r = record r {
  last_ts_ms = max r.last_ts_ms e.ts_ms;
  last_id = e.id;
  last_method = e.method;
  last_status = e.status;
  is_open = if e.closed then false else r.is_open;
  answered = if e.answered then true else r.answered;
  invite_id = if e.invite && r.invite_id == 0 then e.id else r.invite_id;
  answer_ts_ms = if e.answered && r.answer_ts_ms == 0 then e.ts_ms else r.answer_ts_ms;
  record_json = e.record_json;
}

-- Do a row and an event have the same primary key.
abbrev pub same_key : Bytes → Bytes → CallState → Bool
same_key call_id agent r = equal r.call_id call_id && equal r.agent agent

unfoldable pub upsert : CallEvent → List CallState → List CallState
upsert e [] = insert_row e ∷ []
upsert e (r ∷ rows) =
    if same_key e.call_id e.agent r then update_row e r ∷ rows else r ∷ upsert e rows

-- `SELECT … WHERE call_id = … AND agent = …`
unfoldable pub find_row : Bytes → Bytes → List CallState → Option CallState
find_row call_id agent [] = none
find_row call_id agent (r ∷ rows) =
    if same_key call_id agent r then some r else find_row call_id agent rows
