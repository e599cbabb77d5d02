-- ===== src/Db/Record.antt =====
-- `json.Unmarshal` into a CaptureRecord, as flush in core-go/db.go calls it on a text of the queue. The
-- reader takes compact JSON. A negative time, node number or size, which makeRecord never writes, has
-- no place in CaptureRecord and is refused.
pub mod Written
pub mod RoundTrip
use zaman.Base.{
  ℕ, ◌^◌, Bool, true, false, ◌||◌, Option, none, some, [], ltb, if◌then◌else◌, ◌≡◌, refl,
}
use zaman.Text.{Bytes, codes, equal_fold}
use zaman.Text.Base64.{◌>>=◌}
use zaman.Text.Decimal.{ℤ, pos, negsuc, fits_int64}
use zaman.Text.Json.Value.{Json, text, number, Members, end, member, object}
use zaman.Text.Json.Value.Read.{parse}
use zaman.Db.CallState.{CaptureRecord}

-- `var rec CaptureRecord`
abbrev pub no_record : CaptureRecord
no_record = record {
  ts_ms = 0;
  src = [];
  dst = [];
  transport = [];
  proto = [];
  agent = [];
  kind = [];
  method = [];
  status = pos 0;
  call_id = [];
  from = [];
  to = [];
  cseq = [];
  ruri = [];
  hep_node_id = 0;
  hep_node = [];
  hep_cid = [];
  size = 0;
  raw_b64 = [];
}

-- The field of type string that a name stands for; case is ignored.
unfoldable pub set_text : Bytes → Option (Bytes → CaptureRecord → CaptureRecord)
unfolding equal_fold
set_text key =
    if equal_fold key (codes "src")
    then some (λ v r. record r { src = v })
    else if equal_fold key (codes "dst")
    then some (λ v r. record r { dst = v })
    else if equal_fold key (codes "transport")
    then some (λ v r. record r { transport = v })
    else if equal_fold key (codes "proto")
    then some (λ v r. record r { proto = v })
    else if equal_fold key (codes "agent")
    then some (λ v r. record r { agent = v })
    else if equal_fold key (codes "kind")
    then some (λ v r. record r { kind = v })
    else if equal_fold key (codes "method")
    then some (λ v r. record r { method = v })
    else if equal_fold key (codes "call_id")
    then some (λ v r. record r { call_id = v })
    else if equal_fold key (codes "from")
    then some (λ v r. record r { from = v })
    else if equal_fold key (codes "to")
    then some (λ v r. record r { to = v })
    else if equal_fold key (codes "cseq")
    then some (λ v r. record r { cseq = v })
    else if equal_fold key (codes "ruri")
    then some (λ v r. record r { ruri = v })
    else if equal_fold key (codes "hep_node")
    then some (λ v r. record r { hep_node = v })
    else if equal_fold key (codes "hep_cid")
    then some (λ v r. record r { hep_cid = v })
    else if equal_fold key (codes "raw_b64")
    then some (λ v r. record r { raw_b64 = v })
    else none

abbrev with_natural : ℤ → (ℕ → CaptureRecord) → Option CaptureRecord
with_natural (pos n) f = some (f n)
with_natural (negsuc n) f = none

-- The field of type int or int64 that a name stands for.
unfoldable pub set_number : Bytes → Option (ℤ → CaptureRecord → Option CaptureRecord)
unfolding equal_fold
set_number key =
    if equal_fold key (codes "ts_ms")
    then some (λ v r. with_natural v (λ n. record r { ts_ms = n }))
    else if equal_fold key (codes "status")
    then some (λ v r. some (record r { status = v }))
    else if equal_fold key (codes "hep_node_id")
    then some (λ v r. with_natural v (λ n. record r { hep_node_id = n }))
    else if equal_fold key (codes "size")
    then some (λ v r. with_natural v (λ n. record r { size = n }))
    else none

abbrev unknown : Bytes → CaptureRecord → Option CaptureRecord
unknown key r = elim (set_text key) [
  | some _ ↦ none
  | none ↦ elim (set_number key) [ some _ ↦ none | none ↦ some r ]
]

-- A value of another type than the field's, or out of its range, is an error; a name that no field has
-- is passed over.
unfoldable pub set_field : Bytes → Json → CaptureRecord → Option CaptureRecord
unfolding set_text set_number
set_field key (text s) r = elim (set_text key) [ some put ↦ some (put s r) | none ↦ unknown key r ]
set_field key (number n) r = elim (set_number key) [
  | some put ↦ if fits_int64 n then put n r else none
  | none ↦ unknown key r
]
set_field key _ r = unknown key r

unfoldable pub read_fields : Members → CaptureRecord → Option CaptureRecord
unfolding set_field
read_fields end r = some r
read_fields (member key v ms) r = do next ← set_field key v r; read_fields ms next

unfoldable pub read_record : Json → Option CaptureRecord
unfolding read_fields
read_record (object ms) = read_fields ms no_record
read_record _ = none

unfoldable pub unmarshal : Bytes → Option CaptureRecord
unfolding parse read_record
unmarshal s = do j ← parse s; read_record j
