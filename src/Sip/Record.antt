-- ===== src/Sip/Record.antt =====
-- makeRecord of core-go/sip.go: the JSON text of a capture record.
use zaman.Base.{ℕ, ◌/◌, not, ◌&&◌, List, [], ◌∷◌, ◌++◌, ltb, if◌then◌else◌, length, is_nil}
use zaman.Text.{Bytes, codes}
use zaman.Text.Base64.{encode}
use zaman.Text.Decimal.{ℤ, pos, negsuc, is_pos, show, show_ℤ}
use zaman.Text.Json.{jesc}
use zaman.Sip.{SipInfo, Kind, request, response, is_response, parse_sip}
use zaman.Sip.Redact.{redact_sip}

abbrev pub kind_name : Kind → Bytes
kind_name request = codes "request"
kind_name response = codes "response"

-- `info.Status / 100`, used where the status is positive
class_of : ℤ → ℕ
class_of (pos n) = n / 100
class_of (negsuc n) = 0

-- The method of a request, and the class of the status with the method for a response.
unfoldable pub record_method : SipInfo → Bytes
unfolding class_of show
record_method info =
    if is_response info.kind && is_pos info.status && not (is_nil info.method)
    then show (class_of info.status) ++ b' ' ∷ info.method
    else info.method

-- `,"key":"value"`, and `,"key":number`
unfoldable pub text_field : Bytes → Bytes → Bytes
unfolding jesc
text_field key value = codes ",\"" ++ (key ++ (codes "\":\"" ++ (jesc value ++ b'"' ∷ [])))

-- The same for a value that is written as it is.
unfoldable pub plain_field : Bytes → Bytes → Bytes
plain_field key value = codes ",\"" ++ (key ++ (codes "\":\"" ++ (value ++ b'"' ∷ [])))

unfoldable pub number_field : Bytes → ℤ → Bytes
unfolding show_ℤ
number_field key n = codes ",\"" ++ (key ++ (codes "\":" ++ show_ℤ n))

-- A field that is left out where its value is empty.
unfoldable pub text_field_if : Bytes → Bytes → Bytes
unfolding text_field
text_field_if key value = if is_nil value then [] else text_field key value

-- The arguments of makeRecord beside the message.
pub record Source : Type 0 where
  pub src : Bytes
  pub dst : Bytes
  pub transport : Bytes
  pub agent : Bytes
  pub proto : Bytes
  pub ts_ms : ℕ
  pub hep_node_id : ℕ
  pub hep_node_name : Bytes
  pub hep_correlation : Bytes

-- `fmt.Fprintf` after `fmt.Fprintf`
unfoldable pub written : List Bytes → Bytes
written [] = []
written (field ∷ fields) = field ++ written fields

unfoldable pub record_fields : Source → SipInfo → ℕ → Bytes → List Bytes
record_fields s info size raw64 =
    (codes "{\"ts_ms\":" ++ show_ℤ (pos s.ts_ms))
    ∷ text_field (codes "src") s.src
    ∷ text_field (codes "dst") s.dst
    ∷ text_field (codes "transport") s.transport
    ∷ text_field (codes "proto") s.proto
    ∷ text_field (codes "agent") s.agent
    ∷ plain_field (codes "kind") (kind_name info.kind)
    ∷ text_field (codes "method") (record_method info)
    ∷ number_field (codes "status") info.status
    ∷ text_field_if (codes "ruri") info.ruri
    ∷ text_field_if (codes "call_id") info.call_id
    ∷ text_field_if (codes "from") info.from
    ∷ text_field_if (codes "to") info.to
    ∷ text_field_if (codes "cseq") info.cseq
    ∷ (if ltb 0 s.hep_node_id then number_field (codes "hep_node_id") (pos s.hep_node_id) else [])
    ∷ text_field_if (codes "hep_node") s.hep_node_name
    ∷ text_field_if (codes "hep_cid") s.hep_correlation
    ∷ number_field (codes "size") (pos size)
    ∷ plain_field (codes "raw_b64") raw64
    ∷ codes "}"
    ∷ []

unfoldable pub make_record : Source → Bytes → Bytes
make_record s msg = written (record_fields s (parse_sip msg) (length msg) (encode (redact_sip msg)))
