-- ===== src/Sip.antt =====
-- The SIP parser of core-go/sip.go. The rest of that file is modelled by the modules below.
pub mod Message
pub mod Redact
pub mod Record
pub mod Echo
pub mod Worker
pub mod Sdp
use zaman.Base.{
  ℕ, zero, suc, ◌+◌, ◌≡◌, refl, Bool, true, false, ◌&&◌, ◌||◌, Option, none, some, List, [], ◌∷◌,
  ◌++◌, ◌==◌, if◌then◌else◌, is_nil,
}
use zaman.Text.{Bytes, codes, equal, has_prefix, cut, split, trim_space, fields, to_lower, to_upper}
use zaman.Text.Decimal.{ℤ, pos, sscanf}

pub data Kind : Type 0 where
  request response : Kind

pub record SipInfo : Type 0 where
  pub method : Bytes
  pub status : ℤ
  pub kind : Kind
  pub call_id : Bytes
  pub from : Bytes
  pub to : Bytes
  pub cseq : Bytes
  pub ruri : Bytes

-- `var info SIPInfo`, with the kind that the first line gives it.
abbrev pub no_fields : Kind → SipInfo
no_fields k = record {
  method = [];
  status = pos 0;
  kind = k;
  call_id = [];
  from = [];
  to = [];
  cseq = [];
  ruri = [];
}

abbrev pub is_response : Kind → Bool
is_response request = false
is_response response = true

-- `strings.SplitN(s, " ", 3)`: the parts behind the first one.
second : Option Bytes → Option Bytes
second none = none
second (some rest) = some (cut b' ' rest).0

status_or_zero : Option Bytes → ℤ
status_or_zero none = pos 0
status_or_zero (some part) = elim (sscanf part) [ none ↦ pos 0 | some n ↦ n ]

ruri_or_nil : Option Bytes → Bytes
ruri_or_nil none = []
ruri_or_nil (some part) = part

-- What parseSIP reads from the first line, already trimmed.
unfoldable pub first_line : Bytes → SipInfo
unfolding second status_or_zero ruri_or_nil
first_line line =
    let parts = cut b' ' line in
    if has_prefix line (codes "SIP/")
    then record (no_fields response) { status = status_or_zero (second parts.1) }
    else record (no_fields request) {
      method = to_upper parts.0;
      ruri = ruri_or_nil (second parts.1);
    }

-- `colonIdx := strings.Index(line, ":")`: the text before the colon and behind it, none where the
-- index is below 1.
unfoldable pub name_and_value : Bytes × Option Bytes → Option (Bytes × Bytes)
name_and_value (name, none) = none
name_and_value ([], some value) = none
name_and_value (c ∷ name, some value) = some (c ∷ name, value)

unfoldable pub header_of : Bytes → Option (Bytes × Bytes)
unfolding name_and_value
header_of line = name_and_value (cut b':' line)

second_field : List Bytes → Bytes → Bytes
second_field (a ∷ b ∷ _) old = to_upper b
second_field _ old = old

-- `case "cseq"`
set_cseq : SipInfo → Bytes → SipInfo
unfolding second_field
set_cseq info value = record info {
  cseq = value;
  method =
      if is_response info.kind && is_nil info.method
      then second_field (fields value) info.method
      else info.method;
}

-- The switch on the header's name; the name is in lower case.
unfoldable pub set_header : SipInfo → Bytes → Bytes → SipInfo
unfolding set_cseq
set_header info name value =
    if equal name (codes "call-id") || equal name (codes "i")
    then record info { call_id = value }
    else if equal name (codes "from") || equal name (codes "f")
    then record info { from = value }
    else if equal name (codes "to") || equal name (codes "t")
    then record info { to = value }
    else if equal name (codes "cseq")
    then set_cseq info value
    else info

unfoldable pub header_line : SipInfo → Bytes → SipInfo
unfolding set_header header_of
header_line info line = elim (header_of line) [
  | none ↦ info
  | some (name, value) ↦ set_header info (to_lower (trim_space name)) (trim_space value)
]

-- The header loop, which an empty line ends.
unfoldable pub headers : SipInfo → List Bytes → SipInfo
unfolding header_line
headers info [] = info
headers info (raw ∷ rest) = elim (is_nil (trim_space raw)) [
  | true ↦ info
  | false ↦ headers (header_line info (trim_space raw)) rest
]

body_headers : SipInfo → Option Bytes → SipInfo
unfolding headers
body_headers info none = info
body_headers info (some rest) = headers info (split b'\n' rest)

unfoldable pub parse_sip : Bytes → SipInfo
unfolding first_line body_headers equal
parse_sip msg = let lines = cut b'\n' msg in body_headers (first_line (trim_space lines.0)) lines.1
