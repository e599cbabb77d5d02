-- ===== src/Sip/Message/Status.antt =====
-- The status that parseSIP reads is in the range of an int.
use zaman.Base.{
  ℕ, zero, suc, ◌≡◌, refl, ◌∙◌, Bool, true, false, Option, none, some, List, [], ◌∷◌, is_nil,
  Bool-cases, Option-cases, inl, inr, arith,
}
use zaman.Text.{Bytes, codes, cut, split, trim_space, to_lower, trim_left, has_prefix}
use zaman.Text.Decimal.{ℤ, in_int64, fits_int64, sscanf, read_digits, sign}
use zaman.Sip.{
  SipInfo, first_line, set_header, header_of, header_line, headers, parse_sip, status_or_zero,
  second, body_headers,
}

in_int64-fits_int64 :
    (minus : Bool) (n : ℕ) (r : ℤ) → in_int64 minus n ≡ some r → fits_int64 r ≡ true
in_int64-fits_int64 false n r e = ground arith
in_int64-fits_int64 true zero r e = ground arith
in_int64-fits_int64 true (suc n) r e = ground arith

sscanf-fits_int64 : (s : Bytes) (r : ℤ) → sscanf s ≡ some r → fits_int64 r ≡ true
unfolding sscanf
sscanf-fits_int64 s r e =
    let signed = sign (trim_left s) in
    ground (arith, in_int64-fits_int64 signed.0 (read_digits 0 0 signed.1).0 r)

status_or_zero-fits_int64 : (part : Option Bytes) → fits_int64 (status_or_zero part) ≡ true
unfolding status_or_zero
status_or_zero-fits_int64 none = ground arith
status_or_zero-fits_int64 (some part) = elim (Option-cases (sscanf part)) [
  | inl e ↦ rw (e, fits_int64) (ground arith)
  | inr (n, e) ↦ rw (e, fits_int64) (sscanf-fits_int64 part n e)
]

first_line-fits_int64 : (line : Bytes) → fits_int64 (first_line line).status ≡ true
unfolding first_line
first_line-fits_int64 line = elim (Bool-cases (has_prefix line (codes "SIP/"))) [
  | inl e ↦ rw e (status_or_zero-fits_int64 (second (cut b' ' line).1))
  | inr e ↦ rw e (ground arith)
]

set_header-status :
    (info : SipInfo) (name value : Bytes) → (set_header info name value).status ≡ info.status
unfolding set_header
set_header-status info name value = ground arith

split_line-status :
    (info : SipInfo) (header : Option (Bytes × Bytes))
    → (let next : SipInfo = elim header [
      | none ↦ info
      | some (name, value) ↦ set_header info (to_lower (trim_space name)) (trim_space value)
    ] in
        next.status)
      ≡ info.status
split_line-status info none = refl
split_line-status info (some (name, value)) =
    set_header-status info (to_lower (trim_space name)) (trim_space value)

header_line-status : (info : SipInfo) (line : Bytes) → (header_line info line).status ≡ info.status
unfolding header_line
header_line-status info line = split_line-status info (header_of line)

headers-status : (info : SipInfo) (lines : List Bytes) → (headers info lines).status ≡ info.status
unfolding headers
headers-status info [] = refl
headers-status info (raw ∷ rest) = elim (Bool-cases (is_nil (trim_space raw))) [
  | inl e ↦ rw (e, headers) refl
  | inr e ↦
      rw (e, headers)
        (headers-status (header_line info (trim_space raw)) rest
          ∙ header_line-status info (trim_space raw))
]

body_headers-status :
    (info : SipInfo) (body : Option Bytes) → (body_headers info body).status ≡ info.status
unfolding body_headers
body_headers-status info none = refl
body_headers-status info (some rest) = headers-status info (split b'\n' rest)

pub parse_sip-fits_int64 : (msg : Bytes) → fits_int64 (parse_sip msg).status ≡ true
unfolding parse_sip
parse_sip-fits_int64 msg =
    let line = trim_space (cut b'\n' msg).0 in
    rw (body_headers-status (first_line line) (cut b'\n' msg).1) (first_line-fits_int64 line)
