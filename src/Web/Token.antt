-- ===== src/Web/Token.antt =====
-- makeToken and verifyToken of web/main.go. The time is in seconds.
pub mod RoundTrip
pub mod Signed
use zaman.Base.{
  ℕ, zero, suc, ◌+◌, ◌-◌, ◌≡◌, refl, Bool, true, false, Option, none, some, List, [], ◌∷◌, ◌++◌,
  ltb, ◌==◌, if◌then◌else◌, length, get_or, take, drop,
}
use zaman.Text.{Bytes, equal, split, join}
use zaman.Text.Base64.{encode, decode}
use zaman.Text.Decimal.{ℤ, pos, show, show_ℤ, ltb_ℤ, parse_int}
use zaman.Web.User.{User, Mac}

-- `%d:%s:%s:%d`
unfoldable pub payload_of : ℕ → User → Bytes
unfolding show show_ℤ
payload_of expires u = show_ℤ u.id ++ b':' ∷ (u.name ++ b':' ∷ (u.role ++ b':' ∷ show expires))

unfoldable pub make_token : Mac → Bytes → ℕ → User → Bytes
unfolding payload_of encode
make_token mac secret now u =
    let payload = payload_of (now + 86400) u in encode (payload ++ b':' ∷ mac secret payload)

-- The user that a token names; its other fields stay empty.
abbrev pub session_user : ℤ → Bytes → Bytes → User
session_user id name role = record {
  id = id;
  name = name;
  pw_hash = [];
  salt = [];
  pw_algo = [];
  rounds = 0;
  role = role;
}

-- The user that the parts of a payload name, unless its time is over.
unfoldable pub user_of_parts : ℕ → List Bytes → Option User
unfolding join parse_int
user_of_parts now parts =
    let n = length parts in
    let expires = parse_int (get_or parts (n - 1) []) in
    let uname = join b':' (take (n - 3) (drop 1 parts)) in
    if ltb n 4
    then none
    else if ltb_ℤ expires now
    then none
    else some (session_user (parse_int (get_or parts 0 [])) uname (get_or parts (n - 2) []))

unfoldable pub read_payload : ℕ → Bytes → Option User
unfolding split user_of_parts
read_payload now payload = user_of_parts now (split b':' payload)

-- The text of a token, once it is decoded.
unfoldable pub verify_text : Mac → Bytes → ℕ → Bytes → Option User
unfolding equal read_payload
verify_text mac secret now s =
    let sig_start = length s - 64 in
    let payload = take (sig_start - 1) s in
    if ltb (length s) 66
    then none
    else if get_or s (sig_start - 1) 0 == b':'
    then (if equal (drop sig_start s) (mac secret payload) then read_payload now payload else none)
    else none

unfoldable pub verify_token : Mac → Bytes → ℕ → Bytes → Option User
unfolding decode verify_text
verify_token mac secret now token = elim (decode token) [
  | none ↦ none
  | some s ↦ verify_text mac secret now s
]
