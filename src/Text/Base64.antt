-- ===== src/Text/Base64.antt =====
-- `base64.StdEncoding`, which core-go uses for the raw message and web for the session token.
pub mod RoundTrip
use zaman.Base.{
  ℕ, ◌+◌, ◌-◌, ◌*◌, ◌/◌, ◌%◌, ◌<◌, ◌≡◌, refl, false, ◌&&◌, ◌||◌, Option, none, some, [], ◌∷◌, ltb,
  leb, ◌==◌, if◌then◌else◌, arith,
}
use zaman.Text.{Bytes, codes}

-- The character of a 6-bit value.
pub encode_char : ℕ → ℕ
encode_char n =
    if ltb n 26
    then n + 65
    else if ltb n 52
    then n + 71
    else if ltb n 62
    then n - 4
    else if n == 62
    then b'+'
    else b'/'

pub decode_char : ℕ → Option ℕ
decode_char c =
    if leb b'A' c && leb c b'Z'
    then some (c - 65)
    else if leb b'a' c && leb c b'z'
    then some (c - 71)
    else if leb b'0' c && leb c b'9'
    then some (c + 4)
    else if c == b'+'
    then some 62
    else if c == b'/'
    then some 63
    else none

unfoldable pub encode : Bytes → Bytes
unfolding encode_char
encode [] = []
encode (a ∷ []) = encode_char (a / 4) ∷ encode_char (a % 4 * 16) ∷ b'=' ∷ b'=' ∷ []
encode (a ∷ b ∷ []) =
    encode_char (a / 4) ∷ encode_char (a % 4 * 16 + b / 16) ∷ encode_char (b % 16 * 4) ∷ b'=' ∷ []
encode (a ∷ b ∷ c ∷ s) =
    encode_char (a / 4)
    ∷ encode_char (a % 4 * 16 + b / 16)
    ∷ encode_char (b % 16 * 4 + c / 64)
    ∷ encode_char (c % 64)
    ∷ encode s

infixl 5 ◌>>=◌
abbrev pub ◌>>=◌ {ℓ κ} : {A : Type ℓ} {B : Type κ} → Option A → (A → Option B) → Option B
none >>= f = none
some a >>= f = f a

-- `\r` and `\n` are skipped anywhere, as the decoder does.
pub strip : Bytes → Bytes
strip [] = []
strip (c ∷ s) = let rest = strip s in if c == b'\r' || c == b'\n' then rest else c ∷ rest

-- The last group, with its padding; bits behind the last byte are not looked at.
pub decode_last : ℕ → ℕ → ℕ → ℕ → Option Bytes
decode_last p q r t =
    if t == b'='
    then if r == b'='
      then (do a ← decode_char p; b ← decode_char q; some ((a * 4 + b / 16) ∷ []))
      else (do
        a ← decode_char p
        b ← decode_char q
        c ← decode_char r
        some ((a * 4 + b / 16) ∷ (b % 16 * 16 + c / 4) ∷ []))
    else (do
      a ← decode_char p
      b ← decode_char q
      c ← decode_char r
      d ← decode_char t
      some ((a * 4 + b / 16) ∷ (b % 16 * 16 + c / 4) ∷ (c % 4 * 64 + d) ∷ []))

pub decode_groups : Bytes → Option Bytes
unfolding decode_last decode_char
decode_groups [] = some []
decode_groups (p ∷ q ∷ r ∷ t ∷ []) = decode_last p q r t
decode_groups (p ∷ q ∷ r ∷ t ∷ u ∷ s) =
    let rest = decode_groups (u ∷ s) in
    do
      a ← decode_char p
      b ← decode_char q
      c ← decode_char r
      d ← decode_char t
      bytes ← rest
      some ((a * 4 + b / 16) ∷ (b % 16 * 16 + c / 4) ∷ (c % 4 * 64 + d) ∷ bytes)
decode_groups _ = none

unfoldable pub decode : Bytes → Option Bytes
unfolding decode_groups strip
decode s = decode_groups (strip s)

abbrev pub IsByte : ℕ → Type 0
IsByte c = c < 256

encode_test : (encode (codes "Man") ≡ codes "TWFu") × (encode (codes "M") ≡ codes "TQ==")
unfolding encode
encode_test = (refl, refl)

decode_test : (decode (codes "TWE=") ≡ some (codes "Ma")) × (decode (codes "TWE") ≡ none)
unfolding decode
decode_test = (refl, refl)
