-- ===== src/Text/Base64/RoundTrip.antt =====
-- Decoding what was encoded.
use zaman.Base.{
  ℕ, ◌+◌, ◌*◌, ◌/◌, ◌%◌, ◌<◌, ◌≡◌, refl, false, some, [], ◌∷◌, ◌==◌, All, arith, length,
}
use zaman.Text.{Bytes}
use zaman.Text.Json.{jesc, valid_utf8}
use zaman.Text.Json.RoundTrip.{NoEscape, jesc_same, valid_utf8_same}
use zaman.Text.Base64.{
  IsByte, encode_char, decode_char, encode, strip, decode_last, decode_groups, decode, ◌>>=◌,
}

decode_char-encode_char : (n : ℕ) → n < 64 → decode_char (encode_char n) ≡ some n
unfolding decode_char encode_char
decode_char-encode_char n h = ground arith

encode_char_plain :
    (n : ℕ)
    → ((encode_char n == b'=') ≡ false)
      × ((encode_char n == b'\r') ≡ false)
      × ((encode_char n == b'\n') ≡ false)
unfolding encode_char
encode_char_plain n = ground arith

strip-encode : (s : Bytes) → strip (encode s) ≡ encode s
unfolding strip encode
strip-encode [] = refl
strip-encode (a ∷ []) = ground (arith, encode_char_plain (a / 4), encode_char_plain (a % 4 * 16))
strip-encode (a ∷ b ∷ []) = ground (
  arith,
  encode_char_plain (a / 4),
  encode_char_plain (a % 4 * 16 + b / 16),
  encode_char_plain (b % 16 * 4),
)
strip-encode (a ∷ b ∷ c ∷ s) = ground (
  arith,
  encode_char_plain (a / 4),
  encode_char_plain (a % 4 * 16 + b / 16),
  encode_char_plain (b % 16 * 4 + c / 64),
  encode_char_plain (c % 64),
  strip-encode s,
)

-- A group that is not the last one.
decode_groups_more :
    (p q r t u : ℕ) (s : Bytes)
    → decode_groups (p ∷ q ∷ r ∷ t ∷ u ∷ s) ≡ (do
      a ← decode_char p
      b ← decode_char q
      c ← decode_char r
      d ← decode_char t
      bytes ← decode_groups (u ∷ s)
      some ((a * 4 + b / 16) ∷ (b % 16 * 16 + c / 4) ∷ (c % 4 * 64 + d) ∷ bytes))
unfolding decode_groups
decode_groups_more p q r t u s = refl

encode_head : (a : ℕ) (s : Bytes) → (u : ℕ) × (t : Bytes) × (encode (a ∷ s) ≡ u ∷ t)
unfolding encode
encode_head a [] = (_, _, refl)
encode_head a (b ∷ []) = (_, _, refl)
encode_head a (b ∷ c ∷ s) = (_, _, refl)

decode_groups_full :
    (a b c : ℕ) (s : Bytes)
    → IsByte a
    → IsByte b
    → IsByte c
    → decode_groups (encode s) ≡ some s
    → decode_groups (encode (a ∷ b ∷ c ∷ s)) ≡ some (a ∷ b ∷ c ∷ s)
decode_groups_full a b c [] ha hb hc ih =
    unfold encode decode_groups decode_last in
    ground (
      arith,
      decode_char-encode_char (a / 4),
      decode_char-encode_char (a % 4 * 16 + b / 16),
      decode_char-encode_char (b % 16 * 4 + c / 64),
      decode_char-encode_char (c % 64),
      encode_char_plain (c % 64),
    )
decode_groups_full a b c (d ∷ s) ha hb hc ih =
    let (u, t, e) = encode_head d s in
    let ih' : decode_groups (u ∷ t) ≡ some (d ∷ s) = rw e at ih in
    unfold encode in
    rw
      (
        e,
        decode_groups_more,
        ih',
        decode_char-encode_char (a / 4) (omega arith),
        decode_char-encode_char (a % 4 * 16 + b / 16) (omega arith),
        decode_char-encode_char (b % 16 * 4 + c / 64) (omega arith),
        decode_char-encode_char (c % 64) (omega arith),
      )
      (ground arith)

decode_groups-encode : (s : Bytes) → All IsByte s → decode_groups (encode s) ≡ some s
decode_groups-encode [] h = unfold encode decode_groups in refl
decode_groups-encode (a ∷ []) (ha, _) =
    unfold encode decode_groups decode_last in
    ground (arith, decode_char-encode_char (a / 4), decode_char-encode_char (a % 4 * 16))
decode_groups-encode (a ∷ b ∷ []) (ha, (hb, _)) =
    unfold encode decode_groups decode_last in
    ground (
      arith,
      decode_char-encode_char (a / 4),
      decode_char-encode_char (a % 4 * 16 + b / 16),
      decode_char-encode_char (b % 16 * 4),
      encode_char_plain (b % 16 * 4),
    )
decode_groups-encode (a ∷ b ∷ c ∷ s) (ha, (hb, (hc, hs))) =
    decode_groups_full a b c s ha hb hc (decode_groups-encode s hs)

-- Every byte string is decoded to itself from its encoding.
pub decode-encode : (s : Bytes) → All IsByte s → decode (encode s) ≡ some s
unfolding decode
decode-encode s h = rw strip-encode (decode_groups-encode s h)

-- The encoding has four characters for every three bytes begun.
pub length-encode : (s : Bytes) → length (encode s) ≡ (length s + 2) / 3 * 4
unfolding encode
length-encode [] = refl
length-encode (a ∷ []) = refl
length-encode (a ∷ b ∷ []) = refl
length-encode (a ∷ b ∷ c ∷ s) = omega (arith, length-encode s)

encode_char-NoEscape : (n : ℕ) → NoEscape (encode_char n)
unfolding encode_char
encode_char-NoEscape n = ground arith

encode-NoEscape : (s : Bytes) → All NoEscape (encode s)
unfolding encode
encode-NoEscape [] = tt
encode-NoEscape (a ∷ []) = (
  encode_char-NoEscape (a / 4),
  (encode_char-NoEscape (a % 4 * 16), (omega arith, (omega arith, tt))),
)
encode-NoEscape (a ∷ b ∷ []) = (
  encode_char-NoEscape (a / 4),
  (
    encode_char-NoEscape (a % 4 * 16 + b / 16),
    (encode_char-NoEscape (b % 16 * 4), (omega arith, tt)),
  ),
)
encode-NoEscape (a ∷ b ∷ c ∷ s) = (
  encode_char-NoEscape (a / 4),
  (
    encode_char-NoEscape (a % 4 * 16 + b / 16),
    (
      encode_char-NoEscape (b % 16 * 4 + c / 64),
      (encode_char-NoEscape (c % 64), encode-NoEscape s),
    ),
  ),
)

-- Base64 goes into a JSON literal as it is.
pub jesc-encode : (s : Bytes) → jesc (encode s) ≡ encode s
jesc-encode s = jesc_same (encode s) (encode-NoEscape s)

pub valid_utf8-encode : (s : Bytes) → valid_utf8 0 (encode s) ≡ encode s
valid_utf8-encode s = valid_utf8_same (encode s) (encode-NoEscape s)
