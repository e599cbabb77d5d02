-- ===== src/Text/Json.antt =====
-- `jesc` of core-go/main.go, and the string literals of JSON.
use zaman.Base.{
  ℕ, zero, suc, ◌+◌, ◌-◌, ◌*◌, ◌/◌, ◌%◌, ◌≡◌, refl, Bool, true, false, ◌&&◌, ◌||◌, Option, none,
  some, List, [], ◌∷◌, ◌++◌, ltb, leb, ◌==◌, if◌then◌else◌, drop, length,
}
use zaman.Text.{Bytes, codes}
use zaman.Text.Decimal.{digit}
pub mod RoundTrip
pub mod Value

abbrev within : ℕ → ℕ → ℕ → Bool
within lo hi c = leb lo c && leb c hi

abbrev continues : ℕ → Bool
continues = within 0x80 0xBF

-- The length of the UTF-8 character at the front, 0 where `range` finds none and reads one byte.
pub char_len : Bytes → ℕ
char_len [] = 0
char_len (a ∷ []) = if ltb a 0x80 then 1 else 0
char_len (a ∷ b ∷ []) = if ltb a 0x80 then 1 else if within 0xC2 0xDF a && continues b then 2 else 0
char_len (a ∷ b ∷ c ∷ []) =
    if ltb a 0x80
    then 1
    else if within 0xC2 0xDF a && continues b
    then 2
    else if within (if a == 0xE0 then 0xA0 else 0x80) (if a == 0xED then 0x9F else 0xBF) b
        && within 0xE0 0xEF a
        && continues c
    then 3
    else 0
char_len (a ∷ b ∷ c ∷ d ∷ s) =
    if ltb a 0x80
    then 1
    else if within 0xC2 0xDF a && continues b
    then 2
    else if within (if a == 0xE0 then 0xA0 else 0x80) (if a == 0xED then 0x9F else 0xBF) b
        && within 0xE0 0xEF a
        && continues c
    then 3
    else if within (if a == 0xF0 then 0x90 else 0x80) (if a == 0xF4 then 0x8F else 0xBF) b
        && within 0xF0 0xF4 a
        && continues c
        && continues d
    then 4
    else 0

-- What `WriteRune` writes for the byte `c` where no character stands: U+FFFD.
replacement : Bytes
replacement = 0xEF ∷ 0xBF ∷ 0xBD ∷ []

-- The bytes of the characters that `range s` yields; the first argument is how many bytes of the
-- current character are still to be copied.
unfoldable pub valid_utf8 : ℕ → Bytes → Bytes
unfolding replacement char_len
valid_utf8 n [] = []
valid_utf8 (suc n) (c ∷ s) = c ∷ valid_utf8 n s
valid_utf8 zero (c ∷ s) = elim (char_len (c ∷ s)) [
  | zero ↦ replacement ++ valid_utf8 zero s
  | suc n ↦ c ∷ valid_utf8 n s
]

-- What the loop of `jesc` writes for one byte of a character.
pub escape_char : ℕ → Bytes
escape_char c =
    if c == b'"'
    then b'\\' ∷ b'"' ∷ []
    else if c == b'\\'
    then b'\\' ∷ b'\\' ∷ []
    else if c == b'\n'
    then b'\\' ∷ b'n' ∷ []
    else if c == b'\r'
    then b'\\' ∷ b'r' ∷ []
    else if c == b'\t'
    then b'\\' ∷ b't' ∷ []
    else if ltb c 0x20
    then b'\\' ∷ b'u' ∷ b'0' ∷ b'0' ∷ digit (c / 16) ∷ digit (c % 16) ∷ []
    else c ∷ []

pub escape_chars : Bytes → Bytes
escape_chars [] = []
escape_chars (c ∷ s) = escape_char c ++ escape_chars s

unfoldable pub jesc : Bytes → Bytes
unfolding valid_utf8 escape_chars escape_char
jesc s = escape_chars (valid_utf8 0 s)

jesc_test :
    jesc (codes "a\"b\nc") ++ jesc (1 ∷ 0xC3 ∷ 0xA9 ∷ 0xFF ∷ [])
    ≡ codes "a\\\"b\\nc\\u0001" ++ (0xC3 ∷ 0xA9 ∷ 0xEF ∷ 0xBF ∷ 0xBD ∷ [])
unfolding jesc
jesc_test = refl
