-- ===== src/Text/Json/RoundTrip.antt =====
-- Reading back the string literals that `jesc` writes.
use zaman.Base.{
  ℕ, zero, suc, ◌+◌, ◌-◌, ◌*◌, ◌<◌, ◌≡◌, refl, ◌&&◌, ◌||◌, Option, none, some, [], ◌∷◌, ◌++◌,
  append_assoc, append-nil, ltb, leb, ◌==◌, if◌then◌else◌, All, All-weaken, arith, ◌≤◌, ◌≢◌,
}
use zaman.Text.{Bytes}
use zaman.Text.Json.{char_len, valid_utf8, escape_char, escape_chars, jesc}

-- Where a reader stands in a literal: in plain text, behind a backslash, or in the four digits of
-- `\u`, with the number of digits to come and their value so far.
pub data Mode : Type 0 where
  plain escaped : Mode
  unicode : ℕ → ℕ → Mode

hex_value : ℕ → Option ℕ
hex_value c =
    if leb b'0' c && leb c b'9'
    then some (c - 48)
    else if leb b'a' c && leb c b'f'
    then some (c - 87)
    else none

-- The character that a one-letter escape stands for.
simple_escape : ℕ → Option ℕ
simple_escape c =
    if c == b'"' || c == b'\\' || c == b'/'
    then some c
    else if c == b'n'
    then some b'\n'
    else if c == b'r'
    then some b'\r'
    else if c == b't'
    then some b'\t'
    else none

-- The contents of a literal up to its closing quote, and the text behind that quote. A raw control
-- character, an unknown escape and a missing quote are refused.
unfoldable pub read_literal : Mode → Bytes → Bytes → Option (Bytes × Bytes)
unfolding hex_value simple_escape
read_literal mode out [] = none
read_literal plain out (c ∷ s) =
    let escape = read_literal escaped out s in
    let copy = read_literal plain (out ++ c ∷ []) s in
    if c == b'"'
    then some (out, s)
    else if c == b'\\'
    then escape
    else if ltb c 0x20
    then none
    else copy
read_literal escaped out (c ∷ s) =
    let digits = read_literal (unicode 3 0) out s in
    if c == b'u'
    then digits
    else elim (simple_escape c) [ none ↦ none | some d ↦ read_literal plain (out ++ d ∷ []) s ]
read_literal (unicode zero n) out (c ∷ s) = elim (hex_value c) [
  | none ↦ none
  | some d ↦ read_literal plain (out ++ (n * 16 + d) ∷ []) s
]
read_literal (unicode (suc k) n) out (c ∷ s) = elim (hex_value c) [
  | none ↦ none
  | some d ↦ read_literal (unicode k (n * 16 + d)) out s
]

read_literal-escape_char :
    (c : ℕ) (out s : Bytes)
    → read_literal plain out (escape_char c ++ s) ≡ read_literal plain (out ++ c ∷ []) s
unfolding read_literal escape_char
read_literal-escape_char c out s = ground arith

read_literal-escape_chars :
    (s out rest : Bytes)
    → read_literal plain out (escape_chars s ++ b'"' ∷ rest) ≡ some (out ++ s, rest)
unfolding escape_chars
read_literal-escape_chars [] out rest = unfold read_literal in rw append-nil
read_literal-escape_chars (c ∷ s) out rest =
    rw (append_assoc, read_literal-escape_char, read_literal-escape_chars s, append_assoc)

-- The literal `"` + jesc(s) + `"` is read back as the characters of `s`, whatever stands behind it,
-- so no text can end its literal early or break the record that holds it.
pub read_literal-jesc :
    (s rest : Bytes) → read_literal plain [] (jesc s ++ b'"' ∷ rest) ≡ some (valid_utf8 0 s, rest)
unfolding jesc
read_literal-jesc s rest = read_literal-escape_chars (valid_utf8 0 s) [] rest

char_len_ascii : (c : ℕ) (s : Bytes) → c < 0x80 → char_len (c ∷ s) ≡ 1
unfolding char_len
char_len_ascii c [] h = ground arith
char_len_ascii c (_ ∷ []) h = ground arith
char_len_ascii c (_ ∷ _ ∷ []) h = ground arith
char_len_ascii c (_ ∷ _ ∷ _ ∷ _) h = ground arith

pub valid_utf8_ascii : (s : Bytes) → All (λ c. c < 0x80) s → valid_utf8 0 s ≡ s
unfolding valid_utf8
valid_utf8_ascii [] h = refl
valid_utf8_ascii (c ∷ s) h = ground (arith, char_len_ascii c s, valid_utf8_ascii s)

-- A character that stands for itself in a literal.
abbrev pub NoEscape : ℕ → Type 0
NoEscape c = (0x20 ≤ c) × (c < 0x80) × (c ≢ b'"') × (c ≢ b'\\')

escape_char_same : (c : ℕ) → NoEscape c → escape_char c ≡ c ∷ []
unfolding escape_char
escape_char_same c h = ground arith

escape_chars_same : (s : Bytes) → All NoEscape s → escape_chars s ≡ s
unfolding escape_chars
escape_chars_same [] h = refl
escape_chars_same (c ∷ s) (first, rest) =
    rw (escape_char_same c first, escape_chars_same s rest) refl

pub valid_utf8_same : (s : Bytes) → All NoEscape s → valid_utf8 0 s ≡ s
valid_utf8_same s h = valid_utf8_ascii s (All-weaken NoEscape (λ c. c < 0x80) (λ c p. p.1) s h)

pub jesc_same : (s : Bytes) → All NoEscape s → jesc s ≡ s
unfolding jesc
jesc_same s h = rw (valid_utf8_same s h) (escape_chars_same s h)
