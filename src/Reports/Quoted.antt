-- ===== src/Reports/Quoted.antt =====
-- Quoted text in SQL and CSV is read back as it was.
use zaman.Base.{
  ℕ, ◌≡◌, ◌≢◌, refl, sym, ap, ◌∙◌, false, Option, none, some, [], ◌∷◌, ◌++◌, ◌==◌, ==_iff,
  if◌then◌else◌, append-nil, append_assoc, arith, Bool-cases, inl, inr,
}
use zaman.Text.{Bytes, codes, cut}
use zaman.Text.Split.{Lacks, cut-append}
use zaman.Reports.{double, sql_quote, like_or_regex, needs_quotes, csv_field}

-- What stands behind an opening quote, up to the quote that is not doubled, and what follows it.
unfoldable pub read_quoted : ℕ → Bytes → Bytes → Option (Bytes × Bytes)
read_quoted q out [] = none
read_quoted q out (c ∷ []) = if c == q then some (out, []) else none
read_quoted q out (c ∷ d ∷ s) =
    let doubled = read_quoted q (out ++ q ∷ []) s in
    let plain = read_quoted q (out ++ c ∷ []) (d ∷ s) in
    if c == q then (if d == q then doubled else some (out, d ∷ s)) else plain

-- Text that does not start with a quote.
abbrev pub Ends : ℕ → Bytes → Type 0
Ends q [] = Unit {0}
Ends q (c ∷ s) = c ≢ q

read_quoted-end :
    (q : ℕ) (out rest : Bytes) → Ends q rest → read_quoted q out (q ∷ rest) ≡ some (out, rest)
unfolding read_quoted
read_quoted-end q out [] h = ground arith
read_quoted-end q out (c ∷ rest) h = ground (arith, h)

read_quoted-plain :
    (q c : ℕ) (out s : Bytes)
    → c ≢ q
    → s ≢ []
    → read_quoted q out (c ∷ s) ≡ read_quoted q (out ++ c ∷ []) s
unfolding read_quoted
read_quoted-plain q c out [] h some_text = absurd (some_text refl)
read_quoted-plain q c out (d ∷ s) h some_text = ground (arith, h)

read_quoted-two :
    (q : ℕ) (out s : Bytes) → read_quoted q out (q ∷ q ∷ s) ≡ read_quoted q (out ++ q ∷ []) s
unfolding read_quoted
read_quoted-two q out s = ground arith

some_end : (s : Bytes) (q : ℕ) (rest : Bytes) → s ++ q ∷ rest ≢ []
some_end [] q rest = ground arith
some_end (c ∷ s) q rest = ground arith

pub read_quoted-double :
    (q : ℕ) (out s rest : Bytes)
    → Ends q rest
    → read_quoted q out (double q s ++ q ∷ rest) ≡ some (out ++ s, rest)
unfolding double
read_quoted-double q out [] rest h =
    read_quoted-end q out rest h ∙ ap (λ t. some (t, rest)) (sym (append-nil out))
read_quoted-double q out (c ∷ s) rest h = elim (Bool-cases (c == q)) [
  | inl e ↦ rw e (
      read_quoted-two q out (double q s ++ q ∷ rest)
      ∙ read_quoted-double q (out ++ q ∷ []) s rest h
      ∙ ap (λ t. some (t, rest)) (append_assoc out (q ∷ []) s)
      ∙ ap (λ d. some (out ++ d ∷ s, rest)) (sym ((==_iff c q).0 e)))
  | inr e ↦ rw e (
      read_quoted-plain q c out (double q s ++ q ∷ rest) (ground (arith, e))
        (some_end (double q s) q rest)
      ∙ read_quoted-double q (out ++ c ∷ []) s rest h
      ∙ ap (λ t. some (t, rest)) (append_assoc out (c ∷ []) s))
]

pub double-append : (q : ℕ) (s t : Bytes) → double q (s ++ t) ≡ double q s ++ double q t
unfolding double
double-append q [] t = refl
double-append q (c ∷ s) t = ground (arith, double-append q s t)

-- What the clause compares a column with, by the value's first character.
abbrev pub operator : Bytes → Bytes
operator [] = codes " LIKE '"
operator (c ∷ value) = if c == b'/' then codes " ~ '" else codes " LIKE '"

abbrev pub pattern_of : Bytes → Bytes
pattern_of [] = codes "%%"
pattern_of (c ∷ value) = if c == b'/' then value else b'%' ∷ (c ∷ value ++ codes "%")

pub percent_quote :
    (s : Bytes) → double b'\'' s ++ codes "%'" ≡ double b'\'' (s ++ codes "%") ++ codes "'"
unfolding double
percent_quote s = sym (
    ap (λ t. t ++ codes "'") (double-append b'\'' s (codes "%"))
    ∙ append_assoc (double b'\'' s) (codes "%") (codes "'"))

abbrev pub quoted_text : Bytes → Bytes
quoted_text value = double b'\'' (pattern_of value) ++ b'\'' ∷ []

pub like_or_regex-quoted_text :
    (col value : Bytes)
    → like_or_regex col value ≡ codes " AND " ++ (col ++ (operator value ++ quoted_text value))
unfolding like_or_regex sql_quote
like_or_regex-quoted_text col [] = unfold double in refl
like_or_regex-quoted_text col (c ∷ value) = elim (Bool-cases (c == b'/')) [
  | inl e ↦ rw e refl
  | inr e ↦
      rw e (ap (λ t. codes " AND " ++ (col ++ (codes " LIKE '%" ++ t))) (percent_quote (c ∷ value)))
]

-- Whatever the value of a filter is, the clause that it makes holds it as one SQL literal, and the
-- literal ends the clause: no value can add anything behind it.
pub like_or_regex-read_quoted :
    (col value : Bytes)
    → (quoted : Bytes) × (like_or_regex col value
        ≡ codes " AND " ++ (col ++ (operator value ++ quoted)))
      × (read_quoted b'\'' [] quoted ≡ some (pattern_of value, []))
like_or_regex-read_quoted col value = (
  quoted_text value,
  like_or_regex-quoted_text col value,
  read_quoted-double b'\'' [] (pattern_of value) [] tt,
)

abbrev after_quotes : Option (Bytes × Bytes) → Option (Bytes × Bytes)
after_quotes none = none
after_quotes (some (value, [])) = none
after_quotes (some (value, c ∷ rest)) = if c == b',' then some (value, rest) else none

abbrev up_to_comma : Bytes → Option Bytes → Option (Bytes × Bytes)
up_to_comma value none = none
up_to_comma value (some rest) = some (value, rest)

-- A field of a CSV row in front of a comma, and what follows the comma.
unfoldable pub read_field : Bytes → Option (Bytes × Bytes)
read_field [] = none
read_field (c ∷ s) =
    if c == b'"'
    then after_quotes (read_quoted b'"' [] s)
    else up_to_comma (cut b',' (c ∷ s)).0 (cut b',' (c ∷ s)).1

needs_quotes-Lacks : (s : Bytes) → needs_quotes s ≡ false → Lacks b',' s × Lacks b'"' s
unfolding needs_quotes
needs_quotes-Lacks [] h = (tt, tt)
needs_quotes-Lacks (c ∷ s) h = ground (arith, h, needs_quotes-Lacks s)

read_field-plain :
    (s rest : Bytes) → needs_quotes s ≡ false → read_field (s ++ b',' ∷ rest) ≡ some (s, rest)
unfolding read_field cut
read_field-plain [] rest h = refl
read_field-plain (c ∷ s) rest h =
    let (comma, quote) = needs_quotes-Lacks (c ∷ s) h in
    ground (arith, quote.0, cut-append b',' (c ∷ s) rest comma)

read_field-quoted :
    (s rest : Bytes) → read_field (b'"' ∷ (double b'"' s ++ b'"' ∷ b',' ∷ rest)) ≡ some (s, rest)
unfolding read_field
read_field-quoted s rest =
    ap after_quotes (read_quoted-double b'"' [] s (b',' ∷ rest) (ground arith))

-- Whatever the text of a field, with commas, quotes and ends of lines or without, a reader of the row
-- finds the field as it was, and goes on behind its comma.
pub read_field-csv_field :
    (s rest : Bytes) → read_field (csv_field s ++ b',' ∷ rest) ≡ some (s, rest)
unfolding csv_field
read_field-csv_field s rest = elim (Bool-cases (needs_quotes s)) [
  | inl e ↦ rw e (
      ap (λ t. read_field (b'"' ∷ t)) (append_assoc (double b'"' s) (b'"' ∷ []) (b',' ∷ rest))
      ∙ read_field-quoted s rest)
  | inr e ↦ rw e (read_field-plain s rest e)
]
