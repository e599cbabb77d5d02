-- ===== src/Reports/Clause/Tokens.antt =====
-- SQL text as PostgreSQL reads it: characters, and literals with a quote doubled inside them.
pub mod Calls
pub mod Messages
use zaman.Base.{
  ℕ, ◌+◌, ◌<◌, ◌≡◌, ◌≢◌, refl, sym, ap, ◌∙◌, true, false, Option, none, some, List, [], ◌∷◌, ◌++◌,
  map, ltb, ◌==◌, ==_iff, if◌then◌else◌, append-nil, append_assoc, arith, Bool, Bool-cases, inl,
  inr, is_nil, length, All, ◌||◌,
}
use zaman.Text.{Bytes, codes, equal}
use zaman.Reports.{double, sql_quote, like_or_regex}
use zaman.Reports.Quoted.{
  Ends, double-append, operator, pattern_of, like_or_regex-quoted_text, percent_quote,
}
use zaman.Reports.Clause.{
  equals, like, when_set, CallFilter, state_clause, calls_where, top_calls_where, MessageFilter,
  call_id_clause, src_clause, status_clause, messages_where,
}

pub data Token : Type 0 where
  char : ℕ → Token
  literal : Bytes → Token

-- Where the lexer stands: outside a literal, inside one, or behind a quote that ends it unless another
-- one follows.
pub data Mode : Type 0 where
  outside : Mode
  inside closing : Bytes → Mode

abbrev prefix : List Token → Option (List Token) → Option (List Token)
prefix ts none = none
prefix ts (some us) = some (ts ++ us)

-- A literal that nothing ends is refused.
pub lex : Mode → Bytes → Option (List Token)
lex outside [] = some []
lex (inside out) [] = none
lex (closing out) [] = some (literal out ∷ [])
lex outside (c ∷ s) =
    let quote = lex (inside []) s in
    let plain = prefix (char c ∷ []) (lex outside s) in if c == b'\'' then quote else plain
lex (inside out) (c ∷ s) =
    let quote = lex (closing out) s in
    let plain = lex (inside (out ++ c ∷ [])) s in if c == b'\'' then quote else plain
lex (closing out) (c ∷ s) =
    let quote = lex (inside (out ++ c ∷ [])) s in
    let plain = prefix (literal out ∷ char c ∷ []) (lex outside s) in
    if c == b'\'' then quote else plain

pub chars : Bytes → List Token
chars [] = []
chars (c ∷ s) = char c ∷ chars s

abbrev pub NoQuote : Bytes → Type 0
NoQuote = All (λ c. c ≢ b'\'')

prefix-prefix :
    (ts us : List Token) (o : Option (List Token)) → prefix ts (prefix us o) ≡ prefix (ts ++ us) o
prefix-prefix ts us none = refl
prefix-prefix ts us (some vs) = ap some (sym (append_assoc ts us vs))

prefix_nil : (o : Option (List Token)) → prefix [] o ≡ o
prefix_nil none = refl
prefix_nil (some us) = refl

lex-closing :
    (out rest : Bytes)
    → Ends b'\'' rest
    → lex (closing out) rest ≡ prefix (literal out ∷ []) (lex outside rest)
unfolding lex
lex-closing out [] h = refl
lex-closing out (c ∷ rest) h =
    let other : (c == b'\'') ≡ false = ground (arith, h) in
    rw other (sym (prefix-prefix (literal out ∷ []) (char c ∷ []) (lex outside rest)))

lex-double :
    (out v rest : Bytes)
    → lex (inside out) (double b'\'' v ++ b'\'' ∷ rest) ≡ lex (closing (out ++ v)) rest
unfolding double lex
lex-double out [] rest = rw append-nil refl
lex-double out (c ∷ v) rest = elim (Bool-cases (c == b'\'')) [
  | inl e ↦
      let same : c ≡ b'\'' = (==_iff c b'\'').0 e in
      rw e (
        lex-double (out ++ b'\'' ∷ []) v rest
        ∙ ap (λ t. lex (closing t) rest) (append_assoc out (b'\'' ∷ []) v)
        ∙ ap (λ d. lex (closing (out ++ d ∷ v)) rest) (sym same))
  | inr e ↦
      rw (e, e)
        (lex-double (out ++ c ∷ []) v rest
          ∙ ap (λ t. lex (closing t) rest) (append_assoc out (c ∷ []) v))
]

lex-plain :
    (c : ℕ) (s : Bytes)
    → (c == b'\'') ≡ false
    → lex outside (c ∷ s) ≡ prefix (char c ∷ []) (lex outside s)
unfolding lex
lex-plain c s e = rw e refl

lex-chars :
    (s rest : Bytes) → NoQuote s → lex outside (s ++ rest) ≡ prefix (chars s) (lex outside rest)
unfolding chars
lex-chars [] rest h = sym (prefix_nil (lex outside rest))
lex-chars (c ∷ s) rest (first, more) =
    let other : (c == b'\'') ≡ false = ground (arith, first) in
    lex-plain c (s ++ rest) other
    ∙ ap (prefix (char c ∷ [])) (lex-chars s rest more)
    ∙ prefix-prefix (char c ∷ []) (chars s) (lex outside rest)

lex-literal :
    (v rest : Bytes)
    → Ends b'\'' rest
    → lex outside (b'\'' ∷ (double b'\'' v ++ b'\'' ∷ rest))
      ≡ prefix (literal v ∷ []) (lex outside rest)
unfolding lex
lex-literal v rest h = lex-double [] v rest ∙ lex-closing v rest h

-- The text `s` is read as the tokens `ts`, whatever follows that no quote starts.
pub record Reads (s : Bytes) (ts : List Token) : Type 0 where
  before :
      (rest : Bytes)
      → Ends b'\'' rest
      → (lex outside (s ++ rest) ≡ prefix ts (lex outside rest)) × Ends b'\'' (s ++ rest)

pub Reads-nil : Reads [] []
Reads-nil = record { before = λ rest h. (sym (prefix_nil (lex outside rest)), h) }

pub Reads-append :
    {s t : Bytes} {ts us : List Token} → Reads s ts → Reads t us → Reads (s ++ t) (ts ++ us)
Reads-append {s} {t} {ts} {us} first second = record {
  before = λ rest h.
      let (e, more) = second.before rest h in
      let (e', starts) = first.before (t ++ rest) more in
      rw (append_assoc s t rest)
        (e' ∙ ap (prefix ts) e ∙ prefix-prefix ts us (lex outside rest), starts);
}

pub Reads-chars : (c : ℕ) (s : Bytes) → NoQuote (c ∷ s) → Reads (c ∷ s) (chars (c ∷ s))
Reads-chars c s h = record { before = λ rest ends. (lex-chars (c ∷ s) rest h, h.0) }

-- Fixed text, a value between quotes.
pub Reads-literal :
    (c : ℕ) (s v : Bytes)
    → NoQuote (c ∷ s)
    → Reads ((c ∷ s) ++ b'\'' ∷ (double b'\'' v ++ codes "'")) (chars (c ∷ s) ++ literal v ∷ [])
Reads-literal c s v h = record {
  before = λ rest ends.
      let text = double b'\'' v ++ codes "'" in
      (
        ap (lex outside) (
              append_assoc (c ∷ s) (b'\'' ∷ text) rest
              ∙ ap (λ t. (c ∷ s) ++ b'\'' ∷ t) (append_assoc (double b'\'' v) (codes "'") rest))
            ∙ lex-chars (c ∷ s) (b'\'' ∷ (double b'\'' v ++ b'\'' ∷ rest)) h
            ∙ ap (prefix (chars (c ∷ s))) (lex-literal v rest ends)
            ∙ prefix-prefix (chars (c ∷ s)) (literal v ∷ []) (lex outside rest),
        h.0,
      );
}

pub Reads-when_set :
    {s : Bytes} {ts : List Token} (v : Bytes)
    → Reads s ts
    → Reads (when_set v s) (if is_nil v then [] else ts)
Reads-when_set [] h = Reads-nil
Reads-when_set (c ∷ v) h = h

pub lex-Reads : (s : Bytes) (ts : List Token) → Reads s ts → lex outside s ≡ some ts
lex-Reads s ts h =
    let whole = (h.before [] tt).0 in
    ap (lex outside) (sym (append-nil s)) ∙ whole ∙ unfold lex in ap some (append-nil ts)
