-- ===== src/Sip/Redact/Laws.antt =====
-- What redaction keeps and what it removes.
use zaman.Base.{
  ◌&&◌, ℕ, Bool, ◌||◌, ◌==◌, Option, none, some, ◌≡◌, refl, ap, ◌∙◌, false, List, [], ◌∷◌, ◌++◌,
  if◌then◌else◌, All, arith, inl, inr, Bool-cases,
}
use zaman.Text.{Bytes, codes, lower, equal, cut, has_prefix, split, trim_space, to_lower}
use zaman.Text.Split.{Lacks, split-append, split-All-Lacks}
use zaman.Sip.Redact.{is_credential, redact_lines, redact_sip}

-- Is the line a header of credentials, by the name in front of its first colon in any case.
abbrev pub is_either : Bytes → Bytes → Bytes × Option Bytes → Bool
is_either word other (name, none) = false
is_either word other (name, some value) = equal (to_lower name) word || equal (to_lower name) other

pub is_authorization : Bytes → Bool
is_authorization line =
    is_either (codes "authorization") (codes "proxy-authorization") (cut b':' (trim_space line))

-- The lines that are to stay, in order.
pub kept_lines : List Bytes → List Bytes
kept_lines [] = []
kept_lines (line ∷ rest) =
    let kept = kept_lines rest in if is_authorization line then kept else line ∷ kept

abbrev is_named : Bytes → Bytes × Option Bytes → Bool
is_named word (name, none) = false
is_named word (name, some value) = equal (to_lower name) word

named_cons :
    (w c : ℕ) (word : Bytes) (p : Bytes × Option Bytes)
    → is_named (w ∷ word) (c ∷ p.0, p.1) ≡ (lower c == w && is_named word p)
unfolding to_lower equal
named_cons w c word (name, none) = ground arith
named_cons w c word (name, some value) = refl

named_nil : (c : ℕ) (p : Bytes × Option Bytes) → is_named [] (c ∷ p.0, p.1) ≡ false
unfolding to_lower equal
named_nil c (name, none) = refl
named_nil c (name, some value) = refl

lower_colon : (c : ℕ) → (lower c == b':') ≡ (c == b':')
lower_colon c = ground arith

-- A word and a colon in front of a line is the name of a header.
has_prefix-named :
    (word line : Bytes)
    → Lacks b':' word
    → has_prefix (to_lower line) (word ++ b':' ∷ []) ≡ is_named word (cut b':' line)
unfolding has_prefix to_lower cut equal
has_prefix-named [] [] h = refl
has_prefix-named [] (c ∷ line) h = elim (Bool-cases (c == b':')) [
  | inl e ↦ rw e (ground (arith, e))
  | inr e ↦ rw (e, named_nil) (ground (arith, e))
]
has_prefix-named (w ∷ word) [] h = refl
has_prefix-named (w ∷ word) (c ∷ line) (differs, h) = elim (Bool-cases (c == b':')) [
  | inl e ↦ rw e (ground (arith, e, differs))
  | inr e ↦
      rw (e, named_cons w c word (cut b':' line))
        (ap (λ b. lower c == w && b) (has_prefix-named word line h))
]

is_credential-named :
    (word other : Bytes) (p : Bytes × Option Bytes)
    → (is_named word p || is_named other p) ≡ is_either word other p
is_credential-named word other (name, none) = refl
is_credential-named word other (name, some value) = refl

-- The test of the code is the test by name.
is_credential_lem : (line : Bytes) → is_credential line ≡ is_authorization line
unfolding is_credential is_authorization
is_credential_lem line =
    ap (λ b. b || has_prefix (to_lower (trim_space line)) (codes "proxy-authorization:"))
      (has_prefix-named (codes "authorization") (trim_space line) (ground arith))
    ∙ ap (λ b. is_named (codes "authorization") (cut b':' (trim_space line)) || b)
        (has_prefix-named (codes "proxy-authorization") (trim_space line) (ground arith))
    ∙ is_credential-named (codes "authorization") (codes "proxy-authorization")
        (cut b':' (trim_space line))

split-redact_lines :
    (lines : List Bytes)
    → All (Lacks b'\n') lines
    → split b'\n' (redact_lines lines) ≡ kept_lines lines ++ [] ∷ []
unfolding redact_lines kept_lines
split-redact_lines [] h = unfold split in refl
split-redact_lines (line ∷ rest) (h, hs) = elim (Bool-cases (is_authorization line)) [
  | inl drop ↦ rw (is_credential_lem line, drop) (split-redact_lines rest hs)
  | inr keep ↦
      rw (is_credential_lem line, keep)
        (split-append b'\n' line _ h ∙ ap (◌∷◌ line) (split-redact_lines rest hs))
]

-- The lines of the redacted text are the lines of the message in their order, but for those whose name
-- is Authorization or Proxy-Authorization in any case, and an empty one: each line is written with a
-- newline behind it. The name is what stands in front of the first colon, directly.
pub split-redact_sip :
    (msg : Bytes) → split b'\n' (redact_sip msg) ≡ kept_lines (split b'\n' msg) ++ [] ∷ []
unfolding redact_sip
split-redact_sip msg = split-redact_lines (split b'\n' msg) (split-All-Lacks b'\n' msg)

empty_line : is_authorization [] ≡ false
unfolding is_authorization trim_space cut
empty_line = refl

abbrev pub IsClean : Bytes → Type 0
IsClean line = is_authorization line ≡ false

kept_lines-All : (lines : List Bytes) → All IsClean (kept_lines lines ++ [] ∷ [])
unfolding kept_lines
kept_lines-All [] = (empty_line, tt)
kept_lines-All (line ∷ rest) = ground (arith, kept_lines-All rest)

-- No line of the redacted text starts a credential header.
pub redact_sip-IsClean : (msg : Bytes) → All IsClean (split b'\n' (redact_sip msg))
redact_sip-IsClean msg = rw split-redact_sip (kept_lines-All (split b'\n' msg))
