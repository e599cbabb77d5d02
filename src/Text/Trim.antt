-- ===== src/Text/Trim.antt =====
-- Laws of `strings.TrimSpace`.
use mathlib.Core.List.{reverse-append, reverse-reverse}
use zaman.Base.{
  ℕ, zero, suc, ◌≡◌, refl, sym, ap, ◌∙◌, Bool, true, ◌&&◌, [], ◌∷◌, ◌++◌, reverse, ltb, arith,
  length, length-append,
}
use zaman.Text.{
  Bytes, is_ascii_space, space_len, space_len_back, trim_with, trim_left, trim_right, trim_space,
}
use zaman.Text.Split.{Lacks}

-- A printing ASCII character that is no space.
abbrev pub plain : ℕ → Bool
plain c = ltb 32 c && ltb c 127

space_len-plain : (c : ℕ) (s : Bytes) → plain c ≡ true → space_len (c ∷ s) ≡ 0
unfolding space_len
space_len-plain c [] h = ground arith
space_len-plain c (_ ∷ []) h = ground arith
space_len-plain c (_ ∷ _ ∷ _) h = ground arith

space_len_back-plain : (c : ℕ) (s : Bytes) → plain c ≡ true → space_len_back (c ∷ s) ≡ 0
unfolding space_len_back
space_len_back-plain c [] h = ground arith
space_len_back-plain c (_ ∷ []) h = ground arith
space_len_back-plain c (_ ∷ _ ∷ _) h = ground arith

trim_with_zero : (len : Bytes → ℕ) (n : ℕ) (s : Bytes) → len s ≡ 0 → trim_with len n s ≡ s
unfolding trim_with
trim_with_zero len zero s h = refl
trim_with_zero len (suc n) s h = rw (h, trim_with)

pub trim_left-plain : (c : ℕ) (s : Bytes) → plain c ≡ true → trim_left (c ∷ s) ≡ c ∷ s
unfolding trim_left
trim_left-plain c s h = trim_with_zero space_len (length (c ∷ s)) (c ∷ s) (space_len-plain c s h)

pub trim_right-plain : (c : ℕ) (s : Bytes) → plain c ≡ true → trim_right (s ++ c ∷ []) ≡ s ++ c ∷ []
unfolding trim_right
trim_right-plain c s h = ap reverse e ∙ reverse-reverse (s ++ c ∷ [])
  where
    e :
        trim_with space_len_back (length (s ++ c ∷ [])) (reverse (s ++ c ∷ []))
        ≡ reverse (s ++ c ∷ [])
    e =
        rw (reverse-append s (c ∷ []))
          (trim_with_zero space_len_back _ _ (space_len_back-plain c (reverse s) h))

-- A text with a printing ASCII character at each end, and no newline inside.
pub record IsTrimmed (s : Bytes) : Type 0 where
  pub first : ℕ
  pub tail : Bytes
  pub starts : s ≡ first ∷ tail
  pub first_plain : plain first ≡ true
  pub init : Bytes
  pub last : ℕ
  pub ends : s ≡ init ++ last ∷ []
  pub last_plain : plain last ≡ true
  pub one_line : Lacks b'\n' s

trim_with_one :
    (len : Bytes → ℕ) (n c : ℕ) (s : Bytes)
    → len (c ∷ s) ≡ 1
    → trim_with len (suc n) (c ∷ s) ≡ trim_with len n s
unfolding trim_with
trim_with_one len n c s h = rw (h, trim_with)

space_len_ascii : (c : ℕ) (s : Bytes) → is_ascii_space c ≡ true → space_len (c ∷ s) ≡ 1
unfolding space_len
space_len_ascii c [] h = ground arith
space_len_ascii c (_ ∷ []) h = ground arith
space_len_ascii c (_ ∷ _ ∷ _) h = ground arith

space_len_back_ascii : (c : ℕ) (s : Bytes) → is_ascii_space c ≡ true → space_len_back (c ∷ s) ≡ 1
unfolding space_len_back
space_len_back_ascii c [] h = ground arith
space_len_back_ascii c (_ ∷ []) h = ground arith
space_len_back_ascii c (_ ∷ _ ∷ _) h = ground arith

trim_left_space : (c : ℕ) (s : Bytes) → is_ascii_space c ≡ true → trim_left (c ∷ s) ≡ trim_left s
unfolding trim_left
trim_left_space c s h = trim_with_one space_len (length s) c s (space_len_ascii c s h)

trim_right_space :
    (c : ℕ) (s : Bytes) → is_ascii_space c ≡ true → trim_right (s ++ c ∷ []) ≡ trim_right s
unfolding trim_right
trim_right_space c s h = ap reverse (
    ap (λ n. trim_with space_len_back n (reverse (s ++ c ∷ []))) size
    ∙ ap (trim_with space_len_back (suc (length s))) (reverse-append s (c ∷ []))
    ∙ trim_with_one space_len_back (length s) c (reverse s) (space_len_back_ascii c (reverse s) h))
  where
    size : length (s ++ c ∷ []) ≡ suc (length s)
    size = omega (arith, length-append s (c ∷ []))

trim_space_lem : (s : Bytes) → trim_space s ≡ trim_right (trim_left s)
unfolding trim_space
trim_space_lem s = refl

module _ (s : Bytes) (t : IsTrimmed s) where
  trim_left-IsTrimmed : trim_left s ≡ s
  trim_left-IsTrimmed =
      ap trim_left t.starts ∙ trim_left-plain t.first t.tail t.first_plain ∙ sym t.starts

  trim_right-IsTrimmed : trim_right s ≡ s
  trim_right-IsTrimmed =
      ap trim_right t.ends ∙ trim_right-plain t.last t.init t.last_plain ∙ sym t.ends

  pub trim_space-IsTrimmed : trim_space s ≡ s
  trim_space-IsTrimmed = trim_space_lem s ∙ ap trim_right trim_left-IsTrimmed ∙ trim_right-IsTrimmed

  -- A space in front, or a carriage return behind, is taken off.
  pub trim_space_front : trim_space (b' ' ∷ s) ≡ s
  trim_space_front =
      trim_space_lem (b' ' ∷ s)
      ∙ ap trim_right (trim_left_space b' ' s refl ∙ trim_left-IsTrimmed)
      ∙ trim_right-IsTrimmed

  trim_left_cr : trim_left (s ++ b'\r' ∷ []) ≡ s ++ b'\r' ∷ []
  trim_left_cr =
      ap (λ x. trim_left (x ++ b'\r' ∷ [])) t.starts
      ∙ trim_left-plain t.first (t.tail ++ b'\r' ∷ []) t.first_plain
      ∙ ap (λ x. x ++ b'\r' ∷ []) (sym t.starts)

  pub trim_space_cr : trim_space (s ++ b'\r' ∷ []) ≡ s
  trim_space_cr =
      trim_space_lem (s ++ b'\r' ∷ [])
      ∙ ap trim_right trim_left_cr
      ∙ trim_right_space b'\r' s refl
      ∙ trim_right-IsTrimmed
