-- ===== src/Api/Export/Floats.antt =====
-- The text of a whole float64 needs no quotes in CSV.
use zaman.Base.{
  ℕ, ◌+◌, ◌==◌, ◌&&◌, ◌≡◌, refl, true, false, Bool-cases, inl, inr, ltb, [], ◌∷◌, All, All-weaken,
  All-append, arith, is_nil, length,
}
use zaman.Text.{Bytes}
use zaman.Text.Decimal.{ℤ, pos, negsuc, show, is_digit}
use zaman.Text.Decimal.RoundTrip.{show-All-digit}
use zaman.Reports.{needs_quotes}
use zaman.Api.Export.{strip_zeros, point, two_digits, exponent_text, whole_text, float_text}

-- A digit, a sign, a point or the `e` of an exponent.
abbrev IsPlain : ℕ → Type 0
IsPlain c = (c == b',' ≡ false) × (c == b'"' ≡ false) × (c == b'\n' ≡ false)

plain-All : (s : Bytes) → All IsPlain s → needs_quotes s ≡ false
unfolding needs_quotes
plain-All [] h = refl
plain-All (c ∷ s) h = ground (arith, h.0, plain-All s h.1)

show-All : (n : ℕ) → All IsPlain (show n)
show-All n =
    All-weaken (λ c. is_digit c ≡ true) IsPlain
      (λ c h. (ground (arith, h), ground (arith, h), ground (arith, h))) (show n) (show-All-digit n)

strip_zeros-All : (s : Bytes) → All IsPlain s → All IsPlain (strip_zeros s)
unfolding strip_zeros
strip_zeros-All [] h = tt
strip_zeros-All (d ∷ ds) (h, hs) = elim (Bool-cases (d == b'0' && is_nil (strip_zeros ds))) [
  | inl e ↦ rw e tt
  | inr e ↦ rw e (h, strip_zeros-All ds hs)
]

point-All : (s : Bytes) → All IsPlain s → All IsPlain (point s)
unfolding point
point-All [] h = tt
point-All (d ∷ ds) h = ((refl, refl, refl), h)

two_digits-All : (n : ℕ) → All IsPlain (two_digits n)
unfolding two_digits
two_digits-All n = elim (Bool-cases (ltb n 10)) [
  | inl e ↦ rw e ((refl, refl, refl), show-All n)
  | inr e ↦ rw e (show-All n)
]

exponent_text-All : (s : Bytes) → All IsPlain s → All IsPlain (exponent_text s)
unfolding exponent_text
exponent_text-All [] h = tt
exponent_text-All (d ∷ ds) (h, hs) = (
  h,
  All-append IsPlain (point (strip_zeros ds)) _ (point-All _ (strip_zeros-All ds hs))
      ((refl, refl, refl), ((refl, refl, refl), two_digits-All (length ds))),
)

whole_text-All : (n : ℕ) → All IsPlain (whole_text n)
unfolding whole_text
whole_text-All n = elim (Bool-cases (ltb n 1000000)) [
  | inl e ↦ rw e (show-All n)
  | inr e ↦ rw e (exponent_text-All (show n) (show-All n))
]

pub float_text-plain : (n : ℤ) → needs_quotes (float_text n) ≡ false
unfolding float_text
float_text-plain (pos n) = plain-All _ (whole_text-All n)
float_text-plain (negsuc n) = plain-All _ ((refl, refl, refl), whole_text-All (n + 1))
