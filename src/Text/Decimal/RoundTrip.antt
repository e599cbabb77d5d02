-- ===== src/Text/Decimal/RoundTrip.antt =====
-- Reading a number that was printed.
use zaman.Base.{
  ℕ, zero, suc, ◌+◌, ◌*◌, ◌/◌, ◌%◌, ◌^◌, ◌<◌, ◌≡◌, refl, ◌∙◌, true, false, ◌||◌, none, some, [],
  ◌∷◌, ◌++◌, append-nil, ltb, ◌==◌, if◌then◌else◌, arith, inl, inr, Bool-cases, All,
}
use zaman.Text.{Bytes, trim_left}
use zaman.Text.Trim.{plain, trim_left-plain}
use zaman.Text.Decimal.{
  pos, digit, show_loop, show, is_digit, read_digits, sign, sscanf, all_read, atoi, in_int64,
}

read_digits-digit :
    (m c d : ℕ) (s : Bytes)
    → d < 10
    → read_digits m c (digit d ∷ s) ≡ read_digits (m * 10 + d) (c + 1) s
unfolding read_digits
read_digits-digit m c d s h = ground arith

read_digits-show_loop :
    (fuel n c : ℕ) (out : Bytes)
    → n < fuel
    → (k : ℕ) × (read_digits 0 c (show_loop 10 fuel n out) ≡ read_digits n (c + suc k) out)
unfolding show_loop
read_digits-show_loop zero n c out h = absurd (omega arith)
read_digits-show_loop (suc fuel) n c out h = elim (Bool-cases (ltb n 10)) [
  | inl small ↦ (0, rw small (ground (arith, read_digits-digit 0 c n out)))
  | inr large ↦
      let (k, e) = read_digits-show_loop fuel (n / 10) c (digit (n % 10) ∷ out) (ground arith) in
      (suc k, rw large (ground (arith, e, read_digits-digit (n / 10) (c + suc k) (n % 10) out)))
]

-- A text that no digit starts.
abbrev pub Stops : Bytes → Type 0
Stops [] = Unit {0}
Stops (c ∷ s) = is_digit c ≡ false

read_digits_stop : (n c : ℕ) (s : Bytes) → Stops s → read_digits n c s ≡ (n, c, s)
unfolding read_digits
read_digits_stop n c [] h = refl
read_digits_stop n c (d ∷ s) h = rw h

show_loop-append :
    (fuel n : ℕ) (out s : Bytes) → show_loop 10 fuel n out ++ s ≡ show_loop 10 fuel n (out ++ s)
unfolding show_loop
show_loop-append zero n out s = refl
show_loop-append (suc fuel) n out s =
    ground (arith, show_loop-append fuel (n / 10) (digit (n % 10) ∷ out) s)

pub read_digits-show :
    (n : ℕ) (s : Bytes) → Stops s → (k : ℕ) × (read_digits 0 0 (show n ++ s) ≡ (n, suc k, s))
unfolding show
read_digits-show n s h =
    let (k, e) = read_digits-show_loop (n + 1) n 0 s (omega arith) in
    (k, rw show_loop-append (e ∙ rw (read_digits_stop n (0 + suc k) s h) (ground arith)))

-- The text of a number starts with a digit.
show_loop_head :
    (fuel n : ℕ) (out : Bytes)
    → n < fuel
    → (c : ℕ) × (s : Bytes) × (is_digit c ≡ true) × (show_loop 10 fuel n out ≡ c ∷ s)
unfolding show_loop
show_loop_head zero n out h = absurd (omega arith)
show_loop_head (suc fuel) n out h = elim (Bool-cases (ltb n 10)) [
  | inl small ↦ (digit n, out, ground arith, rw small)
  | inr large ↦
      let (c, s, d, e) = show_loop_head fuel (n / 10) (digit (n % 10) ∷ out) (ground arith) in
      (c, s, d, rw large e)
]

pub show_head : (n : ℕ) → (c : ℕ) × (s : Bytes) × (is_digit c ≡ true) × (show n ≡ c ∷ s)
unfolding show
show_head n = show_loop_head (n + 1) n [] (omega arith)

sign_digit : (c : ℕ) (s : Bytes) → is_digit c ≡ true → sign (c ∷ s) ≡ (false, c ∷ s)
unfolding sign
sign_digit c s h = ground arith

sscanf_lem :
    (s : Bytes)
    → sscanf s ≡ (
        let signed = sign (trim_left s) in
        let number = read_digits 0 0 signed.1 in
        if number.1 == 0 then none else in_int64 signed.0 number.0)
unfolding sscanf
sscanf_lem s = refl

atoi_lem :
    (s : Bytes)
    → atoi s ≡ (
        let signed = sign s in
        let number = read_digits 0 0 signed.1 in
        if number.1 == 0 || (if all_read number.2 then false else true)
        then none
        else in_int64 signed.0 number.0)
unfolding atoi
atoi_lem s = refl

sscanf_digits :
    (c n k : ℕ) (s rest : Bytes)
    → is_digit c ≡ true
    → n < 2 ^ 63
    → read_digits 0 0 (c ∷ s) ≡ (n, suc k, rest)
    → (sscanf (c ∷ s) ≡ some (pos n))
      × (atoi (c ∷ s) ≡ (if all_read rest then some (pos n) else none))
sscanf_digits c n k s rest d h e =
    let visible : plain c ≡ true = ground arith in
    (
      sscanf_lem (c ∷ s) ∙ rw (trim_left-plain c s visible, sign_digit c s d, e) (ground arith),
      atoi_lem (c ∷ s) ∙ rw (sign_digit c s d, e) (ground arith),
    )

-- `Sscanf` with `%d` reads back every printed number that fits an int64, whatever follows it that is
-- no digit.
pub sscanf-show : (n : ℕ) (s : Bytes) → n < 2 ^ 63 → Stops s → sscanf (show n ++ s) ≡ some (pos n)
sscanf-show n s h stops =
    let (k, e) = read_digits-show n s stops in
    let (c, t, d, e') = show_head n in rw e' (sscanf_digits c n k (t ++ s) s d h (rw e' at e)).0

-- `Atoi` reads back every printed number that fits an int64.
pub atoi-show : (n : ℕ) → n < 2 ^ 63 → atoi (show n) ≡ some (pos n)
unfolding all_read
atoi-show n h =
    let (k, e) = read_digits-show n [] tt in
    let (c, t, d, e') = show_head n in
    rw e' (sscanf_digits c n k t [] d h (rw (append-nil, e') at e)).1

show_loop-All-digit :
    (fuel n : ℕ) (out : Bytes)
    → All (λ c. is_digit c ≡ true) out
    → All (λ c. is_digit c ≡ true) (show_loop 10 fuel n out)
unfolding show_loop
show_loop-All-digit zero n out h = h
show_loop-All-digit (suc fuel) n out h = elim (Bool-cases (ltb n 10)) [
  | inl small ↦ rw small (ground arith, h)
  | inr large ↦
      rw large (show_loop-All-digit fuel (n / 10) (digit (n % 10) ∷ out) (ground arith, h))
]

-- Every character of a printed number is a digit.
pub show-All-digit : (n : ℕ) → All (λ c. is_digit c ≡ true) (show n)
unfolding show
show-All-digit n = show_loop-All-digit (n + 1) n [] tt
