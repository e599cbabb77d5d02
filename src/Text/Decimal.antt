-- ===== src/Text/Decimal.antt =====
-- Decimal and hexadecimal print (`%d`, `%x`), `strconv.Atoi` and the `%d` of `fmt.Sscanf`.
pub mod RoundTrip
use zaman.Base.{
  ℕ, zero, suc, ◌+◌, ◌-◌, ◌*◌, ◌/◌, ◌%◌, ◌^◌, ◌≡◌, refl, Bool, true, false, ◌&&◌, ◌||◌, Option,
  none, some, [], ◌∷◌, ltb, leb, ◌==◌, if◌then◌else◌,
}
use zaman.Text.{Bytes, codes, trim_left}

-- Signed integers: `negsuc n` is -(n + 1).
pub data ℤ : Type 0 where
  pos : ℕ → ℤ
  negsuc : ℕ → ℤ

-- `a >= k` for a constant k that is not negative
abbrev pub geb : ℤ → ℕ → Bool
geb (pos n) k = leb k n
geb (negsuc n) k = false

-- `a > 0`, and `a < k` for a positive constant k
abbrev pub is_pos : ℤ → Bool
is_pos a = geb a 1

abbrev pub ltb_ℤ : ℤ → ℕ → Bool
ltb_ℤ (pos n) k = ltb n k
ltb_ℤ (negsuc n) k = true

abbrev pub digit : ℕ → ℕ
digit d = if ltb d 10 then d + 48 else d + 87

-- Digits are put in front of `out`, the last one first; a round divides the number by the base.
pub show_loop : ℕ → ℕ → ℕ → Bytes → Bytes
show_loop base zero n out = out
show_loop base (suc fuel) n out =
    let more = show_loop base fuel (n / base) (digit (n % base) ∷ out) in
    if ltb n base then digit n ∷ out else more

-- `%d` of a number
unfoldable pub show : ℕ → Bytes
unfolding show_loop
show n = show_loop 10 (n + 1) n []

-- `%x` of a number
unfoldable pub show_hex : ℕ → Bytes
unfolding show_loop
show_hex n = show_loop 16 (n + 1) n []

-- `%d` of an integer
unfoldable pub show_ℤ : ℤ → Bytes
unfolding show
show_ℤ (pos n) = show n
show_ℤ (negsuc n) = b'-' ∷ show (n + 1)

abbrev pub is_digit : ℕ → Bool
is_digit c = leb b'0' c && leb c b'9'

-- The number that the digits at the front spell behind `n`, how many there are, and what is left.
unfoldable pub read_digits : ℕ → ℕ → Bytes → ℕ × ℕ × Bytes
read_digits n count [] = (n, count, [])
read_digits n count (c ∷ s) =
    let rest = read_digits (n * 10 + (c - b'0')) (count + 1) s in
    if is_digit c then rest else (n, count, c ∷ s)

-- `strconv.ParseInt` of a sign and a number, with its range check
abbrev pub in_int64 : Bool → ℕ → Option ℤ
in_int64 false n = if ltb n (2 ^ 63) then some (pos n) else none
in_int64 true zero = some (pos 0)
in_int64 true (suc n) = if ltb n (2 ^ 63) then some (negsuc n) else none

-- Is an integer in the range of an int64.
abbrev pub fits_int64 : ℤ → Bool
fits_int64 (pos n) = ltb n (2 ^ 63)
fits_int64 (negsuc n) = ltb n (2 ^ 63)

-- Is there a minus sign, and the text behind a sign of either kind.
pub sign : Bytes → Bool × Bytes
sign [] = (false, [])
sign (c ∷ s) = if c == b'-' then (true, s) else if c == b'+' then (false, s) else (false, c ∷ s)

-- `fmt.Sscanf(s, "%d", &x)`: `none` leaves x alone.
unfoldable pub sscanf : Bytes → Option ℤ
unfolding sign read_digits
sscanf s =
    let signed = sign (trim_left s) in
    let number = read_digits 0 0 signed.1 in
    if number.1 == 0 then none else in_int64 signed.0 number.0

pub all_read : Bytes → Bool
all_read [] = true
all_read (c ∷ s) = false

-- `strconv.Atoi`: `none` is an error.
unfoldable pub atoi : Bytes → Option ℤ
unfolding sign read_digits all_read
atoi s =
    let signed = sign s in
    let number = read_digits 0 0 signed.1 in
    if number.1 == 0 || (if all_read number.2 then false else true)
    then none
    else in_int64 signed.0 number.0

-- The value of `strconv.ParseInt(s, 10, 64)` when its error is dropped: 0 for a text that is no
-- number, and the nearest one for a number out of range.
unfoldable pub nearest : Bytes → ℤ
unfolding sign read_digits all_read
nearest s =
    let signed = sign s in
    let number = read_digits 0 0 signed.1 in
    if number.1 == 0 || (if all_read number.2 then false else true)
    then pos 0
    else if signed.0
    then negsuc (2 ^ 63 - 1)
    else pos (2 ^ 63 - 1)

unfoldable pub parse_int : Bytes → ℤ
unfolding atoi nearest
parse_int s = elim (atoi s) [ some value ↦ value | none ↦ nearest s ]

show_test : (show 0 ≡ codes "0") × (show 5060 ≡ codes "5060") × (show_hex 0xFE80 ≡ codes "fe80")
unfolding show show_hex
show_test = (refl, refl, refl)

sscanf_test : (sscanf (codes "200x") ≡ some (pos 200)) × (sscanf (codes "-5") ≡ some (negsuc 4))
unfolding sscanf trim_left
sscanf_test = (refl, refl)

atoi_test : (atoi (codes "200x") ≡ none) × (atoi (codes "9060") ≡ some (pos 9060))
unfolding atoi
atoi_test = (refl, refl)
