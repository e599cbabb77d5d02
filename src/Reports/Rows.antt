-- ===== src/Reports/Rows.antt =====
-- What the queries of core-go/reports.go count over the rows of call_state, and the figures that the
-- code makes of the counts.
use zaman.Base.{
  ℕ, ◌+◌, ◌*◌, ◌/◌, ◌≤◌, ◌<◌, Bool, true, false, ◌&&◌, not, List, [], ◌∷◌, ltb, if◌then◌else◌,
  length, ◌≡◌, arith, Bool-cases, inl, inr, ltb→lt,
}
use native.Mathlib.Nat.{div-lt_iff_lt-mul}
use zaman.Text.Decimal.{geb}
use zaman.Db.CallState.{CallState}

-- `count(*) FILTER (WHERE …)`
unfoldable pub count {ℓ} : {A : Type ℓ} → (A → Bool) → List A → ℕ
count p [] = 0
count p (x ∷ xs) = (if p x then 1 else 0) + count p xs

-- The rows that a WHERE clause keeps.
unfoldable pub filter_rows {ℓ} : {A : Type ℓ} → (A → Bool) → List A → List A
filter_rows p [] = []
filter_rows p (x ∷ xs) = let rest = filter_rows p xs in if p x then x ∷ rest else rest

-- `answered=0 AND open=0 AND last_status >= 400`
abbrev pub is_failed : CallState → Bool
is_failed r = not r.answered && not r.is_open && geb r.last_status 400

-- `answered=1 AND open=0 AND answer_ts_ms > 0 AND last_ts_ms > answer_ts_ms`
abbrev pub is_finished : CallState → Bool
is_finished r =
    r.answered && not r.is_open && ltb 0 r.answer_ts_ms && ltb r.answer_ts_ms r.last_ts_ms

-- `if whole > 0 { part * 100 / whole }`, and 0 otherwise
unfoldable pub percent : ℕ → ℕ → ℕ
percent part whole = if ltb 0 whole then part * 100 / whole else 0

-- `if asr > 100 { asr = 100 }`
unfoldable pub capped : ℕ → ℕ
capped n = if ltb 100 n then 100 else n

pub div_le : (x y k : ℕ) → 0 < k → x ≤ y * k → x / k ≤ y
div_le x y k h le =
    let below : x < (y + 1) * k = grind arith in
    let quotient = (div-lt_iff_lt-mul {k = k} {x = x} {y = y + 1} h).1 below in omega arith

pub percent-le : (part whole : ℕ) → part ≤ whole → percent part whole ≤ 100
unfolding percent
percent-le part whole h = elim (Bool-cases (ltb 0 whole)) [
  | inl e ↦ rw e (div_le (part * 100) 100 whole (ltb→lt 0 whole e) (omega arith))
  | inr e ↦ rw e (omega arith)
]

pub count-le {ℓ} : {A : Type ℓ} (p : A → Bool) (xs : List A) → count p xs ≤ length xs
unfolding count
count-le p [] = omega arith
count-le p (x ∷ xs) = ground (arith, count-le p xs)

-- Where `p` implies `q`.
pub count_mono {ℓ} :
    {A : Type ℓ} (p q : A → Bool)
    → ((x : A) → p x ≡ true → q x ≡ true)
    → (xs : List A) → count p xs ≤ count q xs
unfolding count
count_mono p q h [] = omega arith
count_mono p q h (x ∷ xs) = ground (arith, h x, count_mono p q h xs)

-- Of two conditions that exclude each other.
pub count_disjoint {ℓ} :
    {A : Type ℓ} (p q r : A → Bool)
    → ((x : A) → p x ≡ true → (q x ≡ false) × (r x ≡ true))
    → ((x : A) → q x ≡ true → r x ≡ true)
    → (xs : List A) → count p xs + count q xs ≤ count r xs
unfolding count
count_disjoint p q r h k [] = omega arith
count_disjoint p q r h k (x ∷ xs) = ground (arith, h x, k x, count_disjoint p q r h k xs)
