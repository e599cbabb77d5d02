-- ===== src/Web/Limiter/Kept.antt =====
-- The attempts that the login limiter keeps, and an independent count of a minute.
use zaman.Base.{leb, ◌+◌, ℕ, ◌≤◌, ◌≡◌, refl, List, [], ◌∷◌, ◌++◌, if◌then◌else◌, arith, length}
use zaman.Text.{Bytes, equal}
use zaman.Web.Limiter.{RateLimiter, set_attempts, kept_attempts}

pub kept_kept :
    (now later : ℕ) (xs : List ℕ)
    → now ≤ later
    → kept_attempts later (kept_attempts now xs) ≡ kept_attempts later xs
unfolding kept_attempts
kept_kept now later [] h = refl
kept_kept now later (x ∷ xs) h = ground (arith, h, kept_kept now later xs h)

pub kept-append :
    (now : ℕ) (xs ys : List ℕ)
    → kept_attempts now (xs ++ ys) ≡ kept_attempts now xs ++ kept_attempts now ys
unfolding kept_attempts
kept-append now [] ys = refl
kept-append now (x ∷ xs) ys = ground (arith, kept-append now xs ys)

pub length-kept :
    (now later : ℕ) (xs : List ℕ)
    → now ≤ later
    → length (kept_attempts later xs) ≤ length (kept_attempts now xs)
unfolding kept_attempts
length-kept now later [] h = omega arith
length-kept now later (x ∷ xs) h = ground (arith, h, length-kept now later xs h)

pub set_attempts_lem :
    (ip : Bytes) (value : List ℕ) (rl : RateLimiter) (other : Bytes)
    → set_attempts ip value rl other ≡ (if equal ip other then value else rl other)
unfolding set_attempts
set_attempts_lem ip value rl other = refl

-- How many of the times lie in the minute up to `now`, its first second included.
unfoldable pub in_last_minute : ℕ → List ℕ → ℕ
in_last_minute now [] = 0
in_last_minute now (ts ∷ log) = (if leb now (ts + 60) then 1 else 0) + in_last_minute now log

pub length-kept_attempts :
    (now : ℕ) (log : List ℕ) → length (kept_attempts now log) ≡ in_last_minute now log
unfolding kept_attempts in_last_minute
length-kept_attempts now [] = refl
length-kept_attempts now (ts ∷ log) = ground (arith, length-kept_attempts now log)
