-- ===== src/Web/Limiter.antt =====
-- rateLimiter and the handler of /login in web/main.go. A handler holds the limiter's lock for `allow`
-- and for `record`, and not in between; here a handler runs as a whole.
pub mod Kept
pub mod Window
use zaman.Base.{
  ℕ, zero, suc, ◌+◌, ◌≡◌, refl, Bool, true, false, not, Option, none, some, List, [], ◌∷◌, ◌++◌,
  ltb, leb, if◌then◌else◌, is_nil, length,
}
use zaman.Text.{Bytes, equal}
use zaman.Web.User.{User, Mac}
use zaman.Web.Session.{Request, get_user, client_ip, do_login}

-- `attempts`: an address without an entry has no attempts.
abbrev pub RateLimiter : Type 0
RateLimiter = Bytes → List ℕ

abbrev pub new_rate_limiter : RateLimiter
new_rate_limiter = λ ip. []

-- `rl.attempts[ip] = value`
unfoldable pub set_attempts : Bytes → List ℕ → RateLimiter → RateLimiter
unfolding equal
set_attempts ip value rl other = if equal ip other then value else rl other

unfoldable pub record_attempt : ℕ → Bytes → RateLimiter → RateLimiter
unfolding set_attempts
record_attempt now ip rl = set_attempts ip (rl ip ++ now ∷ []) rl

-- The attempts from `now - 60` on.
unfoldable pub kept_attempts : ℕ → List ℕ → List ℕ
kept_attempts now [] = []
kept_attempts now (ts ∷ attempts) =
    let rest = kept_attempts now attempts in if leb now (ts + 60) then ts ∷ rest else rest

unfoldable pub allow : ℕ → Bytes → RateLimiter → Bool × RateLimiter
unfolding kept_attempts set_attempts
allow now ip rl =
    let kept = kept_attempts now (rl ip) in (ltb (length kept) 5, set_attempts ip kept rl)

-- What /login answers.
pub data Answer : Type 0 where
  redirect_home : Answer
  login_page : Answer
  too_many : Answer
  invalid : Answer
  method_not_allowed : Answer
  signed_in : Bytes → Answer

-- The method of a request to /login, with the form of a POST.
pub data LoginRequest : Type 0 where
  get_page : LoginRequest
  post_form : Bytes → Bytes → LoginRequest
  other_method : LoginRequest

abbrev pub try_login :
    Mac → Bytes → ℕ → Bytes → Bytes → Bytes → List User → Bool × RateLimiter → Answer × RateLimiter
try_login mac secret now ip username password users allowed =
    let token = do_login mac secret now username password users in
    if not allowed.0
    then (too_many, allowed.1)
    else if is_nil token
    then (invalid, record_attempt now ip allowed.1)
    else (signed_in token, allowed.1)

abbrev pub login_answer : Option User → Answer
login_answer none = login_page
login_answer (some u) = redirect_home

-- The handler of /login.
unfoldable pub handle_login :
    Mac
    → Bytes
    → Bytes
    → ℕ
    → Request
    → LoginRequest
    → List User
    → RateLimiter
    → Answer × RateLimiter
unfolding get_user client_ip do_login allow record_attempt
handle_login mac api_key secret now r get_page users rl =
    (login_answer (get_user mac api_key secret now r), rl)
handle_login mac api_key secret now r (post_form username password) users rl =
    let ip = client_ip r in try_login mac secret now ip username password users (allow now ip rl)
handle_login mac api_key secret now r other_method users rl = (method_not_allowed, rl)
