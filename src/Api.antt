-- ===== src/Api.antt =====
-- The middleware of the API in core-go/api.go: the rate limiter, clientIP and the API key.
pub mod Rate
pub mod Stats
pub mod Related
pub mod Delete
pub mod Health
pub mod Routes
pub mod Message
pub mod Export
pub mod AlertConfig
pub mod Alerts
use zaman.Base.{
  ℕ, zero, suc, ◌+◌, ◌≡◌, refl, Bool, true, false, not, ◌&&◌, Option, none, some, List, [], ◌∷◌,
  ltb, leb, ◌==◌, if◌then◌else◌, is_nil, drop,
}
use zaman.Text.{Bytes, codes, equal, has_prefix, trim_space, cut}
use zaman.Text.Decimal.{ℤ, pos, negsuc, is_pos, atoi}
use zaman.Core.Config.{Config}
use zaman.Hep.Auth.{constant_time_equal, split_host}

-- apiRateLimiter; an address without a bucket has 0.
pub record ApiRateLimiter : Type 0 where
  pub buckets : Bytes → ℕ
  pub second : ℕ

abbrev pub new_api_rate_limiter : ApiRateLimiter
new_api_rate_limiter = record { buckets = λ ip. 0; second = 0 }

-- The buckets of a second: none is left when the second is a new one.
unfoldable pub at_second : ℕ → ApiRateLimiter → ApiRateLimiter
at_second sec rl = if sec == rl.second then rl else record { buckets = λ ip. 0; second = sec }

-- `rl.buckets[ip]++`
unfoldable pub count_request : Bytes → ApiRateLimiter → ApiRateLimiter
unfolding equal
count_request ip rl = record rl {
  buckets = λ other. if equal ip other then rl.buckets other + 1 else rl.buckets other;
}

-- `allow`, where `limit` is above 0
unfoldable pub allow_limited : ℕ → ℕ → Bytes → ApiRateLimiter → Bool × ApiRateLimiter
unfolding at_second count_request
allow_limited limit sec ip rl =
    let next = count_request ip (at_second sec rl) in (leb (next.buckets ip) limit, next)

-- `allow`
unfoldable pub allow : ℤ → ℕ → Bytes → ApiRateLimiter → Bool × ApiRateLimiter
unfolding allow_limited
allow (negsuc n) sec ip rl = (true, rl)
allow (pos zero) sec ip rl = (true, rl)
allow (pos (suc n)) sec ip rl = allow_limited (suc n) sec ip rl

-- What the middleware reads of a request; a header that is missing is empty.
pub record ApiRequest : Type 0 where
  pub remote_addr : Bytes
  pub x_forwarded_for : Bytes
  pub x_real_ip : Bytes
  pub x_api_key : Bytes
  pub authorization : Bytes

unfoldable pub client_ip : ApiRequest → Bytes → Bytes
unfolding split_host equal cut trim_space
client_ip r trusted =
    let remote = split_host r.remote_addr in
    if not (is_nil trusted) && equal remote trusted && not (is_nil r.x_forwarded_for)
    then trim_space (cut b',' r.x_forwarded_for).0
    else if not (is_nil trusted) && equal remote trusted && not (is_nil r.x_real_ip)
    then r.x_real_ip
    else remote

-- The key that a request shows.
unfoldable pub request_key : ApiRequest → Bytes
unfolding has_prefix
request_key r =
    if is_nil r.x_api_key
    then (if has_prefix r.authorization (codes "Bearer ") then drop 7 r.authorization else [])
    else r.x_api_key

-- The test of requireAuth
unfoldable pub is_authorized : Config → ApiRequest → Bool
unfolding request_key constant_time_equal
is_authorized cfg r =
    if is_nil cfg.api_key then true else constant_time_equal (request_key r) cfg.api_key

-- What withRateLimit and requireAuth, in this order, make of a request.
pub data Verdict : Type 0 where
  rate_limited : Verdict
  unauthorized : Verdict
  served : Verdict

unfoldable pub guard_request : Config → ℕ → ApiRequest → ApiRateLimiter → Verdict × ApiRateLimiter
unfolding client_ip allow is_authorized
guard_request cfg now r rl =
    let (allowed, next) = allow cfg.rate_limit now (client_ip r cfg.trusted_proxy) rl in
    if not allowed
    then (rate_limited, next)
    else if is_authorized cfg r
    then (served, next)
    else (unauthorized, next)

pub guard_request_lem :
    (cfg : Config) (now : ℕ) (r : ApiRequest) (rl : ApiRateLimiter)
    → guard_request cfg now r rl ≡ (
        let (allowed, next) = allow cfg.rate_limit now (client_ip r cfg.trusted_proxy) rl in
        if not allowed
        then (rate_limited, next)
        else if is_authorized cfg r
        then (served, next)
        else (unauthorized, next))
unfolding guard_request
guard_request_lem cfg now r rl = refl

-- queryInt, on the value of the parameter
unfoldable pub query_int : Bytes → ℤ → ℤ
unfolding atoi
query_int v default = if is_nil v then default else (elim (atoi v) [ none ↦ default | some n ↦ n ])
