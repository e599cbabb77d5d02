-- ===== src/Api/Stats.antt =====
-- The route /api/stats of core-go/api.go, whose handler calls the mux with the same request again.
use zaman.Base.{ℕ, zero, suc, ◌≡◌, refl, ◌∙◌, true, false, Option, none, some, arith}
use zaman.Text.{Bytes}
use zaman.Text.Decimal.{ℤ, pos, negsuc, is_pos}
use zaman.Core.Config.{Config}
use zaman.Api.{
  ApiRateLimiter, ApiRequest, client_ip, allow, is_authorized, Verdict, rate_limited, unauthorized,
  served, guard_request, guard_request_lem,
}

-- What the middleware answers, or what the handler does with the limiter that it leaves.
unfoldable pub answer :
    (ApiRateLimiter → Option (Verdict × ApiRateLimiter))
    → Verdict × ApiRateLimiter
    → Option (Verdict × ApiRateLimiter)
answer handler (served, next) = handler next
answer handler (rate_limited, next) = some (rate_limited, next)
answer handler (unauthorized, next) = some (unauthorized, next)

-- The calls of the handler, at most as many as the fuel; `clock` is the second at which the middleware
-- looks with so much fuel left. `none` where the fuel ends before an answer.
unfoldable pub stats :
    ℕ → (ℕ → ℕ) → Config → ApiRequest → ApiRateLimiter → Option (Verdict × ApiRateLimiter)
unfolding answer
stats zero clock cfg r rl = none
stats (suc fuel) clock cfg r rl =
    answer (λ next. stats fuel clock cfg r next) (guard_request cfg (clock fuel) r rl)

allow_unlimited :
    (limit : ℤ) (now : ℕ) (ip : Bytes) (rl : ApiRateLimiter)
    → is_pos limit ≡ false
    → allow limit now ip rl ≡ (true, rl)
unfolding allow
allow_unlimited (pos zero) now ip rl h = refl
allow_unlimited (pos (suc n)) now ip rl h = absurd (ground (arith, h))
allow_unlimited (negsuc n) now ip rl h = refl

guard_request_unlimited :
    (cfg : Config) (now : ℕ) (r : ApiRequest) (rl : ApiRateLimiter)
    → is_pos cfg.rate_limit ≡ false
    → is_authorized cfg r ≡ true
    → guard_request cfg now r rl ≡ (served, rl)
guard_request_unlimited cfg now r rl unlimited key =
    guard_request_lem cfg now r rl
    ∙ rw (allow_unlimited cfg.rate_limit now (client_ip r cfg.trusted_proxy) rl unlimited, key) refl

-- Without a rate limit, a request for /api/stats that may be served is never answered: however often
-- the handler has called itself, it calls itself again.
pub stats-unanswered :
    (fuel : ℕ) (clock : ℕ → ℕ) (cfg : Config) (r : ApiRequest) (rl : ApiRateLimiter)
    → is_pos cfg.rate_limit ≡ false
    → is_authorized cfg r ≡ true
    → stats fuel clock cfg r rl ≡ none
unfolding stats answer
stats-unanswered zero clock cfg r rl unlimited key = refl
stats-unanswered (suc fuel) clock cfg r rl unlimited key =
    rw (guard_request_unlimited cfg (clock fuel) r rl unlimited key)
      (stats-unanswered fuel clock cfg r rl unlimited key)
