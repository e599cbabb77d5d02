-- ===== src/Api/Rate.antt =====
-- How many requests of one address the API lets through in a second.
use mathlib.Core.Path.{subst}
use zaman.Base.{
  ℕ, suc, ◌-◌, ◌≤◌, ◌≡◌, refl, sym, ap, ◌∙◌, Bool, true, false, ◌&&◌, List, [], ◌∷◌, ltb, ◌==◌,
  if◌then◌else◌, arith, Bool-cases, inl, inr,
}
use zaman.Text.{Bytes, equal}
use zaman.Text.Split.{equal_iff, equal_refl}
use zaman.Text.Decimal.{pos}
use zaman.Core.Config.{Config}
use zaman.Api.{
  ApiRateLimiter, new_api_rate_limiter, at_second, count_request, allow_limited, allow, ApiRequest,
  client_ip, is_authorized, Verdict, rate_limited, guard_request,
}

-- A request and the second in which it comes.
pub record ApiArrival : Type 0 where
  pub second : ℕ
  pub request : ApiRequest

-- The clock does not go back.
abbrev pub IsOrdered : ℕ → List ApiArrival → Type 0
IsOrdered now [] = Unit {0}
IsOrdered now (a ∷ arrivals) = (now ≤ a.second) × IsOrdered a.second arrivals

abbrev is_passed : Verdict → Bool
is_passed rate_limited = false
is_passed _ = true

-- How many requests of an address pass the limiter in a second.
unfoldable pub passed : Config → Bytes → ℕ → List ApiArrival → ApiRateLimiter → ℕ
passed cfg ip sec [] rl = 0
passed cfg ip sec (a ∷ arrivals) rl =
    let (verdict, next) = guard_request cfg a.second a.request rl in
    let rest = passed cfg ip sec arrivals next in
    if is_passed verdict && a.second == sec && equal (client_ip a.request cfg.trusted_proxy) ip
    then suc rest
    else rest

-- How many more may pass, by the limiter's state.
left : ℕ → Bytes → ℕ → ApiRateLimiter → ℕ
left limit ip sec rl =
    if sec == rl.second then limit - rl.buckets ip else if ltb sec rl.second then 0 else limit

left-allow_limited :
    (limit : ℕ) (ip : Bytes) (sec now : ℕ) (of_ip : Bytes) (rl : ApiRateLimiter)
    → rl.second ≤ now
    → (let (allowed, next) = allow_limited limit now of_ip rl in
        ((if allowed && now == sec && equal of_ip ip
            then suc (left limit ip sec next)
            else left limit ip sec next)
          ≤ left limit ip sec rl)
        × (next.second ≡ now))
unfolding left allow_limited at_second count_request
left-allow_limited limit ip sec now of_ip rl h =
    ground (arith, h, equal_refl of_ip, equal_iff of_ip ip)

allow-limited :
    (n now : ℕ) (ip : Bytes) (rl : ApiRateLimiter)
    → allow (pos (suc n)) now ip rl ≡ allow_limited (suc n) now ip rl
unfolding allow
allow-limited n now ip rl = refl

guard_request_lem :
    (cfg : Config) (now : ℕ) (r : ApiRequest) (rl : ApiRateLimiter)
    → (let (verdict, next) = guard_request cfg now r rl in
        let (allowed, after) = allow cfg.rate_limit now (client_ip r cfg.trusted_proxy) rl in
        (is_passed verdict ≡ allowed) × (next ≡ after))
unfolding guard_request
guard_request_lem cfg now r rl =
    elim (Bool-cases (allow cfg.rate_limit now (client_ip r cfg.trusted_proxy) rl).0) [
      | inr above ↦ rw above (refl, refl)
      | inl below ↦ rw below (elim (Bool-cases (is_authorized cfg r)) [
        | inl good ↦ rw good (refl, refl)
        | inr bad ↦ rw bad (refl, refl)
      ])
    ]

guard_request-allow :
    (cfg : Config) (n now : ℕ) (r : ApiRequest) (rl : ApiRateLimiter)
    → cfg.rate_limit ≡ pos (suc n)
    → (let (verdict, next) = guard_request cfg now r rl in
        let (allowed, after) = allow_limited (suc n) now (client_ip r cfg.trusted_proxy) rl in
        (is_passed verdict ≡ allowed) × (next ≡ after))
guard_request-allow cfg n now r rl e =
    let (verdict, next) = guard_request_lem cfg now r rl in
    let same =
      ap (λ limit. allow limit now (client_ip r cfg.trusted_proxy) rl) e
      ∙ allow-limited n now (client_ip r cfg.trusted_proxy) rl in
    (verdict ∙ ap (λ p. p.0) same, next ∙ ap (λ p. p.1) same)

passed-left :
    (cfg : Config) (n : ℕ) (ip : Bytes) (sec : ℕ) (arrivals : List ApiArrival) (rl : ApiRateLimiter)
    → cfg.rate_limit ≡ pos (suc n)
    → IsOrdered rl.second arrivals
    → passed cfg ip sec arrivals rl ≤ left (suc n) ip sec rl
unfolding passed
passed-left cfg n ip sec [] rl e o = omega arith
passed-left cfg n ip sec (a ∷ arrivals) rl e o =
    let of_ip = client_ip a.request cfg.trusted_proxy in
    let (verdict, after) = guard_request-allow cfg n a.second a.request rl e in
    let (step, second) = left-allow_limited (suc n) ip sec a.second of_ip rl o.0 in
    let next = (guard_request cfg a.second a.request rl).1 in
    let rest =
      passed-left cfg n ip sec arrivals next e
        (subst (λ t. IsOrdered t arrivals) (sym (ap (λ l. l.second) after ∙ second)) o.1) in
    ground (arith, verdict, step, rest, ap (left (suc n) ip sec) after)

-- With a limit above 0, no more requests of one address get past the limiter in any one second than
-- the limit, whatever other addresses send between them; the clock does not go back.
pub passed-limit :
    (cfg : Config) (n : ℕ) (ip : Bytes) (sec : ℕ) (arrivals : List ApiArrival)
    → cfg.rate_limit ≡ pos (suc n)
    → IsOrdered 0 arrivals
    → passed cfg ip sec arrivals new_api_rate_limiter ≤ suc n
unfolding left
passed-limit cfg n ip sec arrivals e o =
    ground (arith, passed-left cfg n ip sec arrivals new_api_rate_limiter e o)
