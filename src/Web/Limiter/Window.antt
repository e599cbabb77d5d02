-- ===== src/Web/Limiter/Window.antt =====
-- How many failed logins of one address the limiter lets through in a minute.
use mathlib.Core.Path.{subst}
use zaman.Base.{
  ℕ, ◌≤◌, ◌<◌, ◌≡◌, refl, sym, ap, ◌∙◌, Bool, true, false, ◌&&◌, Option, none, some, List, [], ◌∷◌,
  ◌++◌, if◌then◌else◌, if_splits, leb, not, is_nil, arith, length, length-append, Bool-cases, inl,
  inr,
}
use zaman.Text.{Bytes, equal}
use zaman.Text.Split.{equal_iff, equal_refl}
use zaman.Web.User.{User, Mac}
use zaman.Web.Session.{Request, get_user, client_ip, do_login}
use zaman.Web.Limiter.{
  RateLimiter, new_rate_limiter, record_attempt, kept_attempts, allow, Answer, invalid, too_many,
  signed_in, LoginRequest, get_page, post_form, other_method, login_answer, try_login, handle_login,
}
use zaman.Web.Limiter.Kept.{
  in_last_minute, length-kept_attempts, kept_kept, kept-append, length-kept, set_attempts_lem,
}

-- A request as it comes in: its time, its headers and its form. `failed` says whether a login failed.
pub record Arrival : Type 0 where
  pub now : ℕ
  pub request : Request
  pub form : LoginRequest

-- The clock does not go back.
abbrev pub IsOrdered : ℕ → List Arrival → Type 0
IsOrdered now [] = Unit {0}
IsOrdered now (a ∷ arrivals) = (now ≤ a.now) × IsOrdered a.now arrivals

abbrev pub last_time : ℕ → List Arrival → ℕ
last_time now [] = now
last_time now (a ∷ arrivals) = last_time a.now arrivals

abbrev is_invalid : Answer → Bool
is_invalid invalid = true
is_invalid _ = false

-- The log of the failed logins of an address agrees with the limiter on the last minute, which has
-- at most five of them.
record IsLogged (ip : Bytes) (now : ℕ) (rl : RateLimiter) (log : List ℕ) : Type 0 where
  agrees : kept_attempts now log ≡ kept_attempts now (rl ip)
  at_most : length (kept_attempts now log) ≤ 5

later-IsLogged :
    (ip : Bytes) (now later : ℕ) (rl : RateLimiter) (log : List ℕ)
    → now ≤ later
    → IsLogged ip now rl log
    → IsLogged ip later rl log
later-IsLogged ip now later rl log h l = record {
  agrees =
      sym (kept_kept now later log h)
      ∙ ap (kept_attempts later) l.agrees
      ∙ kept_kept now later (rl ip) h;
  at_most = omega (arith, l.at_most, length-kept now later log h);
}

abbrev log_answer : Bytes → Bytes → ℕ → Answer → List ℕ → List ℕ
log_answer ip of_ip now answer log =
    if is_invalid answer && equal of_ip ip then log ++ now ∷ [] else log

allow_lem :
    (now : ℕ) (of_ip ip : Bytes) (rl : RateLimiter)
    → (allow now of_ip rl).1 ip ≡ (if equal of_ip ip then kept_attempts now (rl of_ip) else rl ip)
unfolding allow
allow_lem now of_ip ip rl = set_attempts_lem of_ip (kept_attempts now (rl of_ip)) rl ip

allow-IsLogged :
    (ip of_ip : Bytes) (now : ℕ) (rl : RateLimiter) (log : List ℕ)
    → IsLogged ip now rl log
    → IsLogged ip now (allow now of_ip rl).1 log
allow-IsLogged ip of_ip now rl log l = record {
  agrees = elim (Bool-cases (equal of_ip ip)) [
    | inl e ↦ rw allow_lem (
        rw e (
          l.agrees
          ∙ sym (kept_kept now now (rl ip) (omega arith))
          ∙ ap (λ i. kept_attempts now (kept_attempts now (rl i)))
              (sym ((equal_iff of_ip ip).0 e))))
    | inr e ↦ rw allow_lem (rw e l.agrees)
  ];
  at_most = l.at_most;
}

record_lem :
    (now : ℕ) (of_ip ip : Bytes) (rl : RateLimiter)
    → record_attempt now of_ip rl ip ≡ (if equal of_ip ip then rl of_ip ++ now ∷ [] else rl ip)
unfolding record_attempt
record_lem now of_ip ip rl = set_attempts_lem of_ip (rl of_ip ++ now ∷ []) rl ip

allow-limit :
    (now : ℕ) (ip : Bytes) (rl : RateLimiter)
    → (allow now ip rl).0 ≡ true
    → length (kept_attempts now (rl ip)) < 5
unfolding allow
allow-limit now ip rl h = ground (arith, h)

kept-one : (now : ℕ) → length (kept_attempts now (now ∷ [])) ≤ 1
unfolding kept_attempts
kept-one now = ground arith

record-IsLogged :
    (ip : Bytes) (now : ℕ) (rl : RateLimiter) (log : List ℕ)
    → length (kept_attempts now log) < 5
    → IsLogged ip now rl log
    → IsLogged ip now (record_attempt now ip rl) (log ++ now ∷ [])
record-IsLogged ip now rl log limit l = record {
  agrees =
      rw (record_lem, equal_refl)
        (kept-append now log (now ∷ [])
          ∙ ap (λ xs. xs ++ kept_attempts now (now ∷ [])) l.agrees
          ∙ sym (kept-append now (rl ip) (now ∷ [])));
  at_most = omega (
    arith,
    limit,
    kept-one now,
    ap length (kept-append now log (now ∷ [])),
    length-append (kept_attempts now log) (kept_attempts now (now ∷ [])),
  );
}

record_other-IsLogged :
    (ip of_ip : Bytes) (now : ℕ) (rl : RateLimiter) (log : List ℕ)
    → equal of_ip ip ≡ false
    → IsLogged ip now rl log
    → IsLogged ip now (record_attempt now of_ip rl) log
record_other-IsLogged ip of_ip now rl log h l = record {
  agrees = rw (record_lem, h) l.agrees;
  at_most = l.at_most;
}

module _ (mac : Mac) (api_key secret : Bytes) (users : List User) where
  log_limit :
      (ip of_ip : Bytes) (now : ℕ) (rl : RateLimiter) (log : List ℕ)
      → IsLogged ip now rl log
      → (allow now of_ip rl).0 ≡ true
      → equal of_ip ip ≡ true
      → length (kept_attempts now log) < 5
  log_limit ip of_ip now rl log l e here = omega (
    arith,
    allow-limit now of_ip rl e,
    ap length l.agrees,
    ap (λ i. length (kept_attempts now (rl i))) ((equal_iff of_ip ip).0 here),
  )

  try_login-IsLogged :
      (ip of_ip username password : Bytes) (now : ℕ) (rl : RateLimiter) (log : List ℕ)
      → IsLogged ip now rl log
      → (let (answer, next) =
            try_login mac secret now of_ip username password users (allow now of_ip rl) in
          IsLogged ip now next (log_answer ip of_ip now answer log))
  try_login-IsLogged ip of_ip username password now rl log l =
      let allowed = allow-IsLogged ip of_ip now rl log l in
      let token = do_login mac secret now username password users in
      elim (Bool-cases (allow now of_ip rl).0) [
        | inr e ↦ rw e allowed
        | inl e ↦ rw e (elim (Bool-cases (is_nil token)) [
          | inr good ↦ rw good allowed
          | inl bad ↦ rw bad (elim (Bool-cases (equal of_ip ip)) [
            | inr elsewhere ↦
                rw elsewhere (record_other-IsLogged ip of_ip now _ log elsewhere allowed)
            | inl here ↦ rw here (
                subst
                  (λ i.
                    IsLogged ip now (record_attempt now i (allow now of_ip rl).1) (log ++ now ∷ []))
                  (sym ((equal_iff of_ip ip).0 here))
                  (record-IsLogged ip now (allow now of_ip rl).1 log
                    (log_limit ip of_ip now rl log l e here) allowed))
          ])
        ])
      ]

  login_answer-invalid : (u : Option User) → is_invalid (login_answer u) ≡ false
  login_answer-invalid none = refl
  login_answer-invalid (some u) = refl

  handle_login-IsLogged :
      (ip : Bytes) (now : ℕ) (r : Request) (form : LoginRequest) (rl : RateLimiter) (log : List ℕ)
      → IsLogged ip now rl log
      → (let (answer, next) = handle_login mac api_key secret now r form users rl in
          IsLogged ip now next (log_answer ip (client_ip r) now answer log))
  unfolding handle_login
  handle_login-IsLogged ip now r get_page rl log l =
      rw (login_answer-invalid (get_user mac api_key secret now r)) l
  handle_login-IsLogged ip now r (post_form username password) rl log l =
      try_login-IsLogged ip (client_ip r) username password now rl log l
  handle_login-IsLogged ip now r other_method rl log l = l

  -- The limiter after the requests, and the times of the failed logins of one address.
  unfoldable pub logins : Bytes → List Arrival → RateLimiter × List ℕ → RateLimiter × List ℕ
  logins ip [] (rl, log) = (rl, log)
  logins ip (a ∷ arrivals) (rl, log) =
      let (answer, next) = handle_login mac api_key secret a.now a.request a.form users rl in
      logins ip arrivals (next, log_answer ip (client_ip a.request) a.now answer log)

  logins-IsLogged :
      (ip : Bytes) (now : ℕ) (arrivals : List Arrival) (rl : RateLimiter) (log : List ℕ)
      → IsOrdered now arrivals
      → IsLogged ip now rl log
      → (let (last, all) = logins ip arrivals (rl, log) in
          IsLogged ip (last_time now arrivals) last all)
  unfolding logins
  logins-IsLogged ip now [] rl log o l = l
  logins-IsLogged ip now (a ∷ arrivals) rl log o l = logins-IsLogged ip a.now arrivals _ _ o.1 (
      handle_login-IsLogged ip a.now a.request a.form rl log
        (later-IsLogged ip now a.now rl log o.0 l))

abbrev pub is_too_many : Answer → Bool
is_too_many too_many = true
is_too_many _ = false

try_login-too_many :
    (mac : Mac) (secret : Bytes) (now : ℕ) (ip username password : Bytes) (users : List User)
    (allowed : Bool × RateLimiter)
    → is_too_many (try_login mac secret now ip username password users allowed).0 ≡ not allowed.0
try_login-too_many mac secret now ip username password users (false, rl) = refl
try_login-too_many mac secret now ip username password users (true, rl) =
    if_splits (λ (answer : Answer × RateLimiter). is_too_many answer.0 ≡ false)
      (is_nil (do_login mac secret now username password users)) (invalid, record_attempt now ip rl)
      (signed_in (do_login mac secret now username password users), rl) (λ e. refl) (λ e. refl)

allow-refuses :
    (now : ℕ) (ip : Bytes) (rl : RateLimiter)
    → not (allow now ip rl).0 ≡ leb 5 (length (kept_attempts now (rl ip)))
unfolding allow
allow-refuses now ip rl = ground arith

-- However many requests have come to /login, in whatever mix of addresses, at most five failed logins
-- of an address lie in the minute up to the last request; and a password that comes from the address
-- later on is refused unseen exactly if five of its failed logins lie in the minute up to then. The
-- clock does not go back, and each request is handled before the next.
pub logins-window :
    (mac : Mac) (api_key secret : Bytes) (users : List User) (start : ℕ) (arrivals : List Arrival)
    (now : ℕ) (r : Request) (username password : Bytes)
    → IsOrdered start arrivals
    → last_time start arrivals ≤ now
    → let (rl, failures) =
        logins mac api_key secret users (client_ip r) arrivals (new_rate_limiter, []) in
      (in_last_minute (last_time start arrivals) failures ≤ 5)
      × (is_too_many
            (handle_login mac api_key secret now r (post_form username password) users rl).0
          ≡ leb 5 (in_last_minute now failures))
unfolding handle_login
logins-window mac api_key secret users start arrivals now r username password o later =
    let ip = client_ip r in
    let run = logins mac api_key secret users ip arrivals (new_rate_limiter, []) in
    let l =
      logins-IsLogged mac api_key secret users ip start arrivals new_rate_limiter [] o
        (record { agrees = refl; at_most = omega arith }) in
    let until_now = later-IsLogged ip (last_time start arrivals) now run.0 run.1 later l in
    (
      omega (arith, l.at_most, length-kept_attempts (last_time start arrivals) run.1),
      try_login-too_many mac secret now ip username password users (allow now ip run.0)
          ∙ allow-refuses now ip run.0
          ∙ ap (leb 5) (ap length (sym until_now.agrees) ∙ length-kept_attempts now run.1),
    )
