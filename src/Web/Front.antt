-- ===== src/Web/Front.antt =====
-- The handlers of web/main.go that forward to the core or serve static files, and the way of a request
-- from there through the middleware of core-go/api.go.
use zaman.Base.{
  ℕ, ◌≡◌, refl, Bool, true, false, not, ◌&&◌, ◌||◌, none, some, if◌then◌else◌, is_nil, arith,
  Bool-cases, inl, inr,
}
use zaman.Text.{Bytes, codes, equal, has_prefix}
use zaman.Text.Split.{equal_refl}
use zaman.Core.Config.{Config}
use zaman.Hep.Auth.{constant_time_equal}
use zaman.Api.{ApiRequest, request_key, is_authorized}
use zaman.Web.User.{Mac}
use zaman.Web.Session.{Request, get_user}

-- `authOn`, `apiKey` and `tokenSecret`
pub record FrontConfig : Type 0 where
  pub auth_on : Bool
  pub api_key : Bytes
  pub token_secret : Bytes

pub data FrontReply : Type 0 where
  forwarded : Request → FrontReply
  unauthorized to_login : FrontReply
  static_file : Bytes → FrontReply

-- The Director of the proxy
unfoldable pub direct : Bytes → Request → Request
direct api_key r = if is_nil api_key then r else record r { x_api_key = api_key }

module _ (mac : Mac) (front : FrontConfig) (now : ℕ) where
  unfoldable pub has_user : Request → Bool
  unfolding get_user
  has_user r = elim (get_user mac front.api_key front.token_secret now r) [
    | none ↦ false
    | some u ↦ true
  ]

  -- `if authOn { if u := getUser(r, tokenSecret); u == nil`
  abbrev is_refused : Request → Bool
  unfolding has_user
  is_refused r = front.auth_on && not (has_user r)

  unfoldable pub handle_api : Request → FrontReply
  unfolding has_user direct
  handle_api r = if is_refused r then unauthorized else forwarded (direct front.api_key r)

  unfoldable pub handle_metrics : Request → FrontReply
  unfolding direct
  handle_metrics r = forwarded (direct front.api_key r)

  -- The file server is asked for `/` where there is no file of the path.
  unfoldable pub handle_static : (Bytes → Bool) → Bytes → Request → FrontReply
  unfolding has_user equal
  handle_static is_file path r =
      if not (equal path (codes "/login")) && is_refused r
      then to_login
      else static_file
          (if not (equal path (codes "/")) && not (is_file path) then codes "/" else path)

  -- The mux, on the paths that no other pattern takes.
  unfoldable pub handle_front : (Bytes → Bool) → Bytes → Request → FrontReply
  unfolding handle_api handle_metrics handle_static has_prefix equal
  handle_front is_file path r =
      if has_prefix path (codes "/api/")
      then handle_api r
      else if equal path (codes "/metrics")
      then handle_metrics r
      else handle_static is_file path r

-- The request that the core gets, from the front end's own address.
unfoldable pub core_request : Bytes → Bytes → Request → ApiRequest
core_request peer forwarded_for r = record {
  remote_addr = peer;
  x_forwarded_for = forwarded_for;
  x_real_ip = r.x_real_ip;
  x_api_key = r.x_api_key;
  authorization = r.authorization;
}

-- Does the core take the request for an authorized one?
pub reaches_core : Config → Bytes → Bytes → FrontReply → Bool
unfolding is_authorized core_request
reaches_core cfg peer forwarded_for (forwarded r) =
    is_authorized cfg (core_request peer forwarded_for r)
reaches_core cfg peer forwarded_for _ = false

direct-authorized :
    (cfg : Config) (peer forwarded_for api_key : Bytes) (r : Request)
    → api_key ≡ cfg.api_key
    → is_authorized cfg (core_request peer forwarded_for (direct api_key r)) ≡ true
unfolding is_authorized core_request direct request_key constant_time_equal
direct-authorized cfg peer forwarded_for api_key r e = ground (arith, e, equal_refl api_key)

module _ (cfg : Config) (peer forwarded_for : Bytes) where
  unless_refused :
      (auth_on user : Bool) (reply : FrontReply)
      → reaches_core cfg peer forwarded_for reply ≡ true
      → reaches_core cfg peer forwarded_for (if auth_on && not user then unauthorized else reply)
        ≡ (not auth_on || user)
  unfolding reaches_core
  unless_refused true true reply h = h
  unless_refused true false reply h = refl
  unless_refused false user reply h = h

  static_or_login :
      (b : Bool) (path : Bytes)
      → reaches_core cfg peer forwarded_for (if b then to_login else static_file path) ≡ false
  unfolding reaches_core
  static_or_login true path = refl
  static_or_login false path = refl

-- Where the front end has the core's key, a request gets through to the core's data if its path is
-- /metrics, or starts with /api/ and logins are off or it has a user; no other does. No login is asked
-- for on /metrics.
pub handle_front-core :
    (mac : Mac) (front : FrontConfig) (now : ℕ) (cfg : Config) (is_file : Bytes → Bool)
    (peer forwarded_for path : Bytes) (r : Request)
    → front.api_key ≡ cfg.api_key
    → reaches_core cfg peer forwarded_for (handle_front mac front now is_file path r) ≡ (
        if has_prefix path (codes "/api/")
        then not front.auth_on || has_user mac front now r
        else equal path (codes "/metrics"))
unfolding handle_front handle_api handle_metrics handle_static reaches_core
handle_front-core mac front now cfg is_file peer forwarded_for path r shared =
    elim (Bool-cases (has_prefix path (codes "/api/"))) [
      | inl api ↦ rw api (
          unless_refused cfg peer forwarded_for front.auth_on (has_user mac front now r)
            (forwarded (direct front.api_key r))
            (direct-authorized cfg peer forwarded_for front.api_key r shared))
      | inr other ↦ elim (Bool-cases (equal path (codes "/metrics"))) [
        | inl metrics ↦
            rw (other, metrics) (direct-authorized cfg peer forwarded_for front.api_key r shared)
        | inr static ↦
            rw (other, static)
              (static_or_login cfg peer forwarded_for
                (not (equal path (codes "/login"))
                  && (front.auth_on && not (has_user mac front now r)))
                (if not (equal path (codes "/")) && not (is_file path) then codes "/" else path))
      ]
    ]
