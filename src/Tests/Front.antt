-- ===== src/Tests/Front.antt =====
-- The web front end, the API's limiter and the quoting of the reports.
use zaman.Base.{
  not, ◌||◌, ℕ, zero, suc, ◌+◌, ◌-◌, get_or, ◌%◌, ◌^◌, ◌<◌, ◌≤◌, ◌≡◌, refl, true, false, none, some,
  List, [], ◌∷◌, ◌++◌, ltb, leb, if◌then◌else◌, length, replicate, length-replicate, All, arith,
}
use zaman.Text.{Bytes, codes, equal, has_prefix, split}
use zaman.Text.Base64.{IsByte, decode}
use zaman.Text.Decimal.{pos, ltb_ℤ, parse_int}
use zaman.Core.Config.{Config, load_config}
use zaman.Web.User.{User, Mac}
use zaman.Web.Token.{make_token, session_user, read_payload, verify_token}
use zaman.Web.Token.RoundTrip.{verify_token-make_token}
use zaman.Web.Token.Signed.{verify_token-signed}
use zaman.Web.Session.{Request, client_ip, do_login}
use zaman.Web.Users.{NewUser, ok, max_id, name_taken, role_of, post_user, handle_users, is_admin}
use zaman.Web.Users.Unique.{id_taken, IsUsers, handle_users-IsUsers}
use zaman.Web.Users.Access.{create-login-verify}
use zaman.Web.Limiter.{new_rate_limiter, post_form, handle_login}
use zaman.Web.Limiter.Kept.{in_last_minute}
use zaman.Web.Limiter.Window.{Arrival, last_time, logins, is_too_many, logins-window}
use zaman.Web.Front.{FrontConfig, has_user, handle_front, reaches_core, handle_front-core}
use zaman.Web.Stores.{Search, NodeNames}
use zaman.Api.{new_api_rate_limiter}
use zaman.Api.Rate.{ApiArrival, passed, passed-limit}

-- A MAC of 64 characters.
abbrev test_mac : Mac
test_mac key text = replicate 64 (length text % 10 + b'0')

replicate-IsByte : (n c : ℕ) → c < 256 → All IsByte (replicate n c)
replicate-IsByte zero c h = tt
replicate-IsByte (suc n) c h = (h, replicate-IsByte n c h)

test_mac_lem :
    (text : Bytes)
    → (length (test_mac (codes "key") text) ≡ 64) × All IsByte (test_mac (codes "key") text)
test_mac_lem text = (
  length-replicate 64 (length text % 10 + b'0'),
  replicate-IsByte 64 (length text % 10 + b'0') (omega arith),
)

abbrev admin : User
admin = record {
  id = pos 1;
  name = codes "admin";
  pw_hash = [];
  salt = [];
  pw_algo = [];
  rounds = 0;
  role = codes "admin";
}

verify_token-make_token_example :
    verify_token test_mac (codes "key") 5000 (make_token test_mac (codes "key") 1000 admin)
    ≡ (if ltb (1000 + 86400) 5000 then none else some (session_user admin.id admin.name admin.role))
verify_token-make_token_example =
    verify_token-make_token test_mac (codes "key") 1000 5000 1 admin test_mac_lem refl (omega arith)
      (omega arith) (ground arith) (ground arith) (ground arith)

abbrev token : Bytes
token = make_token test_mac (codes "key") 1000 admin

accepted :
    verify_token test_mac (codes "key") 5000 token
    ≡ some (session_user admin.id admin.name admin.role)
accepted =
    verify_token-make_token test_mac (codes "key") 1000 5000 1 admin test_mac_lem refl (omega arith)
      (omega arith) (ground arith) (ground arith) (ground arith)

verify_token-signed_example :
    (payload : Bytes) × (decode token ≡ some (payload ++ b':' ∷ test_mac (codes "key") payload))
    × (read_payload 5000 payload ≡ some (session_user admin.id admin.name admin.role))
    × (let parts = split b':' payload in
        ltb_ℤ (parse_int (get_or parts (length parts - 1) [])) 5000 ≡ false)
verify_token-signed_example =
    verify_token-signed test_mac (codes "key") 5000 token
      (session_user admin.id admin.name admin.role) accepted

abbrev body : NewUser
body = record { username = codes "eve"; password = codes "pw"; role = codes "operator" }

free : name_taken body.username (admin ∷ []) ≡ false
unfolding name_taken
free = refl

limit : max_id 0 (admin ∷ []) + 1 < 2 ^ 63
unfolding max_id
limit = omega arith

one_user : IsUsers (admin ∷ [])
unfolding name_taken id_taken
one_user = (refl, refl, tt)

may_add : is_admin (some admin) ≡ true
unfolding equal
may_add = refl

create-login-verify_example :
    (let (answer, stored) =
        handle_users test_mac (some admin) (post_user (some body) (codes "s")) (admin ∷ []) in
      let token = do_login test_mac (codes "key") 1000 body.username body.password stored in
      (answer ≡ ok)
      × (verify_token test_mac (codes "key") 5000 token ≡ (
          if ltb (1000 + 86400) 5000
          then none
          else some
              (session_user (pos (max_id 0 (admin ∷ []) + 1)) body.username (role_of body.role)))))
create-login-verify_example =
    create-login-verify test_mac (codes "key") 1000 5000 admin body (codes "s") (admin ∷ [])
      test_mac_lem may_add refl free limit (omega arith) (ground arith)

handle_users-IsUsers_example :
    IsUsers (handle_users test_mac (some admin) (post_user (some body) (codes "s")) (admin ∷ [])).1
handle_users-IsUsers_example =
    handle_users-IsUsers test_mac (some admin) (post_user (some body) (codes "s")) (admin ∷ [])
      limit one_user

abbrev login_request : Request
login_request = record {
  x_api_key = [];
  authorization = [];
  cookie = none;
  x_forwarded_for = [];
  x_real_ip = [];
  remote_addr = codes "10.0.0.9:4000";
}

abbrev login_arrival : ℕ → Arrival
login_arrival now = record {
  now = now;
  request = login_request;
  form = post_form (codes "eve") (codes "guess");
}

abbrev two_logins : List Arrival
two_logins = login_arrival 10 ∷ login_arrival 20 ∷ []

logins-window_example :
    let (rl, failures) =
      logins test_mac []
        (codes "key")
        []
        (client_ip login_request)
        two_logins
        (new_rate_limiter, []) in
    (in_last_minute (last_time 0 two_logins) failures ≤ 5)
    × (is_too_many
          (handle_login test_mac []
            (codes "key")
            30
            login_request
            (post_form (codes "eve") (codes "guess"))
            []
            rl).0
        ≡ leb 5 (in_last_minute 30 failures))
logins-window_example =
    logins-window test_mac [] (codes "key") [] 0 two_logins 30 login_request (codes "eve")
      (codes "guess") (omega arith, (omega arith, tt)) (omega arith)

abbrev saved : List Search
saved = record { id = some (pos 4); name = codes "busy"; params = [] } ∷ []

abbrev no_names : NodeNames
no_names = λ key. some (codes "old")

abbrev limited : Config
limited = record (load_config (λ key. []) []) { rate_limit = pos 2 }

abbrev api_arrival : ℕ → ApiArrival
api_arrival sec = record {
  second = sec;
  request = record {
    remote_addr = codes "10.0.0.9:4000";
    x_forwarded_for = [];
    x_real_ip = [];
    x_api_key = [];
    authorization = [];
  };
}

passed-limit_example :
    passed limited
      (codes "10.0.0.9")
      7
      (api_arrival 7 ∷ api_arrival 7 ∷ api_arrival 7 ∷ api_arrival 8 ∷ [])
      new_api_rate_limiter
    ≤ 2
passed-limit_example =
    passed-limit limited 1 (codes "10.0.0.9") 7
      (api_arrival 7 ∷ api_arrival 7 ∷ api_arrival 7 ∷ api_arrival 8 ∷ []) refl
      (omega arith, (omega arith, (omega arith, (omega arith, tt))))

abbrev front : FrontConfig
front = record { auth_on = true; api_key = codes "k"; token_secret = codes "key" }

abbrev keyed : Config
keyed = record limited { api_key = codes "k" }

abbrev with_cookie : Request
with_cookie = record login_request { cookie = some token }

handle_front-core_example :
    reaches_core keyed
      (codes "10.0.0.3:41000")
      (codes "10.0.0.9")
      (handle_front test_mac front 5000 (λ path. false) (codes "/api/messages") with_cookie)
    ≡ (if has_prefix (codes "/api/messages") (codes "/api/")
        then not front.auth_on || has_user test_mac front 5000 with_cookie
        else equal (codes "/api/messages") (codes "/metrics"))
handle_front-core_example =
    handle_front-core test_mac front 5000 keyed (λ path. false) (codes "10.0.0.3:41000")
      (codes "10.0.0.9") (codes "/api/messages") with_cookie refl
