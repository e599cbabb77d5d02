-- ===== src/Web/Session.antt =====
-- getUser, clientIP and doLogin of web/main.go.
use zaman.Base.{
  ℕ, suc, Bool, true, false, not, ◌&&◌, Option, none, some, List, [], ◌∷◌, ◌==◌, if◌then◌else◌,
  is_nil, drop, take,
}
use zaman.Text.{Bytes, codes, equal, has_prefix, trim_space}
use zaman.Text.Decimal.{pos}
use zaman.Hep.Auth.{index_byte, last_index_byte}
use zaman.Web.User.{User, Mac, hash_pw}
use zaman.Web.Token.{make_token, session_user, verify_token}

-- What the handlers read of a request: the headers, empty where they are missing, the session
-- cookie, and the peer's address.
pub record Request : Type 0 where
  pub x_api_key : Bytes
  pub authorization : Bytes
  pub cookie : Option Bytes
  pub x_forwarded_for : Bytes
  pub x_real_ip : Bytes
  pub remote_addr : Bytes

-- The user of a request that shows the API key.
abbrev pub api_user : User
api_user = session_user (pos 0) (codes "api") (codes "admin")

-- `hmac.Equal` of a key with the server's, which must not be empty
abbrev is_key : Bytes → Bytes → Bool
is_key api_key k = not (is_nil api_key) && equal k api_key

abbrev cookie_user : Mac → Bytes → ℕ → Option Bytes → Option User
cookie_user mac secret now none = none
cookie_user mac secret now (some value) =
    if is_nil value then none else verify_token mac secret now value

unfoldable pub get_user : Mac → Bytes → Bytes → ℕ → Request → Option User
unfolding equal has_prefix verify_token
get_user mac api_key secret now r =
    if not (is_nil r.x_api_key) && is_key api_key r.x_api_key
    then some api_user
    else if has_prefix r.authorization (codes "Bearer ") && is_key api_key (drop 7 r.authorization)
    then some api_user
    else cookie_user mac secret now r.cookie

-- The text in front of a byte, if it stands behind the first place.
abbrev before_byte : Option ℕ → Bytes → Bytes
before_byte (some (suc i)) s = take (suc i) s
before_byte _ s = s

unfoldable pub client_ip : Request → Bytes
unfolding trim_space index_byte
client_ip r =
    if not (is_nil r.x_forwarded_for)
    then trim_space (before_byte (index_byte b',' r.x_forwarded_for) r.x_forwarded_for)
    else if not (is_nil r.x_real_ip)
    then r.x_real_ip
    else before_byte (last_index_byte b':' r.remote_addr) r.remote_addr

-- Is the password that of the user: first with the user's rounds, or 1000 where there are none, and
-- then once more with 1000 where there are none.
unfoldable pub password_ok : Mac → Bytes → User → Bool
unfolding equal
password_ok mac password u =
    let rounds = if u.rounds == 0 then 1000 else u.rounds in
    if equal (hash_pw mac u.salt password rounds) u.pw_hash
    then true
    else if u.rounds == 0
    then equal (hash_pw mac u.salt password 1000) u.pw_hash
    else false

-- doLogin: a token, or an empty text.
unfoldable pub do_login : Mac → Bytes → ℕ → Bytes → Bytes → List User → Bytes
unfolding password_ok make_token equal
do_login mac secret now username password [] = []
do_login mac secret now username password (u ∷ users) =
    let rest = do_login mac secret now username password users in
    if equal u.name username
    then (if password_ok mac password u then make_token mac secret now u else [])
    else rest
