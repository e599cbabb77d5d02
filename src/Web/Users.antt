-- ===== src/Web/Users.antt =====
-- The users of web/main.go: initAdmin and the handlers of /web/users and /web/users/password. The
-- users file is the list that loadUsers reads; saveUsers writes it. What the handlers get by decoding
-- a JSON body, and by randomHex, is an argument.
pub mod Unique
pub mod Access
use zaman.Base.{
  ℕ, zero, suc, ◌+◌, ◌-◌, ◌^◌, ◌≡◌, refl, Bool, true, false, not, ◌&&◌, ◌||◌, Option, none, some,
  List, [], ◌∷◌, ◌++◌, ltb, ◌==◌, if◌then◌else◌, is_nil, max,
}
use zaman.Text.{Bytes, codes, equal}
use zaman.Text.Decimal.{ℤ, pos, negsuc}
use zaman.Web.User.{User, Mac, hash_rounds, hash_pw}

abbrev pub equal_ℤ : ℤ → ℤ → Bool
equal_ℤ (pos m) (pos n) = m == n
equal_ℤ (negsuc m) (negsuc n) = m == n
equal_ℤ _ _ = false

pub record NewUser : Type 0 where
  pub username : Bytes
  pub password : Bytes
  pub role : Bytes

-- The answers of the handlers, by their status.
pub data Response : Type 0 where
  ok : Response
  bad_request : Response
  forbidden : Response
  not_found : Response
  method_not_allowed : Response
  conflict : Response
  users_list : List (ℤ × Bytes × Bytes) → Response

-- `maxID`, from 0 up; numbers below 0 do not raise it.
abbrev pub raise : ℤ → ℕ → ℕ
raise (pos n) m = if ltb m n then n else m
raise (negsuc n) m = m

unfoldable pub max_id : ℕ → List User → ℕ
max_id m [] = m
max_id m (u ∷ users) = max_id (raise u.id m) users

-- `maxID + 1` in an int64
unfoldable pub next_id : ℕ → ℤ
next_id m = if m + 1 == 2 ^ 63 then negsuc (2 ^ 63 - 1) else pos (m + 1)

unfoldable pub role_of : Bytes → Bytes
unfolding equal
role_of role =
    if equal role (codes "admin") || equal role (codes "operator") || equal role (codes "viewer")
    then role
    else codes "viewer"

unfoldable pub name_taken : Bytes → List User → Bool
unfolding equal
name_taken name [] = false
name_taken name (u ∷ users) = if equal u.name name then true else name_taken name users

unfoldable pub new_user : Mac → ℤ → Bytes → NewUser → User
unfolding role_of
new_user mac id salt body = record {
  id = id;
  name = body.username;
  pw_hash = hash_pw mac salt body.password hash_rounds;
  salt = salt;
  pw_algo = codes "hmac-sha256";
  rounds = hash_rounds;
  role = role_of body.role;
}

-- `POST /web/users`
unfoldable pub create_user : Mac → Option NewUser → Bytes → List User → Response × List User
unfolding max_id next_id name_taken new_user
create_user mac none salt users = (bad_request, users)
create_user mac (some body) salt users =
    if is_nil body.username || is_nil body.password
    then (bad_request, users)
    else if name_taken body.username users
    then (conflict, users)
    else (ok, users ++ new_user mac (next_id (max_id 0 users)) salt body ∷ [])

unfoldable pub without_id : ℤ → List User → List User
without_id id [] = []
without_id id (u ∷ users) =
    let rest = without_id id users in if equal_ℤ u.id id then rest else u ∷ rest

-- `DELETE /web/users`, by the user `u`
unfoldable pub delete_user : User → Option ℤ → List User → Response × List User
unfolding without_id
delete_user u none users = (bad_request, users)
delete_user u (some id) users =
    if equal_ℤ id u.id then (bad_request, users) else (ok, without_id id users)

-- `GET /web/users`: no hash is in the answer.
unfoldable pub safe_users : List User → List (ℤ × Bytes × Bytes)
safe_users [] = []
safe_users (u ∷ users) = (u.id, u.name, u.role) ∷ safe_users users

pub data UsersRequest : Type 0 where
  get_users : UsersRequest
  post_user : Option NewUser → Bytes → UsersRequest
  delete_users : Option ℤ → UsersRequest
  other_method : UsersRequest

abbrev pub is_admin : Option User → Bool
is_admin none = false
is_admin (some u) = equal u.role (codes "admin")

abbrev users_by : Mac → User → UsersRequest → List User → Response × List User
users_by mac u get_users users = (users_list (safe_users users), users)
users_by mac u (post_user body salt) users = create_user mac body salt users
users_by mac u (delete_users id) users = delete_user u id users
users_by mac u other_method users = (method_not_allowed, users)

-- The handler of /web/users, for the user that getUser found.
unfoldable pub handle_users : Mac → Option User → UsersRequest → List User → Response × List User
unfolding equal create_user delete_user safe_users
handle_users mac none req users = (forbidden, users)
handle_users mac (some u) req users =
    if is_admin (some u) then users_by mac u req users else (forbidden, users)

abbrev pub behind : User → Option (List User) → Option (List User)
behind u none = none
behind u (some users) = some (u ∷ users)

-- The loop of /web/users/password: it changes the first user that has the number.
unfoldable pub set_password : Mac → ℤ → Bytes → Bytes → List User → Option (List User)
set_password mac id password salt [] = none
set_password mac id password salt (u ∷ users) =
    let rest = set_password mac id password salt users in
    if equal_ℤ u.id id
    then some (
        record u {
          pw_hash = hash_pw mac salt password hash_rounds;
          salt = salt;
          pw_algo = codes "hmac-sha256";
          rounds = hash_rounds;
        }
        ∷ users)
    else behind u rest

abbrev changed_or : List User → Option (List User) → Response × List User
changed_or users none = (not_found, users)
changed_or users (some changed) = (ok, changed)

-- The handler of /web/users/password: is it a POST, and the body, if it decodes.
unfoldable pub handle_password :
    Mac → Option User → Bool → Option (ℤ × Bytes) → Bytes → List User → Response × List User
unfolding equal set_password
handle_password mac u post body salt users =
    if not (is_admin u)
    then (forbidden, users)
    else if not post
    then (method_not_allowed, users)
    else (elim body [
      | none ↦ (bad_request, users)
      | some (id, password) ↦
          if is_nil password
          then (bad_request, users)
          else changed_or users (set_password mac id password salt users)
    ])

-- initAdmin, with the random password and salt
unfoldable pub init_admin : Mac → Bytes → Bytes → List User → List User
init_admin mac pw salt [] =
    record {
      id = pos 1;
      name = codes "admin";
      pw_hash = hash_pw mac salt pw hash_rounds;
      salt = salt;
      pw_algo = codes "hmac-sha256";
      rounds = hash_rounds;
      role = codes "admin";
    }
    ∷ []
init_admin mac pw salt (u ∷ users) = u ∷ users
