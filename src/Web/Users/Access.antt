-- ===== src/Web/Users/Access.antt =====
-- Who may change the users, and who may log in after a change.
use mathlib.Core.Path.{subst}
use zaman.Base.{
  ℕ, ◌+◌, ◌^◌, ◌<◌, ◌≡◌, ◌≢◌, ◌⊎◌, refl, sym, ap, ◌∙◌, true, false, ◌||◌, none, some, List, [], ◌∷◌,
  ◌++◌, ltb, if◌then◌else◌, is_nil, arith, Bool-cases, inl, inr, All, All-weaken, length,
}
use zaman.Text.{Bytes, codes, equal}
use zaman.Text.Split.{equal_iff, equal_refl}
use zaman.Text.Base64.{IsByte}
use zaman.Text.Decimal.{ℤ, pos}
use zaman.Web.User.{User, Mac, hash_pw, hash_rounds}
use zaman.Web.Token.{make_token, session_user, verify_token}
use zaman.Web.Token.RoundTrip.{verify_token-make_token}
use zaman.Web.Session.{password_ok, do_login}
use zaman.Web.Users.{
  equal_ℤ, NewUser, ok, max_id, next_id, name_taken, role_of, new_user, create_user, post_user,
  handle_users, set_password, behind, is_admin,
}
use zaman.Web.Users.Unique.{equal_ℤ_iff, id_taken, IsUsers}

-- A user with a new password.
abbrev pub with_password : Mac → Bytes → Bytes → User → User
with_password mac password salt u = record u {
  pw_hash = hash_pw mac salt password hash_rounds;
  salt = salt;
  pw_algo = codes "hmac-sha256";
  rounds = hash_rounds;
}

do_login-append :
    (mac : Mac) (secret : Bytes) (now : ℕ) (name password : Bytes) (front rest : List User)
    → name_taken name front ≡ false
    → do_login mac secret now name password (front ++ rest)
      ≡ do_login mac secret now name password rest
unfolding do_login name_taken
do_login-append mac secret now name password [] rest h = refl
do_login-append mac secret now name password (u ∷ front) rest h =
    ground (arith, h, do_login-append mac secret now name password front rest)

password_ok-hash_pw :
    (mac : Mac) (password : Bytes) (u : User)
    → u.rounds ≡ hash_rounds
    → u.pw_hash ≡ hash_pw mac u.salt password hash_rounds
    → password_ok mac password u ≡ true
unfolding password_ok
password_ok-hash_pw mac password u rounds hash =
    ground (arith, rounds, hash, equal_refl (hash_pw mac u.salt password hash_rounds))

do_login-found :
    (mac : Mac) (secret : Bytes) (now : ℕ) (password : Bytes) (u : User) (rest : List User)
    → password_ok mac password u ≡ true
    → do_login mac secret now u.name password (u ∷ rest) ≡ make_token mac secret now u
unfolding do_login
do_login-found mac secret now password u rest h = ground (arith, h, equal_refl u.name)

login-new_user :
    (mac : Mac) (secret : Bytes) (now : ℕ) (id : ℤ) (salt : Bytes) (body : NewUser)
    (users : List User)
    → name_taken body.username users ≡ false
    → do_login mac secret now body.username body.password (users ++ new_user mac id salt body ∷ [])
      ≡ make_token mac secret now (new_user mac id salt body)
unfolding new_user
login-new_user mac secret now id salt body users free =
    let u = new_user mac id salt body in
    do_login-append mac secret now body.username body.password users (u ∷ []) free
    ∙ do_login-found mac secret now body.password u []
        (password_ok-hash_pw mac body.password u refl refl)

role_of-cases :
    (role : Bytes)
    → (role_of role ≡ codes "admin")
      ⊎ ((role_of role ≡ codes "operator") ⊎ (role_of role ≡ codes "viewer"))
unfolding role_of
role_of-cases role = ground (
  arith,
  equal_iff role (codes "admin"),
  equal_iff role (codes "operator"),
  equal_iff role (codes "viewer"),
)

abbrev IsPlain : Bytes → Type 0
IsPlain s = All (λ c. (c ≢ b':') × IsByte c) s

role_of-IsPlain : (role : Bytes) → IsPlain (role_of role)
role_of-IsPlain role = elim (role_of-cases role) [
  | inl e ↦ subst IsPlain (sym e) (ground arith)
  | inr rest ↦ elim rest [
    | inl e ↦ subst IsPlain (sym e) (ground arith)
    | inr e ↦ subst IsPlain (sym e) (ground arith)
  ]
]

handle_users-created :
    (mac : Mac) (u : User) (body : NewUser) (salt : Bytes) (users : List User)
    → is_admin (some u) ≡ true
    → is_nil body.username || is_nil body.password ≡ false
    → name_taken body.username users ≡ false
    → handle_users mac (some u) (post_user (some body) salt) users
      ≡ (ok, users ++ new_user mac (next_id (max_id 0 users)) salt body ∷ [])
unfolding handle_users create_user
handle_users-created mac u body salt users admin fields free = rw admin (rw fields (rw free refl))

-- An administrator who adds a user with a name that is free, and a name and a password that are not
-- empty, lets that user log in: the user is stored behind the others, and the password gives a token
-- which verifyToken accepts for a day as the user's number, name and role, and refuses after it.
pub create-login-verify :
    (mac : Mac) (secret : Bytes) (now later : ℕ) (u : User) (body : NewUser) (salt : Bytes)
    (users : List User)
    → ((text : Bytes) → (length (mac secret text) ≡ 64) × All IsByte (mac secret text))
    → is_admin (some u) ≡ true
    → is_nil body.username || is_nil body.password ≡ false
    → name_taken body.username users ≡ false
    → max_id 0 users + 1 < 2 ^ 63
    → now + 86400 < 2 ^ 63
    → All IsByte body.username
    → (let (answer, stored) = handle_users mac (some u) (post_user (some body) salt) users in
        let token = do_login mac secret now body.username body.password stored in
        (answer ≡ ok)
        × (verify_token mac secret later token ≡ (
            if ltb (now + 86400) later
            then none
            else some (session_user (pos (max_id 0 users + 1)) body.username (role_of body.role)))))
create-login-verify mac secret now later u body salt users h admin fields free limit time bytes =
    let added = new_user mac (next_id (max_id 0 users)) salt body in
    let role = role_of-IsPlain body.role in
    let id : next_id (max_id 0 users) ≡ pos (max_id 0 users + 1) =
      unfold next_id in ground (arith, limit) in
    let accepted : verify_token mac secret later (make_token mac secret now added) ≡ (
        if ltb (now + 86400) later
        then none
        else some (session_user (pos (max_id 0 users + 1)) body.username (role_of body.role))) =
      unfold new_user in
      (verify_token-make_token mac secret now later (max_id 0 users + 1) added h id limit time
          (All-weaken _ (λ c. c ≢ b':') (λ c h. h.0) (role_of body.role) role) bytes
          (All-weaken _ IsByte (λ c h. h.1) (role_of body.role) role)
        ∙ ap
            (λ i.
              if ltb (now + 86400) later
              then none
              else some (session_user i body.username (role_of body.role)))
            id) in
    rw (handle_users-created mac u body salt users admin fields free) (
      refl,
      rw (login-new_user mac secret now (next_id (max_id 0 users)) salt body users free) accepted,
    )

taken_inside :
    (name : Bytes) (id : ℤ) (front back : List User) (u : User)
    → (name_taken name (front ++ u ∷ back) ≡ false → equal u.name name ≡ false)
      × (id_taken id (front ++ u ∷ back) ≡ false → equal_ℤ u.id id ≡ false)
unfolding name_taken id_taken
taken_inside name id [] back u = ground arith
taken_inside name id (v ∷ front) back u = ground (arith, taken_inside name id front back u)

front-free :
    (front back : List User) (u : User)
    → IsUsers (front ++ u ∷ back)
    → (name_taken u.name front ≡ false) × (id_taken u.id front ≡ false)
unfolding name_taken id_taken
front-free [] back u h = (refl, refl)
front-free (v ∷ front) back u h = ground (
  arith,
  h.0,
  h.1,
  taken_inside v.name v.id front back u,
  equal_iff u.name v.name,
  equal_iff v.name u.name,
  equal_ℤ_iff u.id v.id,
  equal_ℤ_iff v.id u.id,
  front-free front back u h.2,
)

set_password-append :
    (mac : Mac) (password salt : Bytes) (front back : List User) (u : User)
    → id_taken u.id front ≡ false
    → set_password mac u.id password salt (front ++ u ∷ back)
      ≡ some (front ++ with_password mac password salt u ∷ back)
unfolding set_password id_taken
set_password-append mac password salt [] back u h = rw ((equal_ℤ_iff u.id u.id).1 refl) refl
set_password-append mac password salt (v ∷ front) back u h = elim (Bool-cases (equal_ℤ v.id u.id)) [
  | inl e ↦ absurd (ground (arith, h, e))
  | inr e ↦ rw e (ap (behind v) (set_password-append mac password salt front back u (rw e at h)))
]

-- When names and numbers are unique, a new password changes the user whose number it is and no
-- other: the hash, the salt, the algorithm and the rounds, and that user logs in with it.
pub set_password-login :
    (mac : Mac) (secret : Bytes) (now : ℕ) (password salt : Bytes) (front back : List User)
    (u : User)
    → IsUsers (front ++ u ∷ back)
    → (set_password mac u.id password salt (front ++ u ∷ back)
        ≡ some (front ++ with_password mac password salt u ∷ back))
      × (do_login mac secret now u.name password (front ++ with_password mac password salt u ∷ back)
          ≡ make_token mac secret now (with_password mac password salt u))
set_password-login mac secret now password salt front back u h =
    let (name, id) = front-free front back u h in
    let changed = with_password mac password salt u in
    (
      set_password-append mac password salt front back u id,
      do_login-append mac secret now u.name password front (changed ∷ back) name
          ∙ do_login-found mac secret now password changed back
              (password_ok-hash_pw mac password changed refl refl),
    )
