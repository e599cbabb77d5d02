-- ===== src/Web/Users/Unique.antt =====
-- Names and numbers of users stay unique.
use zaman.Base.{
  ℕ, ◌+◌, ◌^◌, ◌<◌, ◌≤◌, ◌≡◌, ◌↔◌, refl, Bool, true, false, ◌||◌, Option, none, some, List, [], ◌∷◌,
  ◌++◌, if◌then◌else◌, is_nil, if_keeps, arith, Bool-cases, inl, inr,
}
use zaman.Text.{Bytes, equal}
use zaman.Text.Split.{equal_iff}
use zaman.Text.Decimal.{ℤ, pos, negsuc}
use zaman.Web.User.{User, Mac}
use zaman.Web.Users.{
  equal_ℤ, NewUser, Response, raise, bad_request, max_id, next_id, name_taken, new_user,
  create_user, without_id, delete_user, UsersRequest, get_users, post_user, delete_users,
  other_method, handle_users, is_admin, users_by, forbidden,
}

pub equal_ℤ_iff : (a b : ℤ) → (equal_ℤ a b ≡ true) ↔ (a ≡ b)
equal_ℤ_iff (pos m) (pos n) = ground arith
equal_ℤ_iff (negsuc m) (negsuc n) = ground arith
equal_ℤ_iff (pos m) (negsuc n) = ground arith
equal_ℤ_iff (negsuc m) (pos n) = ground arith

unfoldable pub id_taken : ℤ → List User → Bool
id_taken id [] = false
id_taken id (u ∷ users) = if equal_ℤ u.id id then true else id_taken id users

-- No two users share a name or a number.
abbrev pub IsUsers : List User → Type 0
IsUsers [] = Unit {0}
IsUsers (u ∷ users) =
    (name_taken u.name users ≡ false) × (id_taken u.id users ≡ false) × IsUsers users

name_taken-append :
    (name : Bytes) (users : List User) (u : User)
    → name_taken name (users ++ u ∷ [])
      ≡ (if equal u.name name then true else name_taken name users)
unfolding name_taken
name_taken-append name [] u = refl
name_taken-append name (v ∷ users) u = ground (arith, name_taken-append name users u)

id_taken-append :
    (id : ℤ) (users : List User) (u : User)
    → id_taken id (users ++ u ∷ []) ≡ (if equal_ℤ u.id id then true else id_taken id users)
unfolding id_taken
id_taken-append id [] u = refl
id_taken-append id (v ∷ users) u = ground (arith, id_taken-append id users u)

append-IsUsers :
    (users : List User) (u : User)
    → IsUsers users
    → name_taken u.name users ≡ false
    → id_taken u.id users ≡ false
    → IsUsers (users ++ u ∷ [])
unfolding name_taken id_taken
append-IsUsers [] u h name id = (refl, refl, tt)
append-IsUsers (v ∷ users) u h name id = ground (
  arith,
  h,
  name,
  id,
  name_taken-append v.name users u,
  id_taken-append v.id users u,
  equal_iff u.name v.name,
  equal_iff v.name u.name,
  equal_ℤ_iff u.id v.id,
  equal_ℤ_iff v.id u.id,
  append-IsUsers users u h.2,
)

raise-from : (id : ℤ) (m : ℕ) → m ≤ raise id m
raise-from (pos n) m = ground arith
raise-from (negsuc n) m = omega arith

max_id-from : (m : ℕ) (users : List User) → m ≤ max_id m users
unfolding max_id
max_id-from m [] = omega arith
max_id-from m (u ∷ users) = omega (arith, raise-from u.id m, max_id-from (raise u.id m) users)

raise-above : (id : ℤ) (m k : ℕ) → raise id m < k → equal_ℤ id (pos k) ≡ false
raise-above (pos n) m k h = ground (arith, h)
raise-above (negsuc n) m k h = refl

max_id-above : (m k : ℕ) (users : List User) → max_id m users < k → id_taken (pos k) users ≡ false
unfolding max_id id_taken
max_id-above m k [] h = refl
max_id-above m k (u ∷ users) h = ground (
  arith,
  raise-above u.id m k (omega (arith, h, max_id-from (raise u.id m) users)),
  max_id-above (raise u.id m) k users h,
)

next_id-free :
    (users : List User)
    → max_id 0 users + 1 < 2 ^ 63
    → id_taken (next_id (max_id 0 users)) users ≡ false
unfolding next_id
next_id-free users h = ground (arith, h, max_id-above 0 (max_id 0 users + 1) users)

create_user-IsUsers :
    (mac : Mac) (body : Option NewUser) (salt : Bytes) (users : List User)
    → max_id 0 users + 1 < 2 ^ 63
    → IsUsers users
    → IsUsers (create_user mac body salt users).1
unfolding create_user
create_user-IsUsers mac none salt users limit h = h
create_user-IsUsers mac (some body) salt users limit h =
    let u = new_user mac (next_id (max_id 0 users)) salt body in
    if_keeps {S = Response × List User} (λ r. IsUsers r.1)
      (is_nil body.username || is_nil body.password) (bad_request, users) _ h
      (elim (Bool-cases (name_taken body.username users)) [
        | inl e ↦ rw e h
        | inr e ↦ rw e (unfold new_user in append-IsUsers users u h e (next_id-free users limit))
      ])

without_id-taken :
    (id : ℤ) (name : Bytes) (other : ℤ) (users : List User)
    → (name_taken name users ≡ false → name_taken name (without_id id users) ≡ false)
      × (id_taken other users ≡ false → id_taken other (without_id id users) ≡ false)
unfolding name_taken id_taken without_id
without_id-taken id name other [] = (λ e. e, λ e. e)
without_id-taken id name other (u ∷ users) = ground (arith, without_id-taken id name other users)

without_id-IsUsers : (id : ℤ) (users : List User) → IsUsers users → IsUsers (without_id id users)
unfolding without_id
without_id-IsUsers id [] h = tt
without_id-IsUsers id (u ∷ users) h =
    ground (arith, h, without_id-taken id u.name u.id users, without_id-IsUsers id users h.2)

delete_user-IsUsers :
    (u : User) (id : Option ℤ) (users : List User)
    → IsUsers users
    → IsUsers (delete_user u id users).1
unfolding delete_user
delete_user-IsUsers u none users h = h
delete_user-IsUsers u (some id) users h =
    if_keeps {S = Response × List User} (λ r. IsUsers r.1) (equal_ℤ id u.id) (bad_request, users) _
      h (without_id-IsUsers id users h)

users_by-IsUsers :
    (mac : Mac) (u : User) (req : UsersRequest) (users : List User)
    → max_id 0 users + 1 < 2 ^ 63
    → IsUsers users
    → IsUsers (users_by mac u req users).1
users_by-IsUsers mac u get_users users limit h = h
users_by-IsUsers mac u (post_user body salt) users limit h =
    create_user-IsUsers mac body salt users limit h
users_by-IsUsers mac u (delete_users id) users limit h = delete_user-IsUsers u id users h
users_by-IsUsers mac u other_method users limit h = h

-- Every request to /web/users, whoever sends it and whatever its body, leaves names and numbers
-- unique, while the highest number is below the end of an int64.
pub handle_users-IsUsers :
    (mac : Mac) (u : Option User) (req : UsersRequest) (users : List User)
    → max_id 0 users + 1 < 2 ^ 63
    → IsUsers users
    → IsUsers (handle_users mac u req users).1
unfolding handle_users
handle_users-IsUsers mac none req users limit h = h
handle_users-IsUsers mac (some u) req users limit h =
    if_keeps {S = Response × List User} (λ r. IsUsers r.1) (is_admin (some u)) _ (forbidden, users)
      (users_by-IsUsers mac u req users limit h) h
