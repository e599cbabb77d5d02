-- ===== src/Web/Token/RoundTrip.antt =====
-- Reading a session token that was made, and what a token that is accepted was made from.
use zaman.Base.{
  ℕ, zero, suc, ◌+◌, ◌-◌, ◌^◌, ◌<◌, ◌≤◌, ◌≡◌, ◌≢◌, refl, ap, ◌∙◌, true, none, some, List, [], ◌∷◌,
  ◌++◌, ltb, if◌then◌else◌, length, get_or, take, drop, arith, All, All-append, All-weaken,
  length-append, take-length-append,
}
use zaman.Text.{Bytes, split}
use zaman.Text.Split.{equal_refl, Lacks, split-append, split-join2, split-Lacks, join-split}
use zaman.Text.Base64.{IsByte}
use zaman.Text.Base64.RoundTrip.{decode-encode}
use zaman.Text.Decimal.{pos, show, show_ℤ, is_digit, parse_int}
use zaman.Text.Decimal.RoundTrip.{atoi-show, show-All-digit}
use zaman.Web.User.{User, Mac}
use zaman.Web.Token.{
  payload_of, make_token, session_user, user_of_parts, read_payload, verify_text, verify_token,
}

parse_int-show : (n : ℕ) → n < 2 ^ 63 → parse_int (show n) ≡ pos n
unfolding parse_int
parse_int-show n h = rw (atoi-show n h, parse_int) refl

show-Lacks : (n : ℕ) → Lacks b':' (show n)
show-Lacks n =
    All-weaken (λ c. is_digit c ≡ true) (λ c. c ≢ b':') (λ c h. ground (arith, h)) (show n)
      (show-All-digit n)

parts_of :
    (n expires : ℕ) (name role : Bytes)
    → Lacks b':' role
    → split b':' (show n ++ b':' ∷ (name ++ b':' ∷ (role ++ b':' ∷ show expires)))
      ≡ show n ∷ (split b':' name ++ role ∷ show expires ∷ [])
parts_of n expires name role h =
    split-append b':' (show n) (name ++ b':' ∷ (role ++ b':' ∷ show expires)) (show-Lacks n)
    ∙ ap (◌∷◌ (show n)) (
        split-join2 b':' name (role ++ b':' ∷ show expires)
        ∙ ap (◌++◌ (split b':' name)) (
            split-append b':' role (show expires) h
            ∙ ap (◌∷◌ role) (split-Lacks b':' (show expires) (show-Lacks expires))))

get_or-append :
    {A : Type 0}
    → (xs ys : List A) (i k : ℕ) (d : A) → i ≡ length xs + k
    → get_or (xs ++ ys) i d ≡ get_or ys k d
get_or-append [] ys i k d e = ap (λ j. get_or ys j d) (e ∙ omega arith)
get_or-append (x ∷ xs) ys zero k d e = absurd (omega (arith, e))
get_or-append (x ∷ xs) ys (suc i) k d e = get_or-append xs ys i k d (omega (arith, e))

-- The parts of a payload: the first one, those of the name, the last but one, and the last one.
read_parts :
    (first role last : Bytes) (names : List Bytes)
    → (let parts = first ∷ (names ++ role ∷ last ∷ []) in
        let n = length parts in
        (n ≡ length names + 3)
        × (get_or parts (n - 1) [] ≡ last)
        × (get_or parts (n - 2) [] ≡ role)
        × (take (n - 3) (drop 1 parts) ≡ names))
read_parts first role last names =
    let size = length-append names (role ∷ last ∷ []) in
    (
      omega (arith, size),
      get_or-append (first ∷ names) (role ∷ last ∷ []) _ 1 [] (omega (arith, size)),
      get_or-append (first ∷ names) (role ∷ last ∷ []) _ 0 [] (omega (arith, size)),
      take-length-append names (role ∷ last ∷ []) _ (omega (arith, size)),
    )

drop_sep : (p : Bytes) (sep : ℕ) (s : Bytes) → drop (suc (length p)) (p ++ sep ∷ s) ≡ s
drop_sep [] sep s = refl
drop_sep (c ∷ p) sep s = drop_sep p sep s

length-split : (sep : ℕ) (s : Bytes) → 1 ≤ length (split sep s)
unfolding split
length-split sep s = omega arith

user_of_parts-names :
    (now id expires : ℕ) (name role : Bytes)
    → id < 2 ^ 63
    → expires < 2 ^ 63
    → user_of_parts now (show id ∷ (split b':' name ++ role ∷ show expires ∷ []))
      ≡ (if ltb expires now then none else some (session_user (pos id) name role))
unfolding user_of_parts
user_of_parts-names now id expires name role hid hexp =
    let (size, last, before, names) = read_parts (show id) role (show expires) (split b':' name) in
    ground (
      arith,
      size,
      last,
      before,
      names,
      length-split b':' name,
      join-split b':' name,
      parse_int-show id hid,
      parse_int-show expires hexp,
    )

read_payload-payload_of :
    (now id expires : ℕ) (u : User)
    → u.id ≡ pos id
    → id < 2 ^ 63
    → expires < 2 ^ 63
    → Lacks b':' u.role
    → read_payload now (payload_of expires u)
      ≡ (if ltb expires now then none else some (session_user (pos id) u.name u.role))
unfolding read_payload payload_of show_ℤ
read_payload-payload_of now id expires u e hid hexp h = rw e (
    ap (user_of_parts now) (parts_of id expires u.name u.role h)
    ∙ user_of_parts-names now id expires u.name u.role hid hexp)

verify_text-signed :
    (mac : Mac) (secret : Bytes) (now : ℕ) (payload : Bytes)
    → length (mac secret payload) ≡ 64
    → 1 ≤ length payload
    → verify_text mac secret now (payload ++ b':' ∷ mac secret payload) ≡ read_payload now payload
unfolding verify_text
verify_text-signed mac secret now payload size some_payload =
    let s = payload ++ b':' ∷ mac secret payload in
    let total = length-append payload (b':' ∷ mac secret payload) in
    ground (
      arith,
      size,
      some_payload,
      total,
      ap (λ n. take n s) {x = length s - 64 - 1} {y = length payload},
      ap (λ n. drop n s) {x = length s - 64} {y = suc (length payload)},
      ap (λ n. get_or s n 0) {x = length s - 64 - 1} {y = length payload},
      take-length-append payload (b':' ∷ mac secret payload) (length payload) refl,
      drop_sep payload b':' (mac secret payload),
      get_or-append payload (b':' ∷ mac secret payload) (length payload) 0 0 (omega arith),
      equal_refl (mac secret payload),
    )

show-IsByte : (n : ℕ) → All IsByte (show n)
show-IsByte n =
    All-weaken (λ c. is_digit c ≡ true) IsByte (λ c h. ground (arith, h)) (show n)
      (show-All-digit n)

length-payload_of : (expires : ℕ) (u : User) → 1 ≤ length (payload_of expires u)
unfolding payload_of
length-payload_of expires u =
    omega (
      arith,
      length-append (show_ℤ u.id) (b':' ∷ (u.name ++ b':' ∷ (u.role ++ b':' ∷ show expires))),
    )

IsByte-payload_of :
    (id expires : ℕ) (u : User)
    → u.id ≡ pos id
    → All IsByte u.name
    → All IsByte u.role
    → All IsByte (payload_of expires u)
unfolding payload_of show_ℤ
IsByte-payload_of id expires u e name role = rw e (
    All-append IsByte (show id) _ (show-IsByte id) (
      omega arith,
      All-append IsByte u.name _ name
          (omega arith, All-append IsByte u.role _ role (omega arith, show-IsByte expires)),
    ))

-- A token that was made for a user is accepted until its 86400 seconds are over, and names that
-- user's number, name and role; from then on it is refused. The role has no colon, the name may have
-- some; the user's number and the time of expiry are in the range of an int64, the texts are bytes,
-- and the MAC has 64 of them.
pub verify_token-make_token :
    (mac : Mac) (secret : Bytes) (now later id : ℕ) (u : User)
    → ((text : Bytes) → (length (mac secret text) ≡ 64) × All IsByte (mac secret text))
    → u.id ≡ pos id
    → id < 2 ^ 63
    → now + 86400 < 2 ^ 63
    → Lacks b':' u.role
    → All IsByte u.name
    → All IsByte u.role
    → verify_token mac secret later (make_token mac secret now u)
      ≡ (if ltb (now + 86400) later then none else some (session_user u.id u.name u.role))
unfolding verify_token make_token
verify_token-make_token mac secret now later id u h e hid hexp role name_bytes role_bytes =
    let expires = now + 86400 in
    let payload = payload_of expires u in
    let text = payload ++ b':' ∷ mac secret payload in
    let bytes : All IsByte text =
      All-append IsByte payload _ (IsByte-payload_of id expires u e name_bytes role_bytes)
        (omega arith, (h payload).1) in
    ground (
      arith,
      e,
      decode-encode text bytes,
      verify_text-signed mac secret later payload (h payload).0 (length-payload_of expires u),
      read_payload-payload_of later id expires u e hid hexp role,
    )
