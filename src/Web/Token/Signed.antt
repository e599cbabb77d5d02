-- ===== src/Web/Token/Signed.antt =====
-- What a session token that verifyToken accepts is made of.
use zaman.Base.{
  ℕ, zero, suc, ◌-◌, ◌<◌, ◌≡◌, refl, ap, ◌∙◌, false, some, List, [], ◌∷◌, ◌++◌, length, get_or,
  take, drop, arith, Option-cases, inl, inr,
}
use zaman.Text.{Bytes, split}
use zaman.Text.Split.{equal_iff}
use zaman.Text.Base64.{decode}
use zaman.Text.Decimal.{ltb_ℤ, parse_int}
use zaman.Web.User.{User, Mac}
use zaman.Web.Token.{user_of_parts, read_payload, verify_text, verify_token}

take_around : (k : ℕ) (s : Bytes) → k < length s → take k s ++ get_or s k 0 ∷ drop (suc k) s ≡ s
take_around k [] h = absurd (omega (arith, h))
take_around zero (c ∷ s) h = refl
take_around (suc k) (c ∷ s) h = ap (◌∷◌ c) (take_around k s (omega (arith, h)))

abbrev signed_part : Bytes → Bytes
signed_part s = take (length s - 64 - 1) s

verify_text-signed_part :
    (mac : Mac) (secret : Bytes) (now : ℕ) (s : Bytes) (u : User)
    → verify_text mac secret now s ≡ some u
    → (s ≡ signed_part s ++ b':' ∷ mac secret (signed_part s))
      × (read_payload now (signed_part s) ≡ some u)
unfolding verify_text
verify_text-signed_part mac secret now s u e =
    let k = length s - 64 - 1 in
    ground (
      arith,
      e,
      take_around k s,
      ap (λ n. drop n s) {x = suc k} {y = length s - 64},
      equal_iff (drop (length s - 64) s) (mac secret (signed_part s)),
    )

not_expired :
    (now : ℕ) (parts : List Bytes) (u : User)
    → user_of_parts now parts ≡ some u
    → ltb_ℤ (parse_int (get_or parts (length parts - 1) [])) now ≡ false
unfolding user_of_parts
not_expired now parts u e = ground (arith, e)

-- Whoever gets a user out of verifyToken holds a text that ends in the MAC of what stands in front
-- of it, under the server's secret, and whose last field is a time that is not over.
pub verify_token-signed :
    (mac : Mac) (secret : Bytes) (now : ℕ) (token : Bytes) (u : User)
    → verify_token mac secret now token ≡ some u
    → (payload : Bytes) × (decode token ≡ some (payload ++ b':' ∷ mac secret payload))
      × (read_payload now payload ≡ some u)
      × (let parts = split b':' payload in
          ltb_ℤ (parse_int (get_or parts (length parts - 1) [])) now ≡ false)
unfolding verify_token read_payload
verify_token-signed mac secret now token u e = elim (Option-cases (decode token)) [
  | inl missing ↦ absurd (ground (arith, e, missing))
  | inr (s, found) ↦
      let accepted : verify_text mac secret now s ≡ some u = ground (arith, e, found) in
      let (text, user) = verify_text-signed_part mac secret now s u accepted in
      (
        signed_part s,
        found ∙ ap some text,
        user,
        not_expired now (split b':' (signed_part s)) u user,
      )
]
