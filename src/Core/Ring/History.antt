-- ===== src/Core/Ring/History.antt =====
-- The ring against the list of all the records that were pushed, the newest first.
use zaman.Base.{
  ℕ, zero, suc, ◌+◌, ◌-◌, ◌%◌, ◌<◌, ◌≤◌, ◌≡◌, ◌≢◌, refl, ap, ◌∙◌, List, [], ◌∷◌, some, min, ltb,
  if◌then◌else◌, set, get_or, length, length-set, length-replicate, take, drop, arith,
}
use zaman.Text.{Bytes}
use zaman.Text.Decimal.{pos}
use zaman.Core.Ring.{Ring, empty, push, recent_loop, recent}

-- After the records of `history` the counter tells how many they were, and each of the newest 512
-- stands in its slot.
pub record Holds (history : List Bytes) (r : Ring) : Type 0 where
  pub size : length r.buf ≡ 512
  pub count : r.idx ≡ length history
  pub slot :
      (i : ℕ)
      → i < length history
      → i < 512
      → get_or r.buf ((length history - 1 - i) % 512) [] ≡ get_or history i []

pub empty-Holds : Holds [] empty
unfolding empty
empty-Holds = record {
  size = length-replicate {A = Bytes} 512 [];
  count = refl;
  slot = λ i h _. absurd (omega arith);
}

module _ {ℓ} {A : Type ℓ} where
  get_or-set_self : (xs : List A) (i : ℕ) (v d : A) → i < length xs → get_or (set xs i v) i d ≡ v
  get_or-set_self [] i v d h = absurd (omega arith)
  get_or-set_self (x ∷ xs) zero v d h = refl
  get_or-set_self (x ∷ xs) (suc i) v d h = get_or-set_self xs i v d (omega arith)

  get_or-set_ne :
      (xs : List A) (i j : ℕ) (v d : A) → i ≢ j → get_or (set xs i v) j d ≡ get_or xs j d
  get_or-set_ne [] i j v d h = refl
  get_or-set_ne (x ∷ xs) zero zero v d h = absurd (h refl)
  get_or-set_ne (x ∷ xs) zero (suc j) v d h = refl
  get_or-set_ne (x ∷ xs) (suc i) zero v d h = refl
  get_or-set_ne (x ∷ xs) (suc i) (suc j) v d h = get_or-set_ne xs i j v d (omega arith)

push_slot :
    (history : List Bytes) (r : Ring) (rec : Bytes)
    → Holds history r
    → (i : ℕ) → i < suc (length history)
    → i < 512
    → get_or (set r.buf (length history % 512) rec) ((suc (length history) - 1 - i) % 512) []
      ≡ get_or (rec ∷ history) i []
push_slot history r rec h zero lt lt' =
    let n = length history in
    let e : (suc n - 1 - 0) % 512 ≡ n % 512 = omega arith in
    rw e (get_or-set_self r.buf (n % 512) rec [] (omega (arith, h.size)))
push_slot history r rec h (suc i) lt lt' =
    let n = length history in
    let e : (suc n - 1 - suc i) % 512 ≡ (n - 1 - i) % 512 = omega arith in
    rw e (
      get_or-set_ne r.buf (n % 512) ((n - 1 - i) % 512) rec [] (omega arith)
      ∙ h.slot i (omega arith) (omega arith))

pub push-Holds :
    (history : List Bytes) (r : Ring) (rec : Bytes)
    → Holds history r
    → Holds (rec ∷ history) (push rec r)
unfolding push
push-Holds history r rec h = record {
  size = length-set r.buf _ rec ∙ h.size;
  count = omega (arith, h.count);
  slot = rw (h.count) (push_slot history r rec h);
}

module _ {ℓ} {A : Type ℓ} where
  take-drop-step :
      (i k : ℕ) (xs : List A) (d : A)
      → i < length xs
      → take (suc k) (drop i xs) ≡ get_or xs i d ∷ take k (drop (suc i) xs)
  take-drop-step i k [] d h = absurd (omega arith)
  take-drop-step zero k (x ∷ xs) d h = refl
  take-drop-step (suc i) k (x ∷ xs) d h = take-drop-step i k xs d (omega arith)

  -- Lengths that cut a list at the same place.
  take_eq : (a b : ℕ) (xs : List A) → min a (length xs) ≡ min b (length xs) → take a xs ≡ take b xs
  take_eq zero zero xs e = refl
  take_eq zero (suc b) [] e = refl
  take_eq zero (suc b) (x ∷ xs) e = absurd (omega arith)
  take_eq (suc a) zero [] e = refl
  take_eq (suc a) zero (x ∷ xs) e = absurd (omega arith)
  take_eq (suc a) (suc b) [] e = refl
  take_eq (suc a) (suc b) (x ∷ xs) e = ap (◌∷◌ x) (take_eq a b xs (omega arith))

recent_loop-take :
    (history : List Bytes) (r : Ring)
    → Holds history r
    → (k i : ℕ) → i + k ≤ length history
    → i + k ≤ 512
    → recent_loop k i r ≡ take k (drop i history)
unfolding recent_loop
recent_loop-take history r h zero i le le' = refl
recent_loop-take history r h (suc k) i le le' =
    let n = length history in
    let e : (r.idx - 1 - i + 1024) % 512 ≡ (n - 1 - i) % 512 = omega (arith, h.count) in
    let next : i + 1 ≡ suc i = omega arith in
    rw (e, next, h.slot i (omega arith) (omega arith), take-drop-step i k history [] (omega arith))
      (ap (◌∷◌ (get_or history i []))
        (recent_loop-take history r h k (suc i) (omega arith) (omega arith)))

pub recent-Holds :
    (history : List Bytes) (r : Ring) (limit : ℕ)
    → Holds history r
    → recent (pos limit) r ≡ some (take (min limit 512) history)
unfolding recent
recent-Holds history r limit h =
    let n = if ltb 512 r.idx then 512 else r.idx in
    let rounds = if ltb n limit then n else limit in
    let bound : rounds ≤ length history = ground (arith, h.count) in
    let bound' : rounds ≤ 512 = ground arith in
    let same : min rounds (length history) ≡ min (min limit 512) (length history) =
      ground (arith, h.count) in
    ap some (
      recent_loop-take history r h rounds 0 (omega arith) (omega arith)
      ∙ take_eq rounds (min limit 512) history same)

-- The ring that a run of pushes leaves; the newest record is the head of the list.
unfoldable pub pushes : List Bytes → Ring
pushes [] = empty
pushes (rec ∷ older) = push rec (pushes older)

pub pushes-Holds : (history : List Bytes) → Holds history (pushes history)
unfolding pushes
pushes-Holds [] = empty-Holds
pushes-Holds (rec ∷ older) = push-Holds older (pushes older) rec (pushes-Holds older)

-- After any records have been pushed into an empty ring, Recent returns the newest of them first:
-- as many as asked for, and 512 at most, however often the ring was gone round.
pub recent-pushes :
    (history : List Bytes) (limit : ℕ)
    → recent (pos limit) (pushes history) ≡ some (take (min limit 512) history)
recent-pushes history limit = recent-Holds history (pushes history) limit (pushes-Holds history)
