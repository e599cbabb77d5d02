-- ===== src/Text/Split.antt =====
-- Laws of `cut`, `split`, `join`, `equal` and `has_prefix`.
use zaman.Base.{
  ℕ, ◌≡◌, ◌≢◌, ◌↔◌, refl, true, none, some, List, [], ◌∷◌, ◌++◌, ◌==◌, if◌then◌else◌, All, arith,
}
use zaman.Text.{Bytes, equal, has_prefix, cut, split_parts, split, join}

pub equal_iff : (s t : Bytes) → (equal s t ≡ true) ↔ (s ≡ t)
unfolding equal
equal_iff [] [] = ground arith
equal_iff [] (d ∷ t) = ground arith
equal_iff (c ∷ s) [] = ground arith
equal_iff (c ∷ s) (d ∷ t) = ground (arith, equal_iff s t)

pub equal_refl : (a : Bytes) → equal a a ≡ true
equal_refl a = (equal_iff a a).1 refl

pub has_prefix-append : (p s : Bytes) → has_prefix (p ++ s) p ≡ true
unfolding has_prefix
has_prefix-append [] s = refl
has_prefix-append (c ∷ p) s = ground (arith, has_prefix-append p s)

abbrev pub Lacks : ℕ → Bytes → Type 0
Lacks b = All (λ c. c ≢ b)

pub cut-append : (sep : ℕ) (p s : Bytes) → Lacks sep p → cut sep (p ++ sep ∷ s) ≡ (p, some s)
unfolding cut
cut-append sep [] s h = ground arith
cut-append sep (c ∷ p) s h = ground (arith, cut-append sep p s h.1)

pub cut-Lacks : (sep : ℕ) (p : Bytes) → Lacks sep p → cut sep p ≡ (p, none)
unfolding cut
cut-Lacks sep [] h = refl
cut-Lacks sep (c ∷ p) h = ground (arith, cut-Lacks sep p h.1)

split_parts-Lacks : (sep : ℕ) (p : Bytes) → Lacks sep p → split_parts sep p ≡ (p, [])
unfolding split_parts
split_parts-Lacks sep [] h = refl
split_parts-Lacks sep (c ∷ p) h = ground (arith, split_parts-Lacks sep p h.1)

split_parts-append :
    (sep : ℕ) (p s : Bytes) → Lacks sep p → split_parts sep (p ++ sep ∷ s) ≡ (p, split sep s)
unfolding split_parts split
split_parts-append sep [] s h = ground arith
split_parts-append sep (c ∷ p) s h = ground (arith, split_parts-append sep p s h.1)

pub split-Lacks : (sep : ℕ) (p : Bytes) → Lacks sep p → split sep p ≡ p ∷ []
unfolding split
split-Lacks sep p h = ground (arith, split_parts-Lacks sep p h)

pub split-append :
    (sep : ℕ) (p s : Bytes) → Lacks sep p → split sep (p ++ sep ∷ s) ≡ p ∷ split sep s
split-append sep p s h = unfold split in ground (arith, split_parts-append sep p s h)

pub split-join2 : (sep : ℕ) (p s : Bytes) → split sep (p ++ sep ∷ s) ≡ split sep p ++ split sep s
unfolding split split_parts
split-join2 sep [] s = ground arith
split-join2 sep (c ∷ p) s = ground (arith, split-join2 sep p s)

split_parts_cons :
    (sep c : ℕ) (s : Bytes)
    → split_parts sep (c ∷ s) ≡ (
        if c == sep
        then ([], (split_parts sep s).0 ∷ (split_parts sep s).1)
        else (c ∷ (split_parts sep s).0, (split_parts sep s).1))
unfolding split_parts
split_parts_cons sep c s = refl

join-cons :
    (sep c : ℕ) (p : Bytes) (ps : List Bytes) → join sep ((c ∷ p) ∷ ps) ≡ c ∷ join sep (p ∷ ps)
unfolding join
join-cons sep c p [] = refl
join-cons sep c p (q ∷ ps) = refl

join_sep :
    (sep : ℕ) (p : Bytes) (ps : List Bytes) → join sep ([] ∷ p ∷ ps) ≡ sep ∷ join sep (p ∷ ps)
unfolding join
join_sep sep p ps = refl

-- Splitting any text and joining the parts gives the text back.
pub join-split : (sep : ℕ) (s : Bytes) → join sep (split sep s) ≡ s
unfolding split
join-split sep [] = unfold join split_parts in refl
join-split sep (c ∷ s) =
    let parts = split_parts sep s in
    ground (
      arith,
      split_parts_cons sep c s,
      join-cons sep c parts.0 parts.1,
      join_sep sep parts.0 parts.1,
      join-split sep s,
    )

split_parts-All-Lacks :
    (sep : ℕ) (s : Bytes) → Lacks sep (split_parts sep s).0 × All (Lacks sep) (split_parts sep s).1
unfolding split_parts
split_parts-All-Lacks sep [] = (tt, tt)
split_parts-All-Lacks sep (c ∷ s) = ground (arith, split_parts-All-Lacks sep s)

-- No part of a split holds the separator.
pub split-All-Lacks : (sep : ℕ) (s : Bytes) → All (Lacks sep) (split sep s)
unfolding split
split-All-Lacks sep s = split_parts-All-Lacks sep s
