-- ===== src/Text/Json/Value.antt =====
-- JSON values, and the compact text in which core-go writes them: the templates of its `fmt.Sprintf`
-- calls, the arguments of a `%s` between quotes escaped by jesc.
pub mod Read
pub mod Printed
use zaman.Base.{
  ℕ, suc, ◌+◌, ◌≤◌, ◌≡◌, refl, Bool, true, false, List, [], ◌∷◌, ◌++◌, max, length, length-append,
  arith,
}
use zaman.Text.{Bytes, codes}
use zaman.Text.Decimal.{ℤ, pos, negsuc, show_ℤ}
use zaman.Text.Decimal.RoundTrip.{show_head}
use zaman.Text.Json.{valid_utf8, jesc}

mutual
  pub data Json : Type 0 where
    text : Bytes → Json
    number : ℤ → Json
    flag : Bool → Json
    array : Items → Json
    object : Members → Json

  pub data Items : Type 0 where
    nil : Items
    cons : Json → Items → Items

  pub data Members : Type 0 where
    end : Members
    member : Bytes → Json → Members → Members

-- Elements after the first have a comma in front of them, as `strings.Join` puts it.
unfoldable mutual
  pub print : Json → Bytes
  print (text s) = b'"' ∷ (jesc s ++ b'"' ∷ [])
  print (number n) = show_ℤ n
  print (flag true) = codes "true"
  print (flag false) = codes "false"
  print (array xs) = b'[' ∷ print_items xs
  print (object ms) = b'{' ∷ print_members ms

  pub print_items : Items → Bytes
  print_items nil = b']' ∷ []
  print_items (cons x xs) = print x ++ more_items xs

  pub more_items : Items → Bytes
  more_items nil = b']' ∷ []
  more_items (cons x xs) = b',' ∷ (print x ++ more_items xs)

  pub print_members : Members → Bytes
  print_members end = b'}' ∷ []
  print_members (member key v ms) = b'"' ∷ (jesc key ++ b'"' ∷ b':' ∷ (print v ++ more_members ms))

  pub more_members : Members → Bytes
  more_members end = b'}' ∷ []
  more_members (member key v ms) =
      b',' ∷ b'"' ∷ (jesc key ++ b'"' ∷ b':' ∷ (print v ++ more_members ms))

-- The value with the replacement character where its texts are no UTF-8.
unfoldable mutual
  pub clean : Json → Json
  clean (text s) = text (valid_utf8 0 s)
  clean (number n) = number n
  clean (flag b) = flag b
  clean (array xs) = array (clean_items xs)
  clean (object ms) = object (clean_members ms)

  pub clean_items : Items → Items
  clean_items nil = nil
  clean_items (cons x xs) = cons (clean x) (clean_items xs)

  pub clean_members : Members → Members
  clean_members end = end
  clean_members (member key v ms) = member (valid_utf8 0 key) (clean v) (clean_members ms)

-- The members of a template.
abbrev pub members : List (Bytes × Json) → Members
members [] = end
members ((key, v) ∷ ms) = member key v (members ms)

abbrev pub items : List Json → Items
items [] = nil
items (x ∷ xs) = cons x (items xs)

-- How deep the calls of a reader go.
unfoldable mutual
  pub depth : Json → ℕ
  depth (text s) = 1
  depth (number n) = 1
  depth (flag b) = 1
  depth (array xs) = suc (depth_items xs)
  depth (object ms) = suc (depth_members ms)

  pub depth_items : Items → ℕ
  depth_items nil = 1
  depth_items (cons x xs) = suc (max (depth x) (depth_items xs))

  pub depth_members : Members → ℕ
  depth_members end = 1
  depth_members (member key v ms) = suc (max (depth v) (depth_members ms))

pub depth_pos : (j : Json) → 1 ≤ depth j
unfolding depth
depth_pos (text s) = omega arith
depth_pos (number n) = omega arith
depth_pos (flag b) = omega arith
depth_pos (array xs) = omega arith
depth_pos (object ms) = omega arith

pub depth_items_pos : (xs : Items) → 1 ≤ depth_items xs
unfolding depth
depth_items_pos nil = omega arith
depth_items_pos (cons x xs) = omega arith

pub depth_members_pos : (ms : Members) → 1 ≤ depth_members ms
unfolding depth
depth_members_pos end = omega arith
depth_members_pos (member key v ms) = omega arith

length-show_ℤ : (n : ℤ) → 1 ≤ length (show_ℤ n)
unfolding show_ℤ
length-show_ℤ (pos n) = let (c, s, d, e) = show_head n in rw e (omega arith)
length-show_ℤ (negsuc n) = omega arith

mutual
  unfolding depth print

  pub depth-print : (j : Json) → depth j ≤ length (print j)
  depth-print (text s) = omega arith
  depth-print (number n) = length-show_ℤ n
  depth-print (flag true) = omega arith
  depth-print (flag false) = omega arith
  depth-print (array xs) = omega (arith, (depth_items-print xs).0)
  depth-print (object ms) = omega (arith, (depth_members-print ms).0)

  depth_items-print :
      (xs : Items)
      → (depth_items xs ≤ length (print_items xs))
        × (depth_items xs ≤ length (more_items xs))
        × (1 ≤ length (more_items xs))
  depth_items-print nil = omega arith
  depth_items-print (cons x xs) = omega (
    arith,
    length-append (print x) (more_items xs),
    depth_pos x,
    depth-print x,
    depth_items-print xs,
  )

  depth_members-print :
      (ms : Members)
      → (depth_members ms ≤ length (print_members ms))
        × (depth_members ms ≤ length (more_members ms))
  depth_members-print end = omega arith
  depth_members-print (member key v ms) =
      let tail = b'"' ∷ b':' ∷ (print v ++ more_members ms) in
      omega (
        arith,
        length-append (jesc key) tail,
        length-append (print v) (more_members ms),
        depth-print v,
        depth_members-print ms,
      )
