-- ===== src/Text/Json/Value/Printed.antt =====
-- The reader of JSON reads back what is printed.
use zaman.Base.{
  ℕ, zero, suc, ◌+◌, ◌≤◌, ◌≡◌, refl, ◌∙◌, true, false, some, [], ◌∷◌, ◌++◌, append_assoc,
  append-nil, length, ◌==◌, ◌||◌, arith,
}
use zaman.Text.{Bytes}
use zaman.Text.Base64.{◌>>=◌}
use zaman.Text.Decimal.{ℤ, pos, negsuc, show, show_ℤ, is_digit}
use zaman.Text.Decimal.RoundTrip.{Stops, show_head, read_digits-show}
use zaman.Text.Json.{valid_utf8, jesc}
use zaman.Text.Json.RoundTrip.{read_literal-jesc}
use zaman.Text.Json.Value.{
  Json, text, number, flag, array, object, Items, nil, cons, Members, end, member, print,
  print_items, more_items, print_members, more_members, clean, clean_items, clean_members, depth,
  depth_items, depth_members, depth-print, depth_pos, depth_items_pos, depth_members_pos,
}
use zaman.Text.Json.Value.Read.{
  expect, expect_word, read_key, read_number, read_value, read_items, read_more_items, read_members,
  read_more_members, parse,
}

read_key-jesc :
    (key rest : Bytes)
    → read_key (b'"' ∷ (jesc key ++ b'"' ∷ b':' ∷ rest)) ≡ some (valid_utf8 0 key, rest)
unfolding read_key expect
read_key-jesc key rest = rw (read_literal-jesc key (b':' ∷ rest)) refl

read_number-show :
    (n : ℕ) (rest : Bytes) → Stops rest → read_number (show n ++ rest) ≡ some (number (pos n), rest)
unfolding read_number
read_number-show n rest h =
    let (k, e) = read_digits-show n rest h in
    let (c, t, d, e') = show_head n in rw e' (ground (arith, rw e' at e))

read_number-show_ℤ :
    (n : ℤ) (rest : Bytes) → Stops rest → read_number (show_ℤ n ++ rest) ≡ some (number n, rest)
unfolding show_ℤ
read_number-show_ℤ (pos n) rest h = read_number-show n rest h
read_number-show_ℤ (negsuc n) rest h =
    let (k, e) = read_digits-show (n + 1) rest h in unfold read_number in ground (arith, e)

Stops-more_items : (xs : Items) (rest : Bytes) → Stops (more_items xs ++ rest)
unfolding more_items
Stops-more_items nil rest = refl
Stops-more_items (cons x xs) rest = refl

Stops-more_members : (ms : Members) (rest : Bytes) → Stops (more_members ms ++ rest)
unfolding more_members
Stops-more_members end rest = refl
Stops-more_members (member key v ms) rest = refl

show_ℤ_head :
    (n : ℤ) → (c : ℕ) × (s : Bytes) × ((is_digit c || c == b'-') ≡ true) × (show_ℤ n ≡ c ∷ s)
unfolding show_ℤ
show_ℤ_head (pos n) = let (c, s, d, e) = show_head n in (c, s, ground (arith, d), e)
show_ℤ_head (negsuc n) = (b'-', show (n + 1), refl, refl)

read_value-other :
    (f c : ℕ) (s : Bytes)
    → (is_digit c || c == b'-') ≡ true
    → read_value (suc f) (c ∷ s) ≡ read_number (c ∷ s)
unfolding read_value
read_value-other f c s h = ground arith

read_value-number :
    (f : ℕ) (n : ℤ) (rest : Bytes)
    → Stops rest
    → read_value (suc f) (show_ℤ n ++ rest) ≡ some (number n, rest)
read_value-number f n rest h =
    let (c, s, d, e) = show_ℤ_head n in
    let known = read_number-show_ℤ n rest h in
    rw e (read_value-other f c (s ++ rest) d ∙ (rw e at known))

-- No value starts with the bracket that ends an array.
print_head : (j : Json) → (c : ℕ) × (s : Bytes) × (print j ≡ c ∷ s) × ((c == b']') ≡ false)
unfolding print
print_head (text s) = (_, _, refl, refl)
print_head (number n) = let (c, s, d, e) = show_ℤ_head n in (c, s, e, ground (arith, d))
print_head (flag true) = (_, _, refl, refl)
print_head (flag false) = (_, _, refl, refl)
print_head (array xs) = (_, _, refl, refl)
print_head (object ms) = (_, _, refl, refl)

read_items-cons :
    (f : ℕ) (x : Json) (s : Bytes)
    → read_items (suc f) (print x ++ s)
      ≡ (do y ← read_value f (print x ++ s); ys ← read_more_items f y.1; some (cons y.0 ys.0, ys.1))
unfolding read_items
read_items-cons f x s = let (c, t, e, d) = print_head x in rw (e, d) refl

mutual
  unfolding depth print clean read_value expect_word expect

  read_value-print :
      (j : Json) (f : ℕ) (rest : Bytes)
      → depth j ≤ f
      → Stops rest
      → read_value f (print j ++ rest) ≡ some (clean j, rest)
  read_value-print j zero rest h stops = absurd (omega (arith, depth_pos j))
  read_value-print (text s) (suc f) rest h stops = rw (append_assoc, read_literal-jesc s rest) refl
  read_value-print (number n) (suc f) rest h stops = read_value-number f n rest stops
  read_value-print (flag true) (suc f) rest h stops = refl
  read_value-print (flag false) (suc f) rest h stops = refl
  read_value-print (array xs) (suc f) rest h stops =
      rw (read_items-print xs f rest (omega arith)) refl
  read_value-print (object ms) (suc f) rest h stops =
      rw (read_members-print ms f rest (omega arith)) refl

  read_items-print :
      (xs : Items) (f : ℕ) (rest : Bytes)
      → depth_items xs ≤ f
      → read_items f (print_items xs ++ rest) ≡ some (clean_items xs, rest)
  read_items-print xs zero rest h = absurd (omega (arith, depth_items_pos xs))
  read_items-print nil (suc f) rest h = refl
  read_items-print (cons x xs) (suc f) rest h =
      rw
        (
          append_assoc,
          read_items-cons f x (more_items xs ++ rest),
          read_value-print x f (more_items xs ++ rest) (omega arith) (Stops-more_items xs rest),
          read_more_items-print xs f rest (omega arith),
        )
        refl

  read_more_items-print :
      (xs : Items) (f : ℕ) (rest : Bytes)
      → depth_items xs ≤ f
      → read_more_items f (more_items xs ++ rest) ≡ some (clean_items xs, rest)
  read_more_items-print xs zero rest h = absurd (omega (arith, depth_items_pos xs))
  read_more_items-print nil (suc f) rest h = refl
  read_more_items-print (cons x xs) (suc f) rest h =
      rw
        (
          append_assoc,
          read_value-print x f (more_items xs ++ rest) (omega arith) (Stops-more_items xs rest),
          read_more_items-print xs f rest (omega arith),
        )
        refl

  read_members-print :
      (ms : Members) (f : ℕ) (rest : Bytes)
      → depth_members ms ≤ f
      → read_members f (print_members ms ++ rest) ≡ some (clean_members ms, rest)
  read_members-print ms zero rest h = absurd (omega (arith, depth_members_pos ms))
  read_members-print end (suc f) rest h = refl
  read_members-print (member key v ms) (suc f) rest h =
      rw
        (
          append_assoc,
          append_assoc,
          read_key-jesc key (print v ++ (more_members ms ++ rest)),
          read_value-print v f (more_members ms ++ rest) (omega arith) (Stops-more_members ms rest),
          read_more_members-print ms f rest (omega arith),
        )
        refl

  read_more_members-print :
      (ms : Members) (f : ℕ) (rest : Bytes)
      → depth_members ms ≤ f
      → read_more_members f (more_members ms ++ rest) ≡ some (clean_members ms, rest)
  read_more_members-print ms zero rest h = absurd (omega (arith, depth_members_pos ms))
  read_more_members-print end (suc f) rest h = refl
  read_more_members-print (member key v ms) (suc f) rest h =
      rw
        (
          append_assoc,
          append_assoc,
          read_key-jesc key (print v ++ (more_members ms ++ rest)),
          read_value-print v f (more_members ms ++ rest) (omega arith) (Stops-more_members ms rest),
          read_more_members-print ms f rest (omega arith),
        )
        refl

-- Every value of JSON is read back from its text, with its texts as UTF-8: the names and values of an
-- object stand where the code has put them, whatever they are.
pub parse-print : (j : Json) → parse (print j) ≡ some (clean j)
unfolding parse
parse-print j =
    let whole = read_value-print j (length (print j)) [] (depth-print j) tt in
    rw (rw append-nil at whole) refl
