-- ===== src/Text/Json/Value/Read.antt =====
-- A reader of compact JSON.
use zaman.Base.{
  ℕ, zero, suc, Bool, true, false, Option, none, some, [], ◌∷◌, length, ◌==◌, if◌then◌else◌,
}
use zaman.Text.{Bytes, codes}
use zaman.Text.Base64.{◌>>=◌}
use zaman.Text.Decimal.{ℤ, pos, negsuc, read_digits}
use zaman.Text.Json.RoundTrip.{plain, read_literal}
use zaman.Text.Json.Value.{
  Json, text, number, flag, array, object, Items, nil, cons, Members, end, member,
}

-- What is left behind the byte `c`.
unfoldable pub expect : ℕ → Bytes → Option Bytes
expect c [] = none
expect c (d ∷ s) = if d == c then some s else none

-- What is left behind a word.
unfoldable pub expect_word : Bytes → Bytes → Option Bytes
unfolding expect
expect_word [] s = some s
expect_word (c ∷ w) s = do rest ← expect c s; expect_word w rest

unfoldable pub read_key : Bytes → Option (Bytes × Bytes)
unfolding expect
read_key s = do
  literal ← expect b'"' s
  key ← read_literal plain [] literal
  rest ← expect b':' key.1
  some (key.0, rest)

-- A minus sign and digits. A number with a fraction or an exponent is not read.
abbrev pub negative : ℕ → ℤ
negative zero = pos 0
negative (suc n) = negsuc n

abbrev pub counted : Bool → ℕ × ℕ × Bytes → Option (Json × Bytes)
counted minus (n, zero, s) = none
counted minus (n, suc k, s) = some (number (if minus then negative n else pos n), s)

unfoldable pub read_number : Bytes → Option (Json × Bytes)
read_number [] = none
read_number (c ∷ s) =
    let minus = counted true (read_digits 0 0 s) in
    let plus = counted false (read_digits 0 0 (c ∷ s)) in if c == b'-' then minus else plus

-- A number is what starts with none of the other values' first characters. A call deeper down costs
-- a unit of fuel.
unfoldable mutual
  unfolding expect_word

  pub read_value : ℕ → Bytes → Option (Json × Bytes)
  read_value zero s = none
  read_value (suc f) [] = none
  read_value (suc f) (c ∷ s) =
      let literal = (do p ← read_literal plain [] s; some (text p.0, p.1)) in
      let elements = (do p ← read_items f s; some (array p.0, p.1)) in
      let fields = (do p ← read_members f s; some (object p.0, p.1)) in
      let truth = (do rest ← expect_word (codes "rue") s; some (flag true, rest)) in
      let falsehood = (do rest ← expect_word (codes "alse") s; some (flag false, rest)) in
      if c == b'"'
      then literal
      else if c == b'['
      then elements
      else if c == b'{'
      then fields
      else if c == b't'
      then truth
      else if c == b'f'
      then falsehood
      else read_number (c ∷ s)

  pub read_items : ℕ → Bytes → Option (Items × Bytes)
  read_items zero s = none
  read_items (suc f) [] = none
  read_items (suc f) (c ∷ s) =
      let some_items = (do
        x ← read_value f (c ∷ s)
        xs ← read_more_items f x.1
        some (cons x.0 xs.0, xs.1)) in
      if c == b']' then some (nil, s) else some_items

  pub read_more_items : ℕ → Bytes → Option (Items × Bytes)
  read_more_items zero s = none
  read_more_items (suc f) [] = none
  read_more_items (suc f) (c ∷ s) =
      let some_items = (do
        x ← read_value f s
        xs ← read_more_items f x.1
        some (cons x.0 xs.0, xs.1)) in
      if c == b']' then some (nil, s) else if c == b',' then some_items else none

  pub read_members : ℕ → Bytes → Option (Members × Bytes)
  read_members zero s = none
  read_members (suc f) [] = none
  read_members (suc f) (c ∷ s) =
      let some_members = (do
        key ← read_key (c ∷ s)
        v ← read_value f key.1
        ms ← read_more_members f v.1
        some (member key.0 v.0 ms.0, ms.1)) in
      if c == b'}' then some (end, s) else some_members

  pub read_more_members : ℕ → Bytes → Option (Members × Bytes)
  read_more_members zero s = none
  read_more_members (suc f) [] = none
  read_more_members (suc f) (c ∷ s) =
      let some_members = (do
        key ← read_key s
        v ← read_value f key.1
        ms ← read_more_members f v.1
        some (member key.0 v.0 ms.0, ms.1)) in
      if c == b'}' then some (end, s) else if c == b',' then some_members else none

-- A whole text; a call goes down only behind a byte, so its length is fuel enough.
unfoldable pub parse : Bytes → Option Json
unfolding read_value
parse s = do p ← read_value (length s) s; elim p.1 [ [] ↦ some p.0 | _ ∷ _ ↦ none ]
