-- ===== src/Text.antt =====
-- Go strings and byte slices as lists of bytes, with the functions of the `strings` package that
-- core-go and web call.
pub mod Base64
pub mod Decimal
pub mod Json
pub mod Split
pub mod Trim
use Prim.Native.Char.{code}
use zaman.Base.{
  ℕ, zero, suc, ◌+◌, ◌-◌, ◌≡◌, refl, Bool, true, false, not, ◌&&◌, ◌||◌, Option, none, some, List,
  [], ◌∷◌, ◌++◌, map, reverse, String, leb, ◌==◌, if◌then◌else◌, length, drop, is_nil,
}

abbrev pub Bytes : Type 0
Bytes = List ℕ

-- The bytes of an ASCII literal.
abbrev pub codes : String → Bytes
codes String.[] = []
codes (String.◌∷◌ c s) = code c ∷ codes s

unfoldable pub equal : Bytes → Bytes → Bool
equal [] [] = true
equal (x ∷ xs) (y ∷ ys) = x == y && equal xs ys
equal _ _ = false

-- `strings.HasPrefix`
unfoldable pub has_prefix : Bytes → Bytes → Bool
has_prefix s [] = true
has_prefix [] (p ∷ ps) = false
has_prefix (c ∷ s) (p ∷ ps) = c == p && has_prefix s ps

-- `strings.Contains`
unfoldable pub contains : Bytes → Bytes → Bool
unfolding has_prefix
contains [] p = is_nil p
contains (c ∷ s) p = has_prefix (c ∷ s) p || contains s p

-- The bytes before the first `sep`, and those behind it if there is one: `strings.SplitN` with 2.
unfoldable pub cut : ℕ → Bytes → Bytes × Option Bytes
cut sep [] = ([], none)
cut sep (c ∷ s) = let rest = cut sep s in if c == sep then ([], some s) else (c ∷ rest.0, rest.1)

-- `strings.Split` with a one-byte separator: the first part, and the parts behind it.
unfoldable pub split_parts : ℕ → Bytes → Bytes × List Bytes
split_parts sep [] = ([], [])
split_parts sep (c ∷ s) =
    let rest = split_parts sep s in if c == sep then ([], rest.0 ∷ rest.1) else (c ∷ rest.0, rest.1)

unfoldable pub split : ℕ → Bytes → List Bytes
unfolding split_parts
split sep s = let parts = split_parts sep s in parts.0 ∷ parts.1

-- `strings.Join` with a one-byte separator
unfoldable pub join : ℕ → List Bytes → Bytes
join sep [] = []
join sep (p ∷ []) = p
join sep (p ∷ q ∷ ps) = p ++ sep ∷ join sep (q ∷ ps)

abbrev pub is_ascii_space : ℕ → Bool
is_ascii_space c = c == b' ' || (leb 9 c && leb c 13)

-- U+0085 and U+00A0
abbrev wide2 : ℕ → ℕ → Bool
wide2 a b = a == 0xC2 && (b == 0x85 || b == 0xA0)

-- U+1680, U+2000 to U+200A, U+2028, U+2029, U+202F, U+205F, U+3000
abbrev wide3 : ℕ → ℕ → ℕ → Bool
wide3 a b c =
    (a == 0xE1 && b == 0x9A && c == 0x80)
    || (a == 0xE2
        && b == 0x80
        && ((leb 0x80 c && leb c 0x8A) || c == 0xA8 || c == 0xA9 || c == 0xAF))
    || (a == 0xE2 && b == 0x81 && c == 0x9F)
    || (a == 0xE3 && b == 0x80 && c == 0x80)

-- The length of the white-space character in UTF-8 at the front, 0 if there is none.
pub space_len : Bytes → ℕ
space_len [] = 0
space_len (a ∷ []) = if is_ascii_space a then 1 else 0
space_len (a ∷ b ∷ []) = if is_ascii_space a then 1 else if wide2 a b then 2 else 0
space_len (a ∷ b ∷ c ∷ s) =
    if is_ascii_space a then 1 else if wide2 a b then 2 else if wide3 a b c then 3 else 0

-- The same at the back of a text that is given reversed.
pub space_len_back : Bytes → ℕ
space_len_back [] = 0
space_len_back (a ∷ []) = if is_ascii_space a then 1 else 0
space_len_back (a ∷ b ∷ []) = if is_ascii_space a then 1 else if wide2 b a then 2 else 0
space_len_back (a ∷ b ∷ c ∷ s) =
    if is_ascii_space a then 1 else if wide2 b a then 2 else if wide3 c b a then 3 else 0

-- Drops white space from the front; each round takes a byte, so `length s` rounds are enough.
pub trim_with : (Bytes → ℕ) → ℕ → Bytes → Bytes
trim_with len zero s = s
trim_with len (suc n) s = elim (len s) [ zero ↦ s | suc k ↦ trim_with len n (drop (suc k) s) ]

unfoldable pub trim_left : Bytes → Bytes
unfolding trim_with space_len
trim_left s = trim_with space_len (length s) s

unfoldable pub trim_right : Bytes → Bytes
unfolding trim_with space_len_back
trim_right s = reverse (trim_with space_len_back (length s) (reverse s))

-- `strings.TrimSpace`
unfoldable pub trim_space : Bytes → Bytes
unfolding trim_left trim_right
trim_space s = trim_right (trim_left s)

-- The bytes up to the next white space, and what is left.
take_word : Bytes → Bytes × Bytes
unfolding space_len
take_word [] = ([], [])
take_word (c ∷ s) =
    let rest = take_word s in
    elim (space_len (c ∷ s)) [ zero ↦ (c ∷ rest.0, rest.1) | suc k ↦ ([], c ∷ s) ]

fields_loop : ℕ → Bytes → List Bytes
unfolding trim_left take_word
fields_loop zero s = []
fields_loop (suc n) s =
    let t = trim_left s in
    let word = take_word t in elim t [ [] ↦ [] | _ ∷ _ ↦ word.0 ∷ fields_loop n word.1 ]

-- `strings.Fields`; each round takes a word, so `length s` rounds are enough.
unfoldable pub fields : Bytes → List Bytes
unfolding fields_loop
fields s = fields_loop (length s) s

abbrev pub lower : ℕ → ℕ
lower c = if leb b'A' c && leb c b'Z' then c + 32 else c

abbrev pub upper : ℕ → ℕ
upper c = if leb b'a' c && leb c b'z' then c - 32 else c

-- `strings.ToLower` and `strings.ToUpper` on ASCII
unfoldable pub to_lower : Bytes → Bytes
to_lower = map lower

unfoldable pub to_upper : Bytes → Bytes
to_upper = map upper

-- `strings.EqualFold` on ASCII
unfoldable pub equal_fold : Bytes → Bytes → Bool
unfolding equal to_lower
equal_fold s t = equal (to_lower s) (to_lower t)

trim_test : trim_space (codes " \r\n a b\t") ≡ codes "a b"
unfolding trim_space
trim_test = refl

fields_test : fields (codes " 1  INVITE ") ≡ codes "1" ∷ codes "INVITE" ∷ []
unfolding fields
fields_test = refl
