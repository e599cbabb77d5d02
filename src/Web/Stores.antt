-- ===== src/Web/Stores.antt =====
-- The saved searches and the node names of web/main.go. A file is the value that its JSON stands for:
-- a file that is missing or does not parse is an empty one.
pub mod Laws
use zaman.Base.{
  ℕ, zero, suc, ◌+◌, ◌≡◌, refl, Bool, true, false, not, Option, none, some, List, [], ◌∷◌, ◌++◌,
  ltb, leb, ◌==◌, if◌then◌else◌, is_nil,
}
use zaman.Text.{Bytes, equal}
use zaman.Text.Decimal.{ℤ, pos, negsuc}
use zaman.Web.Users.{equal_ℤ}

-- A saved search; `id` is none where the file has no number there.
pub record Search : Type 0 where
  pub id : Option ℤ
  pub name : Bytes
  pub params : List (Bytes × Bytes)

-- `id` starts at 1 and goes behind every number that is not below it.
abbrev pub raise_id : Option ℤ → ℕ → ℕ
raise_id (some (pos n)) id = if leb id n then n + 1 else id
raise_id _ id = id

unfoldable pub search_id : ℕ → List Search → ℕ
search_id id [] = id
search_id id (s ∷ searches) = search_id (raise_id s.id id) searches

-- `POST /web/searches`: the body's name and parameters, if it decodes; none is an error.
unfoldable pub add_search :
    Option (Bytes × List (Bytes × Bytes)) → List Search → Option (List Search)
unfolding search_id
add_search none searches = none
add_search (some (name, params)) searches =
    if is_nil name
    then none
    else some (
        searches
        ++ record { id = some (pos (search_id 1 searches)); name = name; params = params } ∷ [])

-- A search with a number that is not this one.
abbrev pub is_other : ℤ → Option ℤ → Bool
is_other id none = false
is_other id (some sid) = not (equal_ℤ sid id)

-- `DELETE /web/searches`
unfoldable pub delete_search : ℤ → List Search → List Search
delete_search id [] = []
delete_search id (s ∷ searches) =
    let rest = delete_search id searches in if is_other id s.id then s ∷ rest else rest

-- The map of node names.
abbrev pub NodeNames : Type 0
NodeNames = Bytes → Option Bytes

unfoldable pub set_name : Bytes → Option Bytes → NodeNames → NodeNames
unfolding equal
set_name k v names other = if equal k other then v else names other

-- `POST /web/node-names`: the entries of the body, an empty name deletes.
unfoldable pub merge_names : List (Bytes × Bytes) → NodeNames → NodeNames
unfolding set_name
merge_names [] names = names
merge_names ((k, v) ∷ body) names =
    merge_names body (set_name k (if is_nil v then none else some v) names)
