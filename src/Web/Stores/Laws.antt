-- ===== src/Web/Stores/Laws.antt =====
-- Laws of the saved searches and the node names.
use zaman.Base.{
  ℕ, ◌≤◌, ◌≡◌, ◌≢◌, refl, ap, ◌∙◌, true, false, Option, none, some, List, [], ◌∷◌, ◌++◌,
  if◌then◌else◌, is_nil, arith, All,
}
use zaman.Text.{Bytes, equal}
use zaman.Text.Decimal.{ℤ, pos, negsuc}
use zaman.Web.Stores.{
  Search, raise_id, search_id, add_search, is_other, delete_search, NodeNames, set_name,
  merge_names,
}

raise_id-from : (sid : Option ℤ) (id : ℕ) → id ≤ raise_id sid id
raise_id-from none id = omega arith
raise_id-from (some (pos n)) id = ground arith
raise_id-from (some (negsuc n)) id = omega arith

search_id-from : (id : ℕ) (searches : List Search) → id ≤ search_id id searches
unfolding search_id
search_id-from id [] = omega arith
search_id-from id (s ∷ searches) =
    omega (arith, raise_id-from s.id id, search_id-from (raise_id s.id id) searches)

-- A search that has a number.
abbrev pub HasId : Search → Type 0
HasId s = s.id ≢ none

raise_id-above :
    (sid : Option ℤ) (id k : ℕ) → sid ≢ none → raise_id sid id ≤ k → is_other (pos k) sid ≡ true
raise_id-above none id k h below = absurd (h refl)
raise_id-above (some (pos n)) id k h below = ground (arith, below)
raise_id-above (some (negsuc n)) id k h below = refl

delete_search-fresh :
    (id k : ℕ) (searches : List Search)
    → All HasId searches
    → search_id id searches ≤ k
    → (s : Search) → s.id ≡ some (pos k)
    → delete_search (pos k) (searches ++ s ∷ []) ≡ searches
unfolding search_id delete_search
delete_search-fresh id k [] h below s e = rw e (ground arith)
delete_search-fresh id k (t ∷ searches) h below s e = ground (
  arith,
  raise_id-above t.id id k h.0 (omega (arith, below, search_id-from (raise_id t.id id) searches)),
  delete_search-fresh (raise_id t.id id) k searches h.1 below s e,
)

-- A search that is added gets a number that no search has: deleting that number takes the new one
-- away and leaves the others as they were, provided each of them has a number.
pub delete_search-add_search :
    (name : Bytes) (params : List (Bytes × Bytes)) (searches : List Search)
    → All HasId searches
    → is_nil name ≡ false
    → (stored : List Search) × (add_search (some (name, params)) searches ≡ some stored)
      × (delete_search (pos (search_id 1 searches)) stored ≡ searches)
unfolding add_search
delete_search-add_search name params searches h some_name =
    let added : Search = record {
      id = some (pos (search_id 1 searches));
      name = name;
      params = params;
    } in
    (
      searches ++ added ∷ [],
      rw some_name refl,
      delete_search-fresh 1 (search_id 1 searches) searches h (omega arith) added refl,
    )

set_name_lem :
    (k : Bytes) (v : Option Bytes) (names : NodeNames) (key : Bytes)
    → set_name k v names key ≡ (if equal k key then v else names key)
unfolding set_name
set_name_lem k v names key = refl

-- The body's entry for a key, as the merge reads it.
unfoldable pub entry_or : Bytes → List (Bytes × Bytes) → Option Bytes → Option Bytes
entry_or key [] old = old
entry_or key ((k, v) ∷ body) old =
    let rest =
      entry_or key body (if equal k key then (if is_nil v then none else some v) else old) in
    rest

-- A key that the body has an entry for gets it, or is deleted by an empty one; every other key
-- keeps its name.
pub merge_names-entry_or :
    (body : List (Bytes × Bytes)) (names : NodeNames) (key : Bytes)
    → merge_names body names key ≡ entry_or key body (names key)
unfolding merge_names entry_or
merge_names-entry_or [] names key = refl
merge_names-entry_or ((k, v) ∷ body) names key =
    merge_names-entry_or body (set_name k (if is_nil v then none else some v) names) key
    ∙ ap (entry_or key body) (set_name_lem k (if is_nil v then none else some v) names key)
