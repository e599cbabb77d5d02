-- ===== src/Api/Related.antt =====
-- The route /api/related of core-go/api.go, over the answers of its three queries.
use zaman.Base.{
  ◌≡◌, refl, Bool, false, ◌||◌, Option, none, some, List, [], ◌∷◌, ◌++◌, map, if◌then◌else◌, is_nil,
  arith, ap, append-nil, Bool-cases, inl, inr,
}
use zaman.Text.{Bytes, codes, equal}
use zaman.Text.Split.{equal_iff}
use zaman.Text.Json.Value.{Json, text, array, object, members, items}

-- `seen`, and the ids with their reasons in `parts`
pub record Found : Type 0 where
  pub seen : List Bytes
  pub parts : List (Bytes × Bytes)

unfoldable pub is_seen : Bytes → List Bytes → Bool
unfolding equal
is_seen id [] = false
is_seen id (s ∷ seen) = equal s id || is_seen id seen

unfoldable pub add_id : Bytes → Bytes → Found → Found
unfolding is_seen
add_id reason id f =
    if is_seen id f.seen
    then f
    else record { seen = id ∷ f.seen; parts = f.parts ++ (id, reason) ∷ [] }

unfoldable pub add_ids : Bytes → List Bytes → Found → Found
unfolding add_id
add_ids reason [] f = f
add_ids reason (id ∷ ids) f = add_ids reason ids (add_id reason id f)

-- A query that fails adds nothing.
unfoldable pub rows_or_nil : Option (List Bytes) → List Bytes
rows_or_nil none = []
rows_or_nil (some rows) = rows

unfoldable pub related :
    Bytes → Option (List Bytes) → Option (List Bytes) → Option (List Bytes) → List (Bytes × Bytes)
unfolding add_ids rows_or_nil
related call_id rows1 rows2 rows3 =
    let start : Found = record { seen = call_id ∷ []; parts = [] } in
    let one = add_ids (codes "hep_correlation") (rows_or_nil rows1) start in
    let two = add_ids (codes "from_to_match") (rows_or_nil rows2) one in
    let three = add_ids (codes "b2bua_leg") (rows_or_nil rows3) two in three.parts

part_json : Bytes × Bytes → Json
part_json (id, reason) =
    object (members ((codes "call_id", text id) ∷ (codes "reason", text reason) ∷ []))

unfoldable pub related_json :
    Bytes → Option (List Bytes) → Option (List Bytes) → Option (List Bytes) → Json
unfolding related part_json
related_json call_id rows1 rows2 rows3 =
    if is_nil call_id
    then array (items [])
    else array (items (map part_json (related call_id rows1 rows2 rows3)))

-- The reasons that a list gives for an id, in order.
pub reasons : Bytes → List (Bytes × Bytes) → List Bytes
reasons id [] = []
reasons id ((other, reason) ∷ parts) =
    let rest = reasons id parts in if equal other id then reason ∷ rest else rest

reasons-append :
    (id : Bytes) (xs ys : List (Bytes × Bytes))
    → reasons id (xs ++ ys) ≡ reasons id xs ++ reasons id ys
unfolding reasons
reasons-append id [] ys = refl
reasons-append id ((other, reason) ∷ xs) ys = ground (arith, reasons-append id xs ys)

-- What one row adds for an id that it is about, and for others.
reasons-add_id :
    (id reason other : Bytes) (f : Found)
    → (reasons id (add_id reason other f).parts
        ≡ reasons id f.parts
          ++ (if is_seen id f.seen then [] else if equal other id then reason ∷ [] else []))
      × (is_seen id (add_id reason other f).seen ≡ (is_seen id f.seen || equal other id))
unfolding add_id is_seen reasons
reasons-add_id id reason other f = elim (Bool-cases (equal other id)) [
  | inl same ↦
      let seen_same = ap (λ i. is_seen i f.seen) ((equal_iff other id).0 same) in
      ground (
        arith,
        same,
        seen_same,
        append-nil (reasons id f.parts),
        reasons-append id f.parts ((other, reason) ∷ []),
      )
  | inr different ↦ ground (
    arith,
    different,
    append-nil (reasons id f.parts),
    reasons-append id f.parts ((other, reason) ∷ []),
  )
]

reasons-add_ids :
    (id reason : Bytes) (ids : List Bytes) (f : Found)
    → (reasons id (add_ids reason ids f).parts
        ≡ reasons id f.parts
          ++ (if is_seen id f.seen then [] else if is_seen id ids then reason ∷ [] else []))
      × (is_seen id (add_ids reason ids f).seen ≡ (is_seen id f.seen || is_seen id ids))
unfolding add_ids is_seen
reasons-add_ids id reason [] f = ground (arith, append-nil (reasons id f.parts))
reasons-add_ids id reason (other ∷ ids) f =
    let one = reasons-add_id id reason other f in
    let rest = reasons-add_ids id reason ids (add_id reason other f) in
    ground (
      arith,
      one.0,
      one.1,
      rest.0,
      rest.1,
      append-nil (reasons id f.parts),
      append-nil (reasons id f.parts ++ reason ∷ []),
    )

-- Whatever the queries return, and however often a call is in their answers: a related call is listed
-- once, with the first reason that a query gave for it, the call itself is not listed, and no call is
-- that no query has returned.
pub related-reasons :
    (call_id id : Bytes) (rows1 rows2 rows3 : Option (List Bytes))
    → reasons id (related call_id rows1 rows2 rows3) ≡ (
        if equal call_id id
        then []
        else if is_seen id (rows_or_nil rows1)
        then codes "hep_correlation" ∷ []
        else if is_seen id (rows_or_nil rows2)
        then codes "from_to_match" ∷ []
        else if is_seen id (rows_or_nil rows3)
        then codes "b2bua_leg" ∷ []
        else [])
unfolding related is_seen reasons
related-reasons call_id id rows1 rows2 rows3 =
    let start : Found = record { seen = call_id ∷ []; parts = [] } in
    let one = add_ids (codes "hep_correlation") (rows_or_nil rows1) start in
    let two = add_ids (codes "from_to_match") (rows_or_nil rows2) one in
    let first = reasons-add_ids id (codes "hep_correlation") (rows_or_nil rows1) start in
    let second = reasons-add_ids id (codes "from_to_match") (rows_or_nil rows2) one in
    let third = reasons-add_ids id (codes "b2bua_leg") (rows_or_nil rows3) two in
    ground (arith, first.0, first.1, second.0, second.1, third.0)
