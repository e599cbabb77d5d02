-- ===== src/Reports/Grouped/Keys.antt =====
-- Each group has one row, and the row has the figures of its own calls.
use zaman.Base.{
  ℕ, ◌+◌, ◌/◌, ◌==◌, ==_iff, ◌≡◌, refl, sym, ap, ◌∙◌, Bool, true, false, ◌&&◌, not, List, [], ◌∷◌,
  map, if◌then◌else◌, length, min, max, ltb, leb, arith, Bool-cases, inl, inr,
}
use zaman.Text.{Bytes, equal}
use zaman.Text.Split.{equal_iff}
use zaman.Text.Decimal.{geb}
use zaman.Db.CallState.{CallState}
use zaman.Reports.Rows.{count, filter_rows, is_failed}
use zaman.Reports.Trends.{TrendRow}
use zaman.Reports.Grouped.{
  add_to_group, group_by, order_by, since, is_invited, sla_row, more_invites, sla_agents_rows,
  trend_row_of, trend_rows,
}
use zaman.Reports.Grouped.Sums.{sum_by, sum_by-order_by, sum_by-map}

count-sum_by {ℓ} :
    {A : Type ℓ} (p : A → Bool) (xs : List A) → count p xs ≡ sum_by (λ x. if p x then 1 else 0) xs
unfolding count sum_by
count-sum_by p [] = refl
count-sum_by p (x ∷ xs) = ap (λ n. (if p x then 1 else 0) + n) (count-sum_by p xs)

count-filter_rows {ℓ} :
    {A : Type ℓ} (p q : A → Bool) (xs : List A)
    → count p (filter_rows q xs) ≡ count (λ x. q x && p x) xs
unfolding count filter_rows
count-filter_rows p q [] = refl
count-filter_rows p q (x ∷ xs) = ground (arith, count-filter_rows p q xs)

sum_by-filter {ℓ} :
    {A : Type ℓ} (p q : A → Bool) (xs : List A)
    → sum_by (λ x. if q x then (if p x then 1 else 0) else 0) xs ≡ count (λ x. q x && p x) xs
unfolding count sum_by
sum_by-filter p q [] = refl
sum_by-filter p q (x ∷ xs) = ground (arith, sum_by-filter p q xs)

-- Groups by a key, of which `same` shows the equality, and one key of them.
module _ {ℓ} {K : Type 0} {A : Type ℓ} (same : K → K → Bool)
    (sound : (a b : K) → same a b ≡ true → a ≡ b) (k : K) where
  keys-add_to_group :
      (key : K) (row : A) (groups : List (K × List A))
      → sum_by (λ g. if same g.0 k then 1 else 0) (add_to_group same key row groups) ≡ (
          if same key k
          then max 1 (sum_by (λ g. if same g.0 k then 1 else 0) groups)
          else sum_by (λ g. if same g.0 k then 1 else 0) groups)
  unfolding sum_by add_to_group
  keys-add_to_group key row [] = ground arith
  keys-add_to_group key row ((other, rows) ∷ groups) = elim (Bool-cases (same other key)) [
    | inl e ↦ let here = ap (λ i. same i k) (sound other key e) in rw e (ground (arith, here))
    | inr e ↦ elim (Bool-cases (same key k)) [
      | inl own ↦
          let there : same other k ≡ false = ap (same other) (sym (sound key k own)) ∙ e in
          rw e (ground (arith, own, there, keys-add_to_group key row groups))
      | inr other_key ↦ rw e (ground (arith, other_key, keys-add_to_group key row groups))
    ]
  ]

  keys-group_by :
      (key : A → K) (rows : List A)
      → sum_by (λ g. if same g.0 k then 1 else 0) (group_by same key rows)
        ≡ min 1 (count (λ r. same (key r) k) rows)
  unfolding sum_by group_by count
  keys-group_by key [] = ground arith
  keys-group_by key (row ∷ rows) =
      keys-add_to_group (key row) row (group_by same key rows)
      ∙ ground (arith, keys-group_by key rows)

  module _ (figure : List A → ℕ) (weight : A → ℕ) (none_yet : figure [] ≡ 0)
      (adds : (row : A) (rows : List A) → figure (row ∷ rows) ≡ weight row + figure rows) where
    figures-add_to_group :
        (key : K) (row : A) (groups : List (K × List A))
        → sum_by (λ g. if same g.0 k then figure g.1 else 0) (add_to_group same key row groups)
          ≡ (if same key k then weight row else 0)
            + sum_by (λ g. if same g.0 k then figure g.1 else 0) groups
    unfolding sum_by add_to_group
    figures-add_to_group key row [] = ground (arith, none_yet, adds row [])
    figures-add_to_group key row ((other, rows) ∷ groups) = elim (Bool-cases (same other key)) [
      | inl e ↦
          let here = ap (λ i. same i k) (sound other key e) in
          rw e (ground (arith, here, adds row rows))
      | inr e ↦ rw e (ground (arith, figures-add_to_group key row groups))
    ]

    figures-group_by :
        (key : A → K) (rows : List A)
        → sum_by (λ g. if same g.0 k then figure g.1 else 0) (group_by same key rows)
          ≡ sum_by (λ r. if same (key r) k then weight r else 0) rows
    unfolding sum_by group_by
    figures-group_by key [] = refl
    figures-group_by key (row ∷ rows) =
        figures-add_to_group (key row) row (group_by same key rows)
        ∙ ap (λ n. (if same (key row) k then weight row else 0) + n) (figures-group_by key rows)

sum_by-order_by-map {ℓ} :
    {A : Type 0} {B : Type ℓ} (f : B → ℕ) (before : B → B → Bool) (h : A → B) (xs : List A)
    → sum_by f (order_by before (map h xs)) ≡ sum_by (λ x. f (h x)) xs
sum_by-order_by-map f before h xs = sum_by-order_by f before (map h xs) ∙ sum_by-map f h xs

module _ {K : Type 0} (same : K → K → Bool) (sound : (a b : K) → same a b ≡ true → a ≡ b) (k : K)
    (key : CallState → K) (cutoff : ℕ) (calls : List CallState) where
  one_group :
      sum_by (λ g. if same g.0 k then 1 else 0) (group_by same key (since cutoff calls))
      ≡ min 1 (count (λ c. leb cutoff c.first_ts_ms && same (key c) k) calls)
  unfolding since count
  one_group =
      keys-group_by same sound k key (since cutoff calls)
      ∙ ap (min 1) (count-filter_rows (λ c. same (key c) k) (λ c. leb cutoff c.first_ts_ms) calls)

  own_figure :
      (p : CallState → Bool)
      → sum_by (λ g. if same g.0 k then count p g.1 else 0) (group_by same key (since cutoff calls))
        ≡ count (λ c. leb cutoff c.first_ts_ms && (same (key c) k && p c)) calls
  unfolding count since
  own_figure p =
      figures-group_by same sound k (count p) (λ c. if p c then 1 else 0) refl (λ c cs. refl) key
        (since cutoff calls)
      ∙ sum_by-filter p (λ c. same (key c) k) (since cutoff calls)
      ∙ count-filter_rows (λ c. same (key c) k && p c) (λ c. leb cutoff c.first_ts_ms) calls

  own_calls :
      sum_by (λ g. if same g.0 k then length g.1 else 0) (group_by same key (since cutoff calls))
      ≡ count (λ c. leb cutoff c.first_ts_ms && same (key c) k) calls
  unfolding since count
  own_calls =
      figures-group_by same sound k length (λ c. 1) refl (λ c cs. omega arith) key
        (since cutoff calls)
      ∙ sym (count-sum_by (λ c. same (key c) k) (since cutoff calls))
      ∙ count-filter_rows (λ c. same (key c) k) (λ c. leb cutoff c.first_ts_ms) calls

-- The SLA report has one row for each agent that had a call since the cutoff, and no other; the row
-- has the numbers of that agent's calls since then with an INVITE, that were answered, and that ended
-- unanswered with a status from 400 on.
pub sla_agents_rows-agent :
    (cutoff : ℕ) (calls : List CallState) (agent : Bytes)
    → let rows = sla_agents_rows cutoff calls in
      let own : (CallState → Bool) → ℕ =
        λ p. count (λ c. leb cutoff c.first_ts_ms && (equal c.agent agent && p c)) calls in
      (count (λ r. equal r.name agent) rows
        ≡ min 1 (count (λ c. leb cutoff c.first_ts_ms && equal c.agent agent) calls))
      × (sum_by (λ r. if equal r.name agent then r.invites else 0) rows
          ≡ own (λ c. ltb 0 c.invite_id))
      × (sum_by (λ r. if equal r.name agent then r.ok_2xx else 0) rows ≡ own (λ c. c.answered))
      × (sum_by (λ r. if equal r.name agent then r.errors else 0) rows
          ≡ own (λ c. not c.answered && not c.is_open && geb c.last_status 400))
unfolding sla_agents_rows sla_row
sla_agents_rows-agent cutoff calls agent =
    let groups = group_by equal (λ c. c.agent) (since cutoff calls) in
    let sound : (a b : Bytes) → equal a b ≡ true → a ≡ b = λ a b. (equal_iff a b).0 in
    let own = own_figure equal sound agent (λ c. c.agent) cutoff calls in
    (
      count-sum_by (λ r. equal r.name agent) _
          ∙ sum_by-order_by-map _ more_invites sla_row groups
          ∙ one_group equal sound agent (λ c. c.agent) cutoff calls,
      sum_by-order_by-map _ more_invites sla_row groups ∙ own is_invited,
      sum_by-order_by-map _ more_invites sla_row groups ∙ own (λ c. c.answered),
      sum_by-order_by-map _ more_invites sla_row groups ∙ own is_failed,
    )

-- A trend has one row for each bucket of `bucket_ms` milliseconds in which a call since the cutoff began;
-- the row has the numbers of that bucket's calls since then, of the answered ones, and of those that
-- ended unanswered with a status from 400 on.
pub trend_rows-bucket :
    (bucket_ms cutoff : ℕ) (calls : List CallState) (bucket : ℕ)
    → let rows = trend_rows bucket_ms cutoff calls in
      let own : (CallState → Bool) → ℕ = λ p.
        count
          (λ c. leb cutoff c.first_ts_ms && (c.first_ts_ms / bucket_ms == bucket && p c))
          calls in
      let began =
        count (λ c. leb cutoff c.first_ts_ms && c.first_ts_ms / bucket_ms == bucket) calls in
      (count (λ r. r.bucket == bucket) rows ≡ min 1 began)
      × (sum_by (λ r. if r.bucket == bucket then r.total else 0) rows ≡ began)
      × (sum_by (λ r. if r.bucket == bucket then r.answered else 0) rows ≡ own (λ c. c.answered))
      × (sum_by (λ r. if r.bucket == bucket then r.failed else 0) rows
          ≡ own (λ c. not c.answered && not c.is_open && geb c.last_status 400))
unfolding trend_rows trend_row_of
trend_rows-bucket bucket_ms cutoff calls bucket =
    let key : CallState → ℕ = λ c. c.first_ts_ms / bucket_ms in
    let groups = group_by ◌==◌ key (since cutoff calls) in
    let before : TrendRow → TrendRow → Bool = λ r s. ltb r.bucket s.bucket in
    let sound : (a b : ℕ) → (a == b) ≡ true → a ≡ b = λ a b. (==_iff a b).0 in
    let own = own_figure ◌==◌ sound bucket key cutoff calls in
    (
      count-sum_by (λ r. r.bucket == bucket) _
          ∙ sum_by-order_by-map _ before trend_row_of groups
          ∙ one_group ◌==◌ sound bucket key cutoff calls,
      sum_by-order_by-map _ before trend_row_of groups
          ∙ own_calls ◌==◌ sound bucket key cutoff calls,
      sum_by-order_by-map _ before trend_row_of groups ∙ own (λ c. c.answered),
      sum_by-order_by-map _ before trend_row_of groups ∙ own is_failed,
    )
