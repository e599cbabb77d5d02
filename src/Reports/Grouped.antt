-- ===== src/Reports/Grouped.antt =====
-- The grouping queries of core-go/reports.go, as functions of the table call_state. PostgreSQL may give
-- groups that compare equal in any order; here they keep the order of the table.
pub mod Sums
pub mod Keys
pub mod Captures
use zaman.Base.{
  ℕ, ◌/◌, ◌≡◌, ◌==◌, ◌||◌, Bool, List, [], ◌∷◌, map, ltb, leb, if◌then◌else◌, take, length,
}
use zaman.Text.{Bytes, equal, cut}
use zaman.Text.Decimal.{pos, negsuc}
use zaman.Db.CallState.{CallState}
use zaman.Reports.Rows.{count, filter_rows, is_failed, is_finished}
use zaman.Reports.Realtime.{acd_seconds}
use zaman.Reports.Agents.{SlaRow, MinuteRow}
use zaman.Reports.Trends.{TrendRow, MinuteCount}

-- `GROUP BY`: the keys with their rows; `same` compares keys.
unfoldable pub add_to_group {ℓ κ} :
    {K : Type κ} {A : Type ℓ} → (K → K → Bool) → K → A → List (K × List A) → List (K × List A)
add_to_group same key row [] = (key, row ∷ []) ∷ []
add_to_group same key row ((other, rows) ∷ groups) =
    let rest = add_to_group same key row groups in
    if same other key then (other, row ∷ rows) ∷ groups else (other, rows) ∷ rest

unfoldable pub group_by {ℓ κ} :
    {K : Type κ} {A : Type ℓ} → (K → K → Bool) → (A → K) → List A → List (K × List A)
unfolding add_to_group
group_by same key [] = []
group_by same key (row ∷ rows) = add_to_group same (key row) row (group_by same key rows)

-- `ORDER BY`; `before` says which of two rows comes first.
unfoldable pub insert_by {ℓ} : {A : Type ℓ} → (A → A → Bool) → A → List A → List A
insert_by before x [] = x ∷ []
insert_by before x (y ∷ ys) =
    let rest = insert_by before x ys in if before y x then y ∷ rest else x ∷ y ∷ ys

unfoldable pub order_by {ℓ} : {A : Type ℓ} → (A → A → Bool) → List A → List A
unfolding insert_by
order_by before [] = []
order_by before (x ∷ xs) = insert_by before x (order_by before xs)

-- `WHERE first_ts_ms >= cutoff`
abbrev pub since : ℕ → List CallState → List CallState
unfolding filter_rows
since cutoff = filter_rows (λ r. leb cutoff r.first_ts_ms)

abbrev pub is_invited : CallState → Bool
is_invited r = ltb 0 r.invite_id

-- The columns of the SLA queries for a group.
unfoldable pub sla_row : Bytes × List CallState → SlaRow
unfolding count filter_rows acd_seconds
sla_row (name, rows) = record {
  name = name;
  invites = count is_invited rows;
  ok_2xx = count (λ r. r.answered) rows;
  errors = count is_failed rows;
  acd = acd_seconds (filter_rows is_finished rows);
}

abbrev pub more_invites : SlaRow → SlaRow → Bool
more_invites r s = ltb s.invites r.invites

-- The rows of buildSLAAgentsJSON, which has no column for the duration.
unfoldable pub sla_agents_rows : ℕ → List CallState → List SlaRow
unfolding group_by order_by sla_row equal
sla_agents_rows cutoff calls =
    order_by more_invites (map sla_row (group_by equal (λ r. r.agent) (since cutoff calls)))

-- `split_part(addr, ':', 1)`
abbrev pub host_of : Bytes → Bytes
unfolding cut
host_of addr = (cut b':' addr).0

-- The rows of buildSLADestJSON and buildSLASrcJSON, by the column that `addr` is.
unfoldable pub sla_peer_rows : (CallState → Bytes) → ℕ → List CallState → List SlaRow
unfolding group_by order_by sla_row equal filter_rows
sla_peer_rows addr cutoff calls =
    let groups = map sla_row (group_by equal (λ r. host_of (addr r)) (since cutoff calls)) in
    take 50 (order_by more_invites (filter_rows (λ r. ltb 0 r.invites) groups))

-- The rows of buildTrendJSON and buildHourlyTrendJSON, by the length of a bucket.
unfoldable pub trend_row_of : ℕ × List CallState → TrendRow
unfolding count filter_rows acd_seconds
trend_row_of (bucket, rows) = record {
  bucket = bucket;
  total = length rows;
  answered = count (λ r. r.answered) rows;
  failed = count is_failed rows;
  acd = acd_seconds (filter_rows is_finished rows);
}

unfoldable pub trend_rows : ℕ → ℕ → List CallState → List TrendRow
unfolding group_by order_by trend_row_of
trend_rows bucket_ms cutoff calls =
    order_by (λ r s. ltb r.bucket s.bucket)
      (map trend_row_of (group_by ◌==◌ (λ r. r.first_ts_ms / bucket_ms) (since cutoff calls)))

-- The rows of buildCPSJSON
unfoldable pub cps_rows : ℕ → List CallState → List MinuteCount
unfolding group_by order_by count
cps_rows cutoff calls =
    let minute : ℕ × List CallState → MinuteCount =
      λ g. record { bucket = g.0; total = length g.1; invites = count is_invited g.1 } in
    order_by (λ r s. ltb r.bucket s.bucket)
      (map minute (group_by ◌==◌ (λ r. r.first_ts_ms / 60000) (since cutoff calls)))

-- The calls that buildCarrierScoreJSON looks at: those from an address or to it.
unfoldable pub carrier_calls : Bytes → ℕ → List CallState → List CallState
unfolding equal filter_rows
carrier_calls ip cutoff calls =
    filter_rows (λ r. equal (host_of r.dst) ip || equal (host_of r.src) ip) (since cutoff calls)

abbrev code_of : CallState → ℕ
code_of r = elim r.last_status [ pos n ↦ n | negsuc n ↦ 0 ]

-- Its error codes and its minutes
unfoldable pub error_rows : List CallState → List (ℕ × ℕ)
unfolding group_by order_by filter_rows
error_rows calls =
    let row : ℕ × List CallState → ℕ × ℕ = λ g. (g.0, length g.1) in
    take 10 (
      order_by (λ r s. ltb s.1 r.1) (map row (group_by ◌==◌ code_of (filter_rows is_failed calls))))

unfoldable pub minute_rows : List CallState → List MinuteRow
unfolding group_by order_by count
minute_rows calls =
    let row : ℕ × List CallState → MinuteRow = λ g. record {
      bucket = g.0;
      invites = count is_invited g.1;
      answered = count (λ r. r.answered) g.1;
    } in
    order_by (λ r s. ltb r.bucket s.bucket)
      (map row (group_by ◌==◌ (λ r. r.first_ts_ms / 60000) calls))
