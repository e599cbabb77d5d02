-- ===== src/Reports/Grouped/Captures.antt =====
-- The grouping queries of core-go/reports.go on the tables captures and report_daily.
use zaman.Base.{
  ℕ, ◌+◌, ◌≡◌, List, [], ◌∷◌, map, ltb, leb, ◌==◌, refl, ◌∙◌, arith, take, length, min, max,
}
use zaman.Text.{Bytes, equal}
use zaman.Text.Decimal.{ℤ, pos, negsuc, geb}
use zaman.Db.Batch.{Capture, DailyRow}
use zaman.Reports.Rows.{count, filter_rows}
use zaman.Reports.Realtime.{count_distinct}
use zaman.Reports.Agents.{NodeRow, TalkerRow, AgentRow}
use zaman.Reports.Grouped.{group_by, order_by}
use zaman.Reports.Grouped.Sums.{sum_by, sum_by-order_by, sum_by-map, sum_by-group_by}

-- `ORDER BY id DESC LIMIT 50000`
unfoldable pub newest : List Capture → List Capture
unfolding order_by
newest captures = take 50000 (order_by (λ c d. ltb d.id c.id) captures)

abbrev pub calls_of : List Capture → ℕ
unfolding count_distinct
calls_of rows = count_distinct (map (λ c. c.fields.call_id) rows)

abbrev pub first_time : List Capture → ℕ
first_time [] = 0
first_time (c ∷ []) = c.fields.ts_ms
first_time (c ∷ d ∷ rows) = min c.fields.ts_ms (first_time (d ∷ rows))

abbrev pub last_time : List Capture → ℕ
last_time [] = 0
last_time (c ∷ rows) = max c.fields.ts_ms (last_time rows)

-- The rows of buildTopTalkersJSON, where the limit is no negative one
unfoldable pub talker_rows : ℕ → List Capture → List TalkerRow
unfolding group_by order_by newest equal
talker_rows limit captures =
    let row : Bytes × List Capture → TalkerRow =
      λ g. record { src = g.0; messages = length g.1; calls = calls_of g.1 } in
    take limit (
      order_by (λ r s. ltb s.messages r.messages)
        (map row (group_by equal (λ c. c.fields.src) (newest captures))))

-- The rows of buildAgentsJSON
unfoldable pub agent_rows : List Capture → List AgentRow
unfolding group_by order_by newest equal
agent_rows captures =
    let row : Bytes × List Capture → AgentRow = λ g. record {
      agent = g.0;
      messages = length g.1;
      calls = calls_of g.1;
      first_seen = first_time g.1;
      last_seen = last_time g.1;
    } in
    order_by (λ r s. ltb s.messages r.messages)
      (map row (group_by equal (λ c. c.fields.agent) (newest captures)))

-- The rows of buildNodesJSON
unfoldable pub node_rows : ℕ → List Capture → List NodeRow
unfolding group_by order_by count filter_rows equal
node_rows cutoff captures =
    let row : Bytes × List Capture → NodeRow = λ g. record {
      agent = g.0;
      total = length g.1;
      recent = length g.1;
      last_seen = last_time g.1;
      calls = calls_of g.1;
      errors = count (λ c. geb c.fields.status 400) g.1;
    } in
    order_by (λ r s. ltb s.total r.total)
      (map row (
        group_by equal (λ c. c.fields.agent)
          (filter_rows (λ c. leb cutoff c.fields.ts_ms) captures)))

abbrev natural : ℤ → ℕ
natural (pos n) = n
natural (negsuc n) = 0

-- The rows of buildResponseCodesJSON
unfoldable pub status_rows : List Capture → List (ℕ × ℕ)
unfolding group_by order_by newest filter_rows
status_rows captures =
    let positive = filter_rows (λ c. geb c.fields.status 1) captures in
    let row : ℕ × List Capture → ℕ × ℕ = λ g. (g.0, length g.1) in
    take 30 (
      order_by (λ r s. ltb s.1 r.1)
        (map row (group_by ◌==◌ (λ c. natural c.fields.status) (newest positive))))

-- `sum(cnt)`
unfoldable pub total_count : List DailyRow → ℕ
total_count [] = 0
total_count (r ∷ rows) = r.cnt + total_count rows

-- The methods of buildReportSummaryJSON
unfoldable pub method_rows : List DailyRow → List (Bytes × ℕ)
unfolding group_by order_by total_count equal
method_rows daily =
    let row : Bytes × List DailyRow → Bytes × ℕ = λ g. (g.0, total_count g.1) in
    take 30 (order_by (λ r s. ltb s.1 r.1) (map row (group_by equal (λ r. r.method) daily)))

-- The messages of the agents add up to the newest captures, each in one agent's row.
pub agent_rows-sum :
    (captures : List Capture)
    → sum_by (λ r. r.messages) (agent_rows captures) ≡ length (newest captures)
unfolding agent_rows
agent_rows-sum captures =
    let groups = group_by equal (λ c. c.fields.agent) (newest captures) in
    sum_by-order_by (λ r. r.messages) _ _
    ∙ sum_by-map (λ r. r.messages) _ groups
    ∙ sum_by-group_by length (λ c. 1) refl (λ c cs. omega arith) equal (λ c. c.fields.agent)
        (newest captures)
