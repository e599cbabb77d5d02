-- ===== src/Reports/Trends.antt =====
-- The reports of core-go/reports.go over time: daily and hourly trends, days, minutes and the summary,
-- over the rows of their queries. `none` is a query that fails.
use zaman.Base.{ℕ, ◌+◌, ◌*◌, Option, none, some, List, [], ◌∷◌, ltb, if◌then◌else◌}
use zaman.Text.{Bytes, codes}
use zaman.Text.Decimal.{ℤ, pos}
use zaman.Text.Json.Value.{Json, text, number, array, object, Members, end, member, members, items}
use zaman.Reports.Rows.{percent, capped}
use zaman.Reports.Calls.{rows_json}

pub record TrendRow : Type 0 where
  pub bucket : ℕ
  pub total : ℕ
  pub answered : ℕ
  pub failed : ℕ
  pub acd : ℕ

unfoldable pub trend_asr : TrendRow → ℕ
unfolding percent capped
trend_asr r = capped (percent r.answered (r.answered + r.failed))

trend_row : Bytes → Json → TrendRow → Json
unfolding trend_asr
trend_row key time r = object (
    members (
      (key, time)
      ∷ (codes "total", number (pos r.total))
      ∷ (codes "answered", number (pos r.answered))
      ∷ (codes "failed", number (pos r.failed))
      ∷ (codes "asr", number (pos (trend_asr r)))
      ∷ (codes "acd", number (pos r.acd))
      ∷ []))

-- buildTrendJSON; `format_day` is `time.Unix(t, 0).UTC().Format("2006-01-02")`.
unfoldable pub trend_json : (ℕ → Bytes) → Option (List TrendRow) → Json
unfolding rows_json trend_row
trend_json format_day =
    rows_json λ r. trend_row (codes "day") (text (format_day (r.bucket * 86400))) r

-- buildHourlyTrendJSON
unfoldable pub hourly_trend_json : Option (List TrendRow) → Json
unfolding rows_json trend_row
hourly_trend_json = rows_json λ r. trend_row (codes "ts") (number (pos (r.bucket * 3600000))) r

pub record DayRow : Type 0 where
  pub day : Bytes
  pub method : Bytes
  pub transport : Bytes
  pub cnt : ℕ

-- buildDailyJSON
unfoldable pub daily_json : Option (List DayRow) → Json
unfolding rows_json
daily_json = rows_json λ r. object (
    members (
      (codes "day", text r.day)
      ∷ (codes "method", text r.method)
      ∷ (codes "transport", text r.transport)
      ∷ (codes "count", number (pos r.cnt))
      ∷ []))

pub record MinuteCount : Type 0 where
  pub bucket : ℕ
  pub total : ℕ
  pub invites : ℕ

-- buildCPSJSON
unfoldable pub cps_json : Option (List MinuteCount) → Json
unfolding rows_json
cps_json = rows_json λ r. object (
    members (
      (codes "minute", number (pos r.bucket))
      ∷ (codes "total", number (pos r.total))
      ∷ (codes "invites", number (pos r.invites))
      ∷ []))

method_counts : Option (List (Bytes × ℕ)) → Members
method_counts none = end
method_counts (some []) = end
method_counts (some ((method, cnt) ∷ rows)) =
    member method (number (pos cnt)) (method_counts (some rows))

-- buildReportSummaryJSON; a time is 0 where the table is empty.
unfoldable pub summary_json : ℕ → ℤ → ℕ → ℕ → Option (List (Bytes × ℕ)) → Json
unfolding method_counts
summary_json total unique_calls ts_min ts_max methods = object (
    members (
      (codes "total", number (pos total))
      ∷ (codes "unique_call_ids", number unique_calls)
      ∷ (codes "hep", number (pos total))
      ∷ (codes "sip_udp", number (pos 0))
      ∷ (codes "ts_min", number (pos ts_min))
      ∷ (codes "ts_max", number (pos ts_max))
      ∷ (codes "methods", object (method_counts methods))
      ∷ []))

-- buildQoSJSON; `none` is an error of the query or of the scan, and the R-factor is of qos.go.
unfoldable pub qos_json : (ℕ → ℕ → ℤ) → Option (ℕ × ℕ × ℕ × ℕ × Bytes) → Json
qos_json r_factor none = array (items [])
qos_json r_factor (some (mos, jitter, loss, rtcp_count, codec)) =
    if ltb 0 rtcp_count
    then array (
        items (
          object (
            members (
              (codes "mos_x10", number (pos mos))
              ∷ (codes "jitter_ms", number (pos jitter))
              ∷ (codes "loss_pct", number (pos loss))
              ∷ (codes "r_factor", number (r_factor jitter loss))
              ∷ (codes "codec", text codec)
              ∷ (codes "samples", number (pos rtcp_count))
              ∷ []))
          ∷ []))
    else array (items [])
