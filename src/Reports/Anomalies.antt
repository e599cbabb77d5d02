-- ===== src/Reports/Anomalies.antt =====
-- buildAnomaliesJSON of core-go/reports.go.
use zaman.Base.{ℕ, ◌+◌, Bool, ◌&&◌, ◌||◌, List, [], ◌∷◌, ◌++◌, map, ltb, if◌then◌else◌}
use zaman.Text.{Bytes, codes}
use zaman.Text.Decimal.{pos, geb, ltb_ℤ}
use zaman.Text.Json.Value.{Json, text, number, array, object, members, items}
use zaman.Db.CallState.{CaptureRecord}
use zaman.Reports.Rows.{count}

pub record Anomaly : Type 0 where
  pub kind : Bytes
  pub severity : Bytes
  pub cnt : ℕ
  pub message : Bytes

abbrev status_is : ℕ → CaptureRecord → Bool
status_is k r = geb r.status k && ltb_ℤ r.status (k + 1)

abbrev when_above : ℕ → Anomaly → List Anomaly
when_above most a = if ltb most a.cnt then a ∷ [] else []

-- The anomalies of the captures of the last five minutes, in the code's order.
unfoldable pub anomalies : List CaptureRecord → List Anomaly
unfolding count
anomalies captures =
    when_above 5 (record {
      kind = codes "auth_failures";
      severity = codes "warning";
      cnt = count (λ r. status_is 401 r || status_is 403 r) captures;
      message = codes "Elevated auth failures in 5m";
    })
    ++ (when_above 0 (record {
      kind = codes "5xx_errors";
      severity = codes "critical";
      cnt = count (λ r. geb r.status 500) captures;
      message = codes "Server errors detected in 5m";
    })
        ++ when_above 10 (record {
          kind = codes "busy_spike";
          severity = codes "warning";
          cnt = count (status_is 486) captures;
          message = codes "Elevated 486 Busy responses in 5m";
        }))

unfoldable pub anomaly_json : Anomaly → Json
anomaly_json a = object (
    members (
      (codes "type", text a.kind)
      ∷ (codes "severity", text a.severity)
      ∷ (codes "count", number (pos a.cnt))
      ∷ (codes "message", text a.message)
      ∷ []))

unfoldable pub anomalies_json : List Anomaly → Json
unfolding anomaly_json
anomalies_json as_found = array (items (map anomaly_json as_found))
