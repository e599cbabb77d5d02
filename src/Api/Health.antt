-- ===== src/Api/Health.antt =====
-- The routes /health, /api/metrics and /metrics of core-go/api.go.
use zaman.Base.{ℕ, ◌+◌, ◌-◌, ◌*◌, true, not, ◌&&◌, List, [], ◌∷◌, ◌++◌, leb, if◌then◌else◌, is_nil}
use zaman.Text.{Bytes, codes}
use zaman.Text.Decimal.{ℤ, pos, negsuc, is_pos, show}
use zaman.Text.Json.Value.{Json, text, number, flag, object, Members, end, member, members}
use zaman.Core.Config.{Config}
use zaman.Core.Metrics.{Metrics}
use zaman.Hep.Auth.{constant_time_equal}
use zaman.Api.{ApiRequest, request_key}

-- `now - days*24h`, in milliseconds
unfoldable pub days_ago : ℕ → ℤ → ℤ
days_ago now (pos days) =
    let ms = days * 86400000 in if leb ms now then pos (now - ms) else negsuc (ms - now - 1)
days_ago now (negsuc n) = pos (now + (n + 1) * 86400000)

-- The answer of /health and /api/health: without the key, only that the service is up. The code writes
-- the name of the driver as it is; a name that jesc leaves alone is written the same here.
unfoldable pub health_json : Bytes → Config → ApiRequest → ℕ → ℕ → ℤ → Metrics → Json
unfolding request_key constant_time_equal days_ago
health_json version cfg r now uptime captures m =
    if not (is_nil cfg.api_key) && not (constant_time_equal (request_key r) cfg.api_key)
    then object (members ((codes "ok", flag true) ∷ []))
    else object (
        members (
          (codes "ok", flag true)
          ∷ (codes "service", text (codes "zaman-core"))
          ∷ (codes "version", text version)
          ∷ (codes "uptime_ms", number (pos uptime))
          ∷ (
            codes "db",
            object (
                members (
                  (codes "driver", text cfg.db_driver)
                  ∷ (codes "writes_ok", number (pos m.db_ok))
                  ∷ (codes "writes_err", number (pos m.db_err))
                  ∷ (codes "writes_dropped", number (pos m.db_drop))
                  ∷ [])),
          )
          ∷ (
            codes "retention",
            object (
                members (
                  (codes "days", number cfg.retention_days)
                  ∷ (codes "cutoff_ms", number (days_ago now cfg.retention_days))
                  ∷ (codes "enabled", flag (is_pos cfg.retention_days))
                  ∷ [])),
          )
          ∷ (codes "captures", number captures)
          ∷ (codes "channel_capacity", number (pos 4096))
          ∷ []))

-- `"%s":%d` for each method. Go takes the keys of the map in any order; the list has one of them.
method_members : List (Bytes × ℕ) → Members
method_members [] = end
method_members ((method, n) ∷ rest) = member method (number (pos n)) (method_members rest)

unfoldable pub metrics_json : Bytes → ℕ → Metrics → Json
unfolding method_members
metrics_json version uptime m = object (
    members (
      (codes "service", text (codes "zaman-core"))
      ∷ (codes "version", text version)
      ∷ (codes "uptime_ms", number (pos uptime))
      ∷ (codes "msgs_total", number (pos m.msgs_total))
      ∷ (codes "db_ok", number (pos m.db_ok))
      ∷ (codes "db_err", number (pos m.db_err))
      ∷ (codes "db_drop", number (pos m.db_drop))
      ∷ (codes "requests", number (pos m.requests))
      ∷ (codes "responses", number (pos m.responses))
      ∷ (codes "echoes", number (pos m.echoes))
      ∷ (codes "hep_total", number (pos m.hep_total))
      ∷ (codes "hep_udp", number (pos m.hep_udp))
      ∷ (codes "hep_tcp", number (pos m.hep_tcp))
      ∷ (codes "hep_tls", number (pos m.hep_tls))
      ∷ (codes "hep_err", number (pos m.hep_err))
      ∷ (codes "hep_auth_fail", number (pos m.hep_auth_fail))
      ∷ (codes "hep_deny", number (pos m.hep_deny))
      ∷ (codes "hep_sip", number (pos m.hep_sip))
      ∷ (codes "hep_rtcp", number (pos m.hep_rtcp))
      ∷ (codes "hep_rtp", number (pos m.hep_rtp))
      ∷ (codes "hep_rtcpxr", number (pos m.hep_rtcpxr))
      ∷ (codes "hep_other", number (pos m.hep_other))
      ∷ (codes "parse_err", number (pos m.parse_err))
      ∷ (codes "status_2xx", number (pos m.status_2xx))
      ∷ (codes "status_4xx_5xx", number (pos m.status_4xx_5xx))
      ∷ (codes "methods", object (method_members m.methods))
      ∷ []))

-- A line of the Prometheus text
metric_line : Bytes → ℕ → Bytes
unfolding show
metric_line name n = name ++ (b' ' ∷ (show n ++ codes "\n"))

unfoldable pub prometheus_text : ℕ → Metrics → Bytes
unfolding metric_line
prometheus_text uptime m =
    metric_line (codes "zaman_up") 1
    ++ (metric_line (codes "zaman_uptime_ms") uptime
        ++ (metric_line (codes "zaman_messages_total") m.msgs_total
            ++ (metric_line (codes "zaman_db_ok") m.db_ok
                ++ (metric_line (codes "zaman_db_err") m.db_err
                    ++ (metric_line (codes "zaman_db_dropped") m.db_drop
                        ++ (metric_line (codes "zaman_hep_total") m.hep_total
                            ++ (metric_line (codes "zaman_requests") m.requests
                                ++ (metric_line (codes "zaman_responses") m.responses
                                    ++ metric_line (codes "zaman_echoes") m.echoes))))))))
