-- ===== src/Tests/Routes.antt =====
-- The routes of the API, the alerts, the probe, the cache and the RTCP reports.
use zaman.Base.{
  Bool, ◌++◌, All, ℕ, ◌+◌, ◌-◌, ◌*◌, ◌/◌, ◌≡◌, refl, true, false, ◌&&◌, Option, none, some, List,
  [], ◌∷◌, ltb, if◌then◌else◌,
}
use zaman.Text.{Bytes, codes, equal}
use zaman.Text.Decimal.{pos, show, geb}
use zaman.Core.Config.{Config, load_config}
use zaman.Core.Metrics.{new_metrics}
use mathlib.Core.List.Perm
use zaman.Db.CallState.{CaptureRecord, find_row}
use zaman.Reports.Rows.{count}
use zaman.Reports.Anomalies.{anomalies, anomalies_json}
use zaman.Api.Alerts.{Alert, alert_tick}
use zaman.Api.Alerts.Posts.{server_errors, alert_tick-posts}
use zaman.Db.Batch.{Tables}
use zaman.Api.{ApiRequest, is_authorized, new_api_rate_limiter}
use zaman.Api.Stats.{stats, stats-unanswered}
use zaman.Api.Related.{is_seen, rows_or_nil, related, reasons, related-reasons}
use zaman.Api.Delete.{
  Executed, DeleteRequest, deleted, handle_delete, captures_of, handle_delete-call,
}
use zaman.Qos.{Float64, done, rtcp_parse_qos}
use zaman.Qos.Walk.{rtcp_parse_qos-done}
use zaman.Probe.{ProbeRequest, Network, answered, Stamp, do_probe}
use zaman.Probe.Outcomes.{Outcome, do_probe-Outcome}
use zaman.Cache.{new_cache}
use zaman.Api.Routes.{Query, Report, active_calls, calls_active, bounded, handle}
use zaman.Api.Routes.Fresh.{is_usual, text_of, refreshed, handle-refreshed}
use zaman.Api.Export.{csv_head, export_csv, float_text}
use zaman.Api.Export.Lines.{lines_text, IsRead, export_csv-lines}
use zaman.Reports.Messages.{messages_json}
use zaman.Reports.{needs_quotes}
use zaman.Text.Json.Value.{print}
use zaman.Db.Batch.{Capture}
use zaman.Tests.Storage.{invite, answer}
use zaman.Tests.Figures.{ended_call, busy_call}

-- No rate limit and no key.
abbrev unlimited : Config
unlimited = record (load_config (λ name. []) []) {
  rate_limit = pos 0;
  api_key = [];
  probe_enabled = true;
}

abbrev plain_request : ApiRequest
plain_request = record {
  remote_addr = codes "10.0.0.9:4000";
  x_forwarded_for = [];
  x_real_ip = [];
  x_api_key = [];
  authorization = [];
}

stats-unanswered_example :
    stats 1000 (λ fuel. 7) unlimited plain_request new_api_rate_limiter ≡ none
unfolding is_authorized
stats-unanswered_example =
    stats-unanswered 1000 (λ fuel. 7) unlimited plain_request new_api_rate_limiter refl refl

abbrev answers : List Bytes
answers = codes "c2" ∷ codes "c1" ∷ codes "c2" ∷ []

related-reasons_example :
    reasons (codes "c2") (related (codes "c1") none (some answers) (some answers)) ≡ (
      if equal (codes "c1") (codes "c2")
      then []
      else if is_seen (codes "c2") (rows_or_nil none)
      then codes "hep_correlation" ∷ []
      else if is_seen (codes "c2") (rows_or_nil (some answers))
      then codes "from_to_match" ∷ []
      else if is_seen (codes "c2") (rows_or_nil (some answers))
      then codes "b2bua_leg" ∷ []
      else [])
related-reasons_example =
    related-reasons (codes "c1") (codes "c2") none (some answers) (some answers)

abbrev two_calls : Tables
two_calls = record { captures = []; call_state = ended_call ∷ busy_call ∷ []; report_daily = [] }

abbrev delete_c1 : DeleteRequest
delete_c1 = record { is_post = true; call_id = codes "c1"; before_ts = [] }

-- The second statement fails.
abbrev first_only : Executed
first_only = record { captures = true; call_state = false }

handle_delete-call_example :
    let (reply, after) = handle_delete first_only delete_c1 two_calls in
    (reply ≡ deleted)
    × (find_row (codes "c2") (codes "edge") after.call_state ≡ (
        if first_only.call_state && equal delete_c1.call_id (codes "c2")
        then none
        else find_row (codes "c2") (codes "edge") two_calls.call_state))
    × (captures_of (codes "c2") after.captures ≡ (
        if first_only.captures && equal delete_c1.call_id (codes "c2")
        then []
        else captures_of (codes "c2") two_calls.captures))
    × (after.report_daily ≡ two_calls.report_daily)
handle_delete-call_example =
    handle_delete-call first_only delete_c1 two_calls (codes "c2") (codes "edge") refl refl

-- Whole numbers in the place of floating-point ones.
abbrev whole_numbers : Float64
whole_numbers = record {
  Float = ℕ;
  decimal = λ n places. n / 10;
  of_nat = λ n. n;
  plus = λ a b. a + b;
  minus = λ a b. a - b;
  times = λ a b. a * b;
  over = λ a b. a / b;
  less = ltb;
  round = pos;
  trunc = pos;
  one_place = show;
}

-- A receiver report whose count of blocks is larger than its payload.
abbrev receiver_report : Bytes
receiver_report =
    0x82 ∷ 201 ∷ 0 ∷ 7 ∷ 1 ∷ 2 ∷ 3 ∷ 4 ∷ 0 ∷ 0 ∷ 0 ∷ 9 ∷ 64 ∷ 0 ∷ 0 ∷ 0 ∷ 0 ∷ 0 ∷ 0 ∷ 0 ∷ 0 ∷ 0 ∷ 1
    ∷ 64 ∷ 0 ∷ 0 ∷ 0 ∷ 0 ∷ 0 ∷ 0 ∷ 0 ∷ 0 ∷ []

rtcp_parse_qos-done_example :
    (answer_text : Bytes) × (rtcp_parse_qos whole_numbers receiver_report ≡ done answer_text)
rtcp_parse_qos-done_example = rtcp_parse_qos-done whole_numbers receiver_report

abbrev no_ip : Bytes → Option Bytes
no_ip host = none

abbrev probe_b : ProbeRequest
probe_b = record { host = codes "sip.example.org"; port = pos 0; wait_ms = pos 100 }

abbrev stamp : Stamp
stamp = record { local_addr = codes "10.0.0.1:4000"; call_time = 1; branch_time = 2; tag_time = 3 }

abbrev network : ℕ → Network
network wait = answered (codes "SIP/2.0 200 OK") (pos 12)

do_probe-Outcome_example :
    Outcome no_ip unlimited
      (some probe_b)
      stamp
      new_metrics
      (do_probe no_ip unlimited (some probe_b) stamp network new_metrics)
do_probe-Outcome_example = do_probe-Outcome no_ip unlimited (some probe_b) stamp network new_metrics

-- A text for each report, by which the numbers of calls can be told apart.
abbrev number_of : Report → Bytes
number_of (active_calls limit f) = show limit
number_of _ = []

abbrev build_calls : Report → Bytes
build_calls r = b'{' ∷ number_of r

abbrev fifty_calls : Query
fifty_calls key = if equal key (codes "limit") then codes "50" else []

handle-refreshed_example :
    text_of build_calls (handle calls_active fifty_calls (refreshed build_calls new_cache))
    ≡ text_of build_calls (handle calls_active fifty_calls new_cache)
unfolding is_usual bounded equal
handle-refreshed_example =
    handle-refreshed build_calls new_cache calls_active fifty_calls (λ r. refl) refl

abbrev exported : List Capture
exported =
    record {
      id = 1;
      fields = record invite { agent = codes "edge, \"7\""; method = codes "2 INVITE" };
      record_json = [];
    }
    ∷ []

abbrev same_second : ℕ → Bytes
same_second seconds = codes "2024-05-01 10:00:00"

export_csv-lines_example :
    (export_csv same_second (print (messages_json (some exported)))
      ≡ csv_head ++ lines_text same_second exported)
    × All (IsRead same_second) exported
unfolding needs_quotes
export_csv-lines_example = export_csv-lines same_second exported (λ seconds. refl)

abbrev webhooks : List Bytes
webhooks = codes "http://a" ∷ codes "http://b" ∷ []

abbrev refused : CaptureRecord
refused = record answer { status = pos 503 }

abbrev to_b : Bytes × List Alert → Bool
to_b (url, alerts) = equal url (codes "http://b")

alert_tick-posts_example :
    count to_b (alert_tick webhooks (print (anomalies_json (anomalies (invite ∷ refused ∷ [])))))
    ≡ (if ltb 0 (count (λ r. geb r.status 500) (invite ∷ refused ∷ []))
        then count (λ url. to_b (url, server_errors (invite ∷ refused ∷ []) ∷ [])) webhooks
        else 0)
alert_tick-posts_example =
    alert_tick-posts webhooks (invite ∷ refused ∷ []) _ to_b
      (Perm.refl (alert_tick webhooks (print (anomalies_json (anomalies (invite ∷ refused ∷ []))))))

-- `%v` of 486, 1234567 and 2000000 as float64.
whole_texts :
    (float_text (pos 486) ≡ codes "486")
    × (float_text (pos 1234567) ≡ codes "1.234567e+06")
    × (float_text (pos 2000000) ≡ codes "2e+06")
unfolding float_text show
whole_texts = (refl, refl, refl)
