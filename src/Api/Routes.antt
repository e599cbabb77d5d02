-- ===== src/Api/Routes.antt =====
-- The routes of core-go/api.go that pass the parameters of a request on to a builder of
-- core-go/reports.go, and those that answer from the cache.
pub mod Fresh
use zaman.Base.{
  ℕ, ◌≡◌, refl, Bool, true, false, not, ◌&&◌, Option, none, some, List, [], ◌∷◌, if◌then◌else◌,
  is_nil,
}
use zaman.Text.{Bytes, codes, equal}
use zaman.Text.Decimal.{ℤ, pos, negsuc, geb}
use zaman.Api.{query_int}
use zaman.Cache.{Cache, get}
use zaman.Reports.Clause.{CallFilter, MessageFilter, limit_or}

-- `queryGet`: a parameter of the URL, empty where it is missing.
abbrev pub Query : Type 0
Query = Bytes → Bytes

-- A call of a builder with its arguments, a number as the builder's first lines leave it.
pub data Report : Type 0 where
  realtime : ℤ → Bytes → Report
  active_calls : ℕ → CallFilter → Report
  top_calls : ℕ → CallFilter → Report
  messages : ℕ → MessageFilter → Report
  top_talkers : ℤ → Report
  daily trend hourly_trend cps : ℕ → Report
  carrier_score number qos : Bytes → Report
  summary agents response_codes nodes sla_agents sla_destinations sla_sources anomalies : Report

pub data Reply : Type 0 where
  cached : Bytes → Reply
  built : Report → Reply
  plain : Bytes → Reply

-- `if j, ok := cache.Get(key); ok { json(w, j); return }`
unfoldable pub from_cache : Bytes → Report → Cache → Reply
from_cache key r c = elim (get key c) [ none ↦ built r | some j ↦ cached j ]

-- The routes with a pattern of their own.
pub data Route : Type 0 where
  messages report report_summary report_daily report_top_calls report_top_talkers report_agents :
      Route
  report_kpi report_response_codes report_cps realtime calls_active nodes sla_agents : Route
  sla_destinations sla_sources sla_carrier anomalies trend_daily trend_hourly number export qos :
      Route
  federation_health federation_push : Route

abbrev pub pattern_of : Route → Bytes
pattern_of messages = codes "/api/messages"
pattern_of report = codes "/api/report"
pattern_of report_summary = codes "/api/report/summary"
pattern_of report_daily = codes "/api/report/daily"
pattern_of report_top_calls = codes "/api/report/top-calls"
pattern_of report_top_talkers = codes "/api/report/top-talkers"
pattern_of report_agents = codes "/api/report/agents"
pattern_of report_kpi = codes "/api/report/kpi"
pattern_of report_response_codes = codes "/api/report/response-codes"
pattern_of report_cps = codes "/api/report/cps"
pattern_of realtime = codes "/api/realtime"
pattern_of calls_active = codes "/api/calls/active"
pattern_of nodes = codes "/api/nodes"
pattern_of sla_agents = codes "/api/sla/agents"
pattern_of sla_destinations = codes "/api/sla/destinations"
pattern_of sla_sources = codes "/api/sla/sources"
pattern_of sla_carrier = codes "/api/sla/carrier"
pattern_of anomalies = codes "/api/anomalies"
pattern_of trend_daily = codes "/api/trend/daily"
pattern_of trend_hourly = codes "/api/trend/hourly"
pattern_of number = codes "/api/number"
pattern_of export = codes "/api/export"
pattern_of qos = codes "/api/qos"
pattern_of federation_health = codes "/api/federation/health"
pattern_of federation_push = codes "/api/federation/push"

-- The number behind `key`, as the route reads it and the builder bounds it.
unfoldable pub bounded : Query → Bytes → ℕ → ℕ → ℕ
unfolding query_int limit_or
bounded q key most usual = limit_or most usual (query_int (q key) (pos usual))

abbrev pub call_filter : Query → CallFilter
call_filter q = record {
  agent = q (codes "agent");
  state = q (codes "state");
  src = q (codes "src");
  dst = q (codes "dst");
  from = q (codes "from_number");
  to = q (codes "to_number");
}

abbrev pub has_no_filter : CallFilter → Bool
has_no_filter f =
    is_nil f.agent && is_nil f.state && is_nil f.src && is_nil f.dst && is_nil f.from && is_nil f.to

abbrev pub message_filter : Query → MessageFilter
message_filter q = record {
  call_id = q (codes "call_id");
  transport = q (codes "transport");
  agent = q (codes "agent");
  method = q (codes "method");
  src = if is_nil (q (codes "ip")) then q (codes "src") else q (codes "ip");
  from = q (codes "from_number");
  to = q (codes "to_number");
  status = q (codes "status");
  since_ms = q (codes "since_ms");
  until_ms = q (codes "until_ms");
}

-- The filter of /api/export
abbrev pub call_only : Bytes → MessageFilter
call_only call_id = record {
  call_id = call_id;
  transport = [];
  agent = [];
  method = [];
  src = [];
  from = [];
  to = [];
  status = [];
  since_ms = [];
  until_ms = [];
}

-- `window`
abbrev pub window_of : Query → ℤ
unfolding query_int
window_of q = query_int (q (codes "window")) (pos 5)

unfoldable pub handle_messages : Query → Reply
unfolding bounded
handle_messages q = built (messages (bounded q (codes "limit") 5000 300) (message_filter q))

unfoldable pub handle_number : Query → Reply
handle_number q =
    if is_nil (q (codes "q"))
    then plain (codes "{\"error\":\"q required\"}")
    else built (number (q (codes "q")))

unfoldable pub handle_export : Query → Reply
handle_export q = built (messages 500 (call_only (q (codes "call_id"))))

unfoldable pub handle_qos : Query → Reply
handle_qos q =
    if is_nil (q (codes "call_id")) then plain (codes "[]") else built (qos (q (codes "call_id")))

unfoldable pub handle_trend_daily : Query → Reply
unfolding bounded
handle_trend_daily q = built (trend (bounded q (codes "days") 90 14))

unfoldable pub handle_trend_hourly : Query → Reply
unfolding bounded
handle_trend_hourly q = built (hourly_trend (bounded q (codes "hours") 168 24))

-- The handler of a route, behind the middleware.
unfoldable pub handle : Route → Query → Cache → Reply
unfolding query_int bounded from_cache handle_messages handle_number handle_export handle_qos
    handle_trend_daily handle_trend_hourly
handle messages q c = handle_messages q
handle report q c = built summary
handle report_summary q c = built summary
handle report_daily q c = built (daily (bounded q (codes "limit") 100 14))
handle report_top_calls q c = built (top_calls (bounded q (codes "limit") 100 20) (call_filter q))
handle report_top_talkers q c =
    let asked : Report = top_talkers (query_int (q (codes "limit")) (pos 20)) in
    if is_nil (q (codes "limit")) then from_cache (codes "top_talkers") asked c else built asked
handle report_agents q c = from_cache (codes "agents") agents c
handle report_kpi q c = from_cache (codes "realtime") (realtime (pos 1) []) c
handle report_response_codes q c = built response_codes
handle report_cps q c = built (cps (bounded q (codes "minutes") 1440 60))
handle realtime q c =
    let asked : Report = realtime (window_of q) (q (codes "agent")) in
    if not (geb (window_of q) 2) && is_nil (q (codes "agent"))
    then from_cache (codes "realtime") asked c
    else built asked
handle calls_active q c =
    let asked : Report = active_calls (bounded q (codes "limit") 500 50) (call_filter q) in
    if has_no_filter (call_filter q) then from_cache (codes "calls") asked c else built asked
handle nodes q c = from_cache (codes "nodes") nodes c
handle sla_agents q c = from_cache (codes "sla_agents") sla_agents c
handle sla_destinations q c = built sla_destinations
handle sla_sources q c = built sla_sources
handle sla_carrier q c = built (carrier_score (q (codes "ip")))
handle anomalies q c = built anomalies
handle trend_daily q c = handle_trend_daily q
handle trend_hourly q c = handle_trend_hourly q
handle number q c = handle_number q
handle export q c = handle_export q
handle qos q c = handle_qos q
handle federation_health q c = plain (codes "{\"ok\":true,\"federation\":true}")
handle federation_push q c = plain (codes "{\"ok\":true,\"accepted\":0}")
