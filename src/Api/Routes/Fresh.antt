-- ===== src/Api/Routes/Fresh.antt =====
-- The routes of core-go/api.go with the cache that refreshCache of core-go/cache.go fills.
use zaman.Base.{
  ℕ, ◌≡◌, refl, ap, ◌∙◌, Bool, true, false, not, ◌||◌, ◌&&◌, some, [], if◌then◌else◌, is_nil,
  is_nil_lem, ◌==◌, arith,
}
use zaman.Text.{Bytes, codes}
use zaman.Text.Decimal.{ℤ, pos, negsuc, geb}
use zaman.Cache.{Cache, new_cache, get, Built, refresh_cache}
use zaman.Cache.Refresh.{
  Part, realtime, nodes, calls, top_talkers, agents, sla_agents, key_of, built_for,
  get-refresh_cache,
}
use zaman.Api.{query_int}
use zaman.Reports.Clause.{CallFilter}
use zaman.Api.Routes.{
  Query, Report, active_calls, Reply, cached, built, plain, from_cache, Route, calls_active,
  bounded, call_filter, has_no_filter, window_of, handle, realtime,
}
use zaman.Api.Routes

abbrev no_filter : CallFilter
no_filter = record { agent = []; state = []; src = []; dst = []; from = []; to = [] }

-- What refreshCache asks its builders for.
abbrev pub report_for : Part → Report
report_for realtime = realtime (pos 1) []
report_for nodes = Routes.nodes
report_for calls = active_calls 50 no_filter
report_for top_talkers = Routes.top_talkers (pos 20)
report_for agents = Routes.agents
report_for sla_agents = Routes.sla_agents

abbrev pub text_of : (Report → Bytes) → Reply → Bytes
text_of build (cached j) = j
text_of build (built r) = build r
text_of build (plain t) = t

abbrev pub built_by : (Report → Bytes) → Built
built_by build = record {
  realtime = build (report_for realtime);
  nodes = build (report_for nodes);
  calls = build (report_for calls);
  top_talkers = build (report_for top_talkers);
  agents = build (report_for agents);
  sla_agents = build (report_for sla_agents);
}

-- Where the cache answers, does the request name what the refresh asks for: a window of one minute, or
-- fifty calls.
unfoldable pub is_usual : Route → Query → Bool
is_usual realtime q = geb (window_of q) 1 || not (is_nil (q (codes "agent")))
is_usual calls_active q =
    bounded q (codes "limit") 500 50 == 50 || not (has_no_filter (call_filter q))
is_usual _ q = true

built_for-built_by :
    (build : Report → Bytes) (part : Part)
    → built_for part (built_by build) ≡ build (report_for part)
built_for-built_by build realtime = refl
built_for-built_by build nodes = refl
built_for-built_by build calls = refl
built_for-built_by build top_talkers = refl
built_for-built_by build agents = refl
built_for-built_by build sla_agents = refl

has_no_filter_lem : (f : CallFilter) → has_no_filter f ≡ true → f ≡ no_filter
has_no_filter_lem f h = ground (
  arith,
  h,
  is_nil_lem f.agent,
  is_nil_lem f.state,
  is_nil_lem f.src,
  is_nil_lem f.dst,
  is_nil_lem f.from,
  is_nil_lem f.to,
)

realtime_asked :
    (n : ℤ) (agent : Bytes)
    → (geb n 1 || not (is_nil agent)) ≡ true
    → (not (geb n 2) && is_nil agent) ≡ true
    → report_for realtime ≡ realtime n agent
realtime_asked (negsuc n) agent usual short = absurd (ground (arith, usual, short))
realtime_asked (pos n) agent usual short =
    let one : n ≡ 1 = ground (arith, usual, short) in
    let all : agent ≡ [] = is_nil_lem agent (ground (arith, short)) in rw (one, all) refl

calls_asked :
    (limit : ℕ) (f : CallFilter)
    → (limit == 50 || not (has_no_filter f)) ≡ true
    → has_no_filter f ≡ true
    → report_for calls ≡ active_calls limit f
calls_asked limit f usual none_set =
    let fifty : limit ≡ 50 = ground (arith, usual, none_set) in
    rw (fifty, has_no_filter_lem f none_set) refl

talkers_asked :
    (limit : Bytes)
    → is_nil limit ≡ true
    → report_for top_talkers ≡ Routes.top_talkers (query_int limit (pos 20))
unfolding query_int
talkers_asked limit none_set = rw none_set refl

module _ (build : Report → Bytes) (c : Cache) where
  abbrev pub refreshed : Cache
  refreshed = refresh_cache (built_by build) c

  get-refreshed :
      (part : Part)
      → is_nil (build (report_for part)) ≡ false
      → get (key_of part) refreshed ≡ some (build (report_for part))
  get-refreshed part h =
      get-refresh_cache part (built_by build) c ∙ rw (built_for-built_by build part, h) refl

  from_cache-refreshed :
      (part : Part) (asked : Report)
      → is_nil (build (report_for part)) ≡ false
      → report_for part ≡ asked
      → text_of build (from_cache (key_of part) asked refreshed)
        ≡ text_of build (from_cache (key_of part) asked new_cache)
  unfolding from_cache refresh_cache
  from_cache-refreshed part asked h e = rw (get-refreshed part h) (ap build e)

  if_refreshed :
      (part : Part) (asked : Report) (b : Bool)
      → is_nil (build (report_for part)) ≡ false
      → (b ≡ true → report_for part ≡ asked)
      → text_of build (if b then from_cache (key_of part) asked refreshed else built asked)
        ≡ text_of build (if b then from_cache (key_of part) asked new_cache else built asked)
  if_refreshed part asked true h e = from_cache-refreshed part asked h (e refl)
  if_refreshed part asked false h e = refl

  -- A refresh of the cache changes no answer: with the texts that the builders return in it, and none
  -- of them empty, each route answers what it answers with an empty cache, where the request asks for
  -- what the refresh built. A window below one minute, and a limit on all active calls other than
  -- fifty, are not asked for in this sense.
  pub handle-refreshed :
      (route : Route) (q : Query)
      → ((r : Report) → is_nil (build r) ≡ false)
      → is_usual route q ≡ true
      → text_of build (handle route q refreshed) ≡ text_of build (handle route q new_cache)
  unfolding handle is_usual
  handle-refreshed Routes.report_top_talkers q shown usual =
      if_refreshed top_talkers _ (is_nil (q (codes "limit"))) (shown _)
        (talkers_asked (q (codes "limit")))
  handle-refreshed Routes.report_agents q shown usual =
      from_cache-refreshed agents Routes.agents (shown _) refl
  handle-refreshed Routes.report_kpi q shown usual =
      from_cache-refreshed realtime (report_for realtime) (shown _) refl
  handle-refreshed Routes.realtime q shown usual =
      if_refreshed realtime _ _ (shown _) (realtime_asked (window_of q) (q (codes "agent")) usual)
  handle-refreshed Routes.calls_active q shown usual =
      if_refreshed calls _ _ (shown _)
        (calls_asked (bounded q (codes "limit") 500 50) (call_filter q) usual)
  handle-refreshed Routes.nodes q shown usual =
      from_cache-refreshed nodes Routes.nodes (shown _) refl
  handle-refreshed Routes.sla_agents q shown usual =
      from_cache-refreshed sla_agents Routes.sla_agents (shown _) refl
  handle-refreshed Routes.number q shown usual = refl
  handle-refreshed Routes.qos q shown usual = refl
  handle-refreshed Routes.messages q shown usual = refl
  handle-refreshed Routes.report q shown usual = refl
  handle-refreshed Routes.report_summary q shown usual = refl
  handle-refreshed Routes.report_daily q shown usual = refl
  handle-refreshed Routes.report_top_calls q shown usual = refl
  handle-refreshed Routes.report_response_codes q shown usual = refl
  handle-refreshed Routes.report_cps q shown usual = refl
  handle-refreshed Routes.sla_destinations q shown usual = refl
  handle-refreshed Routes.sla_sources q shown usual = refl
  handle-refreshed Routes.sla_carrier q shown usual = refl
  handle-refreshed Routes.anomalies q shown usual = refl
  handle-refreshed Routes.trend_daily q shown usual = refl
  handle-refreshed Routes.trend_hourly q shown usual = refl
  handle-refreshed Routes.export q shown usual = refl
  handle-refreshed Routes.federation_health q shown usual = refl
  handle-refreshed Routes.federation_push q shown usual = refl
