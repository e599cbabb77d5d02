-- ===== src/Reports/Realtime.antt =====
-- buildRealtimeJSON of core-go/reports.go over the tables captures and call_state, and activeCallWhere
-- of core-go/db.go.
pub mod Consistent
use zaman.Base.{
  ℕ, suc, ◌+◌, ◌-◌, ◌*◌, ◌/◌, ◌≡◌, refl, Bool, true, false, ◌&&◌, ◌||◌, not, Option, none, some,
  List, [], ◌∷◌, ◌++◌, leb, ltb, if◌then◌else◌, length, is_nil, map,
}
use zaman.Text.{Bytes, codes, equal, contains}
use zaman.Text.Decimal.{ℤ, pos, negsuc, geb, ltb_ℤ, show_ℤ}
use zaman.Text.Json.Value.{Json, text, number, object, members}
use zaman.Core.Config.{Config}
use zaman.Db.CallState.{CaptureRecord, CallState}
use zaman.Reports.Rows.{count, is_failed, is_finished, percent, filter_rows}

-- `now - age*1000`, in milliseconds
unfoldable pub ago : ℕ → ℤ → ℤ
ago now (pos age) =
    if leb (age * 1000) now then pos (now - age * 1000) else negsuc (age * 1000 - now - 1)
ago now (negsuc n) = pos (now + (n + 1) * 1000)

-- activeCallWhere, as text
unfoldable pub active_call_where : Config → ℕ → Bytes
unfolding ago show_ℤ
active_call_where cfg now =
    codes "(open=1 AND ((answered=1 AND last_ts_ms >= "
    ++ (show_ℤ (ago now cfg.concurrent_call_max_age)
        ++ (codes ") OR (answered=0 AND last_ts_ms >= "
            ++ (show_ℤ (ago now cfg.ringing_max_age) ++ codes ")))")))

-- `last_ts_ms >= cutoff`
abbrev at_least : ℕ → ℤ → Bool
at_least t (pos cutoff) = leb cutoff t
at_least t (negsuc n) = true

-- The condition that activeCallWhere states
unfoldable pub is_active : Config → ℕ → CallState → Bool
unfolding ago
is_active cfg now r =
    r.is_open
    && ((r.answered && at_least r.last_ts_ms (ago now cfg.concurrent_call_max_age))
        || (not r.answered && at_least r.last_ts_ms (ago now cfg.ringing_max_age)))

-- ` AND agent='…'`, where the filter is set
unfoldable pub has_agent : Bytes → Bytes → Bool
unfolding equal
has_agent filter agent = is_nil filter || equal agent filter

unfoldable pub mem_bytes : Bytes → List Bytes → Bool
unfolding equal
mem_bytes s [] = false
mem_bytes s (t ∷ ts) = equal s t || mem_bytes s ts

-- `count(DISTINCT …)`
unfoldable pub count_distinct : List Bytes → ℕ
unfolding mem_bytes
count_distinct [] = 0
count_distinct (s ∷ ss) = (if mem_bytes s ss then 0 else 1) + count_distinct ss

-- `status = k`
abbrev has_status : ℕ → CaptureRecord → Bool
has_status k r = geb r.status k && ltb_ℤ r.status (k + 1)

-- `status >= lo AND status < hi`
abbrev pub in_class : ℕ → ℕ → CaptureRecord → Bool
in_class lo hi r = geb r.status lo && ltb_ℤ r.status hi

-- `method='M' OR method LIKE '%M%'`
abbrev like_method : Bytes → CaptureRecord → Bool
like_method m r = equal r.method m || contains r.method m

abbrev invite_request : CaptureRecord → Bool
invite_request r = equal r.method (codes "INVITE") && equal r.kind (codes "request")

unfoldable pub talk_ms : List CallState → ℕ
talk_ms [] = 0
talk_ms (r ∷ rows) = (r.last_ts_ms - r.answer_ts_ms) + talk_ms rows

-- `round(avg((last_ts_ms - answer_ts_ms)/1000.0))` over the finished calls, and 0 without any
unfoldable pub acd_seconds : List CallState → ℕ
unfolding talk_ms
acd_seconds [] = 0
acd_seconds (r ∷ rows) =
    let n = length (r ∷ rows) in (2 * talk_ms (r ∷ rows) + 1000 * n) / (2000 * n)

-- The variables of the function, after its queries and its arithmetic.
pub record Figures : Type 0 where
  pub total : ℕ
  pub invites : ℕ
  pub invite_msgs : ℕ
  pub byes : ℕ
  pub registers : ℕ
  pub options : ℕ
  pub resp_2xx : ℕ
  pub resp_4xx : ℕ
  pub resp_5xx : ℕ
  pub err_401 : ℕ
  pub err_403 : ℕ
  pub err_404 : ℕ
  pub err_486 : ℕ
  pub err_503 : ℕ
  pub active_calls : ℕ
  pub open_dialogs : ℕ
  pub stale_open : ℕ
  pub agents_active : ℕ
  pub sources : ℕ
  pub answered : ℕ
  pub failed : ℕ
  pub acd_sec : ℕ
  pub acd_calls : ℕ
  pub asr : ℕ
  pub ner : ℕ
  pub err_rate : ℕ

-- The answers of the queries: the captures of the window and the filter's agent, the agent's calls of
-- any age, and those of the window. `staleOpen` is cut at 0 by the code, as the numbers here are.
unfoldable pub figures : Config → ℕ → List CaptureRecord → List CallState → List CallState → Figures
unfolding count percent is_active count_distinct filter_rows acd_seconds equal contains
figures cfg now captures calls window =
    let resp_2xx = count (in_class 200 300) captures in
    let resp_4xx = count (in_class 400 500) captures in
    let resp_5xx = count (λ r. geb r.status 500) captures in
    let active = count (is_active cfg now) calls in
    let open_dialogs = count (λ r. r.is_open) calls in
    let answered = count (λ r. r.answered) window in
    let failed = count is_failed window in
    let finished = filter_rows is_finished window in
    record {
      total = length captures;
      invites = count invite_request captures;
      invite_msgs = count (λ r. contains r.method (codes "INVITE")) captures;
      byes = count (like_method (codes "BYE")) captures;
      registers = count (like_method (codes "REGISTER")) captures;
      options = count (like_method (codes "OPTIONS")) captures;
      resp_2xx = resp_2xx;
      resp_4xx = resp_4xx;
      resp_5xx = resp_5xx;
      err_401 = count (has_status 401) captures;
      err_403 = count (has_status 403) captures;
      err_404 = count (has_status 404) captures;
      err_486 = count (has_status 486) captures;
      err_503 = count (has_status 503) captures;
      active_calls = active;
      open_dialogs = open_dialogs;
      stale_open = open_dialogs - active;
      agents_active = count_distinct (map (λ r. r.agent) captures);
      sources = count_distinct (map (λ r. r.src) (filter_rows invite_request captures));
      answered = answered;
      failed = failed;
      acd_sec = acd_seconds finished;
      acd_calls = length finished;
      asr = percent answered (answered + failed);
      ner = percent (answered + failed - failed) (answered + failed);
      err_rate = percent (resp_4xx + resp_5xx) (resp_2xx + resp_4xx + resp_5xx);
    }

-- A window in seconds
abbrev times_60 : ℤ → ℤ
times_60 (pos n) = pos (60 * n)
times_60 (negsuc n) = negsuc (60 * n + 59)

-- The rows that the queries see: those of the window and of the filter's agent.
unfoldable pub realtime : Config → ℕ → ℤ → Bytes → List CaptureRecord → List CallState → Figures
unfolding figures filter_rows has_agent ago
realtime cfg now window_min agent captures calls =
    let cutoff = ago now (times_60 window_min) in
    let agent_calls = filter_rows (λ r. has_agent agent r.agent) calls in
    figures cfg now (filter_rows (λ r. at_least r.ts_ms cutoff && has_agent agent r.agent) captures)
      agent_calls (filter_rows (λ r. at_least r.first_ts_ms cutoff) agent_calls)

count_field : ℕ → Json
count_field n = number (pos n)

unfoldable pub realtime_json : Config → ℤ → Bytes → Figures → Json
unfolding count_field
realtime_json cfg window_min agent f = object (
    members (
      (codes "window_min", number window_min)
      ∷ (codes "agent", text agent)
      ∷ (codes "total", count_field f.total)
      ∷ (codes "invites", count_field f.invites)
      ∷ (codes "invite_messages", count_field f.invite_msgs)
      ∷ (codes "byes", count_field f.byes)
      ∷ (codes "registers", count_field f.registers)
      ∷ (codes "options", count_field f.options)
      ∷ (codes "resp_2xx", count_field f.resp_2xx)
      ∷ (codes "resp_4xx", count_field f.resp_4xx)
      ∷ (codes "resp_5xx", count_field f.resp_5xx)
      ∷ (codes "err_401", count_field f.err_401)
      ∷ (codes "err_403", count_field f.err_403)
      ∷ (codes "err_404", count_field f.err_404)
      ∷ (codes "err_486", count_field f.err_486)
      ∷ (codes "err_503", count_field f.err_503)
      ∷ (codes "active_calls", count_field f.active_calls)
      ∷ (codes "concurrent_calls", count_field f.active_calls)
      ∷ (codes "open_dialogs", count_field f.open_dialogs)
      ∷ (codes "stale_open_dialogs", count_field f.stale_open)
      ∷ (codes "active_cutoff_sec", number cfg.concurrent_call_max_age)
      ∷ (codes "ringing_cutoff_sec", number cfg.ringing_max_age)
      ∷ (codes "agents_active", count_field f.agents_active)
      ∷ (codes "sources", count_field f.sources)
      ∷ (codes "answered_calls", count_field f.answered)
      ∷ (codes "failed_calls", count_field f.failed)
      ∷ (codes "edge_rejects", count_field 0)
      ∷ (codes "acd_seconds", count_field f.acd_sec)
      ∷ (codes "acd_calls", count_field f.acd_calls)
      ∷ (codes "asr", count_field f.asr)
      ∷ (codes "ner", count_field f.ner)
      ∷ (codes "err_rate", count_field f.err_rate)
      ∷ []))
