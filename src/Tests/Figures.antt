-- ===== src/Tests/Figures.antt =====
-- The reports and their filters.
use zaman.Base.{
  ℕ, Bool, not, ◌==◌, ◌/◌, min, leb, List, ◌≡◌, true, false, ◌||◌, ◌&&◌, some, [], ◌∷◌, ltb,
  if◌then◌else◌, arith,
}
use zaman.Text.{codes, contains, equal}
use zaman.Text.Decimal.{pos, geb}
use zaman.Text.Json.Value.{clean}
use zaman.Text.Json.Value.Read.{parse}
use zaman.Db.Batch.{Capture}
use zaman.Reports.Messages.{message_json}
use zaman.Reports.Templates.{call_text, number_call_text, message_text, realtime_text}
use zaman.Reports.Templates.Parsed.{rows-parse}
use zaman.Core.Config.{Config, load_config}
use zaman.Db.CallState.{CallState}
use zaman.Reports.Rows.{count}
use zaman.Reports.Grouped.{sla_agents_rows, trend_rows}
use zaman.Reports.Grouped.Sums.{sum_by}
use zaman.Reports.Grouped.Keys.{sla_agents_rows-agent, trend_rows-bucket}
use zaman.Reports.Clause.{CallFilter, calls_where, MessageFilter, messages_where}
use zaman.Reports.Clause.Tokens.{outside, lex}
use zaman.Reports.Clause.Tokens.Calls.{calls_tokens, calls_where-lex}
use zaman.Reports.Clause.Tokens.Messages.{messages_tokens, messages_where-lex}
use zaman.Reports.Realtime.{Figures, realtime, realtime_json}
use zaman.Reports.Realtime.Consistent.{Fits, realtime-Fits}
use zaman.Reports.Calls.{admits, call_json}
use zaman.Reports.Calls.States
use zaman.Reports.Calls.States.{admits-shown}
use zaman.Reports.Number.{number_call_json}
use zaman.Reports.Number.Tally
use zaman.Tests.Storage.{invite, answer}

abbrev odd_filter : CallFilter
odd_filter = record {
  agent = codes "e' OR '1'='1";
  state = codes "canceled";
  src = codes "10.0.0.";
  dst = [];
  from = [];
  to = codes "%'";
}

calls_where-lex_example : lex outside (calls_where odd_filter) ≡ some (calls_tokens odd_filter)
calls_where-lex_example = calls_where-lex odd_filter

-- A time that is a condition of its own.
abbrev injected : MessageFilter
injected = record {
  call_id = codes "/^a'b";
  transport = [];
  agent = [];
  method = [];
  src = codes "10.0.0.1";
  from = codes "555";
  to = [];
  status = codes "48";
  since_ms = codes "0 OR 1=1";
  until_ms = [];
}

messages_where-lex_example : lex outside (messages_where injected) ≡ some (messages_tokens injected)
messages_where-lex_example = messages_where-lex injected (omega arith) (omega arith) (omega arith)

abbrev config : Config
config = load_config (λ name. []) []

abbrev pub ended_call : CallState
ended_call = record {
  call_id = codes "c1";
  agent = codes "edge";
  first_ts_ms = 1000;
  answer_ts_ms = 3000;
  last_ts_ms = 63000;
  last_id = 9;
  invite_id = 1;
  last_method = codes "BYE";
  last_status = pos 200;
  answered = true;
  is_open = false;
  src = codes "10.0.0.1";
  dst = codes "10.0.0.2";
  from = codes "a";
  to = codes "b";
  record_json = [];
}

abbrev pub busy_call : CallState
busy_call = record ended_call {
  call_id = codes "c2";
  answer_ts_ms = 0;
  last_method = codes "4 INVITE";
  last_status = pos 486;
  answered = false;
}

realtime-Fits_example :
    Fits (realtime config 64000 (pos 5) [] (invite ∷ answer ∷ []) (ended_call ∷ busy_call ∷ []))
realtime-Fits_example =
    realtime-Fits config 64000 (pos 5) [] (invite ∷ answer ∷ []) (ended_call ∷ busy_call ∷ [])

admits-shown_example :
    (admits (codes "ringing") busy_call ≡ States.shown (codes "ringing") busy_call)
    × (admits (codes "open") busy_call ≡ States.shown (codes "ringing") busy_call)
    × (admits (codes "answered") busy_call ≡ States.shown (codes "answered") busy_call)
    × (admits (codes "active") busy_call ≡ States.shown (codes "answered") busy_call)
    × (admits (codes "failed") busy_call ≡ States.shown (codes "failed") busy_call)
    × (admits (codes "ended") busy_call
        ≡ (States.shown (codes "ended") busy_call || States.shown (codes "failed") busy_call))
    × (admits (codes "canceled") busy_call ≡ (
        (States.shown (codes "ended") busy_call || States.shown (codes "failed") busy_call)
        && contains busy_call.last_method (codes "CANCEL")))
admits-shown_example = admits-shown busy_call

abbrev quoted_call : CallState
quoted_call = record busy_call { src = codes "a \"b\"" }

abbrev a_message : Capture
a_message = record { id = 7; fields = invite; record_json = [] }

abbrev quiet : Figures
quiet = realtime config 64000 (pos 5) [] (invite ∷ []) (quoted_call ∷ [])

rows-parse_example :
    (parse (call_text quoted_call) ≡ some (clean (call_json quoted_call)))
    × (parse (number_call_text quoted_call) ≡ some (clean (number_call_json quoted_call)))
    × (parse (message_text a_message) ≡ some (clean (message_json a_message)))
    × (parse (realtime_text config (pos 5) (codes "edge") quiet)
        ≡ some (clean (realtime_json config (pos 5) (codes "edge") quiet)))
rows-parse_example = rows-parse quoted_call a_message config (pos 5) (codes "edge") quiet

abbrev two_calls : List CallState
two_calls = ended_call ∷ busy_call ∷ []

sla_agents_rows-agent_example :
    let rows = sla_agents_rows 1000 two_calls in
    let own : (CallState → Bool) → ℕ =
      λ p. count (λ c. leb 1000 c.first_ts_ms && (equal c.agent (codes "edge") && p c)) two_calls in
    (count (λ r. equal r.name (codes "edge")) rows
      ≡ min 1 (count (λ c. leb 1000 c.first_ts_ms && equal c.agent (codes "edge")) two_calls))
    × (sum_by (λ r. if equal r.name (codes "edge") then r.invites else 0) rows
        ≡ own (λ c. ltb 0 c.invite_id))
    × (sum_by (λ r. if equal r.name (codes "edge") then r.ok_2xx else 0) rows
        ≡ own (λ c. c.answered))
    × (sum_by (λ r. if equal r.name (codes "edge") then r.errors else 0) rows
        ≡ own (λ c. not c.answered && not c.is_open && geb c.last_status 400))
sla_agents_rows-agent_example = sla_agents_rows-agent 1000 two_calls (codes "edge")

trend_rows-bucket_example :
    let rows = trend_rows 60000 1000 two_calls in
    let own : (CallState → Bool) → ℕ =
      λ p. count (λ c. leb 1000 c.first_ts_ms && (c.first_ts_ms / 60000 == 0 && p c)) two_calls in
    let began = count (λ c. leb 1000 c.first_ts_ms && c.first_ts_ms / 60000 == 0) two_calls in
    (count (λ r. r.bucket == 0) rows ≡ min 1 began)
    × (sum_by (λ r. if r.bucket == 0 then r.total else 0) rows ≡ began)
    × (sum_by (λ r. if r.bucket == 0 then r.answered else 0) rows ≡ own (λ c. c.answered))
    × (sum_by (λ r. if r.bucket == 0 then r.failed else 0) rows
        ≡ own (λ c. not c.answered && not c.is_open && geb c.last_status 400))
trend_rows-bucket_example = trend_rows-bucket 60000 1000 two_calls 0
