-- ===== src/Reports/Templates.antt =====
-- The templates of core-go/reports.go with their arguments, as the reports put them into `fmt.Sprintf`.
pub mod Parsed
use zaman.Base.{
  ℕ, ◌-◌, ◌/◌, ◌==◌, Bool, true, false, Option, none, some, List, [], ◌∷◌, ◌++◌, if◌then◌else◌, map,
}
use zaman.Text.{Bytes, codes}
use zaman.Text.Decimal.{ℤ, pos, show_ℤ}
use zaman.Text.Json.{jesc}
use zaman.Db.CallState.{CallState}
use zaman.Db.Batch.{Capture}
use zaman.Reports.Calls.{call_state_name, message_count}
use zaman.Reports.Number.{number_state}
use zaman.Reports.Realtime.{Figures}
use zaman.Core.Config.{Config}

pub data Arg : Type 0 where
  str : Bytes → Arg
  int : ℤ → Arg

-- An argument under its verb, `%s` for a text and `%d` for a number.
unfoldable pub shown : ℕ → Arg → Bytes
unfolding show_ℤ
shown verb (str s) = if verb == b's' then s else codes "%!"
shown verb (int n) = if verb == b'd' then show_ℤ n else codes "%!"

-- `fmt.Sprintf`; the first argument is true behind a `%`.
unfoldable pub sprintf : Bool → Bytes → List Arg → Bytes
unfolding shown
sprintf behind [] args = []
sprintf true (verb ∷ s) [] = codes "%!" ++ sprintf false s []
sprintf true (verb ∷ s) (a ∷ args) = shown verb a ++ sprintf false s args
sprintf false (c ∷ s) args = elim (c == b'%') [
  | true ↦ sprintf true s args
  | false ↦ c ∷ sprintf false s args
]

abbrev pub call_template : Bytes
call_template =
    codes
      "{\"id\":%d,\"call_id\":\"%s\",\"ts_ms\":%d,\"ts_first\":%d,\"ts_last\":%d,\"src\":\"%s\",\"dst\":\"%s\",\"from\":\"%s\",\"to\":\"%s\",\"from_h\":\"%s\",\"to_h\":\"%s\",\"agent\":\"%s\",\"transport\":\"HEP3\",\"method\":\"INVITE\",\"status\":%d,\"kind\":\"request\",\"state\":\"%s\",\"messages\":%d,\"requests\":%d,\"responses\":%d,\"answered\":%d,\"open\":%d,\"last_status\":%d,\"first_ts_ms\":%d}"

abbrev flag_arg : Bool → Arg
flag_arg b = int (pos (if b then 1 else 0))

unfoldable pub call_text : CallState → Bytes
unfolding sprintf call_state_name message_count jesc
call_text r =
    let messages = message_count r in
    sprintf false call_template (
      int (pos r.last_id)
      ∷ str (jesc r.call_id)
      ∷ int (pos r.last_ts_ms)
      ∷ int (pos r.first_ts_ms)
      ∷ int (pos r.last_ts_ms)
      ∷ str (jesc r.src)
      ∷ str (jesc r.dst)
      ∷ str (jesc r.from)
      ∷ str (jesc r.to)
      ∷ str (jesc r.from)
      ∷ str (jesc r.to)
      ∷ str (jesc r.agent)
      ∷ int r.last_status
      ∷ str (call_state_name r)
      ∷ int (pos messages)
      ∷ int (pos (messages / 2))
      ∷ int (pos (messages - messages / 2))
      ∷ flag_arg r.answered
      ∷ flag_arg r.is_open
      ∷ int r.last_status
      ∷ int (pos r.first_ts_ms)
      ∷ [])

abbrev pub number_call_template : Bytes
number_call_template =
    codes
      "{\"call_id\":\"%s\",\"agent\":\"%s\",\"first_ts_ms\":%d,\"last_ts_ms\":%d,\"state\":\"%s\",\"status\":%d,\"src\":\"%s\",\"dst\":\"%s\",\"from\":\"%s\",\"to\":\"%s\"}"

unfoldable pub number_call_text : CallState → Bytes
unfolding sprintf number_state jesc
number_call_text r = sprintf false number_call_template (
    str (jesc r.call_id)
    ∷ str (jesc r.agent)
    ∷ int (pos r.first_ts_ms)
    ∷ int (pos r.last_ts_ms)
    ∷ str (number_state r)
    ∷ int r.last_status
    ∷ str (jesc r.src)
    ∷ str (jesc r.dst)
    ∷ str (jesc r.from)
    ∷ str (jesc r.to)
    ∷ [])

abbrev pub message_template : Bytes
message_template =
    codes
      "{\"id\":%d,\"ts_ms\":%d,\"src\":\"%s\",\"dst\":\"%s\",\"transport\":\"%s\",\"proto\":\"%s\",\"agent\":\"%s\",\"kind\":\"%s\",\"method\":\"%s\",\"status\":%d,\"call_id\":\"%s\",\"from_h\":\"%s\",\"to_h\":\"%s\",\"cseq\":\"%s\",\"ruri\":\"%s\",\"hep_node_id\":%d,\"hep_node\":\"%s\",\"hep_cid\":\"%s\",\"size\":%d,\"raw_b64\":\"%s\"}"

unfoldable pub message_text : Capture → Bytes
unfolding sprintf jesc
message_text c = sprintf false message_template (
    int (pos c.id)
    ∷ int (pos c.fields.ts_ms)
    ∷ str (jesc c.fields.src)
    ∷ str (jesc c.fields.dst)
    ∷ str (jesc c.fields.transport)
    ∷ str (jesc c.fields.proto)
    ∷ str (jesc c.fields.agent)
    ∷ str (jesc c.fields.kind)
    ∷ str (jesc c.fields.method)
    ∷ int c.fields.status
    ∷ str (jesc c.fields.call_id)
    ∷ str (jesc c.fields.from)
    ∷ str (jesc c.fields.to)
    ∷ str (jesc c.fields.cseq)
    ∷ str (jesc c.fields.ruri)
    ∷ int (pos c.fields.hep_node_id)
    ∷ str (jesc c.fields.hep_node)
    ∷ str (jesc c.fields.hep_cid)
    ∷ int (pos c.fields.size)
    ∷ str (jesc c.fields.raw_b64)
    ∷ [])

abbrev pub realtime_template : Bytes
realtime_template =
    codes
      "{\"window_min\":%d,\"agent\":\"%s\",\"total\":%d,\"invites\":%d,\"invite_messages\":%d,\"byes\":%d,\"registers\":%d,\"options\":%d,\"resp_2xx\":%d,\"resp_4xx\":%d,\"resp_5xx\":%d,\"err_401\":%d,\"err_403\":%d,\"err_404\":%d,\"err_486\":%d,\"err_503\":%d,\"active_calls\":%d,\"concurrent_calls\":%d,\"open_dialogs\":%d,\"stale_open_dialogs\":%d,\"active_cutoff_sec\":%d,\"ringing_cutoff_sec\":%d,\"agents_active\":%d,\"sources\":%d,\"answered_calls\":%d,\"failed_calls\":%d,\"edge_rejects\":0,\"acd_seconds\":%d,\"acd_calls\":%d,\"asr\":%d,\"ner\":%d,\"err_rate\":%d}"

unfoldable pub realtime_text : Config → ℤ → Bytes → Figures → Bytes
unfolding sprintf jesc
realtime_text cfg window_min agent f = sprintf false realtime_template (
    int window_min
    ∷ str (jesc agent)
    ∷ int (pos f.total)
    ∷ int (pos f.invites)
    ∷ int (pos f.invite_msgs)
    ∷ int (pos f.byes)
    ∷ int (pos f.registers)
    ∷ int (pos f.options)
    ∷ int (pos f.resp_2xx)
    ∷ int (pos f.resp_4xx)
    ∷ int (pos f.resp_5xx)
    ∷ int (pos f.err_401)
    ∷ int (pos f.err_403)
    ∷ int (pos f.err_404)
    ∷ int (pos f.err_486)
    ∷ int (pos f.err_503)
    ∷ int (pos f.active_calls)
    ∷ int (pos f.active_calls)
    ∷ int (pos f.open_dialogs)
    ∷ int (pos f.stale_open)
    ∷ int cfg.concurrent_call_max_age
    ∷ int cfg.ringing_max_age
    ∷ int (pos f.agents_active)
    ∷ int (pos f.sources)
    ∷ int (pos f.answered)
    ∷ int (pos f.failed)
    ∷ int (pos f.acd_sec)
    ∷ int (pos f.acd_calls)
    ∷ int (pos f.asr)
    ∷ int (pos f.ner)
    ∷ int (pos f.err_rate)
    ∷ [])
