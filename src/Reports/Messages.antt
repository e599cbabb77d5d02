-- ===== src/Reports/Messages.antt =====
-- The reports of core-go/reports.go on messages, the longest calls and the response codes, over the
-- rows of their queries. `none` is a query that fails.
use zaman.Base.{ℕ, ◌-◌, Option, List, [], ◌∷◌, ◌==◌, max, if◌then◌else◌}
use zaman.Text.{Bytes, codes}
use zaman.Text.Decimal.{pos}
use zaman.Text.Json.Value.{Json, text, number, object, members}
use zaman.Db.CallState.{CallState}
use zaman.Db.Batch.{Capture}
use zaman.Reports.Calls.{rows_json}

-- A row of captures, in buildMessagesJSON and in the route of a single message.
unfoldable pub message_json : Capture → Json
message_json c = object (
    members (
      (codes "id", number (pos c.id))
      ∷ (codes "ts_ms", number (pos c.fields.ts_ms))
      ∷ (codes "src", text c.fields.src)
      ∷ (codes "dst", text c.fields.dst)
      ∷ (codes "transport", text c.fields.transport)
      ∷ (codes "proto", text c.fields.proto)
      ∷ (codes "agent", text c.fields.agent)
      ∷ (codes "kind", text c.fields.kind)
      ∷ (codes "method", text c.fields.method)
      ∷ (codes "status", number c.fields.status)
      ∷ (codes "call_id", text c.fields.call_id)
      ∷ (codes "from_h", text c.fields.from)
      ∷ (codes "to_h", text c.fields.to)
      ∷ (codes "cseq", text c.fields.cseq)
      ∷ (codes "ruri", text c.fields.ruri)
      ∷ (codes "hep_node_id", number (pos c.fields.hep_node_id))
      ∷ (codes "hep_node", text c.fields.hep_node)
      ∷ (codes "hep_cid", text c.fields.hep_cid)
      ∷ (codes "size", number (pos c.fields.size))
      ∷ (codes "raw_b64", text c.fields.raw_b64)
      ∷ []))

unfoldable pub messages_json : Option (List Capture) → Json
unfolding rows_json message_json
messages_json = rows_json message_json

-- buildTopCallsJSON, with the columns that its query computes of a row of call_state
unfoldable pub top_calls_json : Option (List CallState) → Json
unfolding rows_json
top_calls_json = rows_json λ r. object (
    members (
      (codes "call_id", text r.call_id)
      ∷ (codes "messages", number (pos (max (r.last_id - r.invite_id) 1)))
      ∷ (codes "ts_first", number (pos r.first_ts_ms))
      ∷ (codes "ts_last", number (pos r.last_ts_ms))
      ∷ (codes "state", text (if r.is_open then codes "active" else codes "ended"))
      ∷ (codes "from", text r.from)
      ∷ (codes "to", text r.to)
      ∷ []))

-- sipReasonPhrase
unfoldable pub sip_reason_phrase : ℕ → Bytes
sip_reason_phrase code =
    if code == 100
    then codes "Trying"
    else if code == 180
    then codes "Ringing"
    else if code == 183
    then codes "Session Progress"
    else if code == 200
    then codes "OK"
    else if code == 302
    then codes "Moved Temporarily"
    else if code == 400
    then codes "Bad Request"
    else if code == 401
    then codes "Unauthorized"
    else if code == 403
    then codes "Forbidden"
    else if code == 404
    then codes "Not Found"
    else if code == 405
    then codes "Method Not Allowed"
    else if code == 407
    then codes "Proxy Auth Required"
    else if code == 408
    then codes "Request Timeout"
    else if code == 480
    then codes "Temporarily Unavailable"
    else if code == 481
    then codes "Call Does Not Exist"
    else if code == 486
    then codes "Busy Here"
    else if code == 487
    then codes "Request Terminated"
    else if code == 488
    then codes "Not Acceptable Here"
    else if code == 500
    then codes "Server Internal Error"
    else if code == 502
    then codes "Bad Gateway"
    else if code == 503
    then codes "Service Unavailable"
    else if code == 504
    then codes "Server Timeout"
    else []

-- buildResponseCodesJSON; the query leaves out statuses that are not positive.
unfoldable pub response_codes_json : Option (List (ℕ × ℕ)) → Json
unfolding rows_json sip_reason_phrase
response_codes_json = rows_json λ r. object (
    members (
      (codes "status", number (pos r.0))
      ∷ (codes "reason", text (sip_reason_phrase r.0))
      ∷ (codes "count", number (pos r.1))
      ∷ []))
