-- ===== src/Reports/Agents.antt =====
-- The reports of core-go/reports.go on nodes, agents, callers and carriers, over the rows of their
-- queries. `none` is a query that fails.
use zaman.Base.{
  ℕ, ◌-◌, ◌/◌, Bool, false, Option, none, some, List, [], ◌∷◌, ltb, leb, if◌then◌else◌, is_nil,
}
use zaman.Text.{Bytes, codes}
use zaman.Text.Decimal.{ℤ, pos, negsuc}
use zaman.Text.Json.Value.{Json, text, number, object, Members, end, member, members}
use zaman.Reports.Rows.{percent, capped}
use zaman.Reports.Calls.{rows_json}

pub record NodeRow : Type 0 where
  pub agent : Bytes
  pub total : ℕ
  pub recent : ℕ
  pub last_seen : ℕ
  pub calls : ℕ
  pub errors : ℕ

-- `(nowMs - lastSeen) / 1000`, which Go rounds towards zero
unfoldable pub age_sec : ℕ → ℕ → ℤ
age_sec now last_seen =
    if leb last_seen now
    then pos ((now - last_seen) / 1000)
    else (let behind = (last_seen - now) / 1000 in
        if ltb 0 behind then negsuc (behind - 1) else pos 0)

abbrev above : ℕ → ℤ → Bool
above k (pos n) = ltb k n
above k (negsuc n) = false

unfoldable pub node_status : ℤ → Bytes
node_status age =
    if above 300 age then codes "red" else if above 60 age then codes "yellow" else codes "green"

-- buildNodesJSON; `active` is the answer of its query on the active calls of an agent.
unfoldable pub nodes_json : ℕ → (Bytes → ℕ) → Option (List NodeRow) → Json
unfolding rows_json age_sec node_status
nodes_json now active = rows_json λ r.
    let age = age_sec now r.last_seen in
    object (
      members (
        (codes "agent", text r.agent)
        ∷ (codes "total", number (pos r.total))
        ∷ (codes "recent", number (pos r.recent))
        ∷ (codes "last_seen", number (pos r.last_seen))
        ∷ (codes "age_sec", number age)
        ∷ (codes "calls", number (pos r.calls))
        ∷ (codes "active_calls", number (pos (active r.agent)))
        ∷ (codes "errors", number (pos r.errors))
        ∷ (codes "status", text (node_status age))
        ∷ []))

pub record TalkerRow : Type 0 where
  pub src : Bytes
  pub messages : ℕ
  pub calls : ℕ

-- buildTopTalkersJSON
unfoldable pub top_talkers_json : Option (List TalkerRow) → Json
unfolding rows_json
top_talkers_json = rows_json λ r. object (
    members (
      (codes "src", text r.src)
      ∷ (codes "messages", number (pos r.messages))
      ∷ (codes "calls", number (pos r.calls))
      ∷ (codes "source", text (codes "recent"))
      ∷ []))

pub record AgentRow : Type 0 where
  pub agent : Bytes
  pub messages : ℕ
  pub calls : ℕ
  pub first_seen : ℕ
  pub last_seen : ℕ

-- buildAgentsJSON
unfoldable pub agents_json : Option (List AgentRow) → Json
unfolding rows_json
agents_json = rows_json λ r. object (
    members (
      (codes "agent", text r.agent)
      ∷ (codes "messages", number (pos r.messages))
      ∷ (codes "calls", number (pos r.calls))
      ∷ (codes "first_seen", number (pos r.first_seen))
      ∷ (codes "last_seen", number (pos r.last_seen))
      ∷ (codes "source", text (codes "recent"))
      ∷ []))

-- The counts of a query on an agent, a destination, a source or a carrier; `acd` where it has one.
pub record SlaRow : Type 0 where
  pub name : Bytes
  pub invites : ℕ
  pub ok_2xx : ℕ
  pub errors : ℕ
  pub acd : ℕ

-- buildSLAAgentsJSON. Its ASR is not capped: a call that is answered without an INVITE in the table
-- counts above and not below.
unfoldable pub sla_agents_json : Option (List SlaRow) → Json
unfolding rows_json percent
sla_agents_json = rows_json λ r. object (
    members (
      (codes "agent", text r.name)
      ∷ (codes "invites", number (pos r.invites))
      ∷ (codes "ok_2xx", number (pos r.ok_2xx))
      ∷ (codes "errors", number (pos r.errors))
      ∷ (codes "asr", number (pos (percent r.ok_2xx r.invites)))
      ∷ (codes "err_rate", number (pos (percent r.errors r.invites)))
      ∷ []))

-- `asr`, at most 100
unfoldable pub sla_asr : SlaRow → ℕ
unfolding percent capped
sla_asr r = capped (percent r.ok_2xx r.invites)

sla_peer : Bytes → SlaRow → Json
unfolding sla_asr
sla_peer key r = object (
    members (
      (key, text r.name)
      ∷ (codes "invites", number (pos r.invites))
      ∷ (codes "ok_2xx", number (pos r.ok_2xx))
      ∷ (codes "errors", number (pos r.errors))
      ∷ (codes "asr", number (pos (sla_asr r)))
      ∷ (codes "acd", number (pos r.acd))
      ∷ []))

-- buildSLADestJSON and buildSLASrcJSON
unfoldable pub sla_dest_json : Option (List SlaRow) → Json
unfolding rows_json sla_peer
sla_dest_json = rows_json (sla_peer (codes "dst"))

unfoldable pub sla_src_json : Option (List SlaRow) → Json
unfolding rows_json sla_peer
sla_src_json = rows_json (sla_peer (codes "src"))

-- The minutes of a carrier's trend.
pub record MinuteRow : Type 0 where
  pub bucket : ℕ
  pub invites : ℕ
  pub answered : ℕ

minute_json : MinuteRow → Json
minute_json r = object (
    members (
      (codes "m", number (pos r.bucket))
      ∷ (codes "inv", number (pos r.invites))
      ∷ (codes "ans", number (pos r.answered))
      ∷ []))

-- `"%d":%d` for each code
code_counts : (ℕ → Bytes) → Option (List (ℕ × ℕ)) → Members
code_counts show none = end
code_counts show (some []) = end
code_counts show (some ((code, cnt) ∷ rows)) =
    member (show code) (number (pos cnt)) (code_counts show (some rows))

-- buildCarrierScoreJSON; `show` is `%d`.
unfoldable pub carrier_score_json :
    (ℕ → Bytes) → Bytes → SlaRow → Option (List (ℕ × ℕ)) → Option (List MinuteRow) → Json
unfolding sla_asr rows_json minute_json code_counts
carrier_score_json show ip r errors trend =
    if is_nil ip
    then object (members ((codes "error", text (codes "ip required")) ∷ []))
    else object (
        members (
          (codes "ip", text ip)
          ∷ (codes "invites", number (pos r.invites))
          ∷ (codes "ok_2xx", number (pos r.ok_2xx))
          ∷ (codes "errors", number (pos r.errors))
          ∷ (codes "asr", number (pos (sla_asr r)))
          ∷ (codes "acd", number (pos r.acd))
          ∷ (codes "error_codes", object (code_counts show errors))
          ∷ (codes "trend", rows_json minute_json trend)
          ∷ []))
