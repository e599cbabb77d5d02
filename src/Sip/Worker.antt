-- ===== src/Sip/Worker.antt =====
-- The body of the loop of sipWorker in core-go/sip.go, for one datagram.
use zaman.Base.{ℕ, ◌+◌, not, ◌&&◌, Option, none, some, [], ◌∷◌, ◌++◌, ltb, if◌then◌else◌, length}
use zaman.Text.{Bytes, codes}
use zaman.Text.Decimal.{ℤ, geb, ltb_ℤ, show_ℤ}
use zaman.Core.Config.{Config}
use zaman.Core.Metrics.{Metrics, bump_method}
use zaman.Core.Ring.{push}
use zaman.Core.State.{State, queue}
use zaman.Sip.{SipInfo, is_response, parse_sip}
use zaman.Sip.Record.{Source, make_record}
use zaman.Sip.Echo.{echo_allowed, build_echo}

-- The counters of one message; handleHEPPacket holds the same lines.
unfoldable pub count_status : ℤ → Metrics → Metrics
count_status status m =
    if geb status 200 && ltb_ℤ status 300
    then record m { status_2xx = m.status_2xx + 1 }
    else if geb status 400
    then record m { status_4xx_5xx = m.status_4xx_5xx + 1 }
    else m

unfoldable pub count_message : SipInfo → Metrics → Metrics
unfolding count_status bump_method
count_message info m =
    let counted = record m { msgs_total = m.msgs_total + 1 } in
    let kinds =
      if is_response info.kind
      then record counted { responses = m.responses + 1 }
      else record counted { requests = m.requests + 1 } in
    bump_method info.method (count_status info.status kinds)

-- `ring.Push(rec)` and the send to the writer
unfoldable pub store : Bytes → State → State
unfolding queue push
store rec s = queue rec (record s { ring = push rec s.ring })

abbrev pub sip_addr : Config → Bytes
sip_addr cfg = cfg.sip_host ++ b':' ∷ show_ℤ cfg.sip_port

abbrev sip_source : Config → ℕ → Bytes → Source
sip_source cfg now remote = record {
  src = remote;
  dst = sip_addr cfg;
  transport = codes "UDP";
  agent = codes "sip-native";
  proto = codes "sip";
  ts_ms = now;
  hep_node_id = 0;
  hep_node_name = [];
  hep_correlation = [];
}

-- The echo: the reply, if one is sent, and its count.
unfoldable pub send_echo : (Bytes → Bytes) → Config → Bytes → State → Option Bytes × State
unfolding echo_allowed build_echo
send_echo getenv cfg msg s =
    let info = parse_sip msg in
    if not (is_response info.kind) && echo_allowed getenv info.method cfg
    then (elim (build_echo msg cfg.sip_host cfg.sip_port) [
      | none ↦ (none, s)
      | some reply ↦
          (some reply, record s { metrics = record s.metrics { echoes = s.metrics.echoes + 1 } })
    ])
    else (none, s)

-- `now` is time.Now().UnixMilli(), and `remote` the address that ReadFrom gives.
unfoldable pub sip_packet :
    (Bytes → Bytes) → Config → ℕ → Bytes → Bytes → State → Option Bytes × State
unfolding count_message store make_record send_echo
sip_packet getenv cfg now remote msg s =
    if ltb (length msg) 20
    then (none, s)
    else send_echo getenv cfg msg (
        store (make_record (sip_source cfg now remote) msg)
          (record s { metrics = count_message (parse_sip msg) s.metrics }))
