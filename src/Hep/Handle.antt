-- ===== src/Hep/Handle.antt =====
-- handleHEPPacket of core-go/hep.go.
use zaman.Base.{ℕ, ◌+◌, not, ltb, if◌then◌else◌, length}
use zaman.Text.{Bytes, codes, equal}
use zaman.Core.Config.{Config}
use zaman.Core.Metrics.{Metrics}
use zaman.Core.State.{State}
use zaman.Sip.{parse_sip}
use zaman.Sip.Record.{Source, make_record}
use zaman.Sip.Worker.{count_message, store}
use zaman.Hep.{HepInfo, hep_decode, ts_ms, src, dst, agent_label, proto_type_name}
use zaman.Hep.Auth.{hep_password_ok, hep_peer_allowed}

-- The transports by which a packet comes in, and their names in the record.
pub data Transport : Type 0 where
  udp tcp tls : Transport

abbrev pub transport_name : Transport → Bytes
transport_name udp = codes "HEP3"
transport_name tcp = codes "HEP3/TCP"
transport_name tls = codes "HEP3/TLS"

unfoldable pub count_transport : Transport → Metrics → Metrics
count_transport udp m = record m { hep_udp = m.hep_udp + 1 }
count_transport tcp m = record m { hep_tcp = m.hep_tcp + 1 }
count_transport tls m = record m { hep_tls = m.hep_tls + 1 }

unfoldable pub count_proto : Bytes → Metrics → Metrics
unfolding equal
count_proto proto m =
    if equal proto (codes "sip")
    then record m { hep_sip = m.hep_sip + 1 }
    else if equal proto (codes "rtcp")
    then record m { hep_rtcp = m.hep_rtcp + 1 }
    else if equal proto (codes "rtpagent")
    then record m { hep_rtp = m.hep_rtp + 1 }
    else if equal proto (codes "rtcpxr")
    then record m { hep_rtcpxr = m.hep_rtcpxr + 1 }
    else record m { hep_other = m.hep_other + 1 }

-- `tsMs <= 0` takes the current time.
unfoldable pub time_or : ℕ → HepInfo → ℕ
unfolding ts_ms
time_or now info = if ltb 0 (ts_ms info) then ts_ms info else now

unfoldable pub hep_source : HepInfo → Transport → ℕ → Source
unfolding time_or src dst agent_label proto_type_name
hep_source info t now = record {
  src = src info;
  dst = dst info;
  transport = transport_name t;
  agent = agent_label info;
  proto = proto_type_name info.proto_type;
  ts_ms = time_or now info;
  hep_node_id = info.node_id;
  hep_node_name = info.node_name;
  hep_correlation = info.correlation_id;
}

-- What happens to a packet that passed the password and the allow list.
unfoldable pub accept : HepInfo → Transport → ℕ → State → State
unfolding count_message count_proto store
accept info t now s =
    let counted =
      count_message (parse_sip info.payload)
        (count_proto (proto_type_name info.proto_type) s.metrics) in
    store (make_record (hep_source info t now) info.payload) (record s { metrics = counted })

abbrev pub auth_fail : State → State
auth_fail s = record s {
  metrics = record s.metrics { hep_auth_fail = s.metrics.hep_auth_fail + 1 };
}

abbrev pub deny : State → State
deny s = record s { metrics = record s.metrics { hep_deny = s.metrics.hep_deny + 1 } }

-- What happens to a packet that was decoded.
unfoldable pub admit : Config → HepInfo → Transport → Bytes → ℕ → State → State
unfolding count_transport accept
admit cfg info t peer now s =
    let m = s.metrics in
    let seen = record s {
      metrics = count_transport t (record m { hep_total = m.hep_total + 1 });
    } in
    if not (hep_password_ok info cfg)
    then auth_fail seen
    else if not (hep_peer_allowed peer cfg)
    then deny seen
    else accept info t now seen

-- `now` is time.Now().UnixMilli().
unfoldable pub handle_hep_packet : Config → Transport → Bytes → ℕ → Bytes → State → State
unfolding admit
handle_hep_packet cfg t peer now pkt s =
    let info = hep_decode pkt in
    let m = s.metrics in
    if not info.ok
    then record s { metrics = record m { hep_err = m.hep_err + 1 } }
    else admit cfg info t peer now s

-- hepUDPWorker, for one datagram
unfoldable pub hep_datagram : Config → Bytes → ℕ → Bytes → State → State
unfolding handle_hep_packet
hep_datagram cfg remote now pkt s =
    if ltb (length pkt) 10 then s else handle_hep_packet cfg udp remote now pkt s
