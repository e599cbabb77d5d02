-- ===== src/Workers/Accounting.antt =====
-- The counters add up, whatever the workers receive and in whatever order they run.
use zaman.Base.{
  ℕ, ◌+◌, ◌≡◌, ◌≤◌, not, Option, none, [], ◌∷◌, ltb, length, length-append, arith, if_keeps,
}
use zaman.Text.{Bytes}
use zaman.Core.Config.{Config}
use zaman.Core.Metrics.{Metrics, total, total-bump}
use zaman.Core.State.{State}
use zaman.Sip.{SipInfo, parse_sip}
use zaman.Sip.Worker.{count_status, count_message, store, send_echo, sip_packet}
use zaman.Hep.{HepInfo, hep_decode, proto_type_name}
use zaman.Hep.Auth.{hep_password_ok, hep_peer_allowed}
use zaman.Hep.Handle.{
  Transport, udp, tcp, tls, count_transport, count_proto, accept, admit, auth_fail, deny,
  handle_hep_packet, hep_datagram,
}

-- The counters of the messages.
pub record IsCounted (m : Metrics) : Type 0 where
  pub kinds : m.msgs_total ≡ m.requests + m.responses
  pub methods : m.msgs_total ≡ total m.methods
  pub statuses : m.status_2xx + m.status_4xx_5xx ≤ m.msgs_total

count_message-IsCounted :
    (info : SipInfo) (m : Metrics) → IsCounted m → IsCounted (count_message info m)
unfolding count_message count_status
count_message-IsCounted info m c = ground (arith, total-bump info.method m.methods)

-- The ways in which a HEP packet, or a connection, can end.
abbrev pub fates : Metrics → ℕ
fates m =
    m.hep_auth_fail + m.hep_deny + m.hep_sip + m.hep_rtcp + m.hep_rtp + m.hep_rtcpxr + m.hep_other

-- `denied` connections were refused before a packet was read, and the writer took `taken` records.
pub record IsAccounted (denied taken : ℕ) (s : State) : Type 0 where
  pub messages : IsCounted s.metrics
  pub transports : s.metrics.hep_total ≡ s.metrics.hep_udp + s.metrics.hep_tcp + s.metrics.hep_tls
  pub fates : fates s.metrics ≡ s.metrics.hep_total + denied
  pub ring : s.ring.idx ≡ s.metrics.msgs_total
  pub room : length s.db_ch ≤ 4096
  pub records : s.metrics.msgs_total ≡ length s.db_ch + s.metrics.db_drop + taken

-- What counting a message does to the other counters.
record Others (m n : Metrics) : Type 0 where
  total : n.msgs_total ≡ m.msgs_total + 1
  hep_total : n.hep_total ≡ m.hep_total
  udp : n.hep_udp ≡ m.hep_udp
  tcp : n.hep_tcp ≡ m.hep_tcp
  tls : n.hep_tls ≡ m.hep_tls
  fates : fates n ≡ fates m
  db_drop : n.db_drop ≡ m.db_drop

count_message-Others : (info : SipInfo) (m : Metrics) → Others m (count_message info m)
unfolding count_message count_status
count_message-Others info m = ground arith

-- The state between counting a message and storing its record.
module _ (denied taken : ℕ) where
  store-IsAccounted :
      (info : SipInfo) (rec : Bytes) (s : State)
      → IsAccounted denied taken s
      → IsAccounted denied taken (store rec (record s { metrics = count_message info s.metrics }))
  unfolding store
  store-IsAccounted info rec s a =
      let o = count_message-Others info s.metrics in
      let c = count_message-IsCounted info s.metrics a.messages in
      ground (arith, o.total, length-append s.db_ch (rec ∷ []))

  send_echo-IsAccounted :
      (getenv : Bytes → Bytes) (cfg : Config) (msg : Bytes) (s : State)
      → IsAccounted denied taken s
      → IsAccounted denied taken (send_echo getenv cfg msg s).1
  unfolding send_echo
  send_echo-IsAccounted getenv cfg msg s a = ground arith

  pub sip_packet-IsAccounted :
      (getenv : Bytes → Bytes) (cfg : Config) (now : ℕ) (remote msg : Bytes) (s : State)
      → IsAccounted denied taken s
      → IsAccounted denied taken (sip_packet getenv cfg now remote msg s).1
  unfolding sip_packet
  sip_packet-IsAccounted getenv cfg now remote msg s a =
      if_keeps (λ (p : Option Bytes × State). IsAccounted denied taken p.1) (ltb (length msg) 20)
        (none, s) _ a
        (send_echo-IsAccounted getenv cfg msg _ (store-IsAccounted (parse_sip msg) _ s a))

  -- A HEP packet that is counted, and then its fate: refused by the password, by the allow list, or
  -- counted under its protocol.
  abbrev seen : Transport → State → Metrics
  seen t s = count_transport t (record s.metrics { hep_total = s.metrics.hep_total + 1 })

  proto-IsAccounted :
      (t : Transport) (proto : Bytes) (s : State)
      → IsAccounted denied taken s
      → IsAccounted denied taken (record s { metrics = count_proto proto (seen t s) })
  unfolding count_transport count_proto
  proto-IsAccounted udp proto s a = ground arith
  proto-IsAccounted tcp proto s a = ground arith
  proto-IsAccounted tls proto s a = ground arith

  auth_fail-IsAccounted :
      (t : Transport) (s : State)
      → IsAccounted denied taken s
      → IsAccounted denied taken (auth_fail (record s { metrics = seen t s }))
  unfolding count_transport
  auth_fail-IsAccounted udp s a = ground arith
  auth_fail-IsAccounted tcp s a = ground arith
  auth_fail-IsAccounted tls s a = ground arith

  deny-IsAccounted :
      (t : Transport) (s : State)
      → IsAccounted denied taken s
      → IsAccounted denied taken (deny (record s { metrics = seen t s }))
  unfolding count_transport
  deny-IsAccounted udp s a = ground arith
  deny-IsAccounted tcp s a = ground arith
  deny-IsAccounted tls s a = ground arith

  accept-IsAccounted :
      (info : HepInfo) (t : Transport) (now : ℕ) (s : State)
      → IsAccounted denied taken
          (record s { metrics = count_proto (proto_type_name info.proto_type) s.metrics })
      → IsAccounted denied taken (accept info t now s)
  unfolding accept
  accept-IsAccounted info t now s a = store-IsAccounted (parse_sip info.payload) _ _ a

  admit-IsAccounted :
      (cfg : Config) (info : HepInfo) (t : Transport) (peer : Bytes) (now : ℕ) (s : State)
      → IsAccounted denied taken s
      → IsAccounted denied taken (admit cfg info t peer now s)
  unfolding admit
  admit-IsAccounted cfg info t peer now s a =
      if_keeps (IsAccounted denied taken) (not (hep_password_ok info cfg)) _ _
        (auth_fail-IsAccounted t s a)
        (if_keeps (IsAccounted denied taken) (not (hep_peer_allowed peer cfg)) _ _
          (deny-IsAccounted t s a)
          (accept-IsAccounted info t now (record s { metrics = seen t s })
            (proto-IsAccounted t (proto_type_name info.proto_type) s a)))

  -- `hepErr` belongs to none of the sums.
  pub handle_hep_packet-IsAccounted :
      (cfg : Config) (t : Transport) (peer : Bytes) (now : ℕ) (pkt : Bytes) (s : State)
      → IsAccounted denied taken s
      → IsAccounted denied taken (handle_hep_packet cfg t peer now pkt s)
  unfolding handle_hep_packet
  handle_hep_packet-IsAccounted cfg t peer now pkt s a =
      if_keeps (IsAccounted denied taken) (not (hep_decode pkt).ok) _ _ (ground arith)
        (admit-IsAccounted cfg (hep_decode pkt) t peer now s a)

  pub hep_datagram-IsAccounted :
      (cfg : Config) (remote : Bytes) (now : ℕ) (pkt : Bytes) (s : State)
      → IsAccounted denied taken s
      → IsAccounted denied taken (hep_datagram cfg remote now pkt s)
  unfolding hep_datagram
  hep_datagram-IsAccounted cfg remote now pkt s a =
      if_keeps (IsAccounted denied taken) (ltb (length pkt) 10) s _ a
        (handle_hep_packet-IsAccounted cfg udp remote now pkt s a)
