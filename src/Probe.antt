-- ===== src/Probe.antt =====
-- core-go/probe.go: the checks of a probe request, the datagram that is sent, and what is counted.
pub mod Outcomes
use zaman.Base.{
  ℕ, suc, ◌+◌, ◌%◌, ◌≡◌, refl, Bool, true, false, ◌&&◌, ◌||◌, not, Option, none, some, List, [],
  ◌∷◌, ◌++◌, ltb, leb, if◌then◌else◌, is_nil, String, map,
}
use zaman.Text.{Bytes, codes, equal, has_prefix, contains, to_lower}
use zaman.Text.Decimal.{ℤ, pos, negsuc, is_pos, ltb_ℤ, show, show_ℤ}
use zaman.Text.Json.Value.{Json, text, number, flag, object, members}
use zaman.Core.Config.{Config}
use zaman.Core.Metrics.{Metrics}
use zaman.Sip.{SipInfo, parse_sip}

-- The body of a request, decoded.
pub record ProbeRequest : Type 0 where
  pub host : Bytes
  pub port : ℤ
  pub wait_ms : ℤ

-- `if x <= 0 || x > most { x = usual }`
unfoldable pub in_range_or : ℕ → ℕ → ℤ → ℕ
in_range_or most usual (pos n) = if is_pos (pos n) && leb n most then n else usual
in_range_or most usual (negsuc n) = usual

abbrev pub private_prefixes : List Bytes
private_prefixes =
    codes "10."
    ∷ codes "192.168."
    ∷ codes "172.16."
    ∷ codes "172.17."
    ∷ codes "172.18."
    ∷ codes "172.19."
    ∷ codes "172.20."
    ∷ codes "172.21."
    ∷ codes "172.22."
    ∷ codes "172.23."
    ∷ codes "172.24."
    ∷ codes "172.25."
    ∷ codes "172.26."
    ∷ codes "172.27."
    ∷ codes "172.28."
    ∷ codes "172.29."
    ∷ codes "172.30."
    ∷ codes "172.31."
    ∷ codes "127."
    ∷ []

unfoldable pub any_prefix : Bytes → List Bytes → Bool
unfolding has_prefix
any_prefix s [] = false
any_prefix s (p ∷ ps) = has_prefix s p || any_prefix s ps

-- What the probe meets outside: no connection, no answer in time, or an answer, with the round trip
-- that the clock shows.
pub data Network : Type 0 where
  no_connection : Bytes → Network
  no_answer : ℤ → Network
  answered : Bytes → ℤ → Network

-- The texts and times that a probe is given: the local address, and the three readings of the clock in
-- nanoseconds.
pub record Stamp : Type 0 where
  pub local_addr : Bytes
  pub call_time : ℕ
  pub branch_time : ℕ
  pub tag_time : ℕ

-- `Version` of core-go/main.go
abbrev pub version : Bytes
version = codes "0.4.0"

-- What is answered, the counters after it, and the datagram that was sent, with its address.
pub record ProbeResult : Type 0 where
  pub reply : Json
  pub metrics : Metrics
  pub sent : Option (Bytes × Bytes)

abbrev error_reply : String → Json
error_reply e = object (members ((codes "ok", flag false) ∷ (codes "error", text (codes e)) ∷ []))

abbrev refused : Metrics → String → ProbeResult
refused m e = record { reply = error_reply e; metrics = m; sent = none }

-- `net.JoinHostPort`
unfoldable pub join_host_port : Bytes → Bytes → Bytes
unfolding contains
join_host_port host port =
    if contains host (codes ":")
    then b'[' ∷ (host ++ (codes "]:" ++ port))
    else host ++ (b':' ∷ port)

abbrev pub probe_call_id : Stamp → Bytes
probe_call_id s = codes "zaman-probe-" ++ (show s.call_time ++ codes "@zaman.local")

unfoldable pub options_message : Bytes → Stamp → Bytes
unfolding show
options_message host s =
    codes "OPTIONS sip:echo@"
    ++ (host
        ++ (codes " SIP/2.0\r\nVia: SIP/2.0/UDP "
            ++ (s.local_addr
                ++ (codes ";rport;branch=z9hG4bK-"
                    ++ (show s.branch_time
                        ++ (codes "\r\nFrom: Zaman Probe <sip:probe@zaman.local>;tag=prb"
                            ++ (show (s.tag_time % 100000)
                                ++ (codes "\r\nTo: <sip:echo@"
                                    ++ (host
                                        ++ (codes ">\r\nCall-ID: "
                                            ++ (probe_call_id s
                                                ++ (codes
                                                      "\r\nCSeq: 1 OPTIONS\r\nUser-Agent: Zaman-Probe/"
                                                    ++ (version
                                                        ++ codes
                                                            "\r\nMax-Forwards: 70\r\nContent-Length: 0\r\n\r\n")))))))))))))

abbrev reply_fields : Bytes → ℕ → ℤ → Bytes → (Bytes × Json) → Bool → Json
reply_fields host port rtt call_id middle ok = object (
    members (
      (codes "ok", flag ok)
      ∷ (codes "host", text host)
      ∷ (codes "port", number (pos port))
      ∷ middle
      ∷ (codes "rtt_ms", number rtt)
      ∷ (codes "call_id", text call_id)
      ∷ []))

-- `net.ParseIP` and `String`, on a text that is an IP address: its usual form.
module _ (parse_ip : Bytes → Option Bytes) where
  unfoldable pub is_private_ip : Bytes → Bool
  unfolding any_prefix
  is_private_ip host = elim (parse_ip host) [
    | none ↦ false
    | some s ↦ any_prefix s private_prefixes
  ]

  unfoldable pub is_blocked_host : Bytes → Config → Bool
  unfolding is_private_ip to_lower equal has_prefix
  is_blocked_host host cfg =
      if equal (to_lower host) (codes "metadata.google.internal")
        || has_prefix host (codes "169.254.")
      then true
      else not cfg.probe_allow_private && is_private_ip host

  -- From the dial on.
  unfoldable pub send_probe : Bytes → ℕ → Stamp → Network → Metrics → ProbeResult
  unfolding join_host_port options_message parse_sip show
  send_probe host port s (no_connection e) m = record {
    reply = object (members ((codes "ok", flag false) ∷ (codes "error", text e) ∷ []));
    metrics = record m { probes_fail = m.probes_fail + 1 };
    sent = none;
  }
  send_probe host port s (no_answer rtt) m = record {
    reply =
        reply_fields host port rtt (probe_call_id s) (codes "error", text (codes "timeout")) false;
    metrics = record m { probes_fail = m.probes_fail + 1 };
    sent = some (join_host_port host (show port), options_message host s);
  }
  send_probe host port s (answered reply rtt) m = record {
    reply =
        reply_fields host port rtt (probe_call_id s)
          (codes "status", number (parse_sip reply).status) true;
    metrics = record m { probes_ok = m.probes_ok + 1; probe_rtt = rtt };
    sent = some (join_host_port host (show port), options_message host s);
  }

  -- doProbe; the request is `none` where the body does not decode, and the network is given the time to
  -- wait, in milliseconds.
  unfoldable pub do_probe :
      Config → Option ProbeRequest → Stamp → (ℕ → Network) → Metrics → ProbeResult
  unfolding is_blocked_host send_probe in_range_or
  do_probe cfg none s net m =
      if not cfg.probe_enabled
      then refused m "probe disabled (set ZAMAN_PROBE=1)"
      else refused m "invalid json"
  do_probe cfg (some r) s net m =
      if not cfg.probe_enabled
      then refused m "probe disabled (set ZAMAN_PROBE=1)"
      else if is_nil r.host
      then refused m "host required"
      else if is_blocked_host r.host cfg
      then refused m "host blocked"
      else send_probe r.host (in_range_or 65535 5060 r.port) s
          (net (in_range_or 5000 3000 r.wait_ms)) m
