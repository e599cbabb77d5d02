-- ===== src/Workers/Runs.antt =====
-- Every run of the workers keeps the counters in step.
use zaman.Base.{
  ℕ, suc, ◌≡◌, ap, Bool, List, [], ◌∷◌, if◌then◌else◌, length, arith, is_nil, if_keeps, Bool-cases,
  inl, inr,
}
use zaman.Text.{Bytes}
use zaman.Core.Config.{Config}
use zaman.Core.Metrics.{total}
use zaman.Core.Ring.{empty}
use zaman.Core.State.{State}
use zaman.Hep.Auth.{hep_peer_allowed}
use zaman.Hep.Drain.Stream.{drain_keeps}
use zaman.Hep.Handle.{tcp, tls, deny, handle_hep_packet}
use zaman.Hep.Session.{Read, hep_tcp_session, hep_tls_connection}
use zaman.Hep.Session.Keeps.{session_keeps}
use zaman.Workers.{start, sip, hep_udp, hep_tcp, hep_tls, receive, Reach, here, next}
use zaman.Workers.Accounting.{
  IsAccounted, sip_packet-IsAccounted, hep_datagram-IsAccounted, handle_hep_packet-IsAccounted,
}

-- A connection that the allow list refuses counts as one denial.
abbrev pub refused : Config → Bytes → ℕ → ℕ
refused cfg peer denied = if hep_peer_allowed peer cfg then denied else suc denied

deny-IsAccounted :
    (denied taken : ℕ) (s : State)
    → IsAccounted denied taken s
    → IsAccounted (suc denied) taken (deny s)
deny-IsAccounted denied taken s a = ground arith

module _ (cfg : Config) (peer : Bytes) (now denied taken : ℕ) (s : State)
    (a : IsAccounted denied taken s) where
  session-IsAccounted :
      (reads : List Read)
      → IsAccounted (refused cfg peer denied) taken (hep_tcp_session cfg peer now reads s)
  unfolding hep_tcp_session
  session-IsAccounted reads = elim (Bool-cases (hep_peer_allowed peer cfg)) [
    | inl e ↦ rw e (
        session_keeps (handle_hep_packet cfg tcp peer now) (IsAccounted denied taken)
          (handle_hep_packet-IsAccounted denied taken cfg tcp peer now) reads [] s a)
    | inr e ↦ rw e (deny-IsAccounted denied taken s a)
  ]

  connection-IsAccounted :
      (failed : Bool) (received : Bytes)
      → IsAccounted
          (refused cfg peer denied)
          taken
          (hep_tls_connection cfg peer now failed received s)
  unfolding hep_tls_connection
  connection-IsAccounted failed received = elim (Bool-cases (hep_peer_allowed peer cfg)) [
    | inl e ↦ rw e (
        if_keeps (IsAccounted denied taken) failed s _ a (
          if_keeps (IsAccounted denied taken) (is_nil received) s _ a (
            drain_keeps (handle_hep_packet cfg tls peer now) (IsAccounted denied taken)
              (handle_hep_packet-IsAccounted denied taken cfg tls peer now) received s a)))
    | inr e ↦ rw e (deny-IsAccounted denied taken s a)
  ]

module _ {getenv : Bytes → Bytes} {cfg : Config} where
  -- How many connections a run refuses, and how many records the writer takes in it.
  unfoldable pub denials : {s t : State} → Reach getenv cfg s t → ℕ
  denials here = 0
  denials (next r (sip _ _ _ _)) = denials r
  denials (next r (hep_udp _ _ _ _)) = denials r
  denials (next r (hep_tcp _ peer _ _)) = refused cfg peer (denials r)
  denials (next r (hep_tls _ peer _ _ _)) = refused cfg peer (denials r)
  denials (next r (receive _ _ _ _)) = denials r

  unfoldable pub receipts : {s t : State} → Reach getenv cfg s t → ℕ
  receipts here = 0
  receipts (next r (sip _ _ _ _)) = receipts r
  receipts (next r (hep_udp _ _ _ _)) = receipts r
  receipts (next r (hep_tcp _ _ _ _)) = receipts r
  receipts (next r (hep_tls _ _ _ _ _)) = receipts r
  receipts (next r (receive _ _ _ _)) = suc (receipts r)

receive-IsAccounted :
    (denied taken : ℕ) (s : State) (rec : Bytes) (rest : List Bytes)
    → s.db_ch ≡ rec ∷ rest
    → IsAccounted denied taken s
    → IsAccounted denied (suc taken) (record s { db_ch = rest })
receive-IsAccounted denied taken s rec rest e a =
    let size : length s.db_ch ≡ suc (length rest) = ap length e in
    record {
      messages = a.messages;
      transports = a.transports;
      fates = a.fates;
      ring = a.ring;
      room = omega (arith, size, a.room);
      records = omega (arith, size, a.records);
    }

start-IsAccounted : IsAccounted 0 0 start
unfolding empty total
start-IsAccounted = omega arith

-- After any run of the workers, in any order and on any input: each message is a request or a
-- response, and is counted once under its method; the counters of statuses hold no more than the
-- messages; each HEP packet came by one transport and has one fate, where a refused connection is a
-- denial of its own; the ring counts the messages; and each record is in the queue, was dropped, or
-- was taken by the writer, the queue within its capacity.
pub Reach-IsAccounted :
    {getenv : Bytes → Bytes} {cfg : Config} {s : State} (r : Reach getenv cfg start s)
    → IsAccounted (denials r) (receipts r) s
unfolding denials receipts
Reach-IsAccounted here = start-IsAccounted
Reach-IsAccounted {getenv} {cfg} {s = u} (next {t} r (sip now remote msg e)) =
    rw e (sip_packet-IsAccounted _ _ getenv cfg now remote msg t (Reach-IsAccounted r))
Reach-IsAccounted {getenv} {cfg} {s = u} (next {t} r (hep_udp now remote pkt e)) =
    rw e (hep_datagram-IsAccounted _ _ cfg remote now pkt t (Reach-IsAccounted r))
Reach-IsAccounted {getenv} {cfg} {s = u} (next {t} r (hep_tcp now peer reads e)) =
    rw e (session-IsAccounted cfg peer now _ _ t (Reach-IsAccounted r) reads)
Reach-IsAccounted {getenv} {cfg} {s = u} (next {t} r (hep_tls now peer failed received e)) =
    rw e (connection-IsAccounted cfg peer now _ _ t (Reach-IsAccounted r) failed received)
Reach-IsAccounted {getenv} {cfg} {s = u} (next {t} r (receive taken rest q e)) =
    rw e (receive-IsAccounted _ _ t taken rest q (Reach-IsAccounted r))
