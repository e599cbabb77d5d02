-- ===== src/Workers.antt =====
-- The workers that main starts in core-go/main.go, as steps on the state that they share. A worker
-- takes each counter's lock by itself; here a datagram, a frame or a connection is one step.
pub mod Accounting
pub mod Runs
use zaman.Base.{ℕ, ◌+◌, ◌≡◌, Option, none, some, List, [], ◌∷◌, Bool}
use zaman.Text.{Bytes}
use zaman.Core.Config.{Config}
use zaman.Core.Metrics.{Metrics, new_metrics}
use zaman.Core.Ring.{empty}
use zaman.Core.State.{State}
use zaman.Sip.Worker.{sip_packet}
use zaman.Hep.Auth.{hep_peer_allowed}
use zaman.Hep.Handle.{hep_datagram}
use zaman.Hep.Session.{Read, hep_tcp_session, hep_tls_connection}

abbrev pub start : State
start = record { metrics = new_metrics; ring = empty; db_ch = [] }

-- One step of a worker; `taken` is the record that the database writer receives.
pub data Step (getenv : Bytes → Bytes) (cfg : Config) (s : State) (t : State) : Type 0 where
  sip :
      (now : ℕ) (remote msg : Bytes)
      → t ≡ (sip_packet getenv cfg now remote msg s).1
      → Step getenv cfg s t
  hep_udp :
      (now : ℕ) (remote pkt : Bytes) → t ≡ hep_datagram cfg remote now pkt s → Step getenv cfg s t
  hep_tcp :
      (now : ℕ) (peer : Bytes) (reads : List Read)
      → t ≡ hep_tcp_session cfg peer now reads s
      → Step getenv cfg s t
  hep_tls :
      (now : ℕ) (peer : Bytes) (read_failed : Bool) (received : Bytes)
      → t ≡ hep_tls_connection cfg peer now read_failed received s
      → Step getenv cfg s t
  receive :
      (taken : Bytes) (rest : List Bytes)
      → s.db_ch ≡ taken ∷ rest
      → t ≡ record s { db_ch = rest }
      → Step getenv cfg s t

pub data Reach (getenv : Bytes → Bytes) (cfg : Config) (s : State) : State → Type 0 where
  here : Reach getenv cfg s s
  next : {t u : State} → Reach getenv cfg s t → Step getenv cfg t u → Reach getenv cfg s u
