-- ===== src/Hep/Session.antt =====
-- hepTCPSession of core-go/hep.go, and the connection handler of hepTLSWorker.
pub mod Keeps
pub mod Whole
use zaman.Base.{
  ℕ, zero, suc, ◌+◌, ◌*◌, ◌≡◌, refl, Bool, true, false, not, ◌&&◌, List, [], ◌∷◌, ◌++◌, ltb,
  if◌then◌else◌, length, is_nil,
}
use zaman.Text.{Bytes}
use zaman.Core.Config.{Config}
use zaman.Core.State.{State}
use zaman.Hep.Auth.{hep_peer_allowed}
use zaman.Hep.Drain.{drain}
use zaman.Hep.Handle.{Transport, tcp, tls, deny, handle_hep_packet}

-- The error that `conn.Read` returns beside its bytes.
pub data ReadError : Type 0 where
  no_error eof failed : ReadError

-- One call of `conn.Read`. The list of a session's reads ends where the context is done.
pub record Read : Type 0 where
  pub bytes : Bytes
  pub error : ReadError

abbrev pub max_buffer : ℕ
max_buffer = 2 * 1024 * 1024

-- The loop on any handler. The buffer is given up without draining when it has grown too large.
module _ {ℓ} {S : Type ℓ} (handle : Bytes → S → S) where
  -- behind the drain: `buf` is what it left
  pub finish_read : ReadError → Bytes × S → (Bytes × S → S) → S
  finish_read no_error (buf, s) next = next (buf, s)
  finish_read eof (buf, s) next = (drain handle buf s).1
  finish_read failed (buf, s) next = s

  unfoldable pub session : List Read → Bytes × S → S
  unfolding finish_read
  session [] (buf, s) = s
  session (r ∷ rs) (buf, s) =
      let grown = buf ++ r.bytes in
      if not (is_nil r.bytes) && ltb max_buffer (length grown)
      then s
      else finish_read r.error (drain handle grown s) (session rs)

-- `now` stands for the clock, which the handler asks for packets that carry no time.
unfoldable pub hep_tcp_session : Config → Bytes → ℕ → List Read → State → State
unfolding session
hep_tcp_session cfg peer now reads s =
    if not (hep_peer_allowed peer cfg)
    then deny s
    else session (handle_hep_packet cfg tcp peer now) reads ([], s)

-- `received` is what `io.ReadAll` gives for the connection, cut to the limit; none on an error.
unfoldable pub hep_tls_connection : Config → Bytes → ℕ → Bool → Bytes → State → State
hep_tls_connection cfg peer now read_failed received s =
    if not (hep_peer_allowed peer cfg)
    then deny s
    else if read_failed
    then s
    else if is_nil received
    then s
    else (drain (handle_hep_packet cfg tls peer now) received s).1
