-- ===== src/Hep/Session/Keeps.antt =====
-- What every frame keeps, a session keeps, whatever it reads.
use zaman.Base.{not, ◌&&◌, List, [], ◌∷◌, ◌++◌, ltb, length, is_nil, if_keeps}
use zaman.Text.{Bytes}
use zaman.Hep.Drain.{drain}
use zaman.Hep.Drain.Stream.{drain_keeps}
use zaman.Hep.Session.{ReadError, no_error, eof, failed, Read, max_buffer, finish_read, session}

module _ {ℓ κ} {S : Type ℓ} (handle : Bytes → S → S) (P : S → Type κ)
    (keep : (f : Bytes) (s : S) → P s → P (handle f s)) where
  finish_read_keeps :
      (e : ReadError) (buf : Bytes) (s : S) (next : Bytes × S → S)
      → P s
      → ((buf : Bytes) (s : S) → P s → P (next (buf, s)))
      → P (finish_read handle e (buf, s) next)
  unfolding finish_read
  finish_read_keeps no_error buf s next h hn = hn buf s h
  finish_read_keeps eof buf s next h hn = drain_keeps handle P keep buf s h
  finish_read_keeps failed buf s next h hn = h

  pub session_keeps : (rs : List Read) (buf : Bytes) (s : S) → P s → P (session handle rs (buf, s))
  session_keeps [] buf s h = unfold session in h
  session_keeps (r ∷ rs) buf s h = step (λ b t ht. session_keeps rs b t ht)
    where
      grown : Bytes
      grown = buf ++ r.bytes

      step :
          ((b : Bytes) (t : S) → P t → P (session handle rs (b, t)))
          → P (session handle (r ∷ rs) (buf, s))
      step later =
          unfold session in
          if_keeps P (not (is_nil r.bytes) && ltb max_buffer (length grown)) s _ h (
            finish_read_keeps r.error (drain handle grown s).0 (drain handle grown s).1
              (session handle rs) (drain_keeps handle P keep grown s h) later)
