-- ===== src/Hep/Session/Whole.antt =====
-- A TCP session handles its stream as a whole.
use zaman.Base.{
  ◌<◌, ◌≤◌, ◌≡◌, ◌≢◌, refl, sym, ap, ◌∙◌, false, not, ◌&&◌, List, [], ◌∷◌, ◌++◌, append_assoc, ltb,
  length, length-append, is_nil, All, arith,
}
use zaman.Text.{Bytes}
use zaman.Hep.Drain.{drain}
use zaman.Hep.Drain.Stream.{drain-append, drain_rest}
use zaman.Hep.Session.{ReadError, no_error, eof, failed, Read, max_buffer, session}

-- `make([]byte, 16384)`
abbrev pub IsRead : Bytes → Type 0
IsRead bytes = length bytes ≤ 16384

abbrev pub reads : List Bytes → List Read → List Read
reads [] last = last
reads (b ∷ bs) last = record { bytes = b; error = no_error } ∷ reads bs last

abbrev pub joined : List Bytes → Bytes
joined [] = []
joined (b ∷ bs) = b ++ joined bs

small_enough :
    (buf b : Bytes)
    → length buf < 65536
    → IsRead b
    → (not (is_nil b) && ltb max_buffer (length (buf ++ b))) ≡ false
small_enough buf b h hb = ground (arith, length-append buf b)

module _ {ℓ} {S : Type ℓ} (handle : Bytes → S → S) where
  -- While the buffer holds less than a frame, a read does not reach the cap.
  session_read :
      (b buf : Bytes) (rs : List Read) (s : S)
      → length buf < 65536
      → IsRead b
      → session handle (record { bytes = b; error = no_error } ∷ rs) (buf, s)
        ≡ session handle rs (drain handle (buf ++ b) s)
  unfolding session
  session_read b buf rs s h hb = rw (small_enough buf b h hb)

  session_last :
      (e : ReadError) (b buf : Bytes) (s : S)
      → e ≢ no_error
      → length buf < 65536
      → IsRead b
      → session handle (record { bytes = b; error = e } ∷ []) (buf, s)
        ≡ (drain handle (buf ++ b) s).1
  unfolding session
  session_last no_error b buf s ne h hb = absurd (ne refl)
  session_last eof b buf s ne h hb =
      rw (small_enough buf b h hb) (ap (λ p. p.1) (drain_rest handle (buf ++ b) s).1)
  session_last failed b buf s ne h hb = rw (small_enough buf b h hb)

  session-joined :
      (bs : List Bytes) (last : Bytes) (e : ReadError) (buf : Bytes) (s : S)
      → e ≢ no_error
      → length buf < 65536
      → All IsRead bs
      → IsRead last
      → session handle (reads bs (record { bytes = last; error = e } ∷ [])) (buf, s)
        ≡ (drain handle (buf ++ (joined bs ++ last)) s).1
  session-joined [] last e buf s ne h hb hl = session_last e last buf s ne h hl
  session-joined (b ∷ bs) last e buf s ne h (hb, hbs) hl =
      let tail = joined bs ++ last in
      let drained = drain handle (buf ++ b) s in
      session_read b buf (reads bs (record { bytes = last; error = e } ∷ [])) s h hb
      ∙ session-joined bs last e drained.0 drained.1 ne (drain_rest handle (buf ++ b) s).0 hbs hl
      ∙ ap (λ p. p.1) (sym (drain-append handle (buf ++ b) tail s))
      ∙ ap (λ x. (drain handle x s).1)
          (append_assoc buf b tail ∙ ap (◌++◌ buf) (sym (append_assoc b (joined bs) last)))

  -- A session whose reads are at most as long as its read buffer, and which ends by the end of the
  -- stream or by another error, hands the same frames in the same order to the handler as one drain
  -- of all its bytes, however the stream was cut into reads. So the cap of two megabytes never
  -- closes a connection.
  pub session-drain :
      (bs : List Bytes) (last : Bytes) (e : ReadError) (s : S)
      → e ≢ no_error
      → All IsRead bs
      → IsRead last
      → session handle (reads bs (record { bytes = last; error = e } ∷ [])) ([], s)
        ≡ (drain handle (joined bs ++ last) s).1
  session-drain bs last e s ne hb hl = session-joined bs last e [] s ne (omega arith) hb hl
