-- ===== src/Hep/Drain/Frames.antt =====
-- A stream of well-formed frames.
use zaman.Base.{
  ℕ, ◌+◌, ◌<◌, ◌≡◌, refl, ap, ◌∙◌, List, [], ◌∷◌, ◌++◌, length, length-append, take-length-append,
  drop-length-append, All, arith,
}
use zaman.Text.{Bytes, codes}
use zaman.Hep.{be16}
use zaman.Hep.Format.{Chunk, encode_chunks, encode}
use zaman.Hep.Drain.{frame, look, drain}
use zaman.Hep.Drain.Stream.{drain_frame}

look_header :
    (l1 l2 : ℕ) (body tail : Bytes)
    → be16 l1 l2 ≡ length body + 6
    → length body + 6 < 65536
    → look (codes "HEP3" ++ l1 ∷ l2 ∷ (body ++ tail)) ≡ frame (length body + 6)
unfolding look
look_header l1 l2 body tail e h = ground (arith, length-append body tail)

abbrev pub IsFrame : List Chunk → Type 0
IsFrame cs = length (encode_chunks cs) + 6 < 65536

look-encode :
    (cs : List Chunk) (tail : Bytes)
    → IsFrame cs
    → look (encode cs ++ tail) ≡ frame (length (encode cs))
look-encode cs tail h =
    look_header _ _ (encode_chunks cs) tail (omega arith) h ∙ ap frame (omega arith)

abbrev pub encode_frames : List (List Chunk) → Bytes → Bytes
encode_frames [] tail = tail
encode_frames (f ∷ fs) tail = encode f ++ encode_frames fs tail

module _ {ℓ} {S : Type ℓ} (handle : Bytes → S → S) where
  abbrev pub handle_frames : List (List Chunk) → S → S
  handle_frames [] s = s
  handle_frames (f ∷ fs) s = handle_frames fs (handle (encode f) s)

  -- The loop hands each frame of a stream to the handler once, in order, and goes on with what
  -- follows the last one.
  pub drain-encode_frames :
      (fs : List (List Chunk)) (tail : Bytes) (s : S)
      → All IsFrame fs
      → drain handle (encode_frames fs tail) s ≡ drain handle tail (handle_frames fs s)
  drain-encode_frames [] tail s h = refl
  drain-encode_frames (f ∷ fs) tail s (h, hs) =
      let rest = encode_frames fs tail in
      drain_frame handle (encode f ++ rest) _ s (look-encode f rest h)
      ∙ rw (take-length-append (encode f) rest _ refl, drop-length-append (encode f) rest _ refl)
          (drain-encode_frames fs tail (handle (encode f) s) hs)
