-- ===== src/Hep/Decode.antt =====
-- The decoder reads every packet of the wire format.
use zaman.Base.{
  ℕ, zero, suc, ◌+◌, ◌-◌, ◌/◌, ◌%◌, ◌≤◌, ◌<◌, min, ◌≡◌, refl, ap, ◌∙◌, false, ◌||◌, List, [], ◌∷◌,
  ◌++◌, ltb, All, arith, length, length-append, take-length-append, drop-length-append,
}
use zaman.Text.{Bytes, codes}
use zaman.Hep.{HepInfo, no_info, be16, apply_chunk, chunks, finish, hep_decode}
use zaman.Hep.Format.{Chunk, encode_chunks, encode}

-- What the packet means: its chunks are applied in order.
abbrev pub apply_chunks : HepInfo → List Chunk → HepInfo
apply_chunks info [] = info
apply_chunks info (c ∷ cs) = apply_chunks (apply_chunk info c.kind c.body) cs

abbrev pub IsChunk : Chunk → Type 0
IsChunk c = c.kind < 65536

-- One round of the loop, on a chunk that fits.
chunks_step :
    (fuel v1 v2 t1 t2 l1 l2 n : ℕ) (body tail : Bytes) (info : HepInfo)
    → be16 l1 l2 ≡ n + 6
    → n ≡ length body
    → chunks (suc fuel) (v1 ∷ v2 ∷ t1 ∷ t2 ∷ l1 ∷ l2 ∷ (body ++ tail)) info
      ≡ chunks fuel tail (apply_chunk info (be16 t1 t2) body)
unfolding chunks
chunks_step fuel v1 v2 t1 t2 l1 l2 n body tail info e h =
    let fits : (ltb (be16 l1 l2) 6 || ltb (length (body ++ tail) + 6) (be16 l1 l2)) ≡ false =
      ground (arith, length-append body tail) in
    let size : be16 l1 l2 - 6 ≡ n = omega arith in
    rw (fits, chunks, size, take-length-append body tail n h, drop-length-append body tail n h)

-- The loop reads back a list of chunks, whatever they are.
pub chunks-encode_chunks :
    (cs : List Chunk) (fuel : ℕ) (info : HepInfo)
    → All IsChunk cs
    → length (encode_chunks cs) < 65536
    → length (encode_chunks cs) ≤ fuel
    → chunks fuel (encode_chunks cs) info ≡ apply_chunks info cs
chunks-encode_chunks [] zero info hs h hf = unfold chunks in refl
chunks-encode_chunks [] (suc fuel) info hs h hf = unfold chunks in refl
chunks-encode_chunks (c ∷ cs) zero info hs h hf = absurd (omega arith)
chunks-encode_chunks (c ∷ cs) (suc fuel) info (hc, hs) h hf =
    let size = length-append c.body (encode_chunks cs) in
    let kind : be16 (c.kind / 256) (c.kind % 256) ≡ c.kind = omega arith in
    chunks_step fuel _ _ _ _ _ _ (length c.body) c.body (encode_chunks cs) info
      (omega (arith, size)) refl
    ∙ rw kind (
        chunks-encode_chunks cs fuel (apply_chunk info c.kind c.body) hs (omega (arith, size))
          (omega (arith, size)))

hep_decode_header :
    (l1 l2 : ℕ) (body junk : Bytes)
    → be16 l1 l2 ≡ length body + 6
    → hep_decode (codes "HEP3" ++ l1 ∷ l2 ∷ (body ++ junk))
      ≡ finish (chunks (length (body ++ junk)) body no_info)
unfolding hep_decode
hep_decode_header l1 l2 body junk e =
    let size : min (be16 l1 l2) (length (body ++ junk) + 6) - 6 ≡ length body =
      omega (arith, length-append body junk) in
    rw (size, take-length-append body junk _ refl)

-- A packet of the wire format is decoded to the effect of its chunks, in order. What follows the
-- length that the header states is not read.
pub hep_decode-encode :
    (cs : List Chunk) (junk : Bytes)
    → All IsChunk cs
    → length (encode_chunks cs) + 6 < 65536
    → hep_decode (encode cs ++ junk) ≡ finish (apply_chunks no_info cs)
hep_decode-encode cs junk hs h =
    hep_decode_header _ _ (encode_chunks cs) junk (omega arith)
    ∙ ap finish (
        chunks-encode_chunks cs _ no_info hs (omega arith)
          (omega (arith, length-append (encode_chunks cs) junk)))
