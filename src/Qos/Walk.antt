-- ===== src/Qos/Walk.antt =====
-- The walk over RTCP packets ends and reads no byte behind the payload.
use zaman.Base.{
  ℕ, zero, suc, ◌+◌, ◌*◌, ◌%◌, ◌<◌, ◌≤◌, ◌≡◌, refl, Bool, true, false, Option, none, some, [], ◌∷◌,
  ltb, leb, ◌==◌, if◌then◌else◌, length, Bool-cases, inl, inr, leb→le, arith,
}
use zaman.Text.{Bytes}
use zaman.Qos.{
  Float64, byte_at, uint16_at, uint32_at, ◌>>=◌, Ending, done, panicked, Worst, no_blocks,
  read_block, read_blocks, read_packet, walk, report_text, rtcp_parse_qos,
}

abbrev Returns {ℓ} : {A : Type ℓ} → Option A → Type ℓ
Returns {A = A} o = (a : A) × (o ≡ some a)

>>=-Returns {ℓ κ} :
    {A : Type ℓ} {B : Type κ} (m : Option A) (f : A → Option B)
    → Returns m
    → ((a : A) → Returns (f a))
    → Returns (m >>= f)
>>=-Returns m f (a, e) h = let (b, e') = h a in (b, rw e e')

byte_at_lt : (s : Bytes) (i : ℕ) → i < length s → (b : ℕ) × (byte_at s i ≡ some b)
byte_at_lt [] i h = absurd (omega arith)
byte_at_lt (c ∷ s) zero h = (c, refl)
byte_at_lt (c ∷ s) (suc i) h = byte_at_lt s i (omega arith)

uint16_at_lt : (s : Bytes) (i : ℕ) → i + 2 ≤ length s → (n : ℕ) × (uint16_at s i ≡ some n)
unfolding uint16_at
uint16_at_lt s i h =
    let (high, e) = byte_at_lt s i (omega arith) in
    let (low, e') = byte_at_lt s (i + 1) (omega arith) in (high * 256 + low, rw (e, e') refl)

uint32_at_lt : (s : Bytes) (i : ℕ) → i + 4 ≤ length s → (n : ℕ) × (uint32_at s i ≡ some n)
unfolding uint32_at
uint32_at_lt s i h =
    let (high, e) = uint16_at_lt s i (omega arith) in
    let (low, e') = uint16_at_lt s (i + 2) (omega arith) in (high * 65536 + low, rw (e, e') refl)

module _ (floats : Float64) where
  read_block_inside :
      (payload : Bytes) (start : ℕ) (w : Worst floats)
      → start + 24 ≤ length payload
      → (after : Worst floats) × (read_block floats payload start w ≡ some after)
  unfolding read_block
  read_block_inside payload start w h =
      >>=-Returns (byte_at payload (start + 4)) _ (byte_at_lt payload (start + 4) (omega arith))
        λ fraction.
          >>=-Returns (uint32_at payload (start + 12)) _
            (uint32_at_lt payload (start + 12) (omega arith))
            λ jitter.
              >>=-Returns (uint32_at payload start) _ (uint32_at_lt payload start (omega arith))
                λ ssrc. (_, refl)

  read_blocks-returns :
      (n : ℕ) (payload : Bytes) (start : ℕ) (w : Worst floats)
      → (after : Worst floats) × (read_blocks floats n payload start w ≡ some after)
  unfolding read_blocks
  read_blocks-returns zero payload start w = (w, refl)
  read_blocks-returns (suc n) payload start w =
      elim (Bool-cases (leb (start + 24) (length payload))) [
        | inl e ↦
            let (next, e') = read_block_inside payload start w (leb→le _ _ e) in
            let (after, e'') = read_blocks-returns n payload (start + 24) next in
            (after, rw (e, e') e'')
        | inr e ↦ (w, rw e refl)
      ]

  -- A round ends the loop, or goes on four bytes later or more.
  data Moves (offset : ℕ) : Option (Option ℕ × Worst floats) → Type 0 where
    ends : (w : Worst floats) → Moves offset (some (none, w))
    goes_on : (next : ℕ) (w : Worst floats) → offset + 4 ≤ next → Moves offset (some (some next, w))

  some_step :
      (ended other : Bool) (offset next : ℕ) (w after : Worst floats)
      → offset + 4 ≤ next
      → Moves offset (
          if ended
          then some (none, w)
          else if other
          then some (some next, w)
          else some (some next, after))
  some_step true other offset next w after h = ends w
  some_step false true offset next w after h = goes_on next w h
  some_step false false offset next w after h = goes_on next after h

  read_packet-Moves :
      (payload : Bytes) (offset : ℕ) (w : Worst floats)
      → offset + 4 ≤ length payload
      → Moves offset (read_packet floats payload offset w)
  unfolding read_packet
  read_packet-Moves payload offset w h =
      let (header, e) = byte_at_lt payload offset (omega arith) in
      let (kind, e') = byte_at_lt payload (offset + 1) (omega arith) in
      let (words, e'') = uint16_at_lt payload (offset + 2) (omega arith) in
      let start = if kind == 200 then offset + 28 else offset + 8 in
      let (after, read) = read_blocks-returns (header % 32) payload start w in
      rw (e, e', e'', read) (some_step _ _ offset _ w after (omega arith))

  follow :
      (fuel : ℕ) (payload : Bytes) (offset : ℕ) {p : Option (Option ℕ × Worst floats)}
      → Moves offset p
      → ((next : ℕ) (w : Worst floats)
          → offset + 4 ≤ next
          → (after : Worst floats) × (walk floats fuel payload next w ≡ done after))
      → (after : Worst floats) × ((let ending : Ending (Worst floats) = elim p [
        | none ↦ panicked
        | some (none, after) ↦ done after
        | some (some next, after) ↦ walk floats fuel payload next after
      ] in
            ending)
          ≡ done after)
  follow fuel payload offset (ends w) ih = (w, refl)
  follow fuel payload offset (goes_on next w h) ih = ih next w h

  walk-done :
      (fuel : ℕ) (payload : Bytes) (offset : ℕ) (w : Worst floats)
      → 0 < fuel
      → length payload < offset + 4 * fuel
      → (after : Worst floats) × (walk floats fuel payload offset w ≡ done after)
  unfolding walk
  walk-done zero payload offset w some_fuel h = absurd (omega arith)
  walk-done (suc fuel) payload offset w some_fuel h =
      elim (Bool-cases (leb (offset + 4) (length payload))) [
        | inl e ↦
            let room = leb→le (offset + 4) (length payload) e in
            rw e (
              follow fuel payload offset (read_packet-Moves payload offset w room)
                (λ next after later. walk-done fuel payload next after (omega arith) (omega arith)))
        | inr e ↦ (w, rw e refl)
      ]

  -- Whatever bytes an RTCP payload has, the parser ends with a text: the walk over its packets and
  -- their report blocks comes to an end, and reads no byte that is not there.
  pub rtcp_parse_qos-done :
      (payload : Bytes) → (text : Bytes) × (rtcp_parse_qos floats payload ≡ done text)
  unfolding rtcp_parse_qos
  rtcp_parse_qos-done payload = elim (Bool-cases (ltb (length payload) 8)) [
    | inl short ↦ ([], rw short refl)
    | inr long ↦
        let (after, e) =
          walk-done (length payload) payload 0 (no_blocks floats) (ground (arith, long))
            (ground (arith, long)) in
        (report_text floats after, rw (long, e) refl)
  ]
