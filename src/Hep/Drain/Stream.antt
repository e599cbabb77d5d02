-- ===== src/Hep/Drain/Stream.antt =====
-- The loop does not depend on how the stream was cut into reads.
use zaman.Base.{
  ℕ, zero, suc, ◌<◌, ◌≤◌, ◌≡◌, ◌≢◌, refl, sym, ◌∙◌, [], ◌∷◌, ◌++◌, length, take, drop,
  length-append, length-drop, take-append, drop-append, arith, ◌⊎◌, inl, inr,
}
use zaman.Text.{Bytes}
use zaman.Hep.Drain.{Round, stop, skip, frame, look, drain_loop, drain}

-- A frame lies within the buffer and has six bytes at least; a byte that is skipped is there.
abbrev Fits : Bytes → Round → Type 0
Fits buf stop = length buf < 65536
Fits buf skip = 6 ≤ length buf
Fits buf (frame n) = (6 ≤ n) × (n ≤ length buf)

look-Fits : (buf : Bytes) → Fits buf (look buf)
unfolding look
look-Fits [] = omega arith
look-Fits (_ ∷ []) = omega arith
look-Fits (_ ∷ _ ∷ []) = omega arith
look-Fits (_ ∷ _ ∷ _ ∷ []) = omega arith
look-Fits (_ ∷ _ ∷ _ ∷ _ ∷ []) = omega arith
look-Fits (_ ∷ _ ∷ _ ∷ _ ∷ _ ∷ []) = omega arith
look-Fits (a ∷ b ∷ c ∷ d ∷ l1 ∷ l2 ∷ more) = ground arith

-- What comes behind does not change a decision that was made.
look-append : (buf more : Bytes) → (look buf ≡ stop) ⊎ (look (buf ++ more) ≡ look buf)
unfolding look
look-append [] more = inl refl
look-append (_ ∷ []) more = inl refl
look-append (_ ∷ _ ∷ []) more = inl refl
look-append (_ ∷ _ ∷ _ ∷ []) more = inl refl
look-append (_ ∷ _ ∷ _ ∷ _ ∷ []) more = inl refl
look-append (_ ∷ _ ∷ _ ∷ _ ∷ _ ∷ []) more = inl refl
look-append (a ∷ b ∷ c ∷ d ∷ l1 ∷ l2 ∷ rest) more = ground (arith, length-append rest more)

Round-cases : (r : Round) → (r ≡ stop) ⊎ (r ≡ skip) ⊎ ((n : ℕ) × (r ≡ frame n))
Round-cases stop = inl refl
Round-cases skip = inr (inl refl)
Round-cases (frame n) = inr (inr (n, refl))

skip-Fits : (buf : Bytes) → look buf ≡ skip → 6 ≤ length buf
skip-Fits buf e = rw e at (look-Fits buf)

frame-Fits : (buf : Bytes) (n : ℕ) → look buf ≡ frame n → (6 ≤ n) × (n ≤ length buf)
frame-Fits buf n e = rw e at (look-Fits buf)

module _ {ℓ} {S : Type ℓ} (handle : Bytes → S → S) where
  -- Rounds beyond the length of the buffer change nothing.
  drain_loop_fuel :
      (f g : ℕ) (buf : Bytes) (s : S)
      → length buf ≤ f
      → length buf ≤ g
      → drain_loop handle f buf s ≡ drain_loop handle g buf s
  unfolding drain_loop
  drain_loop_fuel zero zero buf s hf hg = refl
  drain_loop_fuel zero (suc g) [] s hf hg = unfold look in refl
  drain_loop_fuel zero (suc g) (c ∷ buf) s hf hg = absurd (omega arith)
  drain_loop_fuel (suc f) zero [] s hf hg = unfold look in refl
  drain_loop_fuel (suc f) zero (c ∷ buf) s hf hg = absurd (omega arith)
  drain_loop_fuel (suc f) (suc g) buf s hf hg = elim (Round-cases (look buf)) [
    | inl e ↦ rw (e, drain_loop)
    | inr (inl e) ↦
        rw (e, drain_loop)
          (drain_loop_fuel f g (drop 1 buf) s (omega (arith, skip-Fits buf e, length-drop 1 buf))
            (omega (arith, skip-Fits buf e, length-drop 1 buf)))
    | inr (inr (n, e)) ↦
        rw (e, drain_loop)
          (drain_loop_fuel f g (drop n buf) (handle (take n buf) s)
            (omega (arith, frame-Fits buf n e, length-drop n buf))
            (omega (arith, frame-Fits buf n e, length-drop n buf)))
  ]

  drain_fuel :
      (f : ℕ) (buf : Bytes) (s : S)
      → length buf ≤ f
      → drain handle buf s ≡ drain_loop handle f buf s
  drain_fuel f buf s h = unfold drain in drain_loop_fuel (length buf) f buf s (omega arith) h

  drain_stop : (buf : Bytes) (s : S) → look buf ≡ stop → drain handle buf s ≡ (buf, s)
  drain_stop buf s e =
      drain_fuel (suc (length buf)) buf s (omega arith) ∙ unfold drain_loop in rw (e, drain_loop)

  drain_skip :
      (buf : Bytes) (s : S) → look buf ≡ skip → drain handle buf s ≡ drain handle (drop 1 buf) s
  drain_skip buf s e =
      drain_fuel (suc (length buf)) buf s (omega arith)
      ∙ unfold drain_loop in
        rw (e, drain_loop)
          (sym (drain_fuel (length buf) (drop 1 buf) s (omega (arith, length-drop 1 buf))))

  pub drain_frame :
      (buf : Bytes) (n : ℕ) (s : S)
      → look buf ≡ frame n
      → drain handle buf s ≡ drain handle (drop n buf) (handle (take n buf) s)
  drain_frame buf n s e =
      drain_fuel (suc (length buf)) buf s (omega arith)
      ∙ unfold drain_loop in
        rw (e, drain_loop)
          (sym (
            drain_fuel (length buf) (drop n buf) (handle (take n buf) s)
              (omega (arith, length-drop n buf))))

  -- A property of buffers and states is proved along the rounds of the loop.
  drain_induction {κ} :
      (P : Bytes → S → Type κ)
      → ((buf : Bytes) (s : S) → look buf ≡ stop → P buf s)
      → ((buf : Bytes) (s : S) → look buf ≡ skip → P (drop 1 buf) s → P buf s)
      → ((buf : Bytes) (n : ℕ) (s : S)
          → look buf ≡ frame n
          → P (drop n buf) (handle (take n buf) s)
          → P buf s)
      → (fuel : ℕ) (buf : Bytes) (s : S) → length buf < fuel
      → P buf s
  drain_induction P at_stop at_skip at_frame zero buf s h = absurd (omega arith)
  drain_induction P at_stop at_skip at_frame (suc fuel) buf s h =
      let next = drain_induction P at_stop at_skip at_frame fuel in
      elim (Round-cases (look buf)) [
        | inl e ↦ at_stop buf s e
        | inr (inl e) ↦
            at_skip buf s e
              (next (drop 1 buf) s (omega (arith, skip-Fits buf e, length-drop 1 buf)))
        | inr (inr (n, e)) ↦ at_frame buf n s e (
            next (drop n buf) (handle (take n buf) s)
              (omega (arith, frame-Fits buf n e, length-drop n buf)))
      ]

  abbrev Streams : Bytes → Bytes → S → Type ℓ
  Streams more buf s =
      drain handle (buf ++ more) s
      ≡ drain handle ((drain handle buf s).0 ++ more) (drain handle buf s).1

  look_more : (buf more : Bytes) (r : Round) → look buf ≡ r → r ≢ stop → look (buf ++ more) ≡ r
  look_more buf more r e ne = elim (look-append buf more) [
    | inl e' ↦ absurd (ne (sym e ∙ e'))
    | inr e' ↦ e' ∙ e
  ]

  -- Where a stream is cut into two reads, draining the first, and then what it left with the second
  -- behind it, handles the same frames in the same order and leaves the same bytes as draining the
  -- whole.
  pub drain-append :
      (buf more : Bytes) (s : S)
      → drain handle (buf ++ more) s
        ≡ drain handle ((drain handle buf s).0 ++ more) (drain handle buf s).1
  drain-append buf more s =
      drain_induction (Streams more) (λ b t e. rw (drain_stop b t e))
        (λ b t e ih. rw (drain_skip b t e) (
          drain_skip (b ++ more) t (look_more b more skip e (λ x. cc))
          ∙ rw (drop-append 1 b more (omega (arith, skip-Fits b e))) ih))
        (λ b n t e ih. rw (drain_frame b n t e) (
          drain_frame (b ++ more) n t (look_more b more (frame n) e (λ x. cc))
          ∙ rw
              (drop-append n b more (frame-Fits b n e).1, take-append n b more (frame-Fits b n e).1)
              ih))
        (suc (length buf)) buf s (omega arith)

  -- What the loop leaves is shorter than a frame can be, and draining it again does nothing.
  pub drain_rest :
      (buf : Bytes) (s : S)
      → (length (drain handle buf s).0 < 65536)
        × (drain handle (drain handle buf s).0 (drain handle buf s).1 ≡ drain handle buf s)
  drain_rest buf s =
      drain_induction
        (λ b t.
          (length (drain handle b t).0 < 65536)
          × (drain handle (drain handle b t).0 (drain handle b t).1 ≡ drain handle b t))
        (λ b t e. rw (drain_stop b t e) (rw e at (look-Fits b), drain_stop b t e))
        (λ b t e ih. rw (drain_skip b t e) ih) (λ b n t e ih. rw (drain_frame b n t e) ih)
        (suc (length buf)) buf s (omega arith)

  -- What every frame keeps, the loop keeps.
  pub drain_keeps {κ} :
      (P : S → Type κ)
      → ((f : Bytes) (s : S) → P s → P (handle f s))
      → (buf : Bytes) (s : S) → P s
      → P (drain handle buf s).1
  drain_keeps P keep buf s =
      drain_induction (λ b t. P t → P (drain handle b t).1) (λ b t e h. rw (drain_stop b t e) h)
        (λ b t e ih h. rw (drain_skip b t e) (ih h))
        (λ b n t e ih h. rw (drain_frame b n t e) (ih (keep (take n b) t h))) (suc (length buf)) buf
        s (omega arith)
