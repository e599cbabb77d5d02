-- ===== src/Hep/Drain.antt =====
-- drainHEPFrames of core-go/hep.go. The handler of a frame is a parameter, so the loop runs on any
-- state; hepTCPSession and hepTLSWorker run it on the state of the core.
pub mod Frames
pub mod Stream
use zaman.Base.{
  ℕ, zero, suc, ◌+◌, ◌≡◌, refl, Bool, true, false, not, ◌&&◌, ◌||◌, List, [], ◌∷◌, ◌++◌, ltb, leb,
  ◌==◌, if◌then◌else◌, length, take, drop,
}
use zaman.Text.{Bytes}
use zaman.Hep.{be16, is_magic}

-- What a round does with the buffer: it ends the loop, skips a byte, or takes a frame.
pub data Round : Type 0 where
  stop skip : Round
  frame : ℕ → Round

unfoldable pub look : Bytes → Round
look (a ∷ b ∷ c ∷ d ∷ l1 ∷ l2 ∷ more) =
    let frame_len = be16 l1 l2 in
    if not (is_magic a b c d)
    then skip
    else if ltb frame_len 6 || ltb 65535 frame_len
    then skip
    else if ltb (length more + 6) frame_len
    then stop
    else frame frame_len
look _ = stop

module _ {ℓ} {S : Type ℓ} (handle : Bytes → S → S) where
  -- A round takes a byte at least, so `length buf` rounds are enough.
  pub drain_loop : ℕ → Bytes → S → Bytes × S
  drain_loop zero buf s = (buf, s)
  drain_loop (suc fuel) buf s = elim (look buf) [
    | stop ↦ (buf, s)
    | skip ↦ drain_loop fuel (drop 1 buf) s
    | frame n ↦ drain_loop fuel (drop n buf) (handle (take n buf) s)
  ]

  unfoldable pub drain : Bytes → S → Bytes × S
  unfolding drain_loop
  drain buf s = drain_loop (length buf) buf s
