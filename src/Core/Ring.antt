-- ===== src/Core/Ring.antt =====
-- Ring of core-go/main.go, a circular buffer of the last 512 records.
pub mod History
use zaman.Base.{
  ℕ, zero, suc, ◌+◌, ◌-◌, ◌*◌, ◌%◌, ◌≡◌, refl, List, [], ◌∷◌, Option, none, some, min, ltb,
  if◌then◌else◌, set, get_or, replicate,
}
use zaman.Text.{Bytes}
use zaman.Text.Decimal.{ℤ, pos, negsuc}

abbrev pub ring_size : ℕ
ring_size = 512

pub record Ring : Type 0 where
  pub buf : List Bytes
  pub idx : ℕ

-- `&Ring{}`
unfoldable pub empty : Ring
empty = record { buf = replicate ring_size []; idx = 0 }

unfoldable pub push : Bytes → Ring → Ring
push rec r = record { buf = set r.buf (r.idx % ring_size) rec; idx = r.idx + 1 }

-- The loop of Recent from round `i`, with the rounds left.
pub recent_loop : ℕ → ℕ → Ring → List Bytes
recent_loop zero i r = []
recent_loop (suc left) i r =
    get_or r.buf ((r.idx - 1 - i + ring_size * 2) % ring_size) [] ∷ recent_loop left (i + 1) r

-- The rounds are cut to the records there are, and `make` panics on a negative length: `none`.
unfoldable pub recent : ℤ → Ring → Option (List Bytes)
unfolding recent_loop
recent (negsuc n) r = none
recent (pos limit) r =
    let n = if ltb ring_size r.idx then ring_size else r.idx in
    let rounds = if ltb n limit then n else limit in some (recent_loop rounds 0 r)
