-- ===== src/Qos.antt =====
-- core-go/qos.go: MOS and R-factor, the RTCP reports and the names of codecs.
pub mod Walk
use zaman.Base.{
  ℕ, zero, suc, ◌+◌, ◌-◌, ◌*◌, ◌/◌, ◌%◌, ◌≡◌, refl, Bool, true, false, ◌&&◌, ◌||◌, not, Option,
  none, some, List, [], ◌∷◌, ◌++◌, ltb, leb, ◌==◌, if◌then◌else◌, length, get_elem?, is_nil,
}
use zaman.Text.{Bytes, codes, join}
use zaman.Text.Decimal.{ℤ, pos, negsuc, geb, show, show_ℤ}

-- The floating-point numbers of Go. `decimal n k` is the constant n / 10^k, `round` and `trunc` are
-- `int(math.Round(x))` and `int(x)`, `one_place` is `%.1f`.
pub record Float64 : Type 1 where
  pub Float : Type 0
  pub decimal : ℕ → ℕ → Float
  pub of_nat : ℕ → Float
  pub plus : Float → Float → Float
  pub minus : Float → Float → Float
  pub times : Float → Float → Float
  pub over : Float → Float → Float
  pub less : Float → Float → Bool
  pub round : Float → ℤ
  pub trunc : Float → ℤ
  pub one_place : Float → Bytes

abbrev pub less_ℤ : ℤ → ℤ → Bool
less_ℤ (pos m) (pos n) = ltb m n
less_ℤ (pos m) (negsuc n) = false
less_ℤ (negsuc m) (pos n) = true
less_ℤ (negsuc m) (negsuc n) = ltb n m

-- A slice that is read out of range ends the program: `none`.
abbrev pub byte_at : Bytes → ℕ → Option ℕ
byte_at = get_elem?

infixl 5 ◌>>=◌
abbrev pub ◌>>=◌ {ℓ κ} : {A : Type ℓ} {B : Type κ} → Option A → (A → Option B) → Option B
none >>= f = none
some a >>= f = f a

-- `binary.BigEndian.Uint16(s[i:])` and `Uint32`
unfoldable pub uint16_at : Bytes → ℕ → Option ℕ
uint16_at s i = do high ← byte_at s i; low ← byte_at s (i + 1); some (high * 256 + low)

unfoldable pub uint32_at : Bytes → ℕ → Option ℕ
unfolding uint16_at
uint32_at s i = do high ← uint16_at s i; low ← uint16_at s (i + 2); some (high * 65536 + low)

-- How the loop ends.
pub data Ending {ℓ} (A : Type ℓ) : Type ℓ where
  done : A → Ending A
  panicked : Ending A
  out_of_fuel : Ending A

module _ (floats : Float64) where
  open floats use {Float, decimal, of_nat, plus, minus, times, over, less, round, trunc, one_place}

  -- `r`, between 0 and 100
  unfoldable pub r_factor : Float → Float → Float
  r_factor jitter_ms loss_pct =
      let r =
        minus (minus (decimal 930 1) (over jitter_ms (decimal 100 1)))
          (times loss_pct (decimal 25 1)) in
      if less r (of_nat 0) then of_nat 0 else if less (of_nat 100) r then of_nat 100 else r

  unfoldable pub mos_from_jitter_loss : Float → Float → ℤ
  unfolding r_factor
  mos_from_jitter_loss jitter_ms loss_pct =
      let r = r_factor jitter_ms loss_pct in
      let curve =
        times (times (times r (minus r (of_nat 60))) (minus (of_nat 100) r)) (decimal 7 6) in
      let mos =
        if less r (decimal 65 1)
        then decimal 10 1
        else if less (of_nat 100) r
        then decimal 45 1
        else plus (plus (decimal 10 1) (times (decimal 35 3) r)) curve in
      round (times mos (of_nat 10))

  unfoldable pub r_factor_from_jitter_loss : Float → Float → ℤ
  unfolding r_factor
  r_factor_from_jitter_loss jitter_ms loss_pct = trunc (r_factor jitter_ms loss_pct)

  -- The variables of the walk.
  pub record Worst : Type 0 where
    pub worst_mos : ℤ
    pub max_jitter : Float
    pub max_loss : Float
    pub blocks : List Bytes

  abbrev pub no_blocks : Worst
  no_blocks = record { worst_mos = pos 50; max_jitter = of_nat 0; max_loss = of_nat 0; blocks = [] }

  unfoldable pub block_text : ℕ → Float → Float → ℤ → Bytes
  block_text ssrc loss jitter_ms mos =
      codes "{\"ssrc\":"
      ++ (show ssrc
          ++ (codes ",\"fraction_lost\":"
              ++ (one_place loss
                  ++ (codes ",\"jitter_ms\":"
                      ++ (one_place jitter_ms
                          ++ (codes ",\"mos_x10\":" ++ (show_ℤ mos ++ codes "}")))))))

  -- The body of the inner loop, for the block at `start`
  unfoldable pub read_block : Bytes → ℕ → Worst → Option Worst
  unfolding uint32_at mos_from_jitter_loss block_text
  read_block payload start w = do
    fraction ← byte_at payload (start + 4)
    jitter ← uint32_at payload (start + 12)
    ssrc ← uint32_at payload start
    let loss = times (over (of_nat fraction) (decimal 2560 1)) (decimal 1000 1)
    let jitter_ms = over (of_nat jitter) (decimal 80 1)
    let mos = mos_from_jitter_loss jitter_ms loss
    some (record {
      worst_mos = if less_ℤ mos w.worst_mos then mos else w.worst_mos;
      max_jitter = if less w.max_jitter jitter_ms then jitter_ms else w.max_jitter;
      max_loss = if less w.max_loss loss then loss else w.max_loss;
      blocks = w.blocks ++ block_text ssrc loss jitter_ms mos ∷ [];
    })

  -- `for i := 0; i < rc && blockStart+24 <= len(payload); i++`
  unfoldable pub read_blocks : ℕ → Bytes → ℕ → Worst → Option Worst
  read_blocks zero payload start w = some w
  read_blocks (suc n) payload start w =
      let more = (do next ← read_block payload start w; read_blocks n payload (start + 24) next) in
      if leb (start + 24) (length payload) then more else some w

  -- What a round of the outer loop does: none to end it, and the next offset to go on.
  unfoldable pub read_packet : Bytes → ℕ → Worst → Option (Option ℕ × Worst)
  unfolding uint16_at
  read_packet payload offset w = do
    header ← byte_at payload offset
    kind ← byte_at payload (offset + 1)
    words ← uint16_at payload (offset + 2)
    let next = offset + (words * 4 + 4)
    let start = if kind == 200 then offset + 28 else offset + 8
    let reports = (do after ← read_blocks (header % 32) payload start w; some (some next, after))
    if not (header / 64 % 4 == 2)
        then some (none, w)
        else if not (kind == 200) && not (kind == 201)
        then some (some next, w)
        else reports

  -- The outer loop. A round that goes on moves the offset by four bytes or more.
  unfoldable pub walk : ℕ → Bytes → ℕ → Worst → Ending Worst
  walk zero payload offset w = out_of_fuel
  walk (suc fuel) payload offset w =
      let round_trip : Ending Worst = elim (read_packet payload offset w) [
        | none ↦ panicked
        | some (none, after) ↦ done after
        | some (some next, after) ↦ walk fuel payload next after
      ] in
      if leb (offset + 4) (length payload) then round_trip else done w

  unfoldable pub report_text : Worst → Bytes
  unfolding r_factor_from_jitter_loss
  report_text w =
      if is_nil w.blocks
      then []
      else codes "{\"jitter_ms\":"
        ++ (one_place w.max_jitter
            ++ (codes ",\"loss_pct\":"
                ++ (one_place w.max_loss
                    ++ (codes ",\"mos_x10\":"
                        ++ (show_ℤ w.worst_mos
                            ++ (codes ",\"r_factor\":"
                                ++ (show_ℤ (r_factor_from_jitter_loss w.max_jitter w.max_loss)
                                    ++ (codes ",\"blocks\":["
                                        ++ (join b',' w.blocks ++ codes "]}")))))))))

  unfoldable pub rtcp_parse_qos : Bytes → Ending Bytes
  unfolding walk report_text
  rtcp_parse_qos payload =
      if ltb (length payload) 8 then done [] else elim (walk (length payload) payload 0 no_blocks) [
        | done w ↦ done (report_text w)
        | panicked ↦ panicked
        | out_of_fuel ↦ out_of_fuel
      ]

-- rtpCodecName
unfoldable pub rtp_codec_name : ℤ → Bytes
rtp_codec_name (negsuc n) = codes "unknown"
rtp_codec_name (pos pt) =
    if pt == 0
    then codes "PCMU"
    else if pt == 3
    then codes "GSM"
    else if pt == 4
    then codes "G723"
    else if pt == 8
    then codes "PCMA"
    else if pt == 9
    then codes "G722"
    else if pt == 18
    then codes "G729"
    else if pt == 101
    then codes "telephone-event"
    else if pt == 111 || pt == 112
    then codes "opus"
    else if leb 96 pt
    then codes "dynamic"
    else codes "unknown"
