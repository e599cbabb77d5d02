-- ===== src/Core/State.antt =====
-- The state that the workers of core-go share, and the queue in front of the database writer.
use zaman.Base.{ℕ, ◌+◌, ◌/◌, List, [], ◌∷◌, ◌++◌, ltb, if◌then◌else◌, length}
use zaman.Text.{Bytes}
use zaman.Text.Decimal.{show}
use zaman.Core.Metrics.{Metrics}
use zaman.Core.Ring.{Ring}

-- What a worker reaches: the metrics, the ring, and the queue in front of the database writer.
pub record State : Type 0 where
  pub metrics : Metrics
  pub ring : Ring
  pub db_ch : List Bytes

-- `make(chan string, 4096)`
abbrev pub db_ch_capacity : ℕ
db_ch_capacity = 4096

-- `select { case dbCh <- rec: default: metrics.Inc(&metrics.DBDrop, 1) }`
unfoldable pub queue : Bytes → State → State
queue rec s =
    if ltb (length s.db_ch) db_ch_capacity
    then record s { db_ch = s.db_ch ++ rec ∷ [] }
    else record s { metrics = record s.metrics { db_drop = s.metrics.db_drop + 1 } }

-- dayKey
unfoldable pub day_key : ℕ → Bytes
unfolding show
day_key ts_ms = show (ts_ms / 86400000)
