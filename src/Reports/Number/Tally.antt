-- ===== src/Reports/Number/Tally.antt =====
-- The figures of a number's report agree with the calls that it shows.
use zaman.Base.{ℕ, ◌+◌, ◌≡◌, max, Bool, List, [], ◌∷◌, ◌++◌, length, map}
use zaman.Text.{Bytes, equal}
use zaman.Db.CallState.{CallState}
use zaman.Reports.Rows.{count, is_failed}
use zaman.Reports.Number.{Counts, number_state, number_call_json}

-- Is a call shown as `state`.
abbrev pub shown : Bytes → CallState → Bool
shown state r = equal (number_state r) state

record Tallied (rows : List CallState) (c d : Counts) : Type 0 where
  calls : d.calls ≡ c.calls ++ map number_call_json rows
  total : d.total ≡ c.total + length rows
  answered : d.answered ≡ c.answered + count (λ r. r.answered) rows
  failed : d.failed ≡ c.failed + count is_failed rows

pub longest : List ℕ → ℕ
longest [] = 0
longest (d ∷ ds) = max d (longest ds)
