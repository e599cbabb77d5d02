-- ===== src/Reports/Realtime/Consistent.antt =====
-- The figures of buildRealtimeJSON fit together.
use zaman.Base.{
  ℕ, [], ◌∷◌, ap, if◌then◌else◌, ◌+◌, ◌≤◌, ◌≡◌, refl, Bool, true, List, length, arith, ◌&&◌,
}
use zaman.Text.{Bytes}
use zaman.Text.Decimal.{ℤ, pos, negsuc, geb, ltb_ℤ}
use zaman.Core.Config.{Config}
use zaman.Db.CallState.{CaptureRecord, CallState}
use zaman.Reports.Rows.{count, is_failed, is_finished, percent, percent-le, filter_rows, count_mono}
use zaman.Reports.Realtime.{is_active, in_class, Figures, figures, realtime}

is_active-open :
    (cfg : Config) (now : ℕ) (r : CallState) → is_active cfg now r ≡ true → r.is_open ≡ true
unfolding is_active
is_active-open cfg now r h = ground (arith, h)

-- What the figures of any window say together.
pub record Fits (f : Figures) : Type 0 where
  pub ner : f.ner ≡ f.asr
  pub asr : f.asr ≤ 100
  pub err_rate : f.err_rate ≤ 100
  pub stale : f.stale_open + f.active_calls ≡ f.open_dialogs
  pub classes : f.resp_2xx + f.resp_4xx + f.resp_5xx ≤ f.total
  pub finished : f.acd_calls ≤ f.answered

length-filter_rows {ℓ} :
    {A : Type ℓ} (p : A → Bool) (xs : List A) → length (filter_rows p xs) ≡ count p xs
unfolding filter_rows count
length-filter_rows p [] = refl
length-filter_rows p (x ∷ xs) = ground (arith, length-filter_rows p xs)

abbrev one_if : Bool → ℕ
one_if b = if b then 1 else 0

class_of_status :
    (s : ℤ)
    → one_if (geb s 200 && ltb_ℤ s 300) + one_if (geb s 400 && ltb_ℤ s 500) + one_if (geb s 500) ≤ 1
class_of_status (pos n) = ground arith
class_of_status (negsuc n) = omega arith

-- The three classes of answers exclude one another.
classes-le :
    (captures : List CaptureRecord)
    → count (in_class 200 300) captures
        + count (in_class 400 500) captures
        + count (λ r. geb r.status 500) captures
      ≤ length captures
unfolding count
classes-le [] = omega arith
classes-le (r ∷ rs) = ground (arith, class_of_status r.status, classes-le rs)

figures-Fits :
    (cfg : Config) (now : ℕ) (captures : List CaptureRecord) (calls window : List CallState)
    → Fits (figures cfg now captures calls window)
unfolding figures
figures-Fits cfg now captures calls window =
    let answered = count (λ r. r.answered) window in
    let failed = count is_failed window in
    record {
      ner = ap (λ n. percent n (answered + failed)) (omega arith);
      asr = percent-le _ _ (omega arith);
      err_rate = percent-le _ _ (omega arith);
      stale =
          omega
            (arith, count_mono (is_active cfg now) (λ r. r.is_open) (is_active-open cfg now) calls);
      classes = classes-le captures;
      finished = omega (
        arith,
        length-filter_rows is_finished window,
        count_mono is_finished (λ r. r.answered) (λ r h. ground (arith, h)) window,
      );
    }

-- Whatever the tables hold, the figures of a window fit together: ASR and error rate are percentages,
-- and NER is always the ASR; each open dialogue is either active or stale; the responses counted by
-- class are no more than the messages; and the calls with a talk time are answered ones.
pub realtime-Fits :
    (cfg : Config) (now : ℕ) (window_min : ℤ) (agent : Bytes) (captures : List CaptureRecord)
    (calls : List CallState)
    → Fits (realtime cfg now window_min agent captures calls)
unfolding realtime
realtime-Fits cfg now window_min agent captures calls = figures-Fits cfg now _ _ _
