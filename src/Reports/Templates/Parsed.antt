-- ===== src/Reports/Templates/Parsed.antt =====
-- The texts of the templates are JSON, with the values of the rows.
use zaman.Base.{◌≡◌, ap, ◌∙◌, some, [], ◌∷◌, ◌++◌, append_assoc, arith}
use zaman.Text.{Bytes}
use zaman.Text.Decimal.{ℤ}
use zaman.Text.Json.{jesc}
use zaman.Text.Json.Value.{print, clean}
use zaman.Text.Json.Value.Read.{parse}
use zaman.Text.Json.Value.Printed.{parse-print}
use zaman.Db.CallState.{CallState}
use zaman.Db.Batch.{Capture}
use zaman.Reports.Calls.{call_json, call_state_name, message_count}
use zaman.Reports.Number.{number_call_json, number_state}
use zaman.Reports.Messages.{message_json}
use zaman.Reports.Realtime.{Figures, realtime_json}
use zaman.Core.Config.{Config}
use zaman.Reports.Templates.{
  realtime_text, sprintf, shown, call_text, number_call_text, message_text,
}

number_state-plain : (r : CallState) → jesc (number_state r) ≡ number_state r
unfolding number_state jesc
number_state-plain r = ground arith

call_state_name-plain : (r : CallState) → jesc (call_state_name r) ≡ call_state_name r
unfolding call_state_name jesc
call_state_name-plain r = ground arith

quoted_more : (s rest : Bytes) → (s ++ b'"' ∷ []) ++ rest ≡ s ++ b'"' ∷ rest
quoted_more s rest = append_assoc s (b'"' ∷ []) rest

message_text-print : (c : Capture) → message_text c ≡ print (message_json c)
unfolding message_text sprintf shown print message_json jesc
message_text-print c = simp quoted_more

number_call_text-print : (r : CallState) → number_call_text r ≡ print (number_call_json r)
unfolding number_call_text sprintf shown print number_call_json jesc number_state
number_call_text-print r = simp (quoted_more, number_state-plain r)

call_text-print : (r : CallState) → call_text r ≡ print (call_json r)
unfolding call_text sprintf shown print call_json jesc call_state_name message_count
call_text-print r = simp (quoted_more, call_state_name-plain r)

realtime_text-print :
    (cfg : Config) (window_min : ℤ) (agent : Bytes) (f : Figures)
    → realtime_text cfg window_min agent f ≡ print (realtime_json cfg window_min agent f)
unfolding realtime_text sprintf shown print realtime_json jesc
realtime_text-print cfg window_min agent f = simp quoted_more

-- The texts that the reports make by their templates of a call, of a call of a number, of a message and
-- of the realtime figures are JSON, whatever quotes, backslashes and control characters the values
-- have: a reader finds the object of the names and values of the report, in their order, with its texts
-- as UTF-8.
pub rows-parse :
    (r : CallState) (c : Capture) (cfg : Config) (window_min : ℤ) (agent : Bytes) (f : Figures)
    → (parse (call_text r) ≡ some (clean (call_json r)))
      × (parse (number_call_text r) ≡ some (clean (number_call_json r)))
      × (parse (message_text c) ≡ some (clean (message_json c)))
      × (parse (realtime_text cfg window_min agent f)
          ≡ some (clean (realtime_json cfg window_min agent f)))
rows-parse r c cfg window_min agent f = (
  ap parse (call_text-print r) ∙ parse-print (call_json r),
  ap parse (number_call_text-print r) ∙ parse-print (number_call_json r),
  ap parse (message_text-print c) ∙ parse-print (message_json c),
  ap parse (realtime_text-print cfg window_min agent f)
      ∙ parse-print (realtime_json cfg window_min agent f),
)
