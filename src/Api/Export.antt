-- ===== src/Api/Export.antt =====
-- The route /api/export/csv of core-go/api.go: the text of buildMessagesJSON is parsed again, and each
-- record of it is a line.
pub mod Lines
pub mod Floats
use zaman.Base.{
  ℕ, ◌/◌, ◌+◌, ◌&&◌, ltb, ◌==◌, is_nil, length, Bool, Option, none, some, List, [], ◌∷◌, ◌++◌,
  if◌then◌else◌,
}
use zaman.Text.{Bytes, codes, equal}
use zaman.Text.Decimal.{ℤ, pos, negsuc, show}
use zaman.Text.Json.Value.{
  Json, text, number, array, object, Items, nil, cons, Members, end, member,
}
use zaman.Text.Json.Value.Read.{parse}
use zaman.Reports.{csv_field}
use zaman.Reports.Clause.{MessageFilter, limit_or}
use zaman.Api.{query_int}
use zaman.Api.Routes.{Query, Report, messages, call_only}

-- What is asked of buildMessagesJSON: 500 messages where no limit is given, and 300 where a limit is
-- not one that it takes.
unfoldable pub export_report : Query → Report
unfolding query_int limit_or
export_report q =
    messages (limit_or 5000 300 (query_int (q (codes "limit")) (pos 500)))
      (record (call_only (q (codes "call_id"))) { agent = q (codes "agent"); src = q (codes "ip") })

-- `rec[key]` of a parsed record
unfoldable pub lookup : Bytes → Members → Option Json
unfolding equal
lookup key end = none
lookup key (member k v ms) = if equal k key then some v else lookup key ms

-- The last zeros of a number's digits do not count.
unfoldable strip_zeros : Bytes → Bytes
strip_zeros [] = []
strip_zeros (d ∷ ds) =
    let rest = strip_zeros ds in if d == b'0' && is_nil rest then [] else d ∷ rest

unfoldable point : Bytes → Bytes
point [] = []
point (d ∷ ds) = b'.' ∷ d ∷ ds

unfoldable two_digits : ℕ → Bytes
unfolding show
two_digits n = if ltb n 10 then b'0' ∷ show n else show n

unfoldable exponent_text : Bytes → Bytes
unfolding point strip_zeros two_digits
exponent_text [] = []
exponent_text (d ∷ ds) = d ∷ (point (strip_zeros ds) ++ b'e' ∷ b'+' ∷ two_digits (length ds))

-- `%v` of the float64 that a whole number of a JSON text is read as, for a number that a float64
-- holds exactly (below 2^53): from a million on it is written with an exponent.
unfoldable whole_text : ℕ → Bytes
unfolding show exponent_text
whole_text n = if ltb n 1000000 then show n else exponent_text (show n)

unfoldable pub float_text : ℤ → Bytes
unfolding whole_text
float_text (pos n) = whole_text n
float_text (negsuc n) = b'-' ∷ whole_text (n + 1)

-- `%v` of a text or a number, as the records have them: a number of a parsed record is a float64.
unfoldable pub value_text : Option Json → Bytes
unfolding float_text
value_text (some (text s)) = s
value_text (some (number n)) = float_text n
value_text _ = codes "<nil>"

-- The time of a record, where it is a number; times are not negative. `format` is
-- `time.Unix(…).Format` on seconds.
unfoldable pub time_text : (ℕ → Bytes) → Option Json → Bytes
time_text format (some (number (pos ms))) = format (ms / 1000)
time_text format _ = []

unfoldable pub csv_line : (ℕ → Bytes) → Members → Bytes
unfolding lookup value_text time_text csv_field
csv_line format ms =
    let field : Bytes → Bytes = λ key. csv_field (value_text (lookup key ms)) in
    time_text format (lookup (codes "ts_ms") ms)
    ++ b','
      ∷ (field (codes "method")
          ++ b','
            ∷ (value_text (lookup (codes "status") ms)
                ++ b','
                  ∷ (field (codes "call_id")
                      ++ b','
                        ∷ (field (codes "src")
                            ++ b','
                              ∷ (field (codes "dst")
                                  ++ b','
                                    ∷ (field (codes "agent")
                                        ++ b',' ∷ (field (codes "transport") ++ codes "\n")))))))

-- The lines of the records; a value that is no record leaves them as far as they are read.
unfoldable pub csv_lines : (ℕ → Bytes) → Items → Bytes
unfolding csv_line
csv_lines format nil = []
csv_lines format (cons (object ms) xs) = csv_line format ms ++ csv_lines format xs
csv_lines format (cons _ xs) = csv_lines format xs

abbrev pub csv_head : Bytes
csv_head = codes "timestamp,method,status,call_id,src,dst,agent,transport\n"

abbrev pub records_of : Option Json → Items
records_of (some (array xs)) = xs
records_of _ = nil

-- The body of the answer, for the text that buildMessagesJSON returns.
unfoldable pub export_csv : (ℕ → Bytes) → Bytes → Bytes
unfolding parse csv_lines
export_csv format msgs = csv_head ++ csv_lines format (records_of (parse msgs))
