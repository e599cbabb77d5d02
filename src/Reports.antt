-- ===== src/Reports.antt =====
-- The text that the reports put into SQL and CSV: sqlQuote of core-go/db.go, likeOrRegex and csvField
-- of core-go/reports.go.
pub mod Quoted
pub mod Clause
pub mod Rows
pub mod Realtime
pub mod Number
pub mod Calls
pub mod Agents
pub mod Trends
pub mod Grouped
pub mod Messages
pub mod Anomalies
pub mod Templates
use zaman.Base.{
  ℕ, Bool, true, false, ◌||◌, Option, none, some, List, [], ◌∷◌, ◌++◌, ◌==◌, if◌then◌else◌,
}
use zaman.Text.{Bytes, codes}

-- `strings.ReplaceAll(s, q, q+q)` for one byte q
unfoldable pub double : ℕ → Bytes → Bytes
double q [] = []
double q (c ∷ s) = let rest = double q s in if c == q then q ∷ q ∷ rest else c ∷ rest

unfoldable pub sql_quote : Bytes → Bytes
unfolding double
sql_quote s = double b'\'' s

-- ` AND col ~ 'value'` for a value that starts with `/`, and ` AND col LIKE '%value%'` for others.
unfoldable pub like_or_regex : Bytes → Bytes → Bytes
unfolding sql_quote
like_or_regex col [] = codes " AND " ++ (col ++ codes " LIKE '%%'")
like_or_regex col (c ∷ value) =
    if c == b'/'
    then codes " AND " ++ (col ++ (codes " ~ '" ++ (sql_quote value ++ codes "'")))
    else codes " AND " ++ (col ++ (codes " LIKE '%" ++ (sql_quote (c ∷ value) ++ codes "%'")))

-- `strings.ContainsAny(s, ",\"\n")`
unfoldable pub needs_quotes : Bytes → Bool
needs_quotes [] = false
needs_quotes (c ∷ s) = c == b',' || c == b'"' || c == b'\n' || needs_quotes s

-- csvField, on the text of the value
unfoldable pub csv_field : Bytes → Bytes
unfolding needs_quotes double
csv_field s = if needs_quotes s then b'"' ∷ (double b'"' s ++ b'"' ∷ []) else s
