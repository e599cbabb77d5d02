-- ===== src/Reports/Clause.antt =====
-- The WHERE clauses and limits of core-go/reports.go: buildActiveCallsJSON, buildTopCallsJSON and
-- buildMessagesJSON.
pub mod Tokens
use zaman.Base.{
  ℕ, Bool, true, false, ◌||◌, not, [], ◌∷◌, ◌++◌, ltb, leb, ◌==◌, if◌then◌else◌, length, is_nil,
  ◌≡◌, refl,
}
use zaman.Text.{Bytes, codes, equal, has_prefix}
use zaman.Text.Decimal.{ℤ, pos, negsuc, is_pos, ltb_ℤ}
use zaman.Reports.{sql_quote, like_or_regex}

-- ` AND col='value'`
unfoldable pub equals : Bytes → Bytes → Bytes
unfolding sql_quote
equals col value = codes " AND " ++ (col ++ (codes "='" ++ (sql_quote value ++ codes "'")))

-- ` AND col LIKE '%value%'`
unfoldable pub like : Bytes → Bytes → Bytes
unfolding sql_quote
like col value = codes " AND " ++ (col ++ (codes " LIKE '%" ++ (sql_quote value ++ codes "%'")))

-- `if value != ""`
abbrev pub when_set : Bytes → Bytes → Bytes
when_set value clause = if is_nil value then [] else clause

pub record CallFilter : Type 0 where
  pub agent : Bytes
  pub state : Bytes
  pub src : Bytes
  pub dst : Bytes
  pub from : Bytes
  pub to : Bytes

-- `switch state`
unfoldable pub state_clause : Bytes → Bytes
unfolding equal
state_clause state =
    if equal state (codes "open") || equal state (codes "ringing")
    then codes " AND open=1 AND answered=0"
    else if equal state (codes "answered") || equal state (codes "active")
    then codes " AND open=1 AND answered=1"
    else if equal state (codes "ended")
    then codes " AND open=0"
    else if equal state (codes "failed")
    then codes " AND open=0 AND answered=0 AND last_status >= 400"
    else if equal state (codes "canceled")
    then codes " AND open=0 AND last_method LIKE '%CANCEL%'"
    else []

unfoldable pub calls_where : CallFilter → Bytes
unfolding equals like state_clause
calls_where f =
    codes "1=1"
    ++ (when_set f.agent (equals (codes "agent") f.agent)
        ++ (when_set f.src (like (codes "src") f.src)
            ++ (when_set f.dst (like (codes "dst") f.dst)
                ++ (when_set f.from (like (codes "from_h") f.from)
                    ++ (when_set f.to (like (codes "to_h") f.to) ++ state_clause f.state)))))

-- buildTopCallsJSON takes a state too, and does not look at it.
unfoldable pub top_calls_where : CallFilter → Bytes
unfolding equals like
top_calls_where f =
    codes "1=1"
    ++ (when_set f.agent (equals (codes "cs.agent") f.agent)
        ++ (when_set f.src (like (codes "cs.src") f.src)
            ++ (when_set f.dst (like (codes "cs.dst") f.dst)
                ++ (when_set f.from (like (codes "cs.from_h") f.from)
                    ++ when_set f.to (like (codes "cs.to_h") f.to)))))

pub record MessageFilter : Type 0 where
  pub call_id : Bytes
  pub transport : Bytes
  pub agent : Bytes
  pub method : Bytes
  pub src : Bytes
  pub from : Bytes
  pub to : Bytes
  pub status : Bytes
  pub since_ms : Bytes
  pub until_ms : Bytes

-- A value that starts with `/` is a regular expression.
unfoldable pub call_id_clause : Bytes → Bytes
unfolding equals sql_quote
call_id_clause [] = []
call_id_clause (c ∷ value) =
    if c == b'/'
    then codes " AND call_id ~ '" ++ (sql_quote value ++ codes "'")
    else equals (codes "call_id") (c ∷ value)

unfoldable pub src_clause : Bytes → Bytes
unfolding sql_quote
src_clause [] = []
src_clause (c ∷ value) =
    if c == b'/'
    then codes " AND (src ~ '"
      ++ (sql_quote value ++ (codes "' OR dst ~ '" ++ (sql_quote value ++ codes "')")))
    else codes " AND (src LIKE '%"
      ++ (sql_quote (c ∷ value)
          ++ (codes "%' OR dst LIKE '%" ++ (sql_quote (c ∷ value) ++ codes "%')")))

unfoldable pub status_clause : Bytes → Bytes
unfolding sql_quote
status_clause status =
    if is_nil status
    then []
    else if ltb (length status) 3
    then codes " AND CAST(status AS TEXT) LIKE '" ++ (sql_quote status ++ codes "%'")
    else codes " AND status=" ++ sql_quote status

-- The state is a parameter of the function, which it does not look at.
unfoldable pub messages_where : MessageFilter → Bytes
unfolding call_id_clause equals src_clause like_or_regex status_clause sql_quote
messages_where f =
    codes "1=1"
    ++ (call_id_clause f.call_id
        ++ (when_set f.transport (equals (codes "transport") f.transport)
            ++ (when_set f.agent (equals (codes "agent") f.agent)
                ++ (when_set f.method (equals (codes "method") f.method)
                    ++ (src_clause f.src
                        ++ (when_set f.from (like_or_regex (codes "from_h") f.from)
                            ++ (when_set f.to (like_or_regex (codes "to_h") f.to)
                                ++ (status_clause f.status
                                    ++ (when_set f.since_ms
                                          (codes " AND ts_ms >= " ++ sql_quote f.since_ms)
                                        ++ when_set f.until_ms (
                                            codes " AND ts_ms <= " ++ sql_quote f.until_ms))))))))))

-- `if limit <= 0 || limit > most { limit = usual }`
unfoldable pub limit_or : ℕ → ℕ → ℤ → ℕ
limit_or most usual (pos n) = if n == 0 || ltb most n then usual else n
limit_or most usual (negsuc n) = usual

calls_where_test :
    calls_where (record {
      agent = codes "e'";
      state = codes "ended";
      src = [];
      dst = codes "10.";
      from = [];
      to = [];
    })
    ≡ codes "1=1 AND agent='e''' AND dst LIKE '%10.%' AND open=0"
unfolding calls_where
calls_where_test = refl
