-- ===== src/Reports/Clause/Tokens/Calls.antt =====
-- The clauses for calls, of buildActiveCallsJSON and buildTopCallsJSON.
use zaman.Base.{
  ◌≡◌, true, false, some, List, [], ◌∷◌, ◌++◌, if◌then◌else◌, append_assoc, arith, Bool, is_nil,
  ◌||◌,
}
use zaman.Text.{Bytes, codes, equal}
use zaman.Reports.{double, sql_quote}
use zaman.Reports.Quoted.{percent_quote}
use zaman.Reports.Clause.{equals, like, CallFilter, state_clause, calls_where}
use zaman.Reports.Clause.Tokens.{
  Token, literal, outside, lex, chars, NoQuote, Reads, Reads-nil, Reads-append, Reads-chars,
  Reads-literal, Reads-when_set, lex-Reads,
}

-- What each clause is to be: fixed text, and the value in one literal.
abbrev pub equals_tokens : Bytes → Bytes → List Token
equals_tokens col v = chars (codes " AND " ++ (col ++ codes "=")) ++ literal v ∷ []

abbrev pub like_tokens : Bytes → Bytes → List Token
like_tokens col v =
    chars (codes " AND " ++ (col ++ codes " LIKE ")) ++ literal (b'%' ∷ (v ++ codes "%")) ∷ []

module _ (col : Bytes) (v : Bytes) where
  pub equals-Reads :
      NoQuote (codes " AND " ++ (col ++ codes "=")) → Reads (equals col v) (equals_tokens col v)
  unfolding equals sql_quote
  equals-Reads h =
      let text = b'\'' ∷ (double b'\'' v ++ codes "'") in
      rw (← append_assoc col (codes "=") text) (Reads-literal _ _ v h)

  pub like-Reads :
      NoQuote (codes " AND " ++ (col ++ codes " LIKE ")) → Reads (like col v) (like_tokens col v)
  unfolding like sql_quote
  like-Reads h =
      let pattern = b'%' ∷ (v ++ codes "%") in
      rw
        (
          percent_quote v,
          ← append_assoc col (codes " LIKE ") (b'\'' ∷ (double b'\'' pattern ++ codes "'")),
        )
        (Reads-literal _ _ pattern h)

abbrev pub set_tokens : Bytes → List Token → List Token
set_tokens value ts = if is_nil value then [] else ts

abbrev pub state_tokens : Bytes → List Token
state_tokens state =
    if equal state (codes "open") || equal state (codes "ringing")
    then chars (codes " AND open=1 AND answered=0")
    else if equal state (codes "answered") || equal state (codes "active")
    then chars (codes " AND open=1 AND answered=1")
    else if equal state (codes "ended")
    then chars (codes " AND open=0")
    else if equal state (codes "failed")
    then chars (codes " AND open=0 AND answered=0 AND last_status >= 400")
    else if equal state (codes "canceled")
    then chars (codes " AND open=0 AND last_method LIKE ") ++ literal (codes "%CANCEL%") ∷ []
    else []

pub Reads-if :
    {s t : Bytes} {ts us : List Token} (b : Bool)
    → Reads s ts
    → Reads t us
    → Reads (if b then s else t) (if b then ts else us)
Reads-if true h k = h
Reads-if false h k = k

state_clause-Reads : (state : Bytes) → Reads (state_clause state) (state_tokens state)
unfolding state_clause double
state_clause-Reads state =
    Reads-if (equal state (codes "open") || equal state (codes "ringing"))
      (Reads-chars _ _ (omega arith))
      (Reads-if (equal state (codes "answered") || equal state (codes "active"))
        (Reads-chars _ _ (omega arith))
        (Reads-if (equal state (codes "ended")) (Reads-chars _ _ (omega arith)) (
          Reads-if (equal state (codes "failed")) (Reads-chars _ _ (omega arith)) (
            Reads-if (equal state (codes "canceled"))
              (Reads-literal b' ' (codes "AND open=0 AND last_method LIKE ") (codes "%CANCEL%")
                (omega arith))
              Reads-nil))))

abbrev pub calls_tokens : CallFilter → List Token
calls_tokens f =
    chars (codes "1=1")
    ++ (set_tokens f.agent (equals_tokens (codes "agent") f.agent)
        ++ (set_tokens f.src (like_tokens (codes "src") f.src)
            ++ (set_tokens f.dst (like_tokens (codes "dst") f.dst)
                ++ (set_tokens f.from (like_tokens (codes "from_h") f.from)
                    ++ (set_tokens f.to (like_tokens (codes "to_h") f.to)
                        ++ state_tokens f.state)))))

-- The condition on the calls that are listed is read by PostgreSQL as the fixed text, with the value of
-- each filter that is set as one literal: no value, whatever its characters, adds anything to the
-- condition, and none of them is changed on the way.
pub calls_where-lex : (f : CallFilter) → lex outside (calls_where f) ≡ some (calls_tokens f)
unfolding calls_where
calls_where-lex f = lex-Reads (calls_where f) (calls_tokens f) (
    Reads-append (Reads-chars _ _ (omega arith)) (
      Reads-append (Reads-when_set f.agent (equals-Reads (codes "agent") f.agent (omega arith))) (
        Reads-append (Reads-when_set f.src (like-Reads (codes "src") f.src (omega arith))) (
          Reads-append (Reads-when_set f.dst (like-Reads (codes "dst") f.dst (omega arith))) (
            Reads-append (Reads-when_set f.from (like-Reads (codes "from_h") f.from (omega arith)))
              (Reads-append (Reads-when_set f.to (like-Reads (codes "to_h") f.to (omega arith)))
                (state_clause-Reads f.state)))))))
