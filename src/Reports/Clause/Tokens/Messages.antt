-- ===== src/Reports/Clause/Tokens/Messages.antt =====
-- The clause for messages, of buildMessagesJSON.
use zaman.Base.{
  ℕ, ◌≡◌, ◌≢◌, refl, some, List, [], ◌∷◌, ◌++◌, ltb, ◌==◌, if◌then◌else◌, append_assoc, arith,
  Bool-cases, inl, inr, is_nil, length, All-append,
}
use zaman.Text.{Bytes, codes}
use zaman.Reports.{double, sql_quote, like_or_regex}
use zaman.Reports.Quoted.{double-append, pattern_of, like_or_regex-quoted_text, percent_quote}
use zaman.Reports.Clause.{MessageFilter, call_id_clause, src_clause, status_clause, messages_where}
use zaman.Reports.Clause.Tokens.{
  Token, literal, outside, lex, chars, NoQuote, Reads, Reads-nil, Reads-append, Reads-chars,
  Reads-literal, Reads-when_set, lex-Reads,
}
use zaman.Reports.Clause.Tokens.Calls.{equals_tokens, set_tokens, equals-Reads, Reads-if}

double_same : (s : Bytes) → NoQuote s → double b'\'' s ≡ s
unfolding double
double_same [] h = refl
double_same (c ∷ s) (first, rest) = ground (arith, first, double_same s rest)

abbrev pub call_id_tokens : Bytes → List Token
call_id_tokens [] = []
call_id_tokens (c ∷ value) =
    if c == b'/'
    then chars (codes " AND call_id ~ ") ++ literal value ∷ []
    else equals_tokens (codes "call_id") (c ∷ value)

-- The same literal in two comparisons.
abbrev pub two_tokens : Bytes → Bytes → Bytes → List Token
two_tokens one other v =
    (chars one ++ literal v ∷ []) ++ ((chars other ++ literal v ∷ []) ++ chars (codes ")"))

abbrev pub src_tokens : Bytes → List Token
src_tokens [] = []
src_tokens (c ∷ value) =
    if c == b'/'
    then two_tokens (codes " AND (src ~ ") (codes " OR dst ~ ") value
    else two_tokens (codes " AND (src LIKE ") (codes " OR dst LIKE ")
        (b'%' ∷ (c ∷ value ++ codes "%"))

abbrev pub operator_text : Bytes → Bytes
operator_text [] = codes " LIKE "
operator_text (c ∷ value) = if c == b'/' then codes " ~ " else codes " LIKE "

abbrev pub like_or_regex_tokens : Bytes → Bytes → List Token
like_or_regex_tokens col v =
    chars (codes " AND " ++ (col ++ operator_text v)) ++ literal (pattern_of v) ∷ []

-- A status of three bytes or more stands outside of any literal.
abbrev pub status_tokens : Bytes → List Token
status_tokens status =
    if is_nil status
    then []
    else if ltb (length status) 3
    then chars (codes " AND CAST(status AS TEXT) LIKE ") ++ literal (status ++ codes "%") ∷ []
    else chars (codes " AND status=" ++ status)

abbrev pub messages_tokens : MessageFilter → List Token
messages_tokens f =
    chars (codes "1=1")
    ++ (call_id_tokens f.call_id
        ++ (set_tokens f.transport (equals_tokens (codes "transport") f.transport)
            ++ (set_tokens f.agent (equals_tokens (codes "agent") f.agent)
                ++ (set_tokens f.method (equals_tokens (codes "method") f.method)
                    ++ (src_tokens f.src
                        ++ (set_tokens f.from (like_or_regex_tokens (codes "from_h") f.from)
                            ++ (set_tokens f.to (like_or_regex_tokens (codes "to_h") f.to)
                                ++ (status_tokens f.status
                                    ++ (set_tokens f.since_ms
                                          (chars (codes " AND ts_ms >= " ++ f.since_ms))
                                        ++ set_tokens f.until_ms
                                            (chars (codes " AND ts_ms <= " ++ f.until_ms)))))))))))

call_id_clause-Reads : (v : Bytes) → Reads (call_id_clause v) (call_id_tokens v)
unfolding call_id_clause sql_quote
call_id_clause-Reads [] = Reads-nil
call_id_clause-Reads (c ∷ v) =
    Reads-if (c == b'/') (Reads-literal _ _ v (omega arith))
      (equals-Reads (codes "call_id") (c ∷ v) (omega arith))

Reads-eq : {s t : Bytes} {ts : List Token} → s ≡ t → Reads t ts → Reads s ts
Reads-eq e h = rw e h

src_regex-Reads :
    (v : Bytes)
    → Reads
        (codes " AND (src ~ '"
          ++ (sql_quote v ++ (codes "' OR dst ~ '" ++ (sql_quote v ++ codes "')"))))
        (two_tokens (codes " AND (src ~ ") (codes " OR dst ~ ") v)
unfolding sql_quote
src_regex-Reads v = Reads-eq (simp append_assoc) (
    Reads-append (Reads-literal b' ' (codes "AND (src ~ ") v (omega arith)) (
      Reads-append (Reads-literal b' ' (codes "OR dst ~ ") v (omega arith))
        (Reads-chars _ _ (omega arith))))

src_like-Reads :
    (v : Bytes)
    → Reads
        (codes " AND (src LIKE '%"
          ++ (sql_quote v ++ (codes "%' OR dst LIKE '%" ++ (sql_quote v ++ codes "%')"))))
        (two_tokens (codes " AND (src LIKE ") (codes " OR dst LIKE ") (b'%' ∷ (v ++ codes "%")))
unfolding sql_quote
src_like-Reads v =
    let pattern = b'%' ∷ (v ++ codes "%") in
    Reads-eq (simp (double-append, append_assoc)) (
      Reads-append (Reads-literal b' ' (codes "AND (src LIKE ") pattern (omega arith)) (
        Reads-append (Reads-literal b' ' (codes "OR dst LIKE ") pattern (omega arith))
          (Reads-chars _ _ (omega arith))))

src_clause-Reads : (v : Bytes) → Reads (src_clause v) (src_tokens v)
unfolding src_clause
src_clause-Reads [] = Reads-nil
src_clause-Reads (c ∷ v) = Reads-if (c == b'/') (src_regex-Reads v) (src_like-Reads (c ∷ v))

module _ (col : Bytes) (plain : NoQuote (codes " AND " ++ (col ++ codes " LIKE ")))
    (regex : NoQuote (codes " AND " ++ (col ++ codes " ~ "))) where
  like_or_regex-Reads : (v : Bytes) → Reads (like_or_regex col v) (like_or_regex_tokens col v)
  like_or_regex-Reads [] =
      rw
        (
          like_or_regex-quoted_text col [],
          ← append_assoc col (codes " LIKE ") (b'\'' ∷ (double b'\'' (codes "%%") ++ codes "'")),
        )
        (Reads-literal _ _ (codes "%%") plain)
  like_or_regex-Reads (c ∷ v) =
      let pattern = b'%' ∷ (c ∷ v ++ codes "%") in
      elim (Bool-cases (c == b'/')) [
        | inl e ↦
            rw
              (
                like_or_regex-quoted_text col (c ∷ v),
                e,
                ← append_assoc col (codes " ~ ") (b'\'' ∷ (double b'\'' v ++ codes "'")),
              )
              (Reads-literal _ _ v regex)
        | inr e ↦
            rw
              (
                like_or_regex-quoted_text col (c ∷ v),
                e,
                ← append_assoc col (codes " LIKE ") (b'\'' ∷ (double b'\'' pattern ++ codes "'")),
              )
              (Reads-literal _ _ pattern plain)
      ]

status_like-Reads :
    (v : Bytes)
    → Reads
        (codes " AND CAST(status AS TEXT) LIKE '" ++ (sql_quote v ++ codes "%'"))
        (chars (codes " AND CAST(status AS TEXT) LIKE ") ++ literal (v ++ codes "%") ∷ [])
unfolding sql_quote
status_like-Reads v =
    rw (percent_quote v)
      (Reads-literal b' ' (codes "AND CAST(status AS TEXT) LIKE ") _ (omega arith))

-- A value without quotes, put behind fixed text as it is.
chars_quote-Reads :
    (c : ℕ) (s v : Bytes)
    → NoQuote v
    → NoQuote (c ∷ s)
    → Reads ((c ∷ s) ++ sql_quote v) (chars ((c ∷ s) ++ v))
unfolding sql_quote
chars_quote-Reads c s v h k =
    rw (double_same v h) (Reads-chars c (s ++ v) (k.0, All-append (λ d. d ≢ b'\'') s v k.1 h))

status_clause-Reads : (v : Bytes) → NoQuote v → Reads (status_clause v) (status_tokens v)
unfolding status_clause
status_clause-Reads [] h = Reads-nil
status_clause-Reads (c ∷ v) h =
    Reads-if (ltb (length (c ∷ v)) 3) (status_like-Reads (c ∷ v))
      (chars_quote-Reads b' ' (codes "AND status=") (c ∷ v) h (omega arith))

-- The condition on the messages that are listed holds the value of each filter as one literal, but for
-- a status of three bytes or more and for the two times: these, where they have no quote in them,
-- stand in the condition as SQL of their own, whatever they say.
pub messages_where-lex :
    (f : MessageFilter)
    → NoQuote f.status
    → NoQuote f.since_ms
    → NoQuote f.until_ms
    → lex outside (messages_where f) ≡ some (messages_tokens f)
unfolding messages_where
messages_where-lex f status since until = lex-Reads (messages_where f) (messages_tokens f) (
    Reads-append (Reads-chars _ _ (omega arith)) (
      Reads-append (call_id_clause-Reads f.call_id) (
        Reads-append
          (Reads-when_set f.transport (equals-Reads (codes "transport") f.transport (omega arith)))
          (Reads-append
            (Reads-when_set f.agent (equals-Reads (codes "agent") f.agent (omega arith)))
            (Reads-append
              (Reads-when_set f.method (equals-Reads (codes "method") f.method (omega arith)))
              (Reads-append (src_clause-Reads f.src) (
                Reads-append
                  (Reads-when_set f.from
                    (like_or_regex-Reads (codes "from_h") (omega arith) (omega arith) f.from))
                  (Reads-append
                    (Reads-when_set f.to
                      (like_or_regex-Reads (codes "to_h") (omega arith) (omega arith) f.to))
                    (Reads-append (status_clause-Reads f.status status) (
                      Reads-append
                        (Reads-when_set f.since_ms (
                          chars_quote-Reads b' ' (codes "AND ts_ms >= ") f.since_ms since
                            (omega arith)))
                        (Reads-when_set f.until_ms (
                          chars_quote-Reads b' ' (codes "AND ts_ms <= ") f.until_ms until
                            (omega arith)))))))))))))
