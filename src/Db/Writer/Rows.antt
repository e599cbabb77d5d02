-- ===== src/Db/Writer/Rows.antt =====
-- The rows that dbWriter leaves in the table captures where the server inserts everything.
use zaman.Base.{
  ℕ, ◌≤◌, ◌<◌, ◌≡◌, refl, sym, ap, ◌∙◌, true, Option, some, List, [], ◌∷◌, ◌++◌, append-nil,
  append_assoc, map-append, leb, arith, All, All-append, length, length-append, map, Bool-cases,
  inl, inr,
}
use zaman.Text.{Bytes}
use zaman.Db.CallState.{CaptureRecord}
use zaman.Db.Batch.{Capture, Outcome}
use zaman.Db.Batch.Effects.{stored}
use zaman.Db.Writer.{
  Writer, Event, received, flush_tick, batch_size, flush, handle_event, handle_events, db_writer,
}
use zaman.Db.Writer.Flush.{IsParsed, flush-stored}
use zaman.Db.Writer.Accounting.{flush-sum}

-- A row without its number.
abbrev pub Row : Type 0
Row = CaptureRecord × Bytes

abbrev pub rows_of : List Capture → List Row
rows_of = map (λ c. (c.fields, c.record_json))

-- An answer that inserts a hundred records and commits.
pub record Inserts (o : Outcome) : Type 0 where
  pub numbers : List ℕ
  pub begins : o.begins ≡ true
  pub inserted : o.ids ≡ map some numbers
  pub enough : batch_size ≤ length numbers
  pub commits : o.commits ≡ true

abbrev pub IsInserting : Event → Type 0
IsInserting (received text o) = Inserts o
IsInserting (flush_tick o) = Inserts o

module _ (unmarshal : Bytes → Option CaptureRecord) (record_of : Bytes → CaptureRecord) where
  rows_for : List Bytes → List Row
  rows_for = map (λ text. (record_of text, text))

  abbrev pub IsKnown : Event → Type 0
  IsKnown (received text o) = IsParsed unmarshal record_of text
  IsKnown (flush_tick o) = Unit

  rows_of-stored :
      (texts : List Bytes) (numbers : List ℕ)
      → length texts ≤ length numbers
      → rows_of (stored record_of texts (map some numbers)) ≡ rows_for texts
  unfolding stored rows_for
  rows_of-stored [] numbers h = refl
  rows_of-stored (text ∷ texts) [] h = absurd (omega (arith, h))
  rows_of-stored (text ∷ texts) (n ∷ numbers) h =
      ap (◌∷◌ (record_of text, text)) (rows_of-stored texts numbers (omega (arith, h)))

  -- The rows of the table and those of the batch, which are to come.
  pending : Writer → List Row
  pending w = rows_of w.tables.captures ++ rows_for w.batch

  pending-flush :
      (o : Outcome) (w : Writer)
      → Inserts o
      → All (IsParsed unmarshal record_of) w.batch
      → length w.batch ≤ batch_size
      → rows_of (flush unmarshal o w).tables.captures ≡ pending w
  unfolding pending
  pending-flush o w ok known small =
      ap rows_of
        (flush-stored unmarshal record_of o w known ∙ rw (ok.begins, ok.commits, ok.inserted) refl)
      ∙ map-append (λ c. (c.fields, c.record_json)) w.tables.captures
          (stored record_of w.batch (map some ok.numbers))
      ∙ ap (◌++◌ (rows_of w.tables.captures))
          (rows_of-stored w.batch ok.numbers (omega (arith, small, ok.enough)))

  -- What holds between two events, when `rows` were to come in all.
  record IsStoring (rows : List Row) (w : Writer) : Type 0 where
    pub all_rows : pending w ≡ rows
    pub known : All (IsParsed unmarshal record_of) w.batch
    pub below_limit : length w.batch < batch_size

  unfoldable pub rows_received : List Event → List Row
  rows_received [] = []
  rows_received (received text o ∷ es) = (record_of text, text) ∷ rows_received es
  rows_received (flush_tick o ∷ es) = rows_received es

  flush-IsStoring :
      (rows : List Row) (o : Outcome) (w : Writer)
      → Inserts o
      → All (IsParsed unmarshal record_of) w.batch
      → length w.batch ≤ batch_size
      → pending w ≡ rows
      → IsStoring rows (flush unmarshal o w)
  unfolding pending rows_for
  flush-IsStoring rows o w ok known small e =
      let empty = (flush-sum unmarshal o w).1 in
      record {
        all_rows =
            ap (λ batch. rows_of (flush unmarshal o w).tables.captures ++ rows_for batch) empty
            ∙ append-nil _
            ∙ pending-flush o w ok known small
            ∙ e;
        known = rw empty tt;
        below_limit = rw empty (omega arith);
      }

  received-pending :
      (rows : List Row) (text : Bytes) (w : Writer)
      → pending w ≡ rows
      → pending (record w { batch = w.batch ++ text ∷ [] }) ≡ rows ++ (record_of text, text) ∷ []
  unfolding pending rows_for
  received-pending rows text w e =
      ap (◌++◌ (rows_of w.tables.captures))
        (map-append (λ text. (record_of text, text)) w.batch (text ∷ []))
      ∙ sym (
          append_assoc (rows_of w.tables.captures) (rows_for w.batch) ((record_of text, text) ∷ []))
      ∙ ap (λ before. before ++ (record_of text, text) ∷ []) e

  handle_event-IsStoring :
      (rows : List Row) (e : Event) (w : Writer)
      → IsInserting e
      → IsKnown e
      → IsStoring rows w
      → IsStoring (rows ++ rows_received (e ∷ [])) (handle_event unmarshal e w)
  unfolding handle_event rows_received
  handle_event-IsStoring rows (flush_tick o) w ok known h =
      rw (append-nil rows)
        (flush-IsStoring rows o w ok h.known (omega (arith, h.below_limit)) h.all_rows)
  handle_event-IsStoring rows (received text o) w ok known h =
      let next = record w { batch = w.batch ++ text ∷ [] } in
      let grown = received-pending rows text w h.all_rows in
      let all_known =
        All-append (IsParsed unmarshal record_of) w.batch (text ∷ []) h.known (known, tt) in
      let longer = length-append w.batch (text ∷ []) in
      elim (Bool-cases (leb batch_size (length next.batch))) [
        | inl full ↦
            rw full
              (flush-IsStoring _ o next ok all_known (omega (arith, h.below_limit, longer)) grown)
        | inr room ↦
            rw room
              (record { all_rows = grown; known = all_known; below_limit = ground (arith, room) })
      ]

  rows_received-cons :
      (e : Event) (es : List Event)
      → rows_received (e ∷ es) ≡ rows_received (e ∷ []) ++ rows_received es
  unfolding rows_received
  rows_received-cons (received text o) es = refl
  rows_received-cons (flush_tick o) es = refl

  handle_events-IsStoring :
      (es : List Event) (rows : List Row) (w : Writer)
      → All IsInserting es
      → All IsKnown es
      → IsStoring rows w
      → IsStoring (rows ++ rows_received es) (handle_events unmarshal es w)
  unfolding handle_events rows_received
  handle_events-IsStoring [] rows w ok known h = rw (append-nil rows) h
  handle_events-IsStoring (e ∷ es) rows w ok known h =
      let here = rows_received (e ∷ []) in
      let one = handle_event-IsStoring rows e w ok.0 known.0 h in
      let rest =
        handle_events-IsStoring es (rows ++ here) (handle_event unmarshal e w) ok.1 known.1 one in
      rw (rows_received-cons e es, sym (append_assoc rows here (rows_received es))) rest

  -- Where the server inserts everything, and every text parses, the loop ends with the row of each
  -- text in the table, once and in the order of the texts.
  pub db_writer-rows :
      (es : List Event) (last : Outcome) (w : Writer)
      → w.batch ≡ []
      → All IsInserting es
      → All IsKnown es
      → Inserts last
      → rows_of (db_writer unmarshal es last w).tables.captures
        ≡ rows_of w.tables.captures ++ rows_received es
  unfolding db_writer pending rows_for
  db_writer-rows es last w empty ok known closing =
      let before = rows_of w.tables.captures in
      let begin : IsStoring before w = record {
        all_rows = rw empty (append-nil before);
        known = rw empty tt;
        below_limit = rw empty (omega arith);
      } in
      let run = handle_events-IsStoring es before w ok known begin in
      pending-flush last (handle_events unmarshal es w) closing run.known
        (omega (arith, run.below_limit))
      ∙ run.all_rows
