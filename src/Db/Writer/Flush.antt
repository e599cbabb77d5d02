-- ===== src/Db/Writer/Flush.antt =====
-- What a flush of dbWriter stores in the table captures.
use zaman.Base.{
  ℕ, ◌≡◌, refl, ap, ◌&&◌, Option, some, List, [], ◌∷◌, ◌++◌, append-nil, if◌then◌else◌, arith,
  is_nil_lem, All,
}
use zaman.Text.{Bytes}
use zaman.Db.CallState.{CaptureRecord}
use zaman.Db.Batch.{Outcome}
use zaman.Db.Batch.Effects.{stored, map_records, captures-db_batch_insert}
use zaman.Db.Writer.{Writer, parse_batch, flush}

abbrev pub IsParsed : (Bytes → Option CaptureRecord) → (Bytes → CaptureRecord) → Bytes → Type 0
IsParsed unmarshal record_of text = unmarshal text ≡ some (record_of text)

parse_batch-map_records :
    (unmarshal : Bytes → Option CaptureRecord) (record_of : Bytes → CaptureRecord)
    (batch : List Bytes)
    → All (IsParsed unmarshal record_of) batch
    → parse_batch unmarshal batch ≡ (map_records record_of batch, 0)
unfolding parse_batch map_records
parse_batch-map_records unmarshal record_of [] h = refl
parse_batch-map_records unmarshal record_of (text ∷ batch) h =
    ground (arith, h.0, parse_batch-map_records unmarshal record_of batch h.1)

stored-nil :
    (record_of : Bytes → CaptureRecord) (ids : List (Option ℕ)) → stored record_of [] ids ≡ []
unfolding stored
stored-nil record_of ids = refl

-- When every text of the batch parses, a flush that commits adds to captures the record of each text
-- that was inserted, in the batch's order and beside that very text; a flush that fails adds nothing.
pub flush-stored :
    (unmarshal : Bytes → Option CaptureRecord) (record_of : Bytes → CaptureRecord) (o : Outcome)
    (w : Writer)
    → All (IsParsed unmarshal record_of) w.batch
    → (flush unmarshal o w).tables.captures ≡ (
        if o.begins && o.commits
        then w.tables.captures ++ stored record_of w.batch o.ids
        else w.tables.captures)
unfolding flush stored
flush-stored unmarshal record_of o w h = ground (
  arith,
  is_nil_lem w.batch,
  append-nil w.tables.captures,
  stored-nil record_of o.ids,
  ap (λ batch. stored record_of batch o.ids) {x = w.batch} {y = []},
  captures-db_batch_insert record_of o w.batch w.tables,
  parse_batch-map_records unmarshal record_of w.batch h,
)
