-- ===== src/Db/Batch/Effects.antt =====
-- What a batch of dbBatchInsert leaves in the tables captures and call_state.
use zaman.Base.{
  ℕ, suc, ◌≡◌, ◌&&◌, refl, sym, ap, ◌∙◌, Option, none, some, List, [], ◌∷◌, ◌++◌, append-nil,
  append_assoc, if◌then◌else◌, arith, is_nil, length, length-append, get_elem?,
}
use zaman.Text.{Bytes}
use zaman.Db.CallState.{CaptureRecord, CallEvent, event_of}
use zaman.Db.CallState.History.{upserts}
use zaman.Db.Batch.{
  Capture, Tables, Outcome, track_call, raw_at, count_daily, insert_loop, db_batch_insert,
}

-- The upserts of the records that got a number and have a Call-ID.
pub events_of : List CaptureRecord → List (Option ℕ) → List CallEvent
events_of (rec ∷ recs) (some id ∷ ids) =
    let rest = events_of recs ids in if is_nil rec.call_id then rest else event_of rec id ∷ rest
events_of (rec ∷ recs) (none ∷ ids) = events_of recs ids
events_of _ _ = []

call_state-insert_loop :
    (recs : List CaptureRecord) (i : ℕ) (raw_jsons : List Bytes) (ids : List (Option ℕ))
    (t : Tables) (counts : List (Bytes × ℕ))
    → (insert_loop recs i raw_jsons ids (t, counts)).0.call_state
      ≡ upserts (events_of recs ids) t.call_state
unfolding insert_loop events_of upserts track_call
call_state-insert_loop (rec ∷ recs) i raw_jsons (some id ∷ ids) t counts = ground (
  arith,
  call_state-insert_loop recs (suc i) raw_jsons ids
      (record t {
        captures =
            t.captures ++ record { id = id; fields = rec; record_json = raw_at i raw_jsons } ∷ [];
        call_state = track_call rec id t.call_state;
      })
      (count_daily rec counts),
)
call_state-insert_loop (rec ∷ recs) i raw_jsons (none ∷ ids) t counts =
    call_state-insert_loop recs (suc i) raw_jsons ids t counts
call_state-insert_loop [] i raw_jsons ids t counts = refl
call_state-insert_loop (rec ∷ recs) i raw_jsons [] t counts = refl

-- A committed batch writes call_state as the statements of its records do one after the other, for
-- the records that were inserted and have a Call-ID; a batch that fails leaves it.
pub call_state-db_batch_insert :
    (o : Outcome) (recs : List CaptureRecord) (raw_jsons : List Bytes) (t : Tables)
    → (let (after, ok) = db_batch_insert o recs raw_jsons t in
        after.call_state
        ≡ (if ok then upserts (events_of recs o.ids) t.call_state else t.call_state))
unfolding db_batch_insert events_of upserts
call_state-db_batch_insert o [] raw_jsons t = refl
call_state-db_batch_insert o (rec ∷ recs) raw_jsons t =
    ground (arith, call_state-insert_loop (rec ∷ recs) 0 raw_jsons o.ids t [])

-- A row for each text that got a number, with the record of the text and the text itself.
unfoldable pub stored : (Bytes → CaptureRecord) → List Bytes → List (Option ℕ) → List Capture
stored record_of (text ∷ texts) (some id ∷ ids) =
    record { id = id; fields = record_of text; record_json = text } ∷ stored record_of texts ids
stored record_of (text ∷ texts) (none ∷ ids) = stored record_of texts ids
stored record_of _ _ = []

get_elem?-length-append :
    (front : List Bytes) (text : Bytes) (rest : List Bytes)
    → get_elem? (front ++ text ∷ rest) (length front) ≡ some text
get_elem?-length-append [] text rest = refl
get_elem?-length-append (x ∷ front) text rest = get_elem?-length-append front text rest

unfoldable pub map_records : (Bytes → CaptureRecord) → List Bytes → List CaptureRecord
map_records record_of [] = []
map_records record_of (text ∷ texts) = record_of text ∷ map_records record_of texts

module _ (record_of : Bytes → CaptureRecord) (raw_jsons : List Bytes) where
  captures-insert_loop :
      (front texts : List Bytes) (i : ℕ) (ids : List (Option ℕ)) (t : Tables)
      (counts : List (Bytes × ℕ))
      → i ≡ length front
      → raw_jsons ≡ front ++ texts
      → (insert_loop (map_records record_of texts) i raw_jsons ids (t, counts)).0.captures
        ≡ t.captures ++ stored record_of texts ids
  unfolding insert_loop stored map_records raw_at
  captures-insert_loop front (text ∷ texts) i (some id ∷ ids) t counts index raw =
      let own : raw_at i raw_jsons ≡ text =
        ground (arith, index, raw, get_elem?-length-append front text texts) in
      let capture : Capture = record {
        id = id;
        fields = record_of text;
        record_json = raw_at i raw_jsons;
      } in
      let stored_here =
        captures-insert_loop (front ++ text ∷ []) texts (suc i) ids
          (record t {
            captures = t.captures ++ capture ∷ [];
            call_state = track_call (record_of text) id t.call_state;
          })
          (count_daily (record_of text) counts)
          (omega (arith, index, length-append front (text ∷ [])))
          (raw ∙ sym (append_assoc front (text ∷ []) texts)) in
      stored_here
      ∙ append_assoc t.captures (capture ∷ []) (stored record_of texts ids)
      ∙ ap
          (λ raw.
            t.captures
            ++ record { id = id; fields = record_of text; record_json = raw }
              ∷ stored record_of texts ids)
          own
  captures-insert_loop front (text ∷ texts) i (none ∷ ids) t counts index raw =
      captures-insert_loop (front ++ text ∷ []) texts (suc i) ids t counts
        (omega (arith, index, length-append front (text ∷ [])))
        (raw ∙ sym (append_assoc front (text ∷ []) texts))
  captures-insert_loop front [] i ids t counts index raw = sym (append-nil t.captures)
  captures-insert_loop front (text ∷ texts) i [] t counts index raw = sym (append-nil t.captures)

-- A batch whose records all come from its texts stores each record beside its own text.
pub captures-db_batch_insert :
    (record_of : Bytes → CaptureRecord) (o : Outcome) (texts : List Bytes) (t : Tables)
    → (db_batch_insert o (map_records record_of texts) texts t).0.captures
      ≡ (if o.begins && o.commits then t.captures ++ stored record_of texts o.ids else t.captures)
unfolding db_batch_insert map_records stored
captures-db_batch_insert record_of o [] t = ground (arith, append-nil t.captures)
captures-db_batch_insert record_of o (text ∷ texts) t =
    ground (
      arith,
      captures-insert_loop record_of (text ∷ texts) [] (text ∷ texts) 0 o.ids t [] refl refl,
    )
