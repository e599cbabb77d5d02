-- ===== src/Db/Batch/Rollup.antt =====
-- The daily rollup of dbBatchInsert: what a committed batch adds to each row of report_daily.
use zaman.Base.{
  ◌/◌, All-weaken, ℕ, suc, ◌+◌, ◌≡◌, ◌≢◌, refl, ap, true, false, ◌&&◌, Option, none, some, List, [],
  ◌∷◌, ◌++◌, if◌then◌else◌, arith, is_nil, All, Option-cases, inl, inr,
}
use zaman.Text.{Bytes, equal}
use zaman.Text.Split.{equal_iff, Lacks}
use zaman.Text.Decimal.{is_digit, show}
use zaman.Text.Decimal.RoundTrip.{show-All-digit}
use zaman.Core.Metrics.{bump}
use zaman.Core.State.{day_key}
use zaman.Db.CallState.{CaptureRecord}
use zaman.Db.Batch.{
  DailyRow, Tables, Outcome, track_call, raw_at, daily_key, count_daily, insert_loop, add_daily,
  split_key, rollup, db_batch_insert,
}
use zaman.Db.Batch.Keys.{key_of, split_key-key_of, split_key-some}

-- A row's count, 0 where there is no row.
pub daily_count : Bytes → Bytes → Bytes → List DailyRow → ℕ
daily_count day method transport [] = 0
daily_count day method transport (r ∷ rows) =
    if equal r.day day && equal r.method method && equal r.transport transport
    then r.cnt
    else daily_count day method transport rows

daily_count-add_daily :
    (day method transport d m t : Bytes) (cnt : ℕ) (rows : List DailyRow)
    → daily_count day method transport (add_daily d m t cnt rows) ≡ (
        if equal d day && equal m method && equal t transport
        then daily_count day method transport rows + cnt
        else daily_count day method transport rows)
unfolding daily_count add_daily
daily_count-add_daily day method transport d m t cnt [] = ground arith
daily_count-add_daily day method transport d m t cnt (r ∷ rows) = ground (
  arith,
  equal_iff d day,
  equal_iff m method,
  equal_iff t transport,
  equal_iff r.day day,
  equal_iff r.method method,
  equal_iff r.transport transport,
  equal_iff r.day d,
  equal_iff r.method m,
  equal_iff r.transport t,
  daily_count-add_daily day method transport d m t cnt rows,
)

-- What the entries of one key add up to.
pub sum_of : Bytes → List (Bytes × ℕ) → ℕ
sum_of key [] = 0
sum_of key ((k, n) ∷ counts) = if equal k key then n + sum_of key counts else sum_of key counts

sum_of-bump :
    (key k : Bytes) (counts : List (Bytes × ℕ))
    → sum_of key (bump k counts)
      ≡ (if equal k key then sum_of key counts + 1 else sum_of key counts)
unfolding sum_of bump
sum_of-bump key k [] = ground arith
sum_of-bump key k ((j, n) ∷ counts) =
    ground (arith, equal_iff k key, equal_iff j key, equal_iff j k, sum_of-bump key k counts)

module _ (day method transport : Bytes) (d : Lacks b'|' day) (m : Lacks b'|' method) where
  daily_count-rollup :
      (counts : List (Bytes × ℕ)) (rows : List DailyRow)
      → daily_count day method transport (rollup counts rows)
        ≡ daily_count day method transport rows + sum_of (key_of day method transport) counts
  unfolding rollup sum_of
  daily_count-rollup [] rows = omega arith
  daily_count-rollup ((key, n) ∷ counts) rows = elim (Option-cases (split_key key)) [
    | inl e ↦
        unfold sum_of rollup in
        ground (
          arith,
          e,
          equal_iff key (key_of day method transport),
          ap split_key {x = key} {y = key_of day method transport},
          split_key-key_of day method transport d m,
          daily_count-rollup counts rows,
        )
    | inr ((d', m', t'), e) ↦
        unfold sum_of rollup in
        ground (
          arith,
          e,
          equal_iff key (key_of day method transport),
          split_key-some key d' m' t' e,
          ap split_key {x = key} {y = key_of day method transport},
          split_key-key_of day method transport d m,
          equal_iff d' day,
          equal_iff m' method,
          equal_iff t' transport,
          daily_count-add_daily day method transport d' m' t' n rows,
          daily_count-rollup counts (add_daily d' m' t' n rows),
        )
  ]

-- Which inserts succeed is the server's answer: a record counts if it has a number and a method.
pub inserted_for : Bytes → Bytes → Bytes → List CaptureRecord → List (Option ℕ) → ℕ
inserted_for day method transport (rec ∷ recs) (some id ∷ ids) =
    let rest = inserted_for day method transport recs ids in
    if equal (day_key rec.ts_ms) day && equal rec.method method && equal rec.transport transport
    then suc rest
    else rest
inserted_for day method transport (rec ∷ recs) (none ∷ ids) =
    inserted_for day method transport recs ids
inserted_for _ _ _ _ _ = 0

abbrev pub HasPlainMethod : CaptureRecord → Type 0
HasPlainMethod rec = Lacks b'|' rec.method

day_key-Lacks : (ts_ms : ℕ) → Lacks b'|' (day_key ts_ms)
unfolding day_key
day_key-Lacks ts_ms =
    All-weaken (λ c. is_digit c ≡ true) (λ c. c ≢ b'|') (λ c h. ground (arith, h))
      (show (ts_ms / 86400000)) (show-All-digit (ts_ms / 86400000))

daily_key_iff :
    (day method transport : Bytes) (d : Lacks b'|' day) (m : Lacks b'|' method)
    (rec : CaptureRecord)
    → HasPlainMethod rec
    → equal (daily_key rec) (key_of day method transport)
      ≡ equal (day_key rec.ts_ms) day && equal rec.method method && equal rec.transport transport
unfolding daily_key
daily_key_iff day method transport d m rec h =
    let same = split_key-key_of day method transport d m in
    let own =
      split_key-key_of (day_key rec.ts_ms) rec.method rec.transport (day_key-Lacks rec.ts_ms) h in
    ground (
      arith,
      equal_iff (daily_key rec) (key_of day method transport),
      equal_iff (day_key rec.ts_ms) day,
      equal_iff rec.method method,
      equal_iff rec.transport transport,
      ap split_key {x = daily_key rec} {y = key_of day method transport},
      same,
      own,
    )

is_nil-equal : (a b : Bytes) → is_nil a ≡ true → is_nil b ≡ false → equal a b ≡ false
unfolding equal
is_nil-equal [] [] e f = ground (arith, e, f)
is_nil-equal [] (c ∷ b) e f = refl
is_nil-equal (c ∷ a) b e f = ground (arith, e)

sum_of-count_daily :
    (day method transport : Bytes) (d : Lacks b'|' day) (m : Lacks b'|' method)
    → is_nil method ≡ false
    → (rec : CaptureRecord) (counts : List (Bytes × ℕ)) → HasPlainMethod rec
    → sum_of (key_of day method transport) (count_daily rec counts) ≡ (
        if equal (day_key rec.ts_ms) day && equal rec.method method && equal rec.transport transport
        then sum_of (key_of day method transport) counts + 1
        else sum_of (key_of day method transport) counts)
unfolding count_daily
sum_of-count_daily day method transport d m some_method rec counts h = ground (
  arith,
  some_method,
  is_nil-equal rec.method method,
  sum_of-bump (key_of day method transport) (daily_key rec) counts,
  daily_key_iff day method transport d m rec h,
)

sum_of-insert_loop :
    (day method transport : Bytes) (d : Lacks b'|' day) (m : Lacks b'|' method)
    → is_nil method ≡ false
    → (recs : List CaptureRecord) (i : ℕ) (raw_jsons : List Bytes) (ids : List (Option ℕ))
      (t : Tables) (counts : List (Bytes × ℕ))
    → All HasPlainMethod recs
    → (let (after, sums) = insert_loop recs i raw_jsons ids (t, counts) in
        (sum_of (key_of day method transport) sums
          ≡ sum_of (key_of day method transport) counts
            + inserted_for day method transport recs ids)
        × (after.report_daily ≡ t.report_daily))
unfolding insert_loop inserted_for count_daily
sum_of-insert_loop day method transport d m some_method (rec ∷ recs) i raw_jsons (some id ∷ ids) t
      counts h =
    ground (
      arith,
      sum_of-count_daily day method transport d m some_method rec counts h.0,
      sum_of-insert_loop day method transport d m some_method recs (suc i) raw_jsons ids
          (record t {
            captures =
                t.captures
                ++ record { id = id; fields = rec; record_json = raw_at i raw_jsons } ∷ [];
            call_state = track_call rec id t.call_state;
          })
          (count_daily rec counts) h.1,
    )
sum_of-insert_loop day method transport d m some_method (rec ∷ recs) i raw_jsons (none ∷ ids) t
      counts h =
    sum_of-insert_loop day method transport d m some_method recs (suc i) raw_jsons ids t counts h.1
sum_of-insert_loop day method transport d m some_method [] i raw_jsons ids t counts h =
    (omega arith, refl)
sum_of-insert_loop day method transport d m some_method (rec ∷ recs) i raw_jsons [] t counts h =
    (omega arith, refl)

-- A batch that is committed raises the count of a day, a method and a transport in report_daily by
-- the number of its inserted records that have them, and one that is not leaves it, provided no
-- method has a `|` in it.
pub daily_count-db_batch_insert :
    (day method transport : Bytes) (o : Outcome) (recs : List CaptureRecord)
    (raw_jsons : List Bytes) (t : Tables)
    → Lacks b'|' day
    → Lacks b'|' method
    → is_nil method ≡ false
    → All HasPlainMethod recs
    → (let (after, ok) = db_batch_insert o recs raw_jsons t in
        daily_count day method transport after.report_daily
        ≡ daily_count day method transport t.report_daily
          + (if ok then inserted_for day method transport recs o.ids else 0))
unfolding db_batch_insert inserted_for sum_of
daily_count-db_batch_insert day method transport o [] raw_jsons t d m some_method h = omega arith
daily_count-db_batch_insert day method transport o (rec ∷ recs) raw_jsons t d m some_method h =
    let (inserted, sums) = insert_loop (rec ∷ recs) 0 raw_jsons o.ids (t, []) in
    ground (
      arith,
      daily_count-rollup day method transport d m sums inserted.report_daily,
      sum_of-insert_loop day method transport d m some_method (rec ∷ recs) 0 raw_jsons o.ids t [] h,
    )
