-- ===== src/Db/Partitions/Days.antt =====
-- The days of the calendar, and the partitions of three days in a row.
use mathlib.Core.Path.{subst}
use zaman.Base.{
  ℕ, suc, zero, ◌+◌, ◌≤◌, ◌<◌, ◌≡◌, refl, ap, List, [], ◌∷◌, arith, true, ◌==◌, if◌then◌else◌, ltb,
  ◌-◌, ==_iff, All, sym, Bool-cases, inl, inr,
}
use zaman.Db.Partitions.{
  Date, Partition, is_leap, month_length, year_start, month_start, day_number, day_ms,
  day_partition, next_day, ensure_partitions,
}

pub record IsDate (d : Date) : Type 0 where
  pub month_from : 1 ≤ d.month
  pub month_to : d.month ≤ 12
  pub day_from : 1 ≤ d.day
  pub day_to : d.day ≤ month_length d.year d.month

year_start-suc :
    (year : ℕ) → year_start (year + 1) ≡ year_start year + (if is_leap year then 366 else 365)
unfolding year_start
year_start-suc year = ground arith

up_to : ℕ → List ℕ
up_to zero = []
up_to (suc n) = n ∷ up_to n

All-up_to : (P : ℕ → Type 0) (n : ℕ) → All P (up_to n) → (m : ℕ) → m < n → P m
unfolding up_to
All-up_to P zero h m below = absurd (omega (arith, below))
All-up_to P (suc n) h m below = elim (Bool-cases (m == n)) [
  | inl e ↦ subst P (sym ((==_iff m n).0 e)) h.0
  | inr e ↦ All-up_to P n h.1 m (ground (arith, below, e))
]

abbrev MonthStep : ℕ → ℕ → Type 0
MonthStep year m = month_start year (m + 2) ≡ month_start year (m + 1) + month_length year (m + 1)

month_steps : (year : ℕ) → All (MonthStep year) (up_to 11)
unfolding up_to month_start month_length
month_steps year = ground arith

month_start-suc :
    (year month : ℕ)
    → 1 ≤ month
    → ltb month 12 ≡ true
    → month_start year (month + 1) ≡ month_start year month + month_length year month
month_start-suc year zero from below = omega (arith, from)
month_start-suc year (suc m) from below = ground (
  arith,
  All-up_to (MonthStep year) 11 (month_steps year) m (ground (arith, below)),
  ap (month_start year) {x = suc m + 1} {y = m + 2} (omega arith),
  ap (month_start year) {x = suc m} {y = m + 1} (omega arith),
  ap (month_length year) {x = suc m} {y = m + 1} (omega arith),
)

year_length :
    (year : ℕ)
    → (month_start year 1 ≡ 0)
      × (month_start year 12 + month_length year 12 ≡ (if is_leap year then 366 else 365))
unfolding month_start month_length
year_length year = ground arith

day_number-parts :
    (year month day : ℕ)
    → day_number (record { year = year; month = month; day = day })
      ≡ year_start year + month_start year month + (day - 1)
unfolding day_number
day_number-parts year month day = refl

day_number-next_day : (d : Date) → IsDate d → day_number (next_day d) ≡ day_number d + 1
unfolding next_day
day_number-next_day d h = elim (Bool-cases (ltb d.day (month_length d.year d.month))) [
  | inl e ↦ rw e (
      ground (
        arith,
        day_number-parts d.year d.month (d.day + 1),
        day_number-parts d.year d.month d.day,
        h.day_from,
      ))
  | inr e ↦ rw e (elim (Bool-cases (ltb d.month 12)) [
    | inl f ↦ rw f (
        ground (
          arith,
          day_number-parts d.year (d.month + 1) 1,
          day_number-parts d.year d.month d.day,
          h.day_from,
          h.day_to,
          e,
          month_start-suc d.year d.month h.month_from f,
        ))
    | inr f ↦ rw f (
        ground (
          arith,
          day_number-parts (d.year + 1) 1 1,
          day_number-parts d.year d.month d.day,
          h.day_from,
          h.day_to,
          h.month_to,
          e,
          f,
          year_start-suc d.year,
          year_length d.year,
          year_length (d.year + 1),
          ap (month_start d.year) {x = d.month} {y = 12},
          ap (month_length d.year) {x = d.month} {y = 12},
        ))
  ])
]

month_lengths_pos : (year : ℕ) → All (λ m. 1 ≤ month_length year (m + 1)) (up_to 12)
unfolding up_to month_length
month_lengths_pos year = ground arith

month_lengths_limit : (year : ℕ) → All (λ m. month_length year m ≤ 31) (up_to 13)
unfolding up_to month_length
month_lengths_limit year = ground arith

pub IsDate-day : (d : Date) → IsDate d → d.day < 100
IsDate-day d h = omega (
  arith,
  h.day_to,
  All-up_to (λ m. month_length d.year m ≤ 31) 13 (month_lengths_limit d.year) d.month
      (omega (arith, h.month_to)),
)

next_day-IsDate : (d : Date) → IsDate d → IsDate (next_day d)
unfolding next_day
next_day-IsDate d h =
    let pos =
      All-up_to (λ m. 1 ≤ month_length d.year (m + 1)) 12 (month_lengths_pos d.year) d.month in
    let january =
      All-up_to (λ m. 1 ≤ month_length (d.year + 1) (m + 1)) 12 (month_lengths_pos (d.year + 1))
        0 in
    elim (Bool-cases (ltb d.day (month_length d.year d.month))) [
      | inl e ↦ rw e (record {
        month_from = h.month_from;
        month_to = h.month_to;
        day_from = omega arith;
        day_to = ground (arith, e);
      })
      | inr e ↦ rw e (elim (Bool-cases (ltb d.month 12)) [
        | inl f ↦ rw f (record {
          month_from = omega arith;
          month_to = ground (arith, f);
          day_from = omega arith;
          day_to = ground (arith, f, pos);
        })
        | inr f ↦ rw f (record {
          month_from = omega arith;
          month_to = omega arith;
          day_from = omega arith;
          day_to = january (omega arith);
        })
      ])
    ]

day_partition-next_day :
    (d : Date) → IsDate d → (day_partition d).end_ms ≡ (day_partition (next_day d)).start_ms
unfolding day_partition
day_partition-next_day d h = ground (arith, day_number-next_day d h)

-- Each partition starts where the one before it ends.
pub Follow : List Partition → Type 0
Follow (p ∷ q ∷ ps) = (p.end_ms ≡ q.start_ms) × Follow (q ∷ ps)
Follow _ = Unit

-- The three partitions of ensurePartitions follow one another without a gap or an overlap, across
-- the ends of months and years and in leap years, and each of them is a day long.
pub ensure_partitions-Follow :
    (now : Date)
    → IsDate now
    → Follow (ensure_partitions now)
      × All (λ p. p.end_ms ≡ p.start_ms + day_ms) (ensure_partitions now)
unfolding ensure_partitions Follow day_partition
ensure_partitions-Follow now h =
    let tomorrow = next_day-IsDate now h in
    (
      (day_partition-next_day now h, (day_partition-next_day (next_day now) tomorrow, tt)),
      (refl, (refl, (refl, tt))),
    )
