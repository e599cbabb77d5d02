-- ===== src/Db/Partitions.antt =====
-- The daily partitions of captures in core-go/db.go: createDayPartition, ensurePartitions and
-- dropOldPartitions. A date is a day of the calendar with a year of four digits; days are counted
-- from 0000-01-01, and the Unix epoch is day 719528.
pub mod Retention
pub mod Days
use zaman.Base.{
  ℕ, suc, ◌+◌, ◌-◌, ◌*◌, ◌/◌, ◌%◌, ◌≡◌, refl, Bool, true, false, not, ◌&&◌, ◌||◌, Option, none,
  some, List, [], ◌∷◌, ◌++◌, ltb, leb, ◌==◌, if◌then◌else◌, length, get_or, drop,
}
use zaman.Text.{Bytes, codes}
use zaman.Text.Decimal.{is_digit}

pub record Date : Type 0 where
  pub year : ℕ
  pub month : ℕ
  pub day : ℕ

abbrev pub is_leap : ℕ → Bool
is_leap year = year % 4 == 0 && (not (year % 100 == 0) || year % 400 == 0)

-- The days of the months 1 to 12, and those before them, in a year that is not a leap year.
abbrev pub month_lengths : List ℕ
month_lengths = 0 ∷ 31 ∷ 28 ∷ 31 ∷ 30 ∷ 31 ∷ 30 ∷ 31 ∷ 31 ∷ 30 ∷ 31 ∷ 30 ∷ 31 ∷ []

abbrev pub month_starts : List ℕ
month_starts = 0 ∷ 0 ∷ 31 ∷ 59 ∷ 90 ∷ 120 ∷ 151 ∷ 181 ∷ 212 ∷ 243 ∷ 273 ∷ 304 ∷ 334 ∷ []

unfoldable pub month_length : ℕ → ℕ → ℕ
month_length year month =
    let days = get_or month_lengths month 0 in if month == 2 && is_leap year then days + 1 else days

-- The days before a year, and those of a year before a month.
unfoldable pub year_start : ℕ → ℕ
year_start year = 365 * year + (year + 3) / 4 + (year + 399) / 400 - (year + 99) / 100

unfoldable pub month_start : ℕ → ℕ → ℕ
month_start year month =
    let days = get_or month_starts month 0 in if ltb 2 month && is_leap year then days + 1 else days

unfoldable pub day_number : Date → ℕ
unfolding year_start month_start
day_number d = year_start d.year + month_start d.year d.month + (d.day - 1)

abbrev pub epoch : ℕ
epoch = 719528

abbrev pub day_ms : ℕ
day_ms = 86400000

abbrev two_digits : ℕ → Bytes → Bytes
two_digits n rest = (n / 10 % 10 + b'0') ∷ (n % 10 + b'0') ∷ rest

-- `Format("20060102")`
unfoldable pub format_date : Date → Bytes
format_date d =
    let day_part = two_digits d.month (two_digits d.day []) in
    two_digits (d.year / 100) (two_digits (d.year % 100) day_part)

abbrev digits_value : ℕ → ℕ → ℕ
digits_value a b = (a - b'0') * 10 + (b - b'0')

-- `time.Parse("20060102", …)`
unfoldable pub parse_date : Bytes → Option Date
unfolding month_length
parse_date (y1 ∷ y2 ∷ y3 ∷ y4 ∷ m1 ∷ m2 ∷ d1 ∷ d2 ∷ []) =
    let digits =
      is_digit y1
      && is_digit y2
      && is_digit y3
      && is_digit y4
      && is_digit m1
      && is_digit m2
      && is_digit d1
      && is_digit d2 in
    let year = digits_value y1 y2 * 100 + digits_value y3 y4 in
    let month = digits_value m1 m2 in
    let day = digits_value d1 d2 in
    if digits && leb 1 month && leb month 12 && leb 1 day && leb day (month_length year month)
    then some (record { year = year; month = month; day = day })
    else none
parse_date _ = none

unfoldable pub partition_name : Date → Bytes
unfolding format_date
partition_name d = codes "captures_" ++ format_date d

-- A partition: its name, and the times in milliseconds from which and up to which it holds rows.
pub record Partition : Type 0 where
  pub name : Bytes
  pub start_ms : ℕ
  pub end_ms : ℕ

-- createDayPartition, less its indexes; the times are from day 0, not from the epoch.
unfoldable pub day_partition : Date → Partition
unfolding partition_name day_number
day_partition d =
    let start_ms = day_number d * day_ms in
    record { name = partition_name d; start_ms = start_ms; end_ms = start_ms + day_ms }

-- `AddDate(0, 0, 1)`
unfoldable pub next_day : Date → Date
unfolding month_length
next_day d =
    if ltb d.day (month_length d.year d.month)
    then record d { day = d.day + 1 }
    else if ltb d.month 12
    then record d { month = d.month + 1; day = 1 }
    else record { year = d.year + 1; month = 1; day = 1 }

-- ensurePartitions
unfoldable pub ensure_partitions : Date → List Partition
unfolding day_partition next_day
ensure_partitions now =
    day_partition now ∷ day_partition (next_day now) ∷ day_partition (next_day (next_day now)) ∷ []

-- Is a table dropped, where `cutoff` is the time in milliseconds from day 0.
unfoldable pub is_dropped : ℕ → Bytes → Bool
unfolding parse_date day_number
is_dropped cutoff name = if ltb (length name) 18 then false else elim (parse_date (drop 9 name)) [
  | none ↦ false
  | some t ↦ ltb (day_number t * day_ms) cutoff
]

-- dropOldPartitions: the tables that are dropped, of those that the query lists. A number of days
-- below 0 does what 0 does.
unfoldable pub drop_old_partitions : ℕ → ℕ → List Bytes → List Bytes
unfolding is_dropped
drop_old_partitions retention_days cutoff [] = []
drop_old_partitions retention_days cutoff (name ∷ names) =
    let rest = drop_old_partitions retention_days cutoff names in
    if leb retention_days 0 then [] else if is_dropped cutoff name then name ∷ rest else rest
