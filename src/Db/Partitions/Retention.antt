-- ===== src/Db/Partitions/Retention.antt =====
-- dropOldPartitions on the partitions that createDayPartition makes.
use zaman.Base.{
  ℕ, ◌*◌, ◌-◌, ◌/◌, ◌%◌, true, ◌+◌, ◌<◌, some, ◌≡◌, refl, List, [], ◌∷◌, arith, length,
}
use zaman.Text.Decimal.{is_digit}
use zaman.Db.Partitions.Days.{IsDate, IsDate-day}
use zaman.Text.{Bytes}
use zaman.Db.Partitions.{
  Date, parse_date, format_date, partition_name, is_dropped, drop_old_partitions,
}

length-partition_name : (d : Date) → length (partition_name d) ≡ 17
unfolding partition_name format_date
length-partition_name d = refl

pub partition_names : List Date → List Bytes
partition_names [] = []
partition_names (d ∷ ds) = partition_name d ∷ partition_names ds

-- Of the partitions that the writer creates, none is ever dropped, however old: their names have 17
-- bytes, and names below 18 are skipped.
pub drop_old_partitions-partition_names :
    (retention_days cutoff : ℕ) (ds : List Date)
    → drop_old_partitions retention_days cutoff (partition_names ds) ≡ []
unfolding drop_old_partitions partition_names is_dropped
drop_old_partitions-partition_names retention_days cutoff [] = refl
drop_old_partitions-partition_names retention_days cutoff (d ∷ ds) =
    ground
      (arith, length-partition_name d, drop_old_partitions-partition_names retention_days cutoff ds)

digit-is_digit : (n : ℕ) → is_digit (n % 10 + b'0') ≡ true
digit-is_digit n = ground arith

two_digits-value : (n : ℕ) → n < 100 → (n / 10 % 10 + b'0' - b'0') * 10 + (n % 10 + b'0' - b'0') ≡ n
two_digits-value n h = omega (arith, h)

-- The date that a partition's name was made from is read back from behind the prefix.
pub parse_date-format_date :
    (d : Date) → IsDate d → d.year < 10000 → parse_date (format_date d) ≡ some d
unfolding parse_date format_date
parse_date-format_date d h below =
    rw
      (
        digit-is_digit (d.year / 100 / 10),
        digit-is_digit (d.year / 100),
        digit-is_digit (d.year % 100 / 10),
        digit-is_digit (d.year % 100),
        digit-is_digit (d.month / 10),
        digit-is_digit d.month,
        digit-is_digit (d.day / 10),
        digit-is_digit d.day,
        two_digits-value (d.year / 100) (omega (arith, below)),
        two_digits-value (d.year % 100) (omega arith),
        two_digits-value d.month (omega (arith, h.month_to)),
        two_digits-value d.day (IsDate-day d h),
      )
      (ground (arith, h, below))
