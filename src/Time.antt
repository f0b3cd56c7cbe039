-- ===== src/Time.antt =====
-- `datetime` and `timedelta` as the timeline code uses them: microseconds since the Unix epoch,
-- with or without a timezone. An aware value is its UTC instant, so `astimezone(UTC)` keeps it.
-- Instants before 1970 are not represented, and there is no last instant: that Python raises
-- `OverflowError` past the year 9999 is outside the model.
use cvf.Prelude.{ℕ, zero, suc, ℤ, pos, negsuc}
use cvf.Outcome.{Result, ok, raise, value_error}

pub data DateTime : Type 0 where
  aware : ℕ → DateTime
  naive : ℕ → DateTime

-- `_utc` of clock/scheduler.py and features/rolling.py, `_validated` of clock/replay.py,
-- `_aware_utc` of monitoring/health.py: one function, declared in each of these files.
abbrev pub utc : DateTime → Result ℕ
utc (aware t) = ok t
utc (naive t) = raise value_error

-- A `timedelta` that has to be positive, in microseconds.
abbrev pub positive : ℤ → Result ℕ
positive (pos zero) = raise value_error
positive (pos (suc n)) = ok (suc n)
positive (negsuc n) = raise value_error

-- A `timedelta` that may be zero and not negative.
abbrev pub non_negative : ℤ → Result ℕ
non_negative (pos n) = ok n
non_negative (negsuc n) = raise value_error
