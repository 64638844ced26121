-- ===== src/Logger/Head.antt =====
-- The start of a line of src/utils/logger.c: its length, and what it says.
use fast_ring.Prelude.{
  ℕ, ◌+◌, ◌*◌, ◌/◌, ◌%◌, ◌≤◌, ◌<◌, ◌≡◌, refl, arith, [], ◌∷◌, joined, length, Text, length-joined,
  length-digits, length-padded, decimal, padded, codes,
}
use fast_ring.Logger.{
  LogLevel, debug, info, warn, error, fatal, level_name, base_name, TimeOfDay, time_of_day, prefix,
}
use fast_ring.Logger.Names.{IsBaseName, base_name-IsBaseName}
use fast_ring.Logger.Digits.{two_digits, three_digits}

length-level_name : (l : LogLevel) → length (level_name l) ≤ 5
unfolding level_name
length-level_name debug = omega arith
length-level_name info = omega arith
length-level_name warn = omega arith
length-level_name error = omega arith
length-level_name fatal = omega arith

pub length-prefix :
    (t : TimeOfDay) (l : LogLevel) (file : Text) (line : ℕ)
    → length (prefix t l file line) ≤ 68 + length (base_name file)
unfolding prefix
length-prefix t l file line = omega (
  arith,
  length-padded 2 t.hours (omega arith),
  length-padded 2 t.minutes (omega arith),
  length-padded 2 t.seconds (omega arith),
  length-padded 3 t.millis (omega arith),
  length-level_name l,
  length-digits 10 line,
  length-joined (
      codes "["
      ∷ padded 2 t.hours
      ∷ codes ":"
      ∷ padded 2 t.minutes
      ∷ codes ":"
      ∷ padded 2 t.seconds
      ∷ codes "."
      ∷ padded 3 t.millis
      ∷ codes "] ["
      ∷ level_name l
      ∷ codes "] ["
      ∷ base_name file
      ∷ codes ":"
      ∷ decimal line
      ∷ codes "] "
      ∷ []),
)

-- The fields of the time are in their ranges, and together they are the time since midnight.
time_of_day_lem :
    (now : ℕ)
    → let t = time_of_day now in
      (t.hours < 24)
      × (t.minutes < 60)
      × (t.seconds < 60)
      × (t.millis < 1_000)
      × (((t.hours * 60 + t.minutes) * 60 + t.seconds) * 1_000 + t.millis ≡ now % 86_400_000)
unfolding time_of_day
time_of_day_lem now = (omega arith, omega arith, omega arith, omega arith, omega arith)

-- The start of a line: a time of day of two digits each for hours, minutes and seconds and three for the
-- milliseconds, which together are the clock, then the level, the name of the source file without its
-- directory, and the line.
pub record IsHead (now : ℕ) (level : LogLevel) (file : Text) (line : ℕ) (front : Text)
    : Type 0 where
  pub hours : ℕ
  pub minutes : ℕ
  pub seconds : ℕ
  pub millis : ℕ
  pub in_range : (hours < 24) × (minutes < 60) × (seconds < 60) × (millis < 1_000)
  pub clock : ((hours * 60 + minutes) * 60 + seconds) * 1_000 + millis ≡ now % 86_400_000
  pub name : Text
  pub named : IsBaseName file name
  pub whole :
      front
      ≡ joined (
          codes "["
          ∷ ((48 + hours / 10)
              ∷ (48 + hours % 10)
              ∷ 58
              ∷ (48 + minutes / 10)
              ∷ (48 + minutes % 10)
              ∷ 58
              ∷ (48 + seconds / 10)
              ∷ (48 + seconds % 10)
              ∷ 46
              ∷ (48 + millis / 100)
              ∷ (48 + millis / 10 % 10)
              ∷ (48 + millis % 10)
              ∷ [])
          ∷ codes "] ["
          ∷ level_name level
          ∷ codes "] ["
          ∷ name
          ∷ codes ":"
          ∷ decimal line
          ∷ codes "] "
          ∷ [])

pub prefix-IsHead :
    (now : ℕ) (level : LogLevel) (file : Text) (line : ℕ)
    → IsHead now level file line (prefix (time_of_day now) level file line)
unfolding prefix
prefix-IsHead now level file line =
    let t = time_of_day now in
    let (h, m, s, ms, sum) = time_of_day_lem now in
    record {
      hours = t.hours;
      minutes = t.minutes;
      seconds = t.seconds;
      millis = t.millis;
      in_range = (h, m, s, ms);
      clock = sum;
      name = base_name file;
      named = base_name-IsBaseName file;
      whole =
          rw
            (
              two_digits t.hours (omega (arith, h)),
              two_digits t.minutes (omega (arith, m)),
              two_digits t.seconds (omega (arith, s)),
              three_digits t.millis ms,
            )
            refl;
    }
