-- ===== src/Clock/Units.antt =====
-- The units of src/utils/timestamp.c agree.
use fast_ring.Prelude.{ℕ, ◌/◌, ◌≤◌, ◌<◌, ◌≡◌, arith}
use fast_ring.Clock.{
  Timespec, get_timestamp_us, get_timestamp_ms, get_timestamp_ns, us_timespec, ms_timespec,
}

-- What `clock_gettime` writes: less than a second of nanoseconds, and few enough seconds for the
-- nanoseconds to fit 64 bits.
pub record IsReading (ts : Timespec) : Type 0 where
  pub seconds : ts.tv_sec < 18_446_744_073
  pub nanoseconds : ts.tv_nsec < 1_000_000_000

-- The clock in microseconds, and in milliseconds, is the clock in nanoseconds rounded down.
pub timestamps_agree :
    (ts : Timespec)
    → IsReading ts
    → (get_timestamp_us ts ≡ get_timestamp_ns ts / 1000)
      × (get_timestamp_ms ts ≡ get_timestamp_ns ts / 1_000_000)
unfolding get_timestamp_us get_timestamp_ms get_timestamp_ns
timestamps_agree ts r =
    (omega (arith, r.seconds, r.nanoseconds), omega (arith, r.seconds, r.nanoseconds))

-- A later reading is not smaller in microseconds.
pub timestamp_mono :
    (s t : Timespec)
    → IsReading s
    → IsReading t
    → get_timestamp_ns s ≤ get_timestamp_ns t
    → get_timestamp_us s ≤ get_timestamp_us t
timestamp_mono s t rs rt h = omega (arith, (timestamps_agree s rs).0, (timestamps_agree t rt).0)

-- `sleep_us` and `sleep_ms` ask for the time given: read as a clock it is that many microseconds, or
-- milliseconds, and its nanoseconds are less than a second.
timespecs_lem :
    (n : ℕ)
    → n < 18_446_744_073_000
    → (get_timestamp_us (us_timespec n) ≡ n)
      × IsReading (us_timespec n)
      × (get_timestamp_ms (ms_timespec n) ≡ n)
      × IsReading (ms_timespec n)
unfolding get_timestamp_us get_timestamp_ms us_timespec ms_timespec
timespecs_lem n h = (
  omega (arith, h),
  record { seconds = omega (arith, h); nanoseconds = omega (arith, h) },
  omega (arith, h),
  record { seconds = omega (arith, h); nanoseconds = omega (arith, h) },
)
