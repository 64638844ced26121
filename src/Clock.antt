-- ===== src/Clock.antt =====
-- src/utils/timestamp.c on its POSIX side: the reading of the clock in three units, and the splitting of
-- a time to sleep. What `clock_gettime` writes is an argument.
pub mod Units
pub mod Sleep
mod Tests
use fast_ring.Prelude.{ℕ, ◌*◌, ◌/◌, ◌%◌, add64, mul64}

-- `struct timespec`
pub record Timespec : Type 0 where
  pub tv_sec : ℕ
  pub tv_nsec : ℕ

-- `get_timestamp_us`
pub get_timestamp_us : Timespec → ℕ
get_timestamp_us ts = add64 (mul64 ts.tv_sec 1_000_000) (ts.tv_nsec / 1000)

-- `get_timestamp_ms`
pub get_timestamp_ms : Timespec → ℕ
get_timestamp_ms ts = add64 (mul64 ts.tv_sec 1000) (ts.tv_nsec / 1_000_000)

-- `get_timestamp_ns`
pub get_timestamp_ns : Timespec → ℕ
get_timestamp_ns ts = add64 (mul64 ts.tv_sec 1_000_000_000) ts.tv_nsec

-- The time that `sleep_us` asks for,
pub us_timespec : ℕ → Timespec
us_timespec us = record { tv_sec = us / 1_000_000; tv_nsec = us % 1_000_000 * 1000 }

-- and `sleep_ms`.
pub ms_timespec : ℕ → Timespec
ms_timespec ms = record { tv_sec = ms / 1000; tv_nsec = ms % 1000 * 1_000_000 }
