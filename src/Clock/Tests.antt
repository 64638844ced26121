-- ===== src/Clock/Tests.antt =====
-- The clock at concrete readings.
use fast_ring.Prelude.{◌/◌, ◌≡◌, refl, arith}
use fast_ring.Clock.{Timespec, get_timestamp_us, get_timestamp_ms, get_timestamp_ns}
use fast_ring.Clock.Units.{IsReading, timestamps_agree}

abbrev noon : Timespec
noon = record { tv_sec = 43_200; tv_nsec = 123_456_789 }

noon-IsReading : IsReading noon
noon-IsReading = record { seconds = omega arith; nanoseconds = omega arith }

noon_in_us : get_timestamp_us noon ≡ 43_200_123_456
unfolding get_timestamp_us
noon_in_us = refl

timestamps_agree_example :
    (get_timestamp_us noon ≡ get_timestamp_ns noon / 1000)
    × (get_timestamp_ms noon ≡ get_timestamp_ns noon / 1_000_000)
timestamps_agree_example = timestamps_agree noon noon-IsReading
