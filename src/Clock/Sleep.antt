-- ===== src/Clock/Sleep.antt =====
-- The sleeping of src/utils/timestamp.c, through the interruptions of `nanosleep`, whose answers are
-- arguments, and the counter of cycles.
use fast_ring.Prelude.{ℕ, ◌+◌, ◌*◌, ◌%◌, ◌^◌, ◌≤◌, arith, List, [], ◌∷◌, add64}
use fast_ring.Clock.{Timespec, us_timespec, ms_timespec}

-- What a call of `nanosleep` comes to: it lasted to its end, or a signal broke it off and it wrote the
-- time that remains, or it failed. The first argument is the time that it took, in nanoseconds; the program does not
-- see it.
pub data Nap : Type 0 where
  finished : ℕ → Nap
  interrupted : ℕ → Timespec → Nap
  refused : ℕ → Nap

-- How the loop stands after some calls, and how long it took.
pub data Slept : Type 0 where
  woken : ℕ → Slept
  given_up : ℕ → Slept
  asleep : ℕ → Slept

-- `sleep_timespec`, with the time already slept
unfoldable pub sleep_timespec : ℕ → List Nap → Timespec → Slept
sleep_timespec t [] ts = asleep t
sleep_timespec t (finished e ∷ naps) ts = woken (t + e)
sleep_timespec t (interrupted e left ∷ naps) ts = sleep_timespec (t + e) naps left
sleep_timespec t (refused e ∷ naps) ts = given_up (t + e)

-- `sleep_us` and `sleep_ms`
unfoldable pub sleep_us : List Nap → ℕ → Slept
sleep_us naps us = sleep_timespec 0 naps (us_timespec us)

unfoldable pub sleep_ms : List Nap → ℕ → Slept
sleep_ms naps ms = sleep_timespec 0 naps (ms_timespec ms)

-- `get_cpu_cycles` on x86, from the two halves of the counter
pub get_cpu_cycles : ℕ → ℕ → ℕ
get_cpu_cycles lo hi = add64 (hi % 2 ^ 32 * 2 ^ 32) (lo % 2 ^ 32)

abbrev pub nanoseconds : Timespec → ℕ
nanoseconds ts = ts.tv_sec * 1_000_000_000 + ts.tv_nsec

-- The calls are honest: one that lasted to its end took the time asked for at least, and one broken off
-- took what does not remain.
abbrev pub AreHonest : List Nap → Timespec → Type 0
AreHonest [] ts = Unit {0}
AreHonest (finished e ∷ naps) ts = nanoseconds ts ≤ e
AreHonest (interrupted e left ∷ naps) ts =
    (nanoseconds ts ≤ e + nanoseconds left) × AreHonest naps left
AreHonest (refused e ∷ naps) ts = Unit {0}

-- A sleep that is over, and not because a call failed, lasted so long at least.
abbrev pub Lasts : ℕ → Slept → Type 0
Lasts time (woken t) = time ≤ t
Lasts time (given_up t) = Unit {0}
Lasts time (asleep t) = Unit {0}

sleep_timespec-Lasts :
    (t time : ℕ) (naps : List Nap) (ts : Timespec)
    → time ≤ t + nanoseconds ts
    → AreHonest naps ts
    → Lasts time (sleep_timespec t naps ts)
unfolding sleep_timespec
sleep_timespec-Lasts t time [] ts h honest = tt
sleep_timespec-Lasts t time (finished e ∷ naps) ts h honest = omega (arith, h, honest)
sleep_timespec-Lasts t time (interrupted e left ∷ naps) ts h honest =
    sleep_timespec-Lasts (t + e) time naps left (omega (arith, h, honest.0)) honest.1
sleep_timespec-Lasts t time (refused e ∷ naps) ts h honest = tt

-- However often signals break it off, `sleep_us` lasts the microseconds asked for at least, unless a
-- call fails.
pub sleep_us-Lasts :
    (naps : List Nap) (us : ℕ)
    → AreHonest naps (us_timespec us)
    → Lasts (us * 1_000) (sleep_us naps us)
unfolding sleep_us us_timespec
sleep_us-Lasts naps us = sleep_timespec-Lasts 0 (us * 1_000) naps (us_timespec us) (omega arith)

-- And `sleep_ms` lasts the milliseconds.
pub sleep_ms-Lasts :
    (naps : List Nap) (ms : ℕ)
    → AreHonest naps (ms_timespec ms)
    → Lasts (ms * 1_000_000) (sleep_ms naps ms)
unfolding sleep_ms ms_timespec
sleep_ms-Lasts naps ms = sleep_timespec-Lasts 0 (ms * 1_000_000) naps (ms_timespec ms) (omega arith)
