-- ===== src/Threads/Tests.antt =====
-- Starting and stopping with three threads, and with a third that cannot be created.
use fast_ring.Prelude.{ℕ, ◌<◌, ◌≡◌, refl, Bool, true, false, none, some, List, [], ◌∷◌, ltb}
use fast_ring.Types.{error_thread}
use fast_ring.Threads.{init, create, ThreadManager, idle, start, start_loop, destroy}
use fast_ring.Threads.Calls.{
  Call, start_call, stop_call, pause_call, resume_call, worker_call, call_all, IsOrderly,
  call_all-IsOrderly,
}
use fast_ring.Threads.Lifecycle.{at_rest, first, Starts, start-Starts, destroy-start}

abbrev before : ThreadManager
before = at_rest none idle idle idle false []

abbrev two_only : ℕ → Bool
two_only i = ltb i 2

start-Starts_example : Starts two_only (start two_only before)
start-Starts_example = start-Starts none idle idle idle false [] two_only

two_start : (start two_only before).0 ≡ error_thread
unfolding start start_loop
two_start = refl

destroy-start_example :
    (i : ℕ) × (i < 3)
    × (two_only i ≡ false)
    × ((destroy (start two_only before).1).unjoined ≡ first i)
destroy-start_example = destroy-start none idle idle idle false [] two_only two_start

abbrev everyone : ℕ → Bool
everyone i = true

abbrev course : List Call
course =
    start_call everyone
    ∷ pause_call
    ∷ start_call everyone
    ∷ worker_call 1 none 5
    ∷ stop_call
    ∷ start_call everyone
    ∷ resume_call
    ∷ []

call_all-IsOrderly_example : let (err, tm) = init create (some 4) in IsOrderly (call_all tm course)
call_all-IsOrderly_example =
    call_all-IsOrderly 4 course (refl, refl, refl, (refl, refl, refl, (refl, refl, refl, tt)))
