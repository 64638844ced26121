-- ===== src/Main/Loop.antt =====
-- The main loop of src/main.c. The printing is left out; what is left of it is when it happens.
use fast_ring.Prelude.{ℕ, ◌*◌, ◌^◌, Bool, not, ◌&&◌, List, [], ◌∷◌, ltb, leb, if◌then◌else◌, sub64}

-- A round: what it reads of `g_running`, and the time in milliseconds.
pub record Turn : Type 0 where
  pub is_running : Bool
  pub current_time : ℕ

-- Where the rounds have led: a signal ended the loop, or the time limit did, or it goes on; with the
-- times at which the statistics were printed, the last first.
pub data Outcome : Type 0 where
  signalled : List ℕ → Outcome
  expired : ℕ → List ℕ → Outcome
  going : List ℕ → Outcome

-- The comparison with the time limit; `run_time_seconds` is the bits of an `int`, of which 0 and the
-- negative numbers mean no limit.
unfoldable pub is_expired : ℕ → ℕ → ℕ → Bool
is_expired run_time_seconds start_time current_time =
    (ltb 0 run_time_seconds && ltb run_time_seconds (2 ^ 31))
    && leb (run_time_seconds * 1_000) (sub64 current_time start_time)

-- Whether it is time to print.
unfoldable pub is_due : ℕ → ℕ → Bool
is_due last_stats_time current_time = leb 5_000 (sub64 current_time last_stats_time)

-- The loop over the rounds, with the time of the last statistics and the times of all.
unfoldable pub main_loop : ℕ → ℕ → ℕ → List ℕ → List Turn → Outcome
main_loop run_time_seconds start last printed [] = going printed
main_loop run_time_seconds start last printed (t ∷ ts) =
    let due = is_due last t.current_time in
    let later =
      main_loop run_time_seconds start (if due then t.current_time else last)
        (if due then t.current_time ∷ printed else printed) ts in
    if not t.is_running
    then signalled printed
    else if is_expired run_time_seconds start t.current_time
    then expired t.current_time printed
    else later
