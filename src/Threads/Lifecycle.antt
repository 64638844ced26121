-- ===== src/Threads/Lifecycle.antt =====
-- Starting and stopping the threads of src/thread/thread_manager.c.
use fast_ring.Prelude.{
  ℕ, ◌<◌, ◌≡◌, ◌⊎◌, inl, inr, refl, ap, arith, Bool, true, false, Option, some, List, [], ◌∷◌, take,
  ◌≢◌, ◌∙◌, if◌then◌else◌, Bool-cases,
}
use fast_ring.Types.{AdcError, ok, error_thread}
use fast_ring.Threads.{
  ThreadState, idle, running, stopped, Context, ThreadManager, start_loop, start, join, stop_loop,
  stop, destroy, create, init,
}

-- A manager that does not run, in whatever state its three threads are, with none to be joined.
abbrev pub at_rest :
    Option ℕ → ThreadState → ThreadState → ThreadState → Bool → List Context → ThreadManager
at_rest bm s0 s1 s2 p contexts = record {
  buffer_manager = bm;
  states = s0 ∷ s1 ∷ s2 ∷ [];
  is_running = false;
  is_paused = p;
  contexts = contexts;
  unjoined = [];
}

-- The first `i` threads.
abbrev pub first : ℕ → List ℕ
first i = take i (0 ∷ 1 ∷ 2 ∷ [])

-- All threads run; or one could not be created, and those before it run while the manager does not.
abbrev pub Starts : (ℕ → Bool) → AdcError × ThreadManager → Type 0
Starts creates (err, tm) =
    ((err ≡ ok)
      × (tm.is_running ≡ true)
      × (tm.is_paused ≡ false)
      × (tm.states ≡ running ∷ running ∷ running ∷ [])
      × (tm.unjoined ≡ first 3))
    ⊎ ((i : ℕ) × (i < 3)
        × (creates i ≡ false)
        × (err ≡ error_thread)
        × (tm.is_running ≡ false)
        × (tm.unjoined ≡ first i))

untouched : (tm : ThreadManager) → tm.is_running ≡ false → (destroy tm).unjoined ≡ tm.unjoined
unfolding destroy
untouched tm down = ap (λ b. (if b then (stop tm).1 else tm).unjoined) down

module _ (bm : Option ℕ) (s0 s1 s2 : ThreadState) (p : Bool) (contexts : List Context)
    (creates : ℕ → Bool) where
  -- `thread_manager_start` of a manager at rest starts all three threads and reports success, or starts
  -- those before the first that cannot be created, reports an error and leaves the manager not
  -- running.
  pub start-Starts : Starts creates (start creates (at_rest bm s0 s1 s2 p contexts))
  unfolding start start_loop
  start-Starts = elim (Bool-cases (creates 0)) [
    | inr e0 ↦ rw (e0, start_loop) (inr (0, omega arith, e0, refl, refl, refl))
    | inl e0 ↦ elim (Bool-cases (creates 1)) [
      | inr e1 ↦ rw (e0, e1, start_loop) (inr (1, omega arith, e1, refl, refl, refl))
      | inl e1 ↦ elim (Bool-cases (creates 2)) [
        | inr e2 ↦ rw (e0, e1, e2, start_loop) (inr (2, omega arith, e2, refl, refl, refl))
        | inl e2 ↦ rw (e0, e1, e2, start_loop) (inl (refl, refl, refl, refl, refl))
      ]
    ]
  ]

  -- `thread_manager_stop` after a `thread_manager_start` that reported success joins every thread and
  -- leaves all of them stopped, the manager not running and nothing else changed but the pause undone.
  pub stop-start :
      (start creates (at_rest bm s0 s1 s2 p contexts)).0 ≡ ok
      → stop (start creates (at_rest bm s0 s1 s2 p contexts)).1
        ≡ (ok, at_rest bm stopped stopped stopped false contexts)
  unfolding start start_loop stop stop_loop join
  stop-start success = elim (Bool-cases (creates 0)) [
    | inr e0 ↦ absurd (failed (rw (e0, start_loop) at success))
    | inl e0 ↦ elim (Bool-cases (creates 1)) [
      | inr e1 ↦ absurd (failed (rw (e0, e1, start_loop) at success))
      | inl e1 ↦ elim (Bool-cases (creates 2)) [
        | inr e2 ↦ absurd (failed (rw (e0, e1, e2, start_loop) at success))
        | inl e2 ↦ rw (e0, e1, e2, start_loop) refl
      ]
    ]
  ]
    where
      failed : error_thread ≢ ok
      failed e = ground (arith, e)

  -- When `thread_manager_start` reports an error, `thread_manager_destroy` joins none of the threads
  -- that it started: those before the one that could not be created are left.
  pub destroy-start :
      (start creates (at_rest bm s0 s1 s2 p contexts)).0 ≡ error_thread
      → (i : ℕ) × (i < 3)
        × (creates i ≡ false)
        × ((destroy (start creates (at_rest bm s0 s1 s2 p contexts)).1).unjoined ≡ first i)
  destroy-start lost = elim start-Starts [
    | inl (e, up, open_run, all, held) ↦ absurd (ground (arith, e, lost))
    | inr (i, low, e, err, down, left) ↦ (i, low, e, untouched _ down ∙ left)
  ]

-- `thread_manager_init` of a new manager leaves it at rest.
pub init-create :
    (bm : ℕ)
    → (contexts : List Context) × (init create (some bm)
        ≡ (ok, at_rest (some bm) idle idle idle false contexts))
unfolding init create
init-create bm = (_, refl)

module _ (bm : Option ℕ) (s0 s1 s2 : ThreadState) (p : Bool) (contexts : List Context)
    (creates : ℕ → Bool) where
  -- `thread_manager_destroy` joins all the threads that `thread_manager_start` has started with success.
  pub unjoined-destroy :
      (start creates (at_rest bm s0 s1 s2 p contexts)).0 ≡ ok
      → (start creates (at_rest bm s0 s1 s2 p contexts)).1.is_running ≡ true
      → (destroy (start creates (at_rest bm s0 s1 s2 p contexts)).1).unjoined ≡ []
  unfolding destroy
  unjoined-destroy success up =
      let m = (start creates (at_rest bm s0 s1 s2 p contexts)).1 in
      ap (λ b. (if b then (stop m).1 else m).unjoined) up
      ∙ ap (λ (out : AdcError × ThreadManager). out.1.unjoined)
          (stop-start bm s0 s1 s2 p contexts creates success)
