-- ===== src/Workers/Capture.antt =====
-- `capture_thread_worker` of src/thread/thread_workers.c: the making of the simulator and its restart.
use fast_ring.Prelude.{
  ℕ, ◌≡◌, refl, sym, subst, Bool, true, Option, none, some, List, [], ◌∷◌, if◌then◌else◌, by_test,
}
use fast_ring.Types.{AdcError}
use fast_ring.Memory.{Allocator, Allocates}
use fast_ring.Adc
use fast_ring.Adc.{Simulator, default_config, simulator_size}
use fast_ring.Adc.Lifecycle.{IsTended, start-IsTended}
use fast_ring.Manager.{Manager}
use fast_ring.Ring.Create.{Handle}

-- Whether a thread can be created, and the time.
pub record Chance : Type 0 where
  pub creates : Bool
  pub now : ℕ

-- `adc_simulator_start`, and the restart of a simulator that does not run.
unfoldable pub start_by : Chance → Simulator → Simulator
start_by chance adc = (Adc.start chance.creates chance.now adc).1

unfoldable pub restart : Chance → Simulator → Simulator
restart chance adc = if adc.is_running then adc else start_by chance adc

-- The callback and `cb_data` are known by their addresses.
module _ (a : Allocator) (callback cb_data : ℕ) where
  open a use {Heap, live}

  -- A new simulator with its callback, started. What stands at `cb_data`, the capture buffer and the
  -- statistics, is what `adc_sample_callback` of `Workers` takes.
  unfoldable pub set_up : Chance → Simulator → Simulator
  set_up chance adc =
      start_by chance (record adc { callback = some callback; callback_data = cb_data })

  -- What `adc_simulator_create` gives
  unfoldable pub with_simulator :
      Chance → Chance → Option Simulator × Heap → Option Simulator × Heap
  with_simulator first second (none, h) = (none, h)
  with_simulator first second (some adc, h) = (some (restart second (set_up first adc)), h)

  -- `capture_thread_worker` by the buffer manager, the simulator of the thread manager, and the heap; what
  -- the threads can do at its two starts is given.
  unfoldable pub capture_thread_worker :
      Chance → Chance → Option Manager → Option Simulator × Heap → Option Simulator × Heap
  capture_thread_worker first second none (adc, h) = (adc, h)
  capture_thread_worker first second (some bm) (adc, h) = elim bm.capture_to_process [
    | none ↦ (adc, h)
    | some buffer ↦ elim adc [
      | none ↦ with_simulator first second (Adc.create a h (some default_config))
      | some adc ↦ (some (restart second adc), h)
    ]
  ]

  -- The rounds of the capture thread
  unfoldable pub capture_rounds :
      List (Chance × Chance × Option Manager) → Option Simulator × Heap → Option Simulator × Heap
  capture_rounds [] s = s
  capture_rounds ((first, second, bm) ∷ rounds) s =
      capture_rounds rounds (capture_thread_worker first second bm s)

  -- The simulator hands its samples to the callback, has no more threads than it should, and stands in the one
  -- block that was taken; without it no block was.
  pub record IsEquipped (before : ℕ → Bool) (adc : Simulator) (h : Heap) : Type 0 where
    pub calls : adc.callback ≡ some callback
    pub data_set : adc.callback_data ≡ cb_data
    pub tended : IsTended adc.address adc
    pub one_block : Allocates before (live h) (some adc.address)

  abbrev pub Captures : (ℕ → Bool) → Option Simulator × Heap → Type 0
  Captures before (none, h) = (q : ℕ) → live h q ≡ before q
  Captures before (some adc, h) = IsEquipped before adc h

  start_by-IsEquipped :
      (before : ℕ → Bool) (chance : Chance) (adc : Simulator) (h : Heap)
      → IsEquipped before adc h
      → IsEquipped before (start_by chance adc) h
  unfolding start_by Adc.start
  start_by-IsEquipped before chance adc h s =
      let P = λ (out : AdcError × Simulator).
        (out.1.callback ≡ some callback)
        × (out.1.callback_data ≡ cb_data)
        × (out.1.address ≡ adc.address) in
      let kept : P (Adc.start chance.creates chance.now adc) =
        by_test P adc.is_running (λ e. (s.calls, s.data_set, refl))
          (λ e.
            by_test P chance.creates (λ f. (s.calls, s.data_set, refl))
              (λ f. (s.calls, s.data_set, refl))) in
      let tended = start-IsTended chance.creates chance.now adc.address adc s.tended in
      record {
        calls = kept.0;
        data_set = kept.1;
        tended = record { placed = refl; joined = tended.joined };
        one_block = subst (λ p. Allocates before (live h) (some p)) (sym kept.2) s.one_block;
      }

  restart-IsEquipped :
      (before : ℕ → Bool) (chance : Chance) (adc : Simulator) (h : Heap)
      → IsEquipped before adc h
      → IsEquipped before (restart chance adc) h
  unfolding restart
  restart-IsEquipped before chance adc h s =
      by_test (λ x. IsEquipped before x h) adc.is_running (λ e. s)
        (λ e. start_by-IsEquipped before chance adc h s)

  with_simulator-Captures :
      (before : Heap) (first second : Chance) (r : Option ℕ × Heap)
      → Allocates (live before) (live r.1) r.0
      → Captures
          (live before)
          (with_simulator first second (Adc.with_memory a (some default_config) r))
  unfolding with_simulator set_up Adc.with_memory
  with_simulator-Captures before first second (none, h) same = same
  with_simulator-Captures before first second (some p, h) taken =
      restart-IsEquipped (live before) second _ h (
        start_by-IsEquipped (live before) first _ h (record {
          calls = refl;
          data_set = refl;
          tended = record { placed = refl; joined = refl };
          one_block = taken;
        }))

  capture_thread_worker-Captures :
      (before : Heap) (first second : Chance) (bm : Option Manager) (s : Option Simulator × Heap)
      → Captures (live before) s
      → Captures (live before) (capture_thread_worker first second bm s)
  unfolding capture_thread_worker Adc.create
  capture_thread_worker-Captures before first second none s c = c
  capture_thread_worker-Captures before first second (some bm) (adc, h) c =
      go bm.capture_to_process adc c
    where
      go :
          (buffer : Option Handle) (adc : Option Simulator)
          → Captures (live before) (adc, h)
          → Captures (live before) (elim buffer [
            | none ↦ (adc, h)
            | some b ↦ elim adc [
              | none ↦ with_simulator first second (Adc.create a h (some default_config))
              | some x ↦ (some (restart second x), h)
            ]
          ])
      go none adc c = c
      go (some b) none c =
          subst
            (λ f. Captures f (with_simulator first second (Adc.create a h (some default_config))))
            (λ i q. c q i)
            (with_simulator-Captures h first second (a.calloc h simulator_size)
              (a.calloc_lem h simulator_size))
      go (some b) (some x) c = restart-IsEquipped (live before) second x h c

  rounds-Captures :
      (before : Heap) (rounds : List (Chance × Chance × Option Manager))
      (s : Option Simulator × Heap)
      → Captures (live before) s
      → Captures (live before) (capture_rounds rounds s)
  unfolding capture_rounds
  rounds-Captures before [] s c = c
  rounds-Captures before ((first, second, bm) ∷ rounds) s c =
      rounds-Captures before rounds (capture_thread_worker first second bm s)
        (capture_thread_worker-Captures before first second bm s c)

  -- However often the capture thread goes round, whatever buffers it finds, and whichever allocations
  -- and threads fail, it makes one simulator at most: there is none and the heap is as it was, or there is one in
  -- the only new block, with the callback of the capture buffer and at most one thread, one exactly
  -- while it runs.
  pub capture_rounds-Captures :
      (before : Heap) (rounds : List (Chance × Chance × Option Manager))
      → Captures (live before) (capture_rounds rounds (none, before))
  capture_rounds-Captures before rounds = rounds-Captures before rounds (none, before) (λ q. refl)

start_by-runs :
    (now : ℕ) (adc : Simulator)
    → (start_by (record { creates = true; now = now }) adc).is_running ≡ true
unfolding start_by Adc.start
start_by-runs now adc =
    by_test (λ (out : AdcError × Simulator). out.1.is_running ≡ true) adc.is_running (λ e. e)
      (λ e. refl)

-- A simulator that the capture thread finds or makes runs after the round, if a thread can be created at
-- its second start.
pub restart-runs :
    (now : ℕ) (adc : Simulator)
    → (restart (record { creates = true; now = now }) adc).is_running ≡ true
unfolding restart
restart-runs now adc =
    by_test (λ (x : Simulator). x.is_running ≡ true) adc.is_running (λ e. e)
      (λ e. start_by-runs now adc)
