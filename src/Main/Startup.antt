-- ===== src/Main/Startup.antt =====
-- The making of the parts by `main` of src/main.c, each failure on the way, and their release. `none` is a
-- call that has not returned. What the threads allocate while they run is left out.
use fast_ring.Prelude.{ℕ, Bool, Option, none, some}
use fast_ring.Types.{AdcError, ok}
use fast_ring.Memory.{Allocator}
use fast_ring.Manager
use fast_ring.Manager.{Manager}
use fast_ring.Threads
use fast_ring.Threads.{ThreadManager}
use fast_ring.Threads.Blocks.{Placed, make, release}

module _ (a : Allocator) (creates : ℕ → Bool) where
  open a use {Heap}

  -- Exit with 1, with the threads that were not joined if any were started; or all is running.
  pub data Start : Type 0 where
    failed : Option ThreadManager → Heap → Start
    started : Manager → Placed → Heap → Start

  -- The cleaning up of an error path: the thread manager first, then the buffer manager.
  unfoldable pub clean_up : Heap → Option Placed → Manager → Option ThreadManager × Heap
  clean_up h tm bm = let (left, h') = release a h tm in (left, Manager.destroy a h' (some bm))

  unfoldable pub abandon : Heap → Placed → Manager → Start
  abandon h tm bm = let (left, h') = clean_up h (some tm) bm in failed left h'

  -- What `thread_manager_start` reports
  unfoldable pub with_start : Manager → Placed → Heap → AdcError × ThreadManager → Start
  with_start bm tm h (ok, m) = started bm (record tm { manager = m }) h
  with_start bm tm h (_, m) = abandon h (record tm { manager = m }) bm

  -- What `thread_manager_init` reports
  unfoldable pub with_init : Manager → Placed → Heap → AdcError × ThreadManager → Start
  with_init bm tm h (ok, m) = with_start bm (record tm { manager = m }) h (Threads.start creates m)
  with_init bm tm h (_, m) = abandon h (record tm { manager = m }) bm

  -- What `thread_manager_create` gives
  unfoldable pub with_threads : Manager → Option Placed × Heap → Start
  with_threads bm (none, h) = failed none (Manager.destroy a h (some bm))
  with_threads bm (some tm, h) = with_init bm tm h (Threads.init tm.manager (some bm.address))

  -- What `buffer_manager_init` reports
  unfoldable pub with_buffers : AdcError × Manager × Heap → Start
  with_buffers (ok, bm, h) = with_threads bm (make a h)
  with_buffers (_, bm, h) = failed none (Manager.destroy a h (some bm))

  -- What `buffer_manager_create` gives
  unfoldable pub with_buffer_manager : ℕ → Option Manager × Heap → Option Start
  with_buffer_manager fuel (none, h) = some (failed none h)
  with_buffer_manager fuel (some bm, h) = elim (Manager.init a fuel h bm) [
    | none ↦ none
    | some out ↦ some (with_buffers out)
  ]

  -- `main` from the buffer manager to the start of the threads
  unfoldable pub start_up : ℕ → Heap → Option Start
  start_up fuel h = with_buffer_manager fuel (Manager.create a h)

  -- `main` behind the main loop
  unfoldable pub shut_down : Heap → Manager → Placed → Option ThreadManager × Heap
  shut_down h bm tm = clean_up h (some tm) bm
