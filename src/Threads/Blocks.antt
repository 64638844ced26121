-- ===== src/Threads/Blocks.antt =====
-- `thread_manager_create` and `thread_manager_destroy` of src/thread/thread_manager.c with the memory of the
-- manager.
use fast_ring.Prelude.{ℕ, Option, none, some}
use fast_ring.Memory.{Allocator}
use fast_ring.Threads
use fast_ring.Threads.{ThreadManager}

-- A manager at its address.
pub record Placed : Type 0 where
  pub address : ℕ
  pub manager : ThreadManager

-- `sizeof(thread_manager_t)` on a 64-bit platform with glibc
abbrev pub thread_manager_size : ℕ
thread_manager_size = 376

module _ (a : Allocator) where
  open a use {Heap, calloc, free}

  -- `thread_manager_create` once `calloc` has answered.
  unfoldable pub with_manager : Option ℕ × Heap → Option Placed × Heap
  with_manager (none, h) = (none, h)
  with_manager (some p, h) = (some (record { address = p; manager = Threads.create }), h)

  -- `thread_manager_create`
  unfoldable pub make : Heap → Option Placed × Heap
  make h = with_manager (calloc h thread_manager_size)

  -- `thread_manager_destroy`: the threads that are joined, and the heap.
  unfoldable pub release : Heap → Option Placed → Option ThreadManager × Heap
  release h none = (none, h)
  release h (some tm) = (some (Threads.destroy tm.manager), free h tm.address)
