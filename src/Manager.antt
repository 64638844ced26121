-- ===== src/Manager.antt =====
-- `buffer_manager_t` of src/buffer/ring_buffer.c: the three ring buffers of the pipeline, made and
-- released together, over the allocator of `Memory`.
pub mod Lifetime
pub mod Init
pub mod Release
mod Tests
use mathlib.Core.Option
use fast_ring.Prelude.{ℕ, Option, none, some}
use fast_ring.Types.{AdcError, ok, error_buffer, error_invalid_param, ring_buffer_size}
use fast_ring.Memory.{Allocator}
use fast_ring.Ring.Create
use fast_ring.Ring.Create.{Handle}

-- `buffer_manager_t`, with the address at which it stands; `none` is NULL.
pub record Manager : Type 0 where
  pub address : ℕ
  pub capture_to_process : Option Handle
  pub process_to_network : Option Handle
  pub network_pool : Option Handle

-- `sizeof(buffer_manager_t)` on a 64-bit platform
abbrev manager_size : ℕ
manager_size = 24

module _ (a : Allocator) where
  open a use {Heap, calloc, free}

  -- `buffer_manager_create` once `calloc` has answered; the block is zeroed.
  unfoldable pub with_block : Option ℕ × Heap → Option Manager × Heap
  with_block (none, h) = (none, h)
  with_block (some p, h) = (
    some (record {
      address = p;
      capture_to_process = none;
      process_to_network = none;
      network_pool = none;
    }),
    h,
  )

  -- `buffer_manager_create`
  unfoldable pub create : Heap → Option Manager × Heap
  create h = with_block (calloc h manager_size)

  -- `buffer_manager_destroy`
  pub destroy : Heap → Option Manager → Heap
  destroy h none = h
  destroy h (some bm) =
      let h1 = Create.destroy a h bm.capture_to_process in
      let h2 = Create.destroy a h1 bm.process_to_network in
      free (Create.destroy a h2 bm.network_pool) bm.address

  -- What `buffer_manager_init` does with the third buffer made, or not made,
  unfoldable pub with_pool : Manager → Option Handle × Heap → AdcError × Manager × Heap
  with_pool bm (none, h) = (
    error_buffer,
    record bm { capture_to_process = none; process_to_network = none; network_pool = none },
    Create.destroy a (Create.destroy a h bm.capture_to_process) bm.process_to_network,
  )
  with_pool bm (some hd, h) = (ok, record bm { network_pool = some hd }, h)

  module _ (fuel : ℕ) where
    -- with the second,
    unfoldable pub with_process :
        Manager → Option Handle × Heap → Option (AdcError × Manager × Heap)
    with_process bm (none, h) = some (
      error_buffer,
      record bm { capture_to_process = none; process_to_network = none },
      Create.destroy a h bm.capture_to_process,
    )
    with_process bm (some hd, h) =
        Option.map (with_pool (record bm { process_to_network = some hd }))
          (Create.create a fuel h ring_buffer_size)

    -- and with the first.
    unfoldable pub with_capture :
        Manager → Option Handle × Heap → Option (AdcError × Manager × Heap)
    with_capture bm (none, h) = some (error_buffer, record bm { capture_to_process = none }, h)
    with_capture bm (some hd, h) =
        Option.bind (Create.create a fuel h ring_buffer_size)
          (with_process (record bm { capture_to_process = some hd }))

    -- `buffer_manager_init` on a manager that is not NULL; `none` is a call that has not returned.
    unfoldable pub init : Heap → Manager → Option (AdcError × Manager × Heap)
    init h bm = Option.bind (Create.create a fuel h ring_buffer_size) (with_capture bm)
