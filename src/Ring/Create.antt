-- ===== src/Ring/Create.antt =====
-- `ring_buffer_create` and `ring_buffer_destroy` of src/buffer/ring_buffer.c, over the allocator of
-- `Memory`. The loop that rounds the capacity up takes fuel: `none` where it has not ended.
pub mod Rounding
pub mod Blocks
mod Tests
use fast_ring.Prelude.{
  ℕ, zero, suc, ◌*◌, ◌%◌, bit_and, true, false, Option, none, some, ltb, ◌==◌, if◌then◌else◌, sub32,
  u32_mod,
}
use fast_ring.Types.{sample_size}
use fast_ring.Memory.{Allocator}
use fast_ring.Ring.{RingBuffer}

-- `while (power < capacity) power <<= 1;` on 32-bit words
unfoldable pub next_power : ℕ → ℕ → ℕ → Option ℕ
next_power zero power capacity = none
next_power (suc fuel) power capacity = elim (ltb power capacity) [
  | true ↦ next_power fuel (power * 2 % u32_mod) capacity
  | false ↦ some power
]

-- The capacity that `ring_buffer_create` takes for the one asked for.
unfoldable pub round_up : ℕ → ℕ → Option ℕ
round_up fuel capacity =
    let at_least = if ltb capacity 2 then 2 else capacity in
    if bit_and at_least (sub32 at_least 1) == 0 then some at_least else next_power fuel 1 at_least

-- A `ring_buffer_t *` that is not NULL: its address, that of its data block, and what it points to.
pub record Handle : Type 0 where
  pub address : ℕ
  pub storage : ℕ
  pub ring : RingBuffer

-- `sizeof(ring_buffer_t)` on a 64-bit platform
abbrev pub control_size : ℕ
control_size = 32

module _ (a : Allocator) where
  open a use {Heap, calloc, memalign, free, fresh_samples}

  -- What follows the allocation of the data block, in the control block at `rb`.
  unfoldable pub with_block : ℕ → ℕ → Option ℕ × Heap → Option Handle × Heap
  with_block capacity rb (none, h) = (none, free h rb)
  with_block capacity rb (some block, h) = (
    some (record {
      address = rb;
      storage = block;
      ring = record {
        head = 0;
        tail = 0;
        capacity = capacity;
        mask = sub32 capacity 1;
        buffer = fresh_samples h block capacity;
        dropped = 0;
      };
    }),
    h,
  )

  -- What follows the allocation of the control block. `size_t` is 64 bits wide, so the product does
  -- not wrap.
  unfoldable pub with_control : ℕ → Option ℕ × Heap → Option Handle × Heap
  with_control capacity (none, h) = (none, h)
  with_control capacity (some rb, h) =
      with_block capacity rb (memalign h 64 (capacity * sample_size))

  -- `ring_buffer_create` from the two allocations on.
  unfoldable pub allocate : Heap → ℕ → Option Handle × Heap
  allocate h capacity = with_control capacity (calloc h control_size)

  -- `ring_buffer_create`; the outer `none` is a call that has not returned.
  unfoldable pub create : ℕ → Heap → ℕ → Option (Option Handle × Heap)
  create fuel h capacity = elim (round_up fuel capacity) [
    | none ↦ none
    | some rounded ↦ some (allocate h rounded)
  ]

  -- `ring_buffer_destroy`
  unfoldable pub destroy : Heap → Option Handle → Heap
  destroy h none = h
  destroy h (some rb) = free (free h rb.storage) rb.address
