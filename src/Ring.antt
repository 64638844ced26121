-- ===== src/Ring.antt =====
-- src/buffer/ring_buffer.c: the ring buffer's operations on a buffer that exists, after their tests for
-- NULL, which `Ring.Guarded` adds. `Ring.Create` is the construction, and the other children prove.
-- A single thread runs here; `Ring.Concurrent` interleaves a producer and a consumer.
pub mod Inv
pub mod Window
pub mod Transfer
pub mod Chunks
pub mod Single
pub mod PushEach
pub mod PushBatch
pub mod PopBatch
pub mod Refine
pub mod Create
pub mod Concurrent
pub mod Guarded
mod Tests
use fast_ring.Prelude.{
  ℕ, ◌+◌, bit_and, Bool, true, false, Option, none, List, [], ◌∷◌, ltb, ◌==◌, if◌then◌else◌, add32,
  sub32, add64, get_elem?, set, take, drop,
}
use fast_ring.Types.{Sample}

-- `ring_buffer_t`. `buffer` is the block that the pointer `buffer` points to.
pub record RingBuffer : Type 0 where
  pub head : ℕ
  pub tail : ℕ
  pub capacity : ℕ
  pub mask : ℕ
  pub buffer : List Sample
  pub dropped : ℕ

-- `ring_buffer_count`
unfoldable pub count : RingBuffer → ℕ
count rb = bit_and (sub32 rb.head rb.tail) rb.mask

-- `ring_buffer_is_empty`
pub is_empty : RingBuffer → Bool
is_empty rb = rb.head == rb.tail

-- The index after `i`: `(i + 1) & rb->mask`.
abbrev pub next_index : RingBuffer → ℕ → ℕ
next_index rb i = bit_and (add32 i 1) rb.mask

-- `ring_buffer_is_full`
pub is_full : RingBuffer → Bool
is_full rb = next_index rb rb.head == rb.tail

-- `ring_buffer_available`
unfoldable pub available : RingBuffer → ℕ
available rb = sub32 (sub32 rb.capacity (count rb)) 1

-- `ring_buffer_push`
unfoldable pub push : RingBuffer → Sample → Bool × RingBuffer
push rb sample =
    let next_head = next_index rb rb.head in
    if next_head == rb.tail
    then (false, record rb { dropped = add64 rb.dropped 1 })
    else (true, record rb { buffer = set rb.buffer rb.head sample; head = next_head })

-- `ring_buffer_pop`. The option is what goes through `sample`; a read outside the block would
-- give `none` beside `true`.
pub pop : RingBuffer → Bool × Option Sample × RingBuffer
pop rb =
    if rb.head == rb.tail
    then (false, none, rb)
    else (true, get_elem? rb.buffer rb.tail, record rb { tail = next_index rb rb.tail })

-- `memcpy(&dst[i], xs, …)`, a sample at a time.
pub write_chunk : List Sample → ℕ → List Sample → List Sample
write_chunk dst i [] = dst
write_chunk dst i (x ∷ xs) = write_chunk (set dst i x) (i + 1) xs

-- The `n` samples of a block from index `i` on, as `memcpy` reads them.
abbrev pub read_chunk : List Sample → ℕ → ℕ → List Sample
read_chunk src i n = take n (drop i src)

-- The number of samples of a transfer of `n` that stand before the end of the block.
abbrev pub first_chunk : RingBuffer → ℕ → ℕ → ℕ
first_chunk rb start n =
    let wrap_point = sub32 rb.capacity start in if ltb wrap_point n then wrap_point else n

-- What `ring_buffer_push_batch` returns, writes through `pushed`, and leaves.
pub record Pushed : Type 0 where
  pub all : Bool
  pub pushed : ℕ
  pub ring : RingBuffer

-- The two `memcpy` calls of `ring_buffer_push_batch`, the second only if the transfer wraps.
pub copy_in : RingBuffer → List Sample → ℕ → List Sample
copy_in rb samples to_push =
    let first = first_chunk rb rb.head to_push in
    let once = write_chunk rb.buffer rb.head (take first samples) in
    if ltb first to_push
    then write_chunk once 0 (take (sub32 to_push first) (drop first samples))
    else once

-- `ring_buffer_push_batch`. `samples` is the caller's array, of which `count` are to be pushed.
unfoldable pub push_batch : RingBuffer → List Sample → ℕ → Pushed
push_batch rb samples n =
    let room = available rb in
    let to_push = if ltb n room then n else room in
    if n == 0
    then record { all = false; pushed = 0; ring = rb }
    else if to_push == 0
    then record { all = false; pushed = 0; ring = record rb { dropped = add64 rb.dropped n } }
    else record {
      all = to_push == n;
      pushed = to_push;
      ring = record rb {
        buffer = copy_in rb samples to_push;
        head = bit_and (add32 rb.head to_push) rb.mask;
        dropped = if ltb to_push n then add64 rb.dropped (sub32 n to_push) else rb.dropped;
      };
    }

-- What `ring_buffer_pop_batch` returns, writes through `samples` and `popped`, and leaves.
pub record Popped : Type 0 where
  pub some_popped : Bool
  pub samples : List Sample
  pub popped : ℕ
  pub ring : RingBuffer

-- The two `memcpy` calls of `ring_buffer_pop_batch` into the caller's array.
pub copy_out : RingBuffer → List Sample → ℕ → List Sample
copy_out rb samples to_pop =
    let first = first_chunk rb rb.tail to_pop in
    let once = write_chunk samples 0 (read_chunk rb.buffer rb.tail first) in
    if ltb first to_pop
    then write_chunk once first (read_chunk rb.buffer 0 (sub32 to_pop first))
    else once

-- `ring_buffer_pop_batch`
unfoldable pub pop_batch : RingBuffer → List Sample → ℕ → Popped
pop_batch rb samples n =
    let current = count rb in
    let to_pop = if ltb n current then n else current in
    if n == 0
    then record { some_popped = false; samples = samples; popped = 0; ring = rb }
    else if to_pop == 0
    then record { some_popped = false; samples = samples; popped = 0; ring = rb }
    else record {
      some_popped = ltb 0 to_pop;
      samples = copy_out rb samples to_pop;
      popped = to_pop;
      ring = record rb { tail = bit_and (add32 rb.tail to_pop) rb.mask };
    }

-- `ring_buffer_clear`
pub clear : RingBuffer → RingBuffer
clear rb = record rb { head = 0; tail = 0; dropped = 0 }
