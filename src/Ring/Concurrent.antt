-- ===== src/Ring/Concurrent.antt =====
-- The ring buffer of src/buffer/ring_buffer.c shared by one producer and one consumer thread. A step of
-- a thread has at most one access to what both use: the read of the other's index with the test on
-- it, the copy of one sample, or the store of the own index. The steps of the two threads come in any
-- order, and all accesses in one order that both see. That is assumed: the pop operations of the source
-- have their only barrier behind the copy, so that a machine with weak ordering may copy before the
-- test.
pub mod Invariant
pub mod Pushes
pub mod Pulls
pub mod Safety
pub mod Steps
pub mod Begin
pub mod Alone
mod Tests
use fast_ring.Prelude.{
  ℕ, zero, suc, ◌+◌, bit_and, List, [], ◌∷◌, ◌++◌, ltb, ◌==◌, if◌then◌else◌, add32, sub32, add64,
  length, set, take,
}
use fast_ring.Types.{Sample}
use fast_ring.Ring.{RingBuffer, count, available, next_index, read_chunk}
use fast_ring.Ring.Window.{contents}

-- The calls of the producer, and those of the consumer.
pub data Push : Type 0 where
  one : Sample → Push
  batch : List Sample → Push

pub data Pull : Type 0 where
  single : Pull
  up_to : ℕ → Pull

-- A push after its test: the slot to write next, the samples to write and those written, the head to
-- be stored, and how many samples found no room.
pub record Write : Type 0 where
  pub slot : ℕ
  pub left : List Sample
  pub written : List Sample
  pub next_head : ℕ
  pub short : ℕ

-- A pop after its test: the slot to read next, how many are to be read, the samples read, and the tail
-- to be stored.
pub record Read : Type 0 where
  pub slot : ℕ
  pub left : ℕ
  pub copied : List Sample
  pub next_tail : ℕ

pub data Producer : Type 0 where
  resting : Producer
  writing : Write → Producer

pub data Consumer : Type 0 where
  waiting : Consumer
  reading : Read → Consumer

-- `accepted` and `taken` are no part of the program: they list the samples pushed and popped so far.
pub record System : Type 0 where
  pub ring : RingBuffer
  pub producer : Producer
  pub consumer : Consumer
  pub accepted : List Sample
  pub taken : List Sample

-- The slot after `i` in a transfer: the second `memcpy` starts at `buffer[0]`.
abbrev pub following : RingBuffer → ℕ → ℕ
following rb i = if i + 1 == rb.capacity then 0 else i + 1

-- The test of `ring_buffer_push` and of `ring_buffer_push_batch`, up to the first write.
unfoldable pub begin_push : RingBuffer → Push → Producer × RingBuffer
begin_push rb (one x) =
    let next_head = next_index rb rb.head in
    if next_head == rb.tail then (resting, record rb { dropped = add64 rb.dropped 1 }) else (
      writing (record {
        slot = rb.head;
        left = x ∷ [];
        written = [];
        next_head = next_head;
        short = 0;
      }),
      rb,
    )
begin_push rb (batch xs) =
    let n = length xs in
    let room = available rb in
    let to_push = if ltb n room then n else room in
    if n == 0
    then (resting, rb)
    else if to_push == 0
    then (resting, record rb { dropped = add64 rb.dropped n })
    else (
      writing (record {
        slot = rb.head;
        left = take to_push xs;
        written = [];
        next_head = bit_and (add32 rb.head to_push) rb.mask;
        short = if ltb to_push n then sub32 n to_push else 0;
      }),
      rb,
    )

-- The test of `ring_buffer_pop` and of `ring_buffer_pop_batch`, up to the first read.
unfoldable pub begin_pop : RingBuffer → Pull → Consumer
begin_pop rb single =
    if rb.head == rb.tail
    then waiting
    else reading
        (record { slot = rb.tail; left = 1; copied = []; next_tail = next_index rb rb.tail })
begin_pop rb (up_to n) =
    let current = count rb in
    let to_pop = if ltb n current then n else current in
    if n == 0
    then waiting
    else if to_pop == 0
    then waiting
    else reading (record {
      slot = rb.tail;
      left = to_pop;
      copied = [];
      next_tail = bit_and (add32 rb.tail to_pop) rb.mask;
    })

-- The copy of one sample into the block, or with none left the store of the head.
unfoldable pub write_step : System → Write → List Sample → System
write_step s w (x ∷ xs) = record s {
  ring = record s.ring { buffer = set s.ring.buffer w.slot x };
  producer =
      writing
        (record w { slot = following s.ring w.slot; left = xs; written = w.written ++ (x ∷ []) });
}
write_step s w [] = record s {
  ring = record s.ring { head = w.next_head; dropped = add64 s.ring.dropped w.short };
  producer = resting;
  accepted = s.accepted ++ w.written;
}

-- The copy of one sample out of the block, or with none left the store of the tail.
unfoldable pub read_step : System → Read → ℕ → System
read_step s r (suc n) = record s {
  consumer = reading (record r {
    slot = following s.ring r.slot;
    left = n;
    copied = r.copied ++ read_chunk s.ring.buffer r.slot 1;
  });
}
read_step s r zero = record s {
  ring = record s.ring { tail = r.next_tail };
  consumer = waiting;
  taken = s.taken ++ r.copied;
}

-- A step of the producer; the call is the one that it makes if it is in none.
unfoldable pub produce : System → Push → System
produce s call = elim s.producer [
  | resting ↦ let (p, rb) = begin_push s.ring call in record s { ring = rb; producer = p }
  | writing w ↦ write_step s w w.left
]

unfoldable pub consume : System → Pull → System
consume s call = elim s.consumer [
  | waiting ↦ record s { consumer = begin_pop s.ring call }
  | reading r ↦ read_step s r r.left
]

-- Whose step it is.
pub data Turn : Type 0 where
  producer_turn : Push → Turn
  consumer_turn : Pull → Turn

unfoldable pub turn : System → Turn → System
turn s (producer_turn call) = produce s call
turn s (consumer_turn call) = consume s call

unfoldable pub run : System → List Turn → System
run s [] = s
run s (t ∷ ts) = run (turn s t) ts

-- Both threads between calls; what the buffer holds counts as accepted.
abbrev pub start : RingBuffer → System
start rb = record {
  ring = rb;
  producer = resting;
  consumer = waiting;
  accepted = contents rb;
  taken = [];
}
