-- ===== src/Ring/Guarded/Answers.antt =====
-- What the operations of src/buffer/ring_buffer.c answer to any pointers, NULL among them, against the queue
-- that the buffer pointer leads to: NULL leads to a queue without room.
use fast_ring.Prelude.{◌≡◌, Option}
use fast_ring.Queue
use fast_ring.Queue.{Queue}
use fast_ring.Ring.{RingBuffer}
use fast_ring.Ring.Guarded.{Call, call, IsPointer}
use fast_ring.Ring.Guarded.Expected.{room_of, held_of, expected}

-- What a call promises of a pointer
pub record Answers (p : Option RingBuffer) (c : Call) : Type 0 where
  pub valid : IsPointer (call p c).1
  pub same_room : room_of (call p c).1 ≡ room_of p
  pub answered : ((call p c).0, held_of (call p c).1) ≡ expected (room_of p) (held_of p) c
