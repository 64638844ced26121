-- ===== src/Ring/Guarded/Expected.antt =====
-- What a user may expect of the operations of src/buffer/ring_buffer.c on any pointers: a queue, which has
-- no room if the buffer pointer is NULL.
use fast_ring.Prelude.{
  ℕ, ◌-◌, true, false, ◌&&◌, Option, none, some, List, [], ◌∷◌, ◌++◌, ltb, ◌==◌, if◌then◌else◌,
  length, take, drop, min,
}
use fast_ring.Types.{Sample}
use fast_ring.Ring.{RingBuffer}
use fast_ring.Ring.Window.{contents}
use fast_ring.Ring.Refine.{room}
use fast_ring.Ring.Guarded.{
  Call, ask_push, ask_pop, ask_push_batch, ask_pop_batch, ask_count, ask_is_empty, ask_is_full,
  ask_available, ask_clear, Answer, said, popped, pushed_batch, popped_batch, number, nothing,
}

-- The queue behind a pointer: its room and its samples.
abbrev pub room_of : Option RingBuffer → ℕ
room_of none = 0
room_of (some rb) = room rb

abbrev pub held_of : Option RingBuffer → List Sample
held_of none = []
held_of (some rb) = contents rb

-- What a queue of at most `r` samples answers. A NULL for the samples or the array makes the call fail
-- and changes nothing.
unfoldable pub expected : ℕ → List Sample → Call → Answer × List Sample
expected r q (ask_push none) = (said false, q)
expected r q (ask_push (some x)) =
    if length q == r then (said false, q) else (said true, q ++ (x ∷ []))
expected r q (ask_pop false) = (popped false none, q)
expected r q (ask_pop true) = elim q [
  | [] ↦ (popped false none, [])
  | x ∷ rest ↦ (popped true (some x), rest)
]
expected r q (ask_push_batch none n) = (pushed_batch false 0, q)
expected r q (ask_push_batch (some xs) n) =
    let k = min n (r - length q) in (pushed_batch (ltb 0 n && k == n) k, q ++ take k xs)
expected r q (ask_pop_batch none n) = (popped_batch false 0 [], q)
expected r q (ask_pop_batch (some dst) n) =
    let k = min n (length q) in (popped_batch (ltb 0 k) k (take k q ++ drop k dst), drop k q)
expected r q ask_count = (number (length q), q)
expected r q ask_is_empty = (said (length q == 0), q)
expected r q ask_is_full = (said (length q == r), q)
expected r q ask_available = (number (r - length q), q)
expected r q ask_clear = (nothing, [])

unfoldable pub expected_all : ℕ → List Sample → List Call → List Answer × List Sample
expected_all r q [] = ([], q)
expected_all r q (c ∷ cs) =
    let (answer, q') = expected r q c in
    let (answers, q'') = expected_all r q' cs in (answer ∷ answers, q'')
