-- ===== src/Ring/Guarded.antt =====
-- The operations of src/buffer/ring_buffer.c with their tests for NULL: a pointer is an option. What a
-- call leaves of a buffer that is not NULL comes back with the results.
pub mod Expected
pub mod Answers
mod Tests
use fast_ring.Prelude.{
  ℕ, ◌≡◌, ◌≤◌, ◌<◌, refl, arith, Bool, true, false, Option, none, some, List, [], ◌∷◌, length,
  u32_mod,
}
use fast_ring.Types.{Sample}
use fast_ring.Ring
use fast_ring.Ring.{RingBuffer, Pushed, Popped}
use fast_ring.Ring.Inv.{IsValid, push-IsValid, pop-IsValid, clear-IsValid}
use fast_ring.Ring.PushBatch.{push_batch-IsValid}
use fast_ring.Ring.PopBatch.{pop_batch-IsValid}

-- The calls, each with its pointer arguments other than the buffer; a batch gives its `count` too.
pub data Call : Type 0 where
  ask_push : Option Sample → Call
  ask_pop : Bool → Call
  ask_push_batch : Option (List Sample) → ℕ → Call
  ask_pop_batch : Option (List Sample) → ℕ → Call
  ask_count : Call
  ask_is_empty : Call
  ask_is_full : Call
  ask_available : Call
  ask_clear : Call

-- What a call returns, and what it writes through its pointers: a sample, a counter, an array (the list is
-- empty for NULL).
pub data Answer : Type 0 where
  said : Bool → Answer
  popped : Bool → Option Sample → Answer
  pushed_batch : Bool → ℕ → Answer
  popped_batch : Bool → ℕ → List Sample → Answer
  number : ℕ → Answer
  nothing : Answer

-- A call on NULL
unfoldable pub call_null : Call → Answer
call_null (ask_push x) = said false
call_null (ask_pop wanted) = popped false none
call_null (ask_push_batch xs n) = pushed_batch false 0
call_null (ask_pop_batch none n) = popped_batch false 0 []
call_null (ask_pop_batch (some dst) n) = popped_batch false 0 dst
call_null ask_count = number 0
call_null ask_is_empty = said true
call_null ask_is_full = said true
call_null ask_available = number 0
call_null ask_clear = nothing

-- A call on a buffer. `ask_pop false` has NULL for `sample`.
unfoldable pub call_ring : RingBuffer → Call → Answer × RingBuffer
call_ring rb (ask_push none) = (said false, rb)
call_ring rb (ask_push (some x)) = let (b, rb') = Ring.push rb x in (said b, rb')
call_ring rb (ask_pop false) = (popped false none, rb)
call_ring rb (ask_pop true) = let (b, x, rb') = Ring.pop rb in (popped b x, rb')
call_ring rb (ask_push_batch none n) = (pushed_batch false 0, rb)
call_ring rb (ask_push_batch (some xs) n) =
    let p = Ring.push_batch rb xs n in (pushed_batch p.all p.pushed, p.ring)
call_ring rb (ask_pop_batch none n) = (popped_batch false 0 [], rb)
call_ring rb (ask_pop_batch (some dst) n) =
    let p = Ring.pop_batch rb dst n in (popped_batch p.some_popped p.popped p.samples, p.ring)
call_ring rb ask_count = (number (Ring.count rb), rb)
call_ring rb ask_is_empty = (said (Ring.is_empty rb), rb)
call_ring rb ask_is_full = (said (Ring.is_full rb), rb)
call_ring rb ask_available = (number (Ring.available rb), rb)
call_ring rb ask_clear = (nothing, Ring.clear rb)

unfoldable pub call : Option RingBuffer → Call → Answer × Option RingBuffer
call none c = (call_null c, none)
call (some rb) c = let (answer, rb') = call_ring rb c in (answer, some rb')

-- The answers to a sequence of calls, and what the pointer leads to after them
unfoldable pub call_all : Option RingBuffer → List Call → List Answer × Option RingBuffer
call_all p [] = ([], p)
call_all p (c ∷ cs) =
    let (answer, p') = call p c in let (answers, p'') = call_all p' cs in (answer ∷ answers, p'')

-- An array has room for the `count` given with it.
abbrev pub IsCall : Call → Type 0
IsCall (ask_push_batch (some xs) n) = (n ≤ length xs) × (n < u32_mod)
IsCall (ask_pop_batch (some dst) n) = n ≤ length dst
IsCall _ = Unit {0}

abbrev pub AreCalls : List Call → Type 0
AreCalls [] = Unit {0}
AreCalls (c ∷ cs) = IsCall c × AreCalls cs

-- NULL, or a valid buffer
abbrev pub IsPointer : Option RingBuffer → Type 0
IsPointer none = Unit {0}
IsPointer (some rb) = IsValid rb

pub call_ring-IsValid :
    {rb : RingBuffer} (c : Call) → IsValid rb → IsCall c → IsValid (call_ring rb c).1
unfolding call_ring
call_ring-IsValid (ask_push none) v h = v
call_ring-IsValid (ask_push (some x)) v h = push-IsValid x v
call_ring-IsValid (ask_pop false) v h = v
call_ring-IsValid (ask_pop true) v h = pop-IsValid v
call_ring-IsValid (ask_push_batch none n) v h = v
call_ring-IsValid (ask_push_batch (some xs) n) v h = push_batch-IsValid xs n v h.0 h.1
call_ring-IsValid (ask_pop_batch none n) v h = v
call_ring-IsValid (ask_pop_batch (some dst) n) v h = pop_batch-IsValid dst n v h
call_ring-IsValid ask_count v h = v
call_ring-IsValid ask_is_empty v h = v
call_ring-IsValid ask_is_full v h = v
call_ring-IsValid ask_available v h = v
call_ring-IsValid ask_clear v h = clear-IsValid v
