-- ===== src/Ring/Guarded/Tests.antt =====
-- Calls with NULL among their arguments.
use fast_ring.Prelude.{◌≡◌, refl, true, false, some, none, List, [], ◌∷◌}
use fast_ring.Ring.{RingBuffer}
use fast_ring.Ring.Window.{blank}
use fast_ring.Ring.Guarded.{
  Call, ask_push, ask_pop, ask_push_batch, ask_pop_batch, ask_count, ask_clear, call, call_null,
  said,
}

abbrev tiny : RingBuffer
tiny = record {
  head = 1;
  tail = 1;
  capacity = 2;
  mask = 1;
  buffer = blank ∷ blank ∷ [];
  dropped = 0;
}

-- A buffer that is not there takes nothing.
push-null : (call none (ask_push (some blank))).0 ≡ said false
unfolding call call_null
push-null = refl

abbrev calls : List Call
calls =
    ask_push none
    ∷ ask_push (some blank)
    ∷ ask_push_batch (some (blank ∷ blank ∷ [])) 2
    ∷ ask_pop_batch none 1
    ∷ ask_pop true
    ∷ ask_count
    ∷ ask_clear
    ∷ []
