-- ===== src/Ring/Concurrent/Safety.antt =====
-- What every interleaving of one producer and one consumer of src/buffer/ring_buffer.c keeps.
use fast_ring.Prelude.{
  ℕ, zero, suc, ◌+◌, ◌<◌, ◌≤◌, u64_mod, ◌≡◌, ◌≢◌, refl, ap, sym, ◌∙◌, arith, List, [], ◌∷◌, length,
  ◌++◌, append_assoc, add64, inl, inr,
}
use fast_ring.Types.{Sample}
use fast_ring.Ring.{RingBuffer, count}
use fast_ring.Ring.Inv.{IsValid, drop-IsValid}
use fast_ring.Ring.Window.{window, contents, mod-ne}
use fast_ring.Ring.Concurrent.{
  Push, Pull, Write, Read, Producer, resting, writing, Consumer, waiting, reading, System,
  begin_push, begin_pop, write_step, read_step, produce, consume, Turn, producer_turn,
  consumer_turn, turn, run, start,
}
use fast_ring.Ring.Concurrent.Invariant.{IsWriting, IsReading, Produces, Consumes, IsConsistent}
use fast_ring.Ring.Concurrent.Pushes
use fast_ring.Ring.Concurrent.Pulls

-- A change by the producer leaves the consumer as it was.
Consumes-grow :
    (rb : RingBuffer) (c : Consumer) (b : List Sample) (h d : ℕ)
    → count rb ≤ count (record rb { buffer = b; head = h; dropped = d })
    → ((n : ℕ)
        → n ≤ count rb
        → window b rb.capacity rb.tail n ≡ window rb.buffer rb.capacity rb.tail n)
    → Consumes rb c
    → Consumes (record rb { buffer = b; head = h; dropped = d }) c
Consumes-grow rb waiting b h d more kept g = tt
Consumes-grow rb (reading r) b h d more kept g = Pushes.IsReading-grow b h d more kept g

Produces-shrink :
    (rb : RingBuffer) (p : Producer) (t : ℕ)
    → count (record rb { tail = t }) ≤ count rb
    → Produces rb p
    → Produces (record rb { tail = t }) p
Produces-shrink rb resting t less g = tt
Produces-shrink rb (writing w) t less g = Pulls.IsWriting-shrink t less g

abbrev system : RingBuffer → Producer → Consumer → List Sample → List Sample → System
system rb p c accepted taken = record {
  ring = rb;
  producer = p;
  consumer = c;
  accepted = accepted;
  taken = taken;
}

write_step-IsConsistent :
    (rb : RingBuffer) (w : Write) (c : Consumer) (accepted taken left : List Sample)
    → w.left ≡ left
    → IsConsistent (system rb (writing w) c accepted taken)
    → IsConsistent (write_step (system rb (writing w) c accepted taken) w left)
unfolding write_step count
write_step-IsConsistent rb w c accepted taken (x ∷ xs) e k = record {
  valid = Pushes.write-IsValid k.valid k.produces x xs e;
  produces = Pushes.write-IsWriting k.valid k.produces x xs e;
  consumes =
      Consumes-grow _ c _ _ _ (omega arith) (Pushes.write-window k.valid k.produces x xs e)
        k.consumes;
  history =
      k.history
      ∙ ap (λ ws. taken ++ ws)
          (sym (Pushes.write-window k.valid k.produces x xs e (count rb) (omega arith)));
}
write_step-IsConsistent rb w c accepted taken [] e k = record {
  valid = Pushes.publish-IsValid k.valid k.produces e d word;
  produces = tt;
  consumes =
      Consumes-grow _ c _ _ _ (omega (arith, Pushes.count-publish k.valid k.produces e d word))
        (λ n h. refl) k.consumes;
  history =
      ap (λ ws. ws ++ w.written) k.history
      ∙ append_assoc taken (contents rb) w.written
      ∙ ap (λ ws. taken ++ ws) (sym (Pushes.contents-publish k.valid k.produces e d word));
}
  where
    d : ℕ
    d = add64 rb.dropped w.short

    word : d < u64_mod
    word = omega arith

begin_push-IsConsistent :
    (s : System) (call : Push)
    → Pushes.IsPush call
    → IsConsistent s
    → IsConsistent
        (record s { ring = (begin_push s.ring call).1; producer = (begin_push s.ring call).0 })
unfolding count
begin_push-IsConsistent s call word k = elim (Pushes.begin_push_lem k.valid call word) [
  | inl (d, small, e) ↦ rw e (record {
    valid = drop-IsValid d k.valid small;
    produces = tt;
    consumes = Consumes-grow _ s.consumer _ _ _ (omega arith) (λ n h. refl) k.consumes;
    history = k.history;
  })
  | inr (w, p, e) ↦
      rw e (record { valid = k.valid; produces = p; consumes = k.consumes; history = k.history })
]

read_step-IsConsistent :
    (rb : RingBuffer) (p : Producer) (r : Read) (accepted taken : List Sample) (left : ℕ)
    → r.left ≡ left
    → IsConsistent (system rb p (reading r) accepted taken)
    → IsConsistent (read_step (system rb p (reading r) accepted taken) r left)
unfolding read_step
read_step-IsConsistent rb p r accepted taken (suc n) e k = record {
  valid = k.valid;
  produces = k.produces;
  consumes = Pulls.read-IsReading k.valid k.consumes n e;
  history = k.history;
}
read_step-IsConsistent rb p r accepted taken zero e k = record {
  valid = Pulls.release-IsValid k.valid k.consumes e;
  produces = Produces-shrink _ p r.next_tail (Pulls.count-release k.valid k.consumes e) k.produces;
  consumes = tt;
  history =
      k.history
      ∙ ap (λ ws. taken ++ ws) (Pulls.contents-release k.valid k.consumes e)
      ∙ sym (append_assoc taken r.copied _);
}

produce-IsConsistent :
    (rb : RingBuffer) (p : Producer) (c : Consumer) (accepted taken : List Sample) (call : Push)
    → Pushes.IsPush call
    → IsConsistent (system rb p c accepted taken)
    → IsConsistent (produce (system rb p c accepted taken) call)
unfolding produce
produce-IsConsistent rb resting c accepted taken call word k =
    begin_push-IsConsistent (system rb resting c accepted taken) call word k
produce-IsConsistent rb (writing w) c accepted taken call word k =
    write_step-IsConsistent rb w c accepted taken w.left refl k

begin_pop-IsConsistent :
    (rb : RingBuffer) (p : Producer) (accepted taken : List Sample) (call : Pull)
    → IsConsistent (system rb p waiting accepted taken)
    → IsConsistent (system rb p (begin_pop rb call) accepted taken)
begin_pop-IsConsistent rb p accepted taken call k = elim (Pulls.begin_pop_lem k.valid call) [
  | inl e ↦ rw e k
  | inr (r, g, e) ↦
      rw e (record { valid = k.valid; produces = k.produces; consumes = g; history = k.history })
]

consume-IsConsistent :
    (rb : RingBuffer) (p : Producer) (c : Consumer) (accepted taken : List Sample) (call : Pull)
    → IsConsistent (system rb p c accepted taken)
    → IsConsistent (consume (system rb p c accepted taken) call)
unfolding consume
consume-IsConsistent rb p waiting accepted taken call k =
    begin_pop-IsConsistent rb p accepted taken call k
consume-IsConsistent rb p (reading r) accepted taken call k =
    read_step-IsConsistent rb p r accepted taken r.left refl k

-- The length of an array is a `uint32_t`.
abbrev pub AreTurns : List Turn → Type 0
AreTurns [] = Unit {0}
AreTurns (producer_turn call ∷ ts) = Pushes.IsPush call × AreTurns ts
AreTurns (consumer_turn call ∷ ts) = AreTurns ts

pub run-IsConsistent :
    (ts : List Turn) {s : System} → AreTurns ts → IsConsistent s → IsConsistent (run s ts)
unfolding run turn
run-IsConsistent [] word k = k
run-IsConsistent (producer_turn call ∷ ts) {s} word k =
    run-IsConsistent ts word.1
      (produce-IsConsistent s.ring s.producer s.consumer s.accepted s.taken call word.0 k)
run-IsConsistent (consumer_turn call ∷ ts) {s} word k =
    run-IsConsistent ts word
      (consume-IsConsistent s.ring s.producer s.consumer s.accepted s.taken call k)

pub start-IsConsistent : {rb : RingBuffer} → IsValid rb → IsConsistent (start rb)
start-IsConsistent v = record { valid = v; produces = tt; consumes = tt; history = refl }

-- In whatever order the steps of one producer and one consumer come, each at most one access to the shared
-- memory and all accesses in one order that both threads see, from a valid buffer with both between
-- calls, what was accepted, the samples held at first included, is what was taken and after it what is
-- held: no accepted sample is lost, made up, doubled or overtaken. A sample that a full buffer refuses is
-- not accepted.
pub run-history :
    {rb : RingBuffer} (ts : List Turn)
    → IsValid rb
    → AreTurns ts
    → let s = run (start rb) ts in s.accepted ≡ s.taken ++ contents s.ring
run-history ts v word = (run-IsConsistent ts word (start-IsConsistent v)).history

-- And the buffer is valid after each step.
pub run-IsValid :
    {rb : RingBuffer} (ts : List Turn) → IsValid rb → AreTurns ts → IsValid (run (start rb) ts).ring
run-IsValid ts v word = (run-IsConsistent ts word (start-IsConsistent v)).valid

slots_apart :
    {rb : RingBuffer} {w : Write} {r : Read}
    → IsValid rb
    → IsWriting rb w
    → IsReading rb r
    → w.left ≢ []
    → 0 < r.left
    → w.slot ≢ r.slot
slots_apart {rb} {w} {r} v p g more some_left e =
    mod-ne rb.capacity (rb.tail + length r.copied) (rb.tail + (count rb + length w.written))
      (omega (arith, g.held, some_left)) (omega (arith, p.fits))
      (sym g.here ∙ sym e ∙ Pushes.slot_past v p)

-- The two threads never work on one slot: whenever a write and a read are both about to be made, in
-- whatever order the steps came, they are of different slots.
pub slots-run :
    {rb : RingBuffer} (ts : List Turn) {w : Write} {r : Read}
    → IsValid rb
    → AreTurns ts
    → (run (start rb) ts).producer ≡ writing w
    → (run (start rb) ts).consumer ≡ reading r
    → w.left ≢ []
    → 0 < r.left
    → w.slot ≢ r.slot
slots-run {rb} ts {w} {r} v word ew er =
    slots_apart k.valid (rw ew at k.produces) (rw er at k.consumes)
  where
    k : IsConsistent (run (start rb) ts)
    k = run-IsConsistent ts word (start-IsConsistent v)
