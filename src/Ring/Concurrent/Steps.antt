-- ===== src/Ring/Concurrent/Steps.antt =====
-- The steps of a call of src/buffer/ring_buffer.c from its test to its end, when the other thread takes none.
use native.Mathlib.Nat.{mod-eq_of_lt, mod_self}
use native.Mathlib.Decide.{ℕ_discrete}
use fast_ring.Prelude.{
  ℕ, zero, suc, ◌+◌, ◌%◌, ◌≡◌, ◌≤◌, ◌<◌, sym, ap, ap₂, ◌∙◌, arith, true, false, by_test, List, [],
  ◌∷◌, ◌++◌, append-nil, append_assoc, ◌==◌, if◌then◌else◌, add64, set, length, take, replicate,
}
use fast_ring.Types.{Sample}
use fast_ring.Ring.{RingBuffer, count, read_chunk}
use fast_ring.Ring.Inv.{IsValid}
use fast_ring.Ring.Window.{window, window-mod, take-window, contents}
use fast_ring.Ring.Transfer.{write_ring, write_ring-mod, deposit, withdraw}
use fast_ring.Ring.Chunks.{read_chunk-window}
use fast_ring.Ring.Concurrent.{
  Push, Pull, Producer, resting, writing, Consumer, waiting, reading, Write, Read, System,
  following, begin_push, begin_pop, write_step, read_step, produce, consume, producer_turn,
  consumer_turn, turn, run, start,
}

following-mod : (rb : RingBuffer) (i : ℕ) → i < rb.capacity → following rb i ≡ (i + 1) % rb.capacity
following-mod rb i h = elim (ℕ_discrete (i + 1) rb.capacity) [
  | yes last ↦
      let test : (i + 1 == rb.capacity) ≡ true = ground arith in
      ap (λ b. if b then 0 else i + 1) test
      ∙ sym (mod_self rb.capacity)
      ∙ ap (λ (k : ℕ). k % rb.capacity) (sym last)
  | no inner ↦
      let test : (i + 1 == rb.capacity) ≡ false = ground arith in
      ap (λ b. if b then 0 else i + 1) test
      ∙ sym (mod-eq_of_lt {n = i + 1} {m = rb.capacity} (omega arith))
]

following-lt : (rb : RingBuffer) (i : ℕ) → i < rb.capacity → following rb i < rb.capacity
following-lt rb i h =
    by_test (λ (k : ℕ). k < rb.capacity) (i + 1 == rb.capacity) (λ e. omega (arith, h))
      (λ e. ground (arith, e, h))

-- The steps of a push behind its test.
write_steps :
    (s : System) (w : Write) (left : List Sample) (call : Push)
    → w.slot < s.ring.capacity
    → run
        (record s { producer = writing (record w { left = left }) })
        (replicate (suc (length left)) (producer_turn call))
      ≡ record s {
        ring = record s.ring {
          buffer = write_ring s.ring.buffer s.ring.capacity w.slot left;
          head = w.next_head;
          dropped = add64 s.ring.dropped w.short;
        };
        producer = resting;
        accepted = s.accepted ++ (w.written ++ left);
      }
unfolding run turn produce write_step write_ring
write_steps s w [] call h = λ i. record s {
  ring = record s.ring { head = w.next_head; dropped = add64 s.ring.dropped w.short };
  producer = resting;
  accepted = s.accepted ++ sym (append-nil w.written) i;
}
write_steps s w (x ∷ xs) call h =
    let c = s.ring.capacity in
    let next = record s { ring = record s.ring { buffer = set s.ring.buffer w.slot x } } in
    let w' = record w {
      slot = following s.ring w.slot;
      left = xs;
      written = w.written ++ (x ∷ []);
    } in
    let same : write_ring (set s.ring.buffer w.slot x) c (following s.ring w.slot) xs
        ≡ write_ring (set s.ring.buffer (w.slot % c) x) c (w.slot + 1) xs =
      ap (λ i. write_ring (set s.ring.buffer w.slot x) c i xs) (following-mod s.ring w.slot h)
      ∙ write_ring-mod (set s.ring.buffer w.slot x) c (w.slot + 1) xs
      ∙ ap (λ i. write_ring (set s.ring.buffer i x) c (w.slot + 1) xs) (sym (mod-eq_of_lt h)) in
    write_steps next w' xs call (following-lt s.ring w.slot h) ∙ λ i. record s {
      ring = record s.ring {
        buffer = same i;
        head = w.next_head;
        dropped = add64 s.ring.dropped w.short;
      };
      producer = resting;
      accepted = s.accepted ++ append_assoc w.written (x ∷ []) xs i;
    }

-- The steps of a pop behind its test.
read_steps :
    (s : System) (r : Read) (n : ℕ) (call : Pull)
    → length s.ring.buffer ≡ s.ring.capacity
    → r.slot < s.ring.capacity
    → run
        (record s { consumer = reading (record r { left = n }) })
        (replicate (suc n) (consumer_turn call))
      ≡ record s {
        ring = record s.ring { tail = r.next_tail };
        consumer = waiting;
        taken = s.taken ++ (r.copied ++ window s.ring.buffer s.ring.capacity r.slot n);
      }
unfolding run turn consume read_step
read_steps s r zero call sized h = λ i. record s {
  ring = record s.ring { tail = r.next_tail };
  consumer = waiting;
  taken = s.taken ++ sym (append-nil r.copied) i;
}
read_steps s r (suc n) call sized h =
    let c = s.ring.capacity in
    let buf = s.ring.buffer in
    let r' = record r {
      slot = following s.ring r.slot;
      left = n;
      copied = r.copied ++ read_chunk buf r.slot 1;
    } in
    let same : (r.copied ++ read_chunk buf r.slot 1) ++ window buf c (following s.ring r.slot) n
        ≡ r.copied ++ window buf c r.slot (suc n) =
      append_assoc r.copied (read_chunk buf r.slot 1) _
      ∙ ap (λ l. r.copied ++ l)
          (ap₂ (λ a b. a ++ b) (read_chunk-window buf c r.slot 1 sized (omega (arith, h)))
            (ap (λ k. window buf c k n) (following-mod s.ring r.slot h)
              ∙ window-mod buf c (r.slot + 1) n)) in
    read_steps s r' n call sized (following-lt s.ring r.slot h) ∙ λ i. record s {
      ring = record s.ring { tail = r.next_tail };
      consumer = waiting;
      taken = s.taken ++ same i;
    }

module _ {rb : RingBuffer} (v : IsValid rb) where
  -- A push that its test ends, and one that goes on to the last store.
  pub push_stays :
      (call : Push) (rb' : RingBuffer)
      → begin_push rb call ≡ (resting, rb')
      → run (start rb) (replicate 1 (producer_turn call)) ≡ record (start rb) { ring = rb' }
  unfolding run turn produce
  push_stays call rb' e =
      ap (λ (r : Producer × RingBuffer). record (start rb) { ring = r.1; producer = r.0 }) e

  pub push_runs :
      (call : Push) (ys : List Sample) (next_head short : ℕ)
      → begin_push rb call ≡ (
        writing (record {
          slot = rb.head;
          left = ys;
          written = [];
          next_head = next_head;
          short = short;
        }),
        rb,
      )
      → next_head ≡ (rb.head + length ys) % rb.capacity
      → run (start rb) (replicate (suc (suc (length ys))) (producer_turn call))
        ≡ record (start rb) {
          ring = record (deposit rb ys) { dropped = add64 rb.dropped short };
          accepted = contents rb ++ ys;
        }
  unfolding run turn produce
  push_runs call ys next_head short e head =
      ap
        (λ (r : Producer × RingBuffer).
          run (record (start rb) { ring = r.1; producer = r.0 })
            (replicate (suc (length ys)) (producer_turn call)))
        e
      ∙ write_steps (start rb)
          (record { slot = rb.head; left = ys; written = []; next_head = next_head; short = short })
          ys call v.head_in
      ∙ λ i. record (start rb) {
        ring = record (deposit rb ys) { head = head i; dropped = add64 rb.dropped short };
        accepted = contents rb ++ ys;
      }

  -- The same for a pop.
  pub pop_stays :
      (call : Pull)
      → begin_pop rb call ≡ waiting
      → run (start rb) (replicate 1 (consumer_turn call)) ≡ start rb
  unfolding run turn consume
  pop_stays call e = ap (λ (c : Consumer). record (start rb) { consumer = c }) e

  pub pop_runs :
      (call : Pull) (n next_tail : ℕ)
      → begin_pop rb call
        ≡ reading (record { slot = rb.tail; left = n; copied = []; next_tail = next_tail })
      → next_tail ≡ (rb.tail + n) % rb.capacity
      → n ≤ count rb
      → run (start rb) (replicate (suc (suc n)) (consumer_turn call))
        ≡ record (start rb) { ring = withdraw rb n; taken = take n (contents rb) }
  unfolding run turn consume
  pop_runs call n next_tail e tail held =
      ap
        (λ (c : Consumer).
          run (record (start rb) { consumer = c }) (replicate (suc n) (consumer_turn call)))
        e
      ∙ read_steps (start rb)
          (record { slot = rb.tail; left = n; copied = []; next_tail = next_tail }) n call v.sized
          v.tail_in
      ∙ λ i. record (start rb) {
        ring = record rb { tail = tail i };
        taken = sym (take-window rb.buffer rb.capacity rb.tail n (count rb) held) i;
      }
