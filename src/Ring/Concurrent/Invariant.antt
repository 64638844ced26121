-- ===== src/Ring/Concurrent/Invariant.antt =====
-- What holds between any two steps of the threads of `Ring.Concurrent`.
use native.Mathlib.Nat.{mod-eq_of_lt, mod-add-mod, mod-lt, mod_self}
use native.Mathlib.Decide.{ℕ_discrete}
use fast_ring.Prelude.{ℕ, ◌+◌, ◌%◌, ◌≤◌, ◌<◌, ◌≡◌, ap, ◌∙◌, arith, length, ◌++◌}
use fast_ring.Ring.{RingBuffer, count}
use fast_ring.Ring.Inv.{IsValid}
use fast_ring.Ring.Window.{window, contents}
use fast_ring.Ring.Concurrent.{
  Write, Read, Producer, resting, writing, Consumer, waiting, reading, System, following,
}

-- The samples written stand behind those held, those left fit behind them, and the head to be stored
-- is past both.
pub record IsWriting (rb : RingBuffer) (w : Write) : Type 0 where
  pub fits : count rb + (length w.written + length w.left) < rb.capacity
  pub stored : window rb.buffer rb.capacity rb.head (length w.written) ≡ w.written
  pub here : w.slot ≡ (rb.head + length w.written) % rb.capacity
  pub lands : w.next_head ≡ (rb.head + (length w.written + length w.left)) % rb.capacity

-- The samples read are the oldest of those held, and those left to read are held too.
pub record IsReading (rb : RingBuffer) (r : Read) : Type 0 where
  pub held : length r.copied + r.left ≤ count rb
  pub same : window rb.buffer rb.capacity rb.tail (length r.copied) ≡ r.copied
  pub here : r.slot ≡ (rb.tail + length r.copied) % rb.capacity
  pub lands : r.next_tail ≡ (rb.tail + (length r.copied + r.left)) % rb.capacity

abbrev pub Produces : RingBuffer → Producer → Type 0
Produces rb resting = Unit {0}
Produces rb (writing w) = IsWriting rb w

abbrev pub Consumes : RingBuffer → Consumer → Type 0
Consumes rb waiting = Unit {0}
Consumes rb (reading r) = IsReading rb r

-- What was accepted is what was taken, and after it what is held.
pub record IsConsistent (s : System) : Type 0 where
  pub valid : IsValid s.ring
  pub produces : Produces s.ring s.producer
  pub consumes : Consumes s.ring s.consumer
  pub history : s.accepted ≡ s.taken ++ contents s.ring

-- The slot after that of a running index is that of the next one.
pub following-mod :
    {rb : RingBuffer} (i k : ℕ)
    → IsValid rb
    → i ≡ k % rb.capacity
    → following rb i ≡ (k + 1) % rb.capacity
following-mod {rb} i k v e =
    let moved = ap (λ (j : ℕ). (j + 1) % rb.capacity) e ∙ mod-add-mod k rb.capacity 1 in
    elim (ℕ_discrete (i + 1) rb.capacity) [
      | yes last ↦
          let whole = ap (λ (j : ℕ). j % rb.capacity) last ∙ mod_self rb.capacity in
          ground (arith, moved, whole)
      | no inner ↦
          let low : i < rb.capacity = omega (arith, e, v.head_in, mod-lt k {m = rb.capacity}) in
          let whole = mod-eq_of_lt {n = i + 1} {m = rb.capacity} (omega arith) in
          ground (arith, moved, whole)
    ]
