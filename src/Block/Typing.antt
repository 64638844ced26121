-- ===== src/Block/Typing.antt =====
-- The samples on their way from the ADC callback to the blocks of include/adc_types.h, against the C types of
-- their fields, over any sequence of rounds of src/thread/thread_workers.c.

use native.Mathlib.Decide.{ℕ_discrete}
use fast_ring.Prelude.{
  ℕ, ◌≡◌, ◌≤◌, ◌<◌, refl, sym, subst, ◌∙◌, arith, List, [], ◌∷◌, ◌++◌, length, length-take, take,
  take-take, take_front, take-drop_join, drop, min, u32_mod, u64_mod, Sublistᴰ, sublist_prefix,
}
use fast_ring.Types.{Sample}
use fast_ring.Ring.{count, pop_batch}
use fast_ring.Ring.Inv.{IsValid, power_bounds}
use fast_ring.Ring.Window.{contents}
use fast_ring.Ring.Transfer.{length-contents}
use fast_ring.Ring.PopBatch.{pop_batch_held, pop_batch_none}
use fast_ring.Workers.{batch_size}
use fast_ring.Workers.Counts.{Pipeline, Event, run, AreRounds, IsTallied, run-IsTallied}
use fast_ring.Workers.Passing.{held}
use fast_ring.Workers.Order.{brought_all, gathered_all, run-IsOrdered}
use fast_ring.Block.{DataBlock, block_bytes, fill_block}
use fast_ring.Block.Parse.{IsStorable, AreStorable, IsWhole, read_block, read_block-block_bytes}

sublist-AreStorable : {xs ys : List Sample} → Sublistᴰ xs ys → AreStorable ys → AreStorable xs
sublist-AreStorable Sublistᴰ.slnil f = tt
sublist-AreStorable (Sublistᴰ.cons s) f = sublist-AreStorable s f.1
sublist-AreStorable (Sublistᴰ.cons-cons e s) f =
    (subst IsStorable (sym e) f.0, sublist-AreStorable s f.1)

left-AreStorable : (xs ys : List Sample) → AreStorable (xs ++ ys) → AreStorable xs
left-AreStorable xs ys f = sublist-AreStorable (sublist_prefix xs ys) f

right-AreStorable : (xs ys : List Sample) → AreStorable (xs ++ ys) → AreStorable ys
right-AreStorable [] ys f = f
right-AreStorable (x ∷ xs) ys f = right-AreStorable xs ys f.1

-- The block of the next pop of the network thread, at the reading `now` of the clock.
abbrev pub next_block : Pipeline → ℕ → List Sample → DataBlock
next_block p now samples =
    let out = pop_batch p.process samples batch_size in fill_block now out.samples out.popped

-- All indices and counters and the fields of all samples fit their C types, those in `sent` included, and a
-- little-endian reader gives back the block that comes next.
pub record IsTyped (p : Pipeline) (sent : List Sample) (next : DataBlock) : Type 0 where
  pub head_fits : (p.capture.head < u32_mod) × (p.process.head < u32_mod)
  pub tail_fits : (p.capture.tail < u32_mod) × (p.process.tail < u32_mod)
  pub losses_fit : (p.capture.dropped < u64_mod) × (p.process.dropped < u64_mod)
  pub total_fits : p.stats.total_samples < u64_mod
  pub dropped_fits : p.stats.dropped_samples < u64_mod
  pub held_fit : AreStorable (held p)
  pub sent_fit : AreStorable sent
  pub readable : read_block (block_bytes next) ≡ next

next_block-IsWhole :
    (p : Pipeline) (now : ℕ) (samples : List Sample)
    → IsValid p.process
    → AreStorable (contents p.process)
    → now < u64_mod
    → length samples ≡ batch_size
    → IsWhole (next_block p now samples)
next_block-IsWhole p now samples v f early have = elim (ℕ_discrete k 0) [
  | yes nothing ↦
      rw (pop_batch_none v samples batch_size nothing) (whole 0 [] refl tt (omega arith))
  | no some_held ↦
      let front = take k (contents p.process) in
      let size : length front ≡ k =
        omega (arith, length-take k (contents p.process), length-contents v) in
      let same : take k (front ++ drop k samples) ≡ front =
        take_front k front (drop k samples) (omega (arith, size))
        ∙ take-take k k (contents p.process) (omega arith) in
      rw (pop_batch_held v samples batch_size k refl some_held (omega (arith, have)), same)
        (whole k front (sym size)
          (left-AreStorable front (drop k (contents p.process))
            (subst AreStorable (sym (take-drop_join k (contents p.process))) f))
          (omega arith))
]
  where
    k : ℕ
    k = min batch_size (count p.process)

    whole :
        (n : ℕ) (xs : List Sample)
        → n ≡ length xs
        → AreStorable xs
        → n ≤ batch_size
        → IsWhole (record {
          magic = 0xADC0DA7A;
          version = 1;
          sequence = 0;
          sample_count = n;
          timestamp = now;
          samples = xs;
        })
    whole n xs e f small = record {
      magic_fits = omega arith;
      version_fits = omega arith;
      sequence_fits = omega arith;
      count_fits = omega (arith, small);
      timestamp_fits = early;
      counted = e;
      stored = f;
    }

-- After every sequence of rounds of the threads, if the fields of the samples held at first and brought fit
-- their C types, then so do those of the samples held and taken for the network, and all indices and counters
-- fit theirs; and the block made of the samples that the network thread pops next is read back by a little-endian
-- reader. The clock is in 64 bits, and each array has room for a batch.
pub run-IsTyped :
    (es : List Event) {p : Pipeline} (now : ℕ) (samples : List Sample)
    → AreRounds es
    → IsTallied p
    → AreStorable (held p ++ brought_all es)
    → now < u64_mod
    → length samples ≡ batch_size
    → IsTyped (run p es) (gathered_all p es) (next_block (run p es) now samples)
run-IsTyped es {p} now samples rounds t fit early have =
    let q = run p es in
    let t' = run-IsTallied es rounds t in
    let kept = sublist-AreStorable (run-IsOrdered es rounds t).in_order fit in
    let held_fit = right-AreStorable (gathered_all p es) (held q) kept in
    record {
      head_fits = (
        omega (arith, t'.capture_valid.head_in, power_bounds t'.capture_valid.power),
        omega (arith, t'.process_valid.head_in, power_bounds t'.process_valid.power),
      );
      tail_fits = (
        omega (arith, t'.capture_valid.tail_in, power_bounds t'.capture_valid.power),
        omega (arith, t'.process_valid.tail_in, power_bounds t'.process_valid.power),
      );
      losses_fit = (t'.capture_valid.dropped_in, t'.process_valid.dropped_in);
      total_fits = omega (arith, t'.total);
      dropped_fits = omega (arith, t'.dropped);
      held_fit = held_fit;
      sent_fit = left-AreStorable (gathered_all p es) (held q) kept;
      readable = read_block-block_bytes (next_block q now samples) (
          next_block-IsWhole q now samples t'.process_valid
            (left-AreStorable (contents q.process) (contents q.capture) held_fit) early have);
    }
