-- ===== src/Workers/Counts.antt =====
-- The counters of `system_stats_t` against the samples in the pipeline, over any sequence of rounds of
-- the threads of src/thread/thread_workers.c, each round whole.
use native.Mathlib.Decide.{ℕ_discrete}
use fast_ring.Prelude.{
  ℕ, ◌+◌, ◌-◌, ◌%◌, ◌≡◌, ◌≤◌, ◌<◌, refl, ap, sym, ◌∙◌, arith, List, [], ◌∷◌, length, length-append,
  length-take, length-drop, take, min, add64, u64_mod,
}
use fast_ring.Types.{Sample}
use fast_ring.Ring.{RingBuffer, Popped, count, push, pop_batch}
use fast_ring.Ring.Inv.{IsValid, count-lt, count-drop, drop-IsValid}
use fast_ring.Ring.Window.{contents}
use fast_ring.Ring.Transfer.{
  deposit-IsValid, count-deposit, withdraw-IsValid, count-withdraw, length-contents,
}
use fast_ring.Ring.Single.{push-full, push-room}
use fast_ring.Ring.PopBatch.{pop_batch_held, pop_batch_none}
use fast_ring.Workers.{Stats, batch_size, count_push, process_rings}
use fast_ring.Workers.Process.{IsMove, process_rings-IsMove}

-- The two buffers in use and the counters. `collected` is no part of the program: it counts the
-- samples popped for the network.
pub record Pipeline : Type 0 where
  pub capture : RingBuffer
  pub process : RingBuffer
  pub stats : Stats
  pub collected : ℕ

-- A call of the ADC callback, a round of the processing thread, or the pop in a round of the network
-- thread, each with the array it fills.
pub data Event : Type 0 where
  sampled : Sample → Event
  processed : List Sample → Event
  popped : List Sample → Event

-- The pop of `network_thread_worker`
unfoldable pub collect : Pipeline → Popped → Pipeline
collect p out = record p { process = out.ring; collected = p.collected + out.popped }

unfoldable pub step : Pipeline → Event → Pipeline
step p (sampled x) =
    let (rb, stats) = count_push (push p.capture x) p.stats in
    record p { capture = rb; stats = stats }
step p (processed samples) =
    let (c, q, stats) = process_rings p.capture p.process p.stats samples in
    record p { capture = c; process = q; stats = stats }
step p (popped samples) = collect p (pop_batch p.process samples batch_size)

unfoldable pub run : Pipeline → List Event → Pipeline
run p [] = p
run p (e ∷ es) = run (step p e) es

-- Each array has room for a batch.
abbrev pub AreRounds : List Event → Type 0
AreRounds [] = Unit {0}
AreRounds (sampled x ∷ es) = AreRounds es
AreRounds (processed samples ∷ es) = (length samples ≡ batch_size) × AreRounds es
AreRounds (popped samples ∷ es) = (length samples ≡ batch_size) × AreRounds es

-- The counter of dropped samples is the sum of those of the buffers, and the total is what was
-- collected, what is held and what found no room on the way, all modulo 2^64.
pub record IsTallied (p : Pipeline) : Type 0 where
  pub capture_valid : IsValid p.capture
  pub process_valid : IsValid p.process
  pub dropped : p.stats.dropped_samples ≡ add64 p.capture.dropped p.process.dropped
  pub total :
      p.stats.total_samples
      ≡ (p.collected + count p.capture + count p.process + p.process.dropped) % u64_mod

pub sampled-IsTallied : (p : Pipeline) (x : Sample) → IsTallied p → IsTallied (step p (sampled x))
unfolding step count_push
sampled-IsTallied p x t = elim (ℕ_discrete (count p.capture) (p.capture.capacity - 1)) [
  | yes full ↦ rw (push-full t.capture_valid x full) (record {
    capture_valid = drop-IsValid (add64 p.capture.dropped 1) t.capture_valid (omega arith);
    process_valid = t.process_valid;
    dropped = omega (arith, t.dropped);
    total = omega (arith, t.total, count-drop p.capture (add64 p.capture.dropped 1));
  })
  | no room ↦
      let fits : count p.capture + length (x ∷ []) < p.capture.capacity =
        omega (arith, count-lt t.capture_valid) in
      rw (push-room t.capture_valid x room) (record {
        capture_valid = deposit-IsValid t.capture_valid (x ∷ []) fits;
        process_valid = t.process_valid;
        dropped = t.dropped;
        total = omega (arith, t.total, count-deposit t.capture_valid (x ∷ []) fits);
      })
]

moved-IsTallied :
    (p : Pipeline) (k j : ℕ) (after : RingBuffer × RingBuffer × Stats)
    → IsTallied p
    → k ≤ count p.capture
    → j ≤ k
    → IsMove p.capture p.process p.stats k j after
    → IsTallied (record p { capture = after.0; process = after.1; stats = after.2 })
moved-IsTallied p k j after t h l m = record {
  capture_valid = m.capture_valid;
  process_valid = m.process_valid;
  dropped =
      ap (λ (s : Stats). s.dropped_samples) m.counted
      ∙ omega (arith, t.dropped, m.capture_dropped, m.process_dropped);
  total =
      ap (λ (s : Stats). s.total_samples) m.counted
      ∙ omega (arith, t.total, m.process_dropped, left, gained);
}
  where
    left : count after.0 ≡ count p.capture - k
    left = omega (
      arith,
      sym (length-contents m.capture_valid),
      ap length m.left,
      length-drop k (contents p.capture),
      length-contents t.capture_valid,
    )

    gained : count after.1 ≡ count p.process + j
    gained = omega (
      arith,
      sym (length-contents m.process_valid),
      ap length m.gained,
      length-append (contents p.process) (take j (contents p.capture)),
      length-take j (contents p.capture),
      length-contents t.process_valid,
      length-contents t.capture_valid,
    )

pub processed-IsTallied :
    (p : Pipeline) (samples : List Sample)
    → length samples ≡ batch_size
    → IsTallied p
    → IsTallied (step p (processed samples))
unfolding step
processed-IsTallied p samples have t =
    moved-IsTallied p k j (process_rings p.capture p.process p.stats samples) t (omega arith)
      (omega arith)
      (process_rings-IsMove p.stats samples t.capture_valid t.process_valid have
        (omega (arith, t.dropped)) k j refl refl)
  where
    k : ℕ
    k = min batch_size (count p.capture)

    j : ℕ
    j = min k (p.process.capacity - 1 - count p.process)

pub popped-IsTallied :
    (p : Pipeline) (samples : List Sample)
    → length samples ≡ batch_size
    → IsTallied p
    → IsTallied (step p (popped samples))
unfolding step collect
popped-IsTallied p samples have t = elim (ℕ_discrete (min batch_size (count p.process)) 0) [
  | yes nothing ↦ rw (pop_batch_none t.process_valid samples batch_size nothing) (record {
    capture_valid = t.capture_valid;
    process_valid = t.process_valid;
    dropped = t.dropped;
    total = omega (arith, t.total);
  })
  | no some_held ↦
      let k : ℕ = min batch_size (count p.process) in
      rw (pop_batch_held t.process_valid samples batch_size k refl some_held (omega (arith, have)))
        (record {
          capture_valid = t.capture_valid;
          process_valid = withdraw-IsValid t.process_valid k (omega arith);
          dropped = t.dropped;
          total = omega (arith, t.total, count-withdraw t.process_valid k (omega arith));
        })
]

-- Every sequence of rounds keeps both buffers valid and the counters true: the samples dropped are
-- those that either buffer turned away, and the samples acquired are those collected for the network,
-- those held and those dropped between the buffers, modulo 2^64.
pub run-IsTallied :
    (es : List Event) {p : Pipeline} → AreRounds es → IsTallied p → IsTallied (run p es)
unfolding run
run-IsTallied [] rounds t = t
run-IsTallied (sampled x ∷ es) {p} rounds t = run-IsTallied es rounds (sampled-IsTallied p x t)
run-IsTallied (processed samples ∷ es) {p} rounds t =
    run-IsTallied es rounds.1 (processed-IsTallied p samples rounds.0 t)
run-IsTallied (popped samples ∷ es) {p} rounds t =
    run-IsTallied es rounds.1 (popped-IsTallied p samples rounds.0 t)
