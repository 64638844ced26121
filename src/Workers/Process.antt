-- ===== src/Workers/Process.antt =====
-- What a round of the processing thread of src/thread/thread_workers.c moves from one buffer to the
-- next.
use native.Mathlib.Decide.{ℕ_discrete}
use fast_ring.Prelude.{
  ℕ, ◌+◌, Bool-cases, inl, inr, ◌-◌, ◌≡◌, ◌≢◌, ◌≤◌, ◌<◌, refl, ap, sym, ◌∙◌, arith, List, ◌++◌,
  append-nil, length, length-append, length-take, length-drop, take, drop, take-take, take_front,
  min, add64, ltb, if◌then◌else◌, sub32, u64_mod,
}
use fast_ring.Types.{Sample}
use fast_ring.Ring.{RingBuffer, count}
use fast_ring.Ring.Inv.{IsValid, count-lt, count-drop, drop-IsValid}
use fast_ring.Ring.Window.{window, contents}
use fast_ring.Ring.Transfer.{
  deposit, withdraw, withdraw-IsValid, deposit-IsValid, contents-withdraw, contents-deposit,
  length-contents,
}
use fast_ring.Ring.PopBatch.{pop_batch_held, pop_batch_none}
use fast_ring.Ring.PushBatch.{push_batch_lem}
use fast_ring.Workers.{Stats, batch_size, process_rings}

-- `k` samples are taken from the capture buffer, of which the first `j` find room.
pub record IsMove (capture process : RingBuffer) (stats : Stats) (k j : ℕ)
    (after : RingBuffer × RingBuffer × Stats) : Type 0 where
  pub capture_valid : IsValid after.0
  pub process_valid : IsValid after.1
  pub left : contents after.0 ≡ drop k (contents capture)
  pub gained : contents after.1 ≡ contents process ++ take j (contents capture)
  pub capture_dropped : after.0.dropped ≡ capture.dropped
  pub process_dropped : after.1.dropped ≡ add64 process.dropped (k - j)
  pub counted : after.2 ≡ record stats { dropped_samples = add64 stats.dropped_samples (k - j) }

module _ {capture process : RingBuffer} (stats : Stats) (samples : List Sample)
    (vc : IsValid capture) (vp : IsValid process) (have : length samples ≡ batch_size)
    (word : stats.dropped_samples < u64_mod) (k j : ℕ) (ek : k ≡ min batch_size (count capture))
    (ej : j ≡ min k (process.capacity - 1 - count process)) where
  process_rings_none :
      k ≡ 0 → process_rings capture process stats samples ≡ (capture, process, stats)
  unfolding process_rings
  process_rings_none e = rw (pop_batch_none vc samples batch_size (omega (arith, ek))) refl

  -- The samples popped, in front of what the array held before.
  abbrev local : List Sample
  local = take k (contents capture) ++ drop k samples

  length-local : length local ≡ batch_size
  length-local = omega (
    arith,
    length-append (take k (contents capture)) (drop k samples),
    length-take k (contents capture),
    length-drop k samples,
    length-contents vc,
  )

  take-local : take j local ≡ take j (contents capture)
  take-local =
      take_front j (take k (contents capture)) (drop k samples)
        (omega (arith, length-take k (contents capture), length-contents vc))
      ∙ take-take j k (contents capture) (omega arith)

  counters :
      (if ltb j k
        then record stats { dropped_samples = add64 stats.dropped_samples (sub32 k j) }
        else stats)
      ≡ record stats { dropped_samples = add64 stats.dropped_samples (k - j) }
  counters = elim (Bool-cases (ltb j k)) [
    | inl lost ↦ rw lost (λ i. record stats { dropped_samples = some_lost i })
    | inr kept ↦ rw kept (λ i. record stats { dropped_samples = none_lost (ground arith) i })
  ]
    where
      some_lost : add64 stats.dropped_samples (sub32 k j) ≡ add64 stats.dropped_samples (k - j)
      some_lost = omega (arith, ek, ej)

      none_lost : k ≤ j → stats.dropped_samples ≡ add64 stats.dropped_samples (k - j)
      none_lost h = omega (arith, word)

  process_rings_some :
      k ≢ 0
      → process_rings capture process stats samples ≡ (
        withdraw capture k,
        record (deposit process (take j local)) { dropped = add64 process.dropped (k - j) },
        record stats { dropped_samples = add64 stats.dropped_samples (k - j) },
      )
  unfolding process_rings
  process_rings_some ne =
      let pushes = push_batch_lem vp local k (omega (arith, length-local)) j (omega arith) ej in
      rw (pop_batch_held vc samples batch_size k ek ne (omega (arith, have)), pushes)
        (λ i. (
          withdraw capture k,
          record (deposit process (take j local)) { dropped = add64 process.dropped (k - j) },
          counters i,
        ))

  -- A round of the processing thread takes the oldest samples of the capture buffer, at most a batch,
  -- and puts them in order behind those of the next buffer as far as there is room; the others are
  -- counted as dropped, by the buffer and in the statistics. Both buffers stay valid.
  pub process_rings-IsMove :
      IsMove capture process stats k j (process_rings capture process stats samples)
  process_rings-IsMove = elim (ℕ_discrete k 0) [
    | yes nothing ↦ rw (process_rings_none nothing) (record {
      capture_valid = vc;
      process_valid = vp;
      left = ap (λ n. drop n (contents capture)) (sym nothing);
      gained =
          sym (append-nil (contents process))
          ∙ ap (λ n. contents process ++ take n (contents capture)) {x = 0} {y = j} (omega arith);
      capture_dropped = refl;
      process_dropped = omega (arith, vp.dropped_in);
      counted = λ i. record stats { dropped_samples = same nothing i };
    })
    | no moved ↦ rw (process_rings_some moved) (record {
      capture_valid = withdraw-IsValid vc k (omega arith);
      process_valid = drop-IsValid _ (deposit-IsValid vp (take j local) fits) (omega arith);
      left = contents-withdraw vc k (omega arith);
      gained =
          ap (window (deposit process (take j local)).buffer process.capacity process.tail)
            (count-drop (deposit process (take j local)) (add64 process.dropped (k - j)))
          ∙ contents-deposit vp (take j local) fits
          ∙ ap (λ ws. contents process ++ ws) take-local;
      capture_dropped = refl;
      process_dropped = refl;
      counted = refl;
    })
  ]
    where
      fits : count process + length (take j local) < process.capacity
      fits = omega (arith, length-take j local, length-local, count-lt vp)

      same : k ≡ 0 → stats.dropped_samples ≡ add64 stats.dropped_samples (k - j)
      same e = omega (arith, word)
