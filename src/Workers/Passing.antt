-- ===== src/Workers/Passing.antt =====
-- What one round of the threads of src/thread/thread_workers.c does to the samples on their way.
use native.Mathlib.Decide.{ℕ_discrete}
use mathlib.Core.List.Sublistᴰ
use fast_ring.Prelude.{
  ℕ, ◌+◌, ◌-◌, ◌%◌, ◌≡◌, refl, ap, ap₂, sym, subst, ◌∙◌, arith, List, [], ◌∷◌, ◌++◌, append-nil,
  append_assoc, length, length-append, length-take, length-drop, take, drop, take-drop_join,
  take-take, take_front, min, add64, u64_mod, Sublistᴰ, take-drop-sublist, sublist_prefix,
}
use fast_ring.Types.{Sample}
use fast_ring.Ring.{Popped, count, pop_batch}
use fast_ring.Ring.Inv.{count-lt, count-drop}
use fast_ring.Ring.Window.{window, contents}
use fast_ring.Ring.Transfer.{contents-deposit, contents-withdraw, length-contents}
use fast_ring.Ring.Single.{push-full, push-room}
use fast_ring.Ring.PopBatch.{pop_batch_held, pop_batch_none}
use fast_ring.Workers.{Stats, batch_size, count_push, process_rings}
use fast_ring.Workers.Process.{IsMove, process_rings-IsMove}
use fast_ring.Workers.Counts.{Pipeline, Event, sampled, processed, popped, collect, step, IsTallied}

-- The samples that a pop puts in the array.
abbrev pub out_of : Popped → List Sample
out_of out = take out.popped out.samples

-- The samples that a round brings from the simulator, and those that it takes for the network.
unfoldable pub brought : Event → List Sample
brought (sampled x) = x ∷ []
brought (processed samples) = []
brought (popped samples) = []

unfoldable pub gathered : Pipeline → Event → List Sample
gathered p (sampled x) = []
gathered p (processed samples) = []
gathered p (popped samples) = out_of (pop_batch p.process samples batch_size)

-- The samples held, oldest first.
abbrev pub held : Pipeline → List Sample
held p = contents p.process ++ contents p.capture

-- What rounds that bring `new` samples make of those held: in `kept`, those for the network and
-- behind them those held afterwards, nothing is made up, doubled or overtaken, and what is missing is
-- counted as dropped, modulo 2^64.
pub record IsOrdered (p q : Pipeline) (new kept : List Sample) : Type 0 where
  pub in_order : Sublistᴰ kept (held p ++ new)
  pub missing :
      (q.stats.dropped_samples + length kept) % u64_mod
      ≡ (p.stats.dropped_samples + length (held p ++ new)) % u64_mod

-- Rounds that lose nothing.
pub whole :
    {p q : Pipeline} {new kept : List Sample}
    → kept ≡ held p ++ new
    → q.stats.dropped_samples ≡ p.stats.dropped_samples
    → IsOrdered p q new kept
whole {p} {q} {new} {kept} e same = record {
  in_order = subst (λ (l : List Sample). Sublistᴰ kept l) e (Sublistᴰ.refl kept);
  missing =
      ap₂ (λ d l. (d + length l) % u64_mod) {x = q.stats.dropped_samples}
        {y = p.stats.dropped_samples} same e;
}

pub sampled-IsOrdered :
    (p : Pipeline) (x : Sample)
    → IsTallied p
    → IsOrdered p (step p (sampled x)) (x ∷ []) (held (step p (sampled x)))
unfolding step count_push
sampled-IsOrdered p x t = elim (ℕ_discrete (count p.capture) (p.capture.capacity - 1)) [
  | yes full ↦
      let same : contents (record p.capture { dropped = add64 p.capture.dropped 1 })
          ≡ contents p.capture =
        ap (window p.capture.buffer p.capture.capacity p.capture.tail)
          (count-drop p.capture (add64 p.capture.dropped 1)) in
      rw (push-full t.capture_valid x full) (record {
        in_order =
            subst (λ (l : List Sample). Sublistᴰ (contents p.process ++ l) (held p ++ (x ∷ [])))
              (sym same) (sublist_prefix (held p) (x ∷ []));
        missing = omega (
          arith,
          length-append (contents p.process) _,
          ap length same,
          length-append (contents p.process) (contents p.capture),
          length-append (held p) (x ∷ []),
        );
      })
  | no room ↦ rw (push-room t.capture_valid x room) (
      whole
        (ap (λ l. contents p.process ++ l)
            (contents-deposit t.capture_valid (x ∷ []) (omega (arith, count-lt t.capture_valid)))
          ∙ sym (append_assoc (contents p.process) (contents p.capture) (x ∷ [])))
        refl)
]

pub processed-IsOrdered :
    (p : Pipeline) (samples : List Sample)
    → length samples ≡ batch_size
    → IsTallied p
    → IsOrdered p (step p (processed samples)) [] (held (step p (processed samples)))
unfolding step
processed-IsOrdered p samples have t = record {
  in_order =
      subst (λ (l : List Sample). Sublistᴰ l (held p ++ [])) (sym moved)
        (subst (λ (l : List Sample). Sublistᴰ (contents p.process ++ rest) l) (sym (append-nil _))
          (Sublistᴰ.append (Sublistᴰ.refl (contents p.process))
            (take-drop-sublist j k (contents p.capture) (omega arith))));
  missing = omega (
    arith,
    ap (λ (s : Stats). s.dropped_samples) m.counted,
    ap length moved,
    length-append (contents p.process) rest,
    length-append (take j (contents p.capture)) (drop k (contents p.capture)),
    length-take j (contents p.capture),
    length-drop k (contents p.capture),
    length-contents t.capture_valid,
    length-append (held p) [],
    length-append (contents p.process) (contents p.capture),
  );
}
  where
    k : ℕ
    k = min batch_size (count p.capture)

    j : ℕ
    j = min k (p.process.capacity - 1 - count p.process)

    rest : List Sample
    rest = take j (contents p.capture) ++ drop k (contents p.capture)

    m : IsMove p.capture p.process p.stats k j (process_rings p.capture p.process p.stats samples)
    m =
        process_rings-IsMove p.stats samples t.capture_valid t.process_valid have
          (omega (arith, t.dropped)) k j refl refl

    moved : held (step p (processed samples)) ≡ contents p.process ++ rest
    moved = ap₂ (λ a b. a ++ b) m.gained m.left ∙ append_assoc (contents p.process) _ _

pub popped-IsOrdered :
    (p : Pipeline) (samples : List Sample)
    → length samples ≡ batch_size
    → IsTallied p
    → IsOrdered p
        (step p (popped samples))
        []
        (gathered p (popped samples) ++ held (step p (popped samples)))
unfolding step collect gathered
popped-IsOrdered p samples have t = elim (ℕ_discrete (min batch_size (count p.process)) 0) [
  | yes nothing ↦
      rw (pop_batch_none t.process_valid samples batch_size nothing)
        (whole (sym (append-nil (held p))) refl)
  | no some_held ↦
      let k : ℕ = min batch_size (count p.process) in
      let front = take k (contents p.process) in
      let first : take k (front ++ drop k samples) ≡ front =
        take_front k front (drop k samples)
          (omega (arith, length-take k (contents p.process), length-contents t.process_valid))
        ∙ take-take k k (contents p.process) (omega arith) in
      rw (pop_batch_held t.process_valid samples batch_size k refl some_held (omega (arith, have)))
        (whole
          (ap₂ (λ a b. a ++ (b ++ contents p.capture)) first
              (contents-withdraw t.process_valid k (omega arith))
            ∙ sym (append_assoc front _ _)
            ∙ ap (λ l. l ++ contents p.capture) (take-drop_join k (contents p.process))
            ∙ sym (append-nil (held p)))
          refl)
]
