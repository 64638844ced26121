-- ===== src/Workers/Order.antt =====
-- The order of the samples on their way through the buffers of src/thread/thread_workers.c, from the
-- ADC callback to the pop of the network thread, over any sequence of rounds.

use mathlib.Core.List.Sublistᴰ
use fast_ring.Prelude.{
  ◌≡◌, ◌<◌, refl, sym, subst, arith, List, [], ◌∷◌, ◌++◌, append-nil, append_assoc, length,
  length-append, u64_mod, Sublistᴰ, length-sublist, eq_of_sublist,
}
use fast_ring.Types.{Sample}
use fast_ring.Workers.Counts.{
  Pipeline, Event, sampled, processed, popped, step, run, AreRounds, IsTallied, sampled-IsTallied,
  processed-IsTallied, popped-IsTallied,
}
use fast_ring.Workers.Passing.{
  brought, gathered, held, IsOrdered, whole, sampled-IsOrdered, processed-IsOrdered,
  popped-IsOrdered,
}

unfoldable pub brought_all : List Event → List Sample
brought_all [] = []
brought_all (e ∷ es) = brought e ++ brought_all es

pub gathered_all : Pipeline → List Event → List Sample
gathered_all p [] = []
gathered_all p (e ∷ es) = gathered p e ++ gathered_all (step p e) es

-- A round first, the others after it.
module _ {p q r : Pipeline} (out outs : List Sample) {new news : List Sample}
    (first : IsOrdered p q new (out ++ held q)) (others : IsOrdered q r news (outs ++ held r)) where
  both : IsOrdered p r (new ++ news) ((out ++ outs) ++ held r)
  both = record {
    in_order =
        subst (λ (l : List Sample). Sublistᴰ l (held p ++ (new ++ news)))
          (sym (append_assoc out outs (held r)))
          (subst (λ (l : List Sample). Sublistᴰ (out ++ (outs ++ held r)) l)
            (append_assoc (held p) new news)
            (Sublistᴰ.trans (Sublistᴰ.append (Sublistᴰ.refl out) others.in_order) (
              subst (λ (l : List Sample). Sublistᴰ l (held p ++ new ++ news))
                (append_assoc out (held q) news)
                (Sublistᴰ.append first.in_order (Sublistᴰ.refl news)))));
    missing = omega (
      arith,
      first.missing,
      others.missing,
      length-append (held p) (new ++ news),
      length-append (held p) new,
      length-append new news,
      length-append (out ++ outs) (held r),
      length-append out outs,
      length-append outs (held r),
      length-append out (held q),
      length-append (held q) news,
    );
  }

-- Over every sequence of rounds, the samples taken for the network, those then waiting for it and
-- those not yet processed are, in this order, samples held at first or brought by the simulator, oldest
-- first: none is made up, doubled or overtaken. How many are missing is what the counter of dropped
-- samples has gone up by, modulo 2^64.
pub run-IsOrdered :
    (es : List Event) {p : Pipeline}
    → AreRounds es
    → IsTallied p
    → IsOrdered p (run p es) (brought_all es) (gathered_all p es ++ held (run p es))
unfolding run brought_all gathered_all brought gathered
run-IsOrdered [] {p} rounds t = whole (sym (append-nil (held p))) refl
run-IsOrdered (sampled x ∷ es) {p} rounds t =
    both [] (gathered_all (step p (sampled x)) es) (sampled-IsOrdered p x t)
      (run-IsOrdered es rounds (sampled-IsTallied p x t))
run-IsOrdered (processed samples ∷ es) {p} rounds t =
    both [] (gathered_all (step p (processed samples)) es)
      (processed-IsOrdered p samples rounds.0 t)
      (run-IsOrdered es rounds.1 (processed-IsTallied p samples rounds.0 t))
run-IsOrdered (popped samples ∷ es) {p} rounds t =
    both (gathered p (popped samples)) (gathered_all (step p (popped samples)) es)
      (popped-IsOrdered p samples rounds.0 t)
      (run-IsOrdered es rounds.1 (popped-IsTallied p samples rounds.0 t))

-- If the counter of dropped samples is the same after the rounds as before, and the samples held at
-- first and brought are fewer than 2^64, then all of them are there, in order: taken for the network,
-- waiting for it, or not yet processed.
pub run-all_kept :
    (es : List Event) {p : Pipeline}
    → AreRounds es
    → IsTallied p
    → length (held p ++ brought_all es) < u64_mod
    → (run p es).stats.dropped_samples ≡ p.stats.dropped_samples
    → gathered_all p es ++ held (run p es) ≡ held p ++ brought_all es
run-all_kept es rounds t few same =
    let o = run-IsOrdered es rounds t in
    eq_of_sublist o.in_order (omega (arith, o.missing, length-sublist o.in_order))
