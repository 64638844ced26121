-- ===== src/Workers/Journey.antt =====
-- The samples from the sampling thread of src/adc/adc_simulator.c, through the callback and the buffers of
-- src/thread/thread_workers.c, to the pops of the network thread.
mod Tests
use fast_ring.Prelude.{
  ℕ, ◌+◌, ◌≡◌, ◌≤◌, ◌<◌, refl, sym, ap, subst, ◌∙◌, arith, false, true, some, List, [], ◌∷◌, ◌++◌,
  length, u32_mod, Sublistᴰ,
}
use fast_ring.Types.{Sample}
use fast_ring.Adc
use fast_ring.Adc.{Simulator, Delivery, begin}
use fast_ring.Adc.Numbers.{Numbered, run-Numbered, calls, AreQuiet, run-calls}
use fast_ring.Workers.Counts.{Pipeline, Event, run, AreRounds, IsTallied}
use fast_ring.Workers.Passing.{held}
use fast_ring.Workers.Order.{brought_all, gathered_all, run-IsOrdered}

-- The samples that the callback is given.
abbrev pub given : List Delivery → List Sample
given [] = []
given (d ∷ ds) = d.sample ∷ given ds

given-calls : (f d : ℕ) (xs : List Sample) → given (calls f d xs) ≡ xs
given-calls f d [] = refl
given-calls f d (x ∷ xs) = ap (◌∷◌ x) (given-calls f d xs)

-- The numbers of the samples go up, from `n` on.
abbrev pub Rising : ℕ → List Sample → Type 0
Rising n [] = Unit {0}
Rising n (x ∷ xs) = (n ≤ x.sequence) × Rising (x.sequence + 1) xs

Rising-earlier : (m n : ℕ) (xs : List Sample) → m ≤ n → Rising n xs → Rising m xs
Rising-earlier m n [] h r = tt
Rising-earlier m n (x ∷ xs) h r = (omega (arith, h, r.0), r.1)

Rising-sublist : (n : ℕ) {xs ys : List Sample} → Sublistᴰ xs ys → Rising n ys → Rising n xs
Rising-sublist n Sublistᴰ.slnil r = tt
Rising-sublist n (Sublistᴰ.cons {a = y} {l₁ = xs} s) r =
    Rising-earlier n (y.sequence + 1) xs (omega (arith, r.0))
      (Rising-sublist (y.sequence + 1) s r.1)
Rising-sublist n (Sublistᴰ.cons-cons {a = x} {l₁ = xs} {l₂ = ys} e s) r =
    let same = ap (λ (y : Sample). y.sequence) e in
    (
      omega (arith, r.0, same),
      Rising-sublist (x.sequence + 1) s (subst (λ k. Rising (k + 1) ys) (sym same) r.1),
    )

Numbered-Rising : (n : ℕ) (xs : List Sample) → n + length xs < u32_mod → Numbered n xs → Rising n xs
Numbered-Rising n [] h c = tt
Numbered-Rising n (x ∷ xs) h c =
    let same : x.sequence ≡ n = omega (arith, h, c.0) in
    (
      omega (arith, same),
      Rising-earlier (x.sequence + 1) (n + 1) xs (omega (arith, same))
          (Numbered-Rising (n + 1) xs (omega arith) c.1),
    )

-- If a simulator at rest is started with a callback that is not changed, and the samples that its thread gives to
-- the callback are those brought by the rounds of the other threads, on buffers that were empty, then what is taken
-- for the network, and behind it what still waits, are samples that the simulator generated, in the order of
-- their generation, and, if fewer than 2^32 were generated, their numbers go up: what is lost shows as a gap.
pub run-Rising :
    (wave : ℕ → ℕ → ℕ → ℕ) (ticks : List Adc.Event) (adc : Simulator) (interval started now f : ℕ)
    (es : List Event) {p : Pipeline}
    → adc.is_running ≡ false
    → (Adc.start true started adc).1.callback ≡ some f
    → AreQuiet ticks
    → let s = Adc.run wave (begin (Adc.start true started adc).1 interval now) ticks in
      length s.taken < u32_mod
      → AreRounds es
      → IsTallied p
      → held p ≡ []
      → brought_all es ≡ given s.delivered
      → Sublistᴰ (gathered_all p es ++ held (run p es)) s.taken
        × Rising 0 (gathered_all p es ++ held (run p es))
run-Rising wave ticks adc interval started now f es {p} down set quiet few rounds t empty brought =
    let live = (Adc.start true started adc).1 in
    let s = Adc.run wave (begin live interval now) ticks in
    let all : held p ++ brought_all es ≡ s.taken =
      ap (λ l. l ++ brought_all es) empty
      ∙ brought
      ∙ ap given (run-calls wave ticks live interval now f quiet set)
      ∙ given-calls f live.callback_data s.taken in
    let order =
      subst (λ (l : List Sample). Sublistᴰ (gathered_all p es ++ held (run p es)) l) all
        (run-IsOrdered es rounds t).in_order in
    (
      order,
      Rising-sublist 0 order (
          Numbered-Rising 0 s.taken (omega (arith, few))
            (run-Numbered wave ticks adc interval started now down)),
    )
