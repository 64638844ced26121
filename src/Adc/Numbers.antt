-- ===== src/Adc/Numbers.antt =====
-- The samples that the thread of src/adc/adc_simulator.c generates, and those that the callback gets.
use fast_ring.Prelude.{
  ℕ, ◌+◌, ◌%◌, ◌≡◌, refl, sym, ap, ap₂, ◌∙◌, arith, true, false, ◌&&◌, none, some, List, [], ◌∷◌,
  ◌++◌, length, length-append, inl, inr, Bool-cases, leb, if◌then◌else◌, u32_mod,
}
use fast_ring.Types.{AdcError, ok, Sample}
use fast_ring.Adc.{
  Simulator, start, take_sample, Delivery, Sampling, deliver, tick, Event, round, callback_set,
  stop_asked, step, run, begin,
}

-- The samples carry the numbers from `n` on, modulo 2^32.
abbrev pub Numbered : ℕ → List Sample → Type 0
Numbered n [] = Unit {0}
Numbered n (x ∷ xs) = (x.sequence ≡ n % u32_mod) × Numbered (n + 1) xs

Numbered-snoc :
    (n : ℕ) (xs : List Sample) (x : Sample)
    → Numbered n xs
    → x.sequence ≡ (n + length xs) % u32_mod
    → Numbered n (xs ++ (x ∷ []))
Numbered-snoc n [] x h e = (omega (arith, e), tt)
Numbered-snoc n (y ∷ ys) x h e = (h.0, Numbered-snoc (n + 1) ys x h.1 (omega (arith, e)))

-- The samples taken are numbered from `n` on, and the next one will have the next number.
pub record IsCounted (n : ℕ) (s : Sampling) : Type 0 where
  pub counted : Numbered n s.taken
  pub following : s.adc.sequence ≡ (n + length s.taken) % u32_mod

tick-IsCounted :
    (wave : ℕ → ℕ → ℕ → ℕ) (now n : ℕ) (s : Sampling)
    → IsCounted n s
    → IsCounted n (tick wave now s)
unfolding tick take_sample
tick-IsCounted wave now n s c = elim (Bool-cases (s.adc.is_running && leb s.next_sample_time now)) [
  | inr early ↦ rw early c
  | inl due ↦ rw due (record {
    counted = Numbered-snoc n s.taken _ c.counted c.following;
    following = omega (arith, c.following, length-append s.taken (_ ∷ []));
  })
]

run-IsCounted :
    (wave : ℕ → ℕ → ℕ → ℕ) (es : List Event) (n : ℕ) (s : Sampling)
    → IsCounted n s
    → IsCounted n (run wave s es)
unfolding run step
run-IsCounted wave [] n s c = c
run-IsCounted wave (round now ∷ es) n s c =
    run-IsCounted wave es n (tick wave now s) (tick-IsCounted wave now n s c)
run-IsCounted wave (callback_set f d ∷ es) n s c =
    run-IsCounted wave es n _ (record { counted = c.counted; following = c.following })
run-IsCounted wave (stop_asked ∷ es) n s c =
    run-IsCounted wave es n _ (record { counted = c.counted; following = c.following })

sequence-start :
    (now : ℕ) (adc : Simulator) → adc.is_running ≡ false → (start true now adc).1.sequence ≡ 0
unfolding start
sequence-start now adc down =
    ap (λ (out : AdcError × Simulator). out.1.sequence)
      (ap
        (λ b. if b then (ok, adc) else (
          ok,
          record adc {
            is_running = true;
            start_time = now;
            sequence = 0;
            unjoined = adc.unjoined + 1;
          },
        ))
        down)

-- Whatever happens between the rounds, the samples of the thread that a start makes carry the numbers
-- 0, 1, 2 and so on, modulo 2^32: none is skipped and none is given twice.
pub run-Numbered :
    (wave : ℕ → ℕ → ℕ → ℕ) (es : List Event) (adc : Simulator) (interval started now : ℕ)
    → adc.is_running ≡ false
    → Numbered 0 (run wave (begin (start true started adc).1 interval now) es).taken
run-Numbered wave es adc interval started now down =
    (run-IsCounted wave es 0 _
      (record { counted = tt; following = omega (arith, sequence-start started adc down) })).counted

-- The calls of one callback for the samples given.
abbrev pub calls : ℕ → ℕ → List Sample → List Delivery
calls f d [] = []
calls f d (x ∷ xs) = record { sample = x; callback = f; user_data = d } ∷ calls f d xs

calls-append : (f d : ℕ) (xs ys : List Sample) → calls f d (xs ++ ys) ≡ calls f d xs ++ calls f d ys
calls-append f d [] ys = refl
calls-append f d (x ∷ xs) ys =
    ap (◌∷◌ (record { sample = x; callback = f; user_data = d })) (calls-append f d xs ys)

-- No other callback is set.
abbrev pub AreQuiet : List Event → Type 0
AreQuiet [] = Unit {0}
AreQuiet (callback_set f d ∷ es) = ⊥
AreQuiet (round now ∷ es) = AreQuiet es
AreQuiet (stop_asked ∷ es) = AreQuiet es

record IsHeard (f d : ℕ) (s : Sampling) : Type 0 where
  pub set : s.adc.callback ≡ some f
  pub kept : s.adc.callback_data ≡ d
  pub heard : s.delivered ≡ calls f d s.taken

deliver-calls :
    (adc : Simulator) (f d : ℕ) (x : Sample)
    → adc.callback ≡ some f
    → adc.callback_data ≡ d
    → deliver adc x ≡ calls f d (x ∷ [])
unfolding deliver
deliver-calls adc f d x e k =
    ap
      (λ c. elim c [
        | none ↦ []
        | some g ↦ record { sample = x; callback = g; user_data = adc.callback_data } ∷ []
      ])
      e
    ∙ ap (λ u. record { sample = x; callback = f; user_data = u } ∷ []) k

tick-IsHeard :
    (wave : ℕ → ℕ → ℕ → ℕ) (now f d : ℕ) (s : Sampling)
    → IsHeard f d s
    → IsHeard f d (tick wave now s)
unfolding tick take_sample
tick-IsHeard wave now f d s h = elim (Bool-cases (s.adc.is_running && leb s.next_sample_time now)) [
  | inr early ↦ rw early h
  | inl due ↦ rw due (record {
    set = h.set;
    kept = h.kept;
    heard =
        ap₂ ◌++◌ h.heard (
          deliver-calls (take_sample wave now s.adc).1 f d (take_sample wave now s.adc).0 h.set
            h.kept)
        ∙ sym (calls-append f d s.taken ((take_sample wave now s.adc).0 ∷ []));
  })
]

run-IsHeard :
    (wave : ℕ → ℕ → ℕ → ℕ) (es : List Event) (f d : ℕ) (s : Sampling)
    → AreQuiet es
    → IsHeard f d s
    → IsHeard f d (run wave s es)
unfolding run step
run-IsHeard wave [] f d s quiet h = h
run-IsHeard wave (round now ∷ es) f d s quiet h =
    run-IsHeard wave es f d (tick wave now s) quiet (tick-IsHeard wave now f d s h)
run-IsHeard wave (callback_set g u ∷ es) f d s quiet h = elim quiet [ ]
run-IsHeard wave (stop_asked ∷ es) f d s quiet h =
    run-IsHeard wave es f d _ quiet (record { set = h.set; kept = h.kept; heard = h.heard })

-- With one callback set throughout, the sampling thread calls it once for each sample that it
-- generates, in order, with the sample and the pointer that was set with it.
pub run-calls :
    (wave : ℕ → ℕ → ℕ → ℕ) (es : List Event) (adc : Simulator) (interval now f : ℕ)
    → AreQuiet es
    → adc.callback ≡ some f
    → let s = run wave (begin adc interval now) es in
      s.delivered ≡ calls f adc.callback_data s.taken
run-calls wave es adc interval now f quiet set =
    (run-IsHeard wave es f adc.callback_data _ quiet
      (record { set = set; kept = refl; heard = refl })).heard
