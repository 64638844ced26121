-- ===== src/Adc/Rate.antt =====
-- How often the thread of src/adc/adc_simulator.c samples.
use native.Mathlib.Nat.{add-mul, one-le-pow, pow-le-pow_right, div-le_self}
use native.Mathlib.Decide.{dec_lt}
use fast_ring.Prelude.{
  ℕ, suc, ◌+◌, ◌-◌, ◌*◌, ◌/◌, ◌^◌, ◌≤◌, ◌<◌, ◌≡◌, refl, ap, ◌∙◌, arith, true, false, ◌&&◌, ltb, leb,
  some, List, [], ◌∷◌, ◌++◌, length, length-append, inl, inr, Bool-cases, ◌==◌,
}
use fast_ring.Adc.{
  Simulator, take_sample, Sampling, next_time, tick, Event, round, callback_set, stop_asked, step,
  run, begin, sample_interval, max_value,
}

-- The readings of the clock do not go back, from `last` on, and stay below 2^63.
abbrev pub AreTimed : ℕ → List Event → Type 0
AreTimed last [] = Unit {0}
AreTimed last (round now ∷ es) = (last ≤ now) × (now < 2 ^ 63) × AreTimed now es
AreTimed last (callback_set f d ∷ es) = AreTimed last es
AreTimed last (stop_asked ∷ es) = AreTimed last es

-- The last reading of the clock.
abbrev pub last_reading : ℕ → List Event → ℕ
last_reading last [] = last
last_reading last (round now ∷ es) = last_reading now es
last_reading last (callback_set f d ∷ es) = last_reading last es
last_reading last (stop_asked ∷ es) = last_reading last es

-- Each sample puts the time of the next one off by an interval at least, to an interval past the
-- reading `last` at most.
pub record IsPaced (begun interval last : ℕ) (s : Sampling) : Type 0 where
  pub same : s.interval ≡ interval
  pub slow : begun + length s.taken * interval ≤ s.next_sample_time
  pub soon : s.next_sample_time ≤ last + interval
  pub low : last < 2 ^ 63

next_time_lem :
    (interval next now : ℕ)
    → next ≤ now
    → now < 2 ^ 63
    → interval ≤ 1_000_000
    → (next + interval ≤ next_time interval next now)
      × (next_time interval next now ≤ now + interval)
unfolding next_time
next_time_lem interval next now due low small = ground arith

tick-IsPaced :
    (wave : ℕ → ℕ → ℕ → ℕ) (begun interval last now : ℕ) (s : Sampling)
    → interval ≤ 1_000_000
    → last ≤ now
    → now < 2 ^ 63
    → IsPaced begun interval last s
    → IsPaced begun interval now (tick wave now s)
unfolding tick take_sample
tick-IsPaced wave begun interval last now s small later low p =
    elim (Bool-cases (s.adc.is_running && leb s.next_sample_time now)) [
      | inr early ↦
          rw early
            (record { same = p.same; slow = p.slow; soon = omega (arith, p.soon); low = low })
      | inl due ↦
          let now_due : s.next_sample_time ≤ now = ground arith in
          let next = next_time_lem interval s.next_sample_time now now_due low small in
          let x = (take_sample wave now s.adc).0 in
          let paces : length (s.taken ++ (x ∷ [])) * interval
              ≡ length s.taken * interval + interval =
            ap (λ (k : ℕ). k * interval) (length-append s.taken (x ∷ []))
            ∙ add-mul (length s.taken) 1 interval
            ∙ ap (λ (k : ℕ). length s.taken * interval + k) {x = 1 * interval} {y = interval}
                (omega arith) in
          let same_next : next_time s.interval s.next_sample_time now
              ≡ next_time interval s.next_sample_time now =
            ap (λ i. next_time i s.next_sample_time now) p.same in
          rw due (record {
            same = p.same;
            slow = omega (arith, p.slow, p.same, next.0, paces, same_next);
            soon = omega (arith, next.1, same_next, p.same);
            low = low;
          })
    ]

run-IsPaced :
    (wave : ℕ → ℕ → ℕ → ℕ) (es : List Event) (begun interval last : ℕ) (s : Sampling)
    → interval ≤ 1_000_000
    → AreTimed last es
    → IsPaced begun interval last s
    → IsPaced begun interval (last_reading last es) (run wave s es)
unfolding run step
run-IsPaced wave [] begun interval last s small timed p = p
run-IsPaced wave (round now ∷ es) begun interval last s small timed p =
    run-IsPaced wave es begun interval now (tick wave now s) small timed.2
      (tick-IsPaced wave begun interval last now s small timed.0 timed.1 p)
run-IsPaced wave (callback_set f d ∷ es) begun interval last s small timed p =
    run-IsPaced wave es begun interval last _ small timed
      (record { same = p.same; slow = p.slow; soon = p.soon; low = p.low })
run-IsPaced wave (stop_asked ∷ es) begun interval last s small timed p =
    run-IsPaced wave es begun interval last _ small timed
      (record { same = p.same; slow = p.slow; soon = p.soon; low = p.low })

begin-IsPaced :
    (adc : Simulator) (interval now : ℕ)
    → now < 2 ^ 63
    → IsPaced now interval now (begin adc interval now)
begin-IsPaced adc interval now low = record {
  same = refl;
  slow = omega arith;
  soon = omega arith;
  low = low;
}

interval_small : (rate interval : ℕ) → sample_interval rate ≡ some interval → interval ≤ 1_000_000
unfolding sample_interval
interval_small rate interval e = elim (Bool-cases (rate == 0)) [
  | inl zero_rate ↦ absurd (ground (arith, rw zero_rate at e))
  | inr positive ↦
      let value : 1_000_000 / rate ≡ interval = ground (arith, rw positive at e) in
      omega (arith, value, div-le_self 1_000_000 rate)
]

-- The sampling thread never runs fast: however often it looks at the clock, from its start to the last
-- reading it generates at most one sample for each interval, and one more.
pub run-rate :
    (wave : ℕ → ℕ → ℕ → ℕ) (es : List Event) (adc : Simulator) (interval now : ℕ)
    → sample_interval adc.config.sample_rate ≡ some interval
    → now < 2 ^ 63
    → AreTimed now es
    → now + length (run wave (begin adc interval now) es).taken * interval
      ≤ last_reading now es + interval
run-rate wave es adc interval now e low timed =
    let p =
      run-IsPaced wave es now interval now (begin adc interval now)
        (interval_small adc.config.sample_rate interval e) timed
        (begin-IsPaced adc interval now low) in
    omega (arith, p.slow, p.soon)

tick_due :
    (wave : ℕ → ℕ → ℕ → ℕ) (later : ℕ) (s : Sampling)
    → s.adc.is_running ≡ true
    → s.next_sample_time ≤ later
    → length (tick wave later s).taken ≡ suc (length s.taken)
unfolding tick take_sample
tick_due wave later s alive due =
    let test : (s.adc.is_running && leb s.next_sample_time later) ≡ true = ground arith in
    rw test (omega (arith, length-append s.taken ((take_sample wave later s.adc).0 ∷ [])))

-- And it never sleeps: after any rounds, while it is running, a round whose reading is an interval or
-- more past the last one generates a sample.
pub tick-run :
    (wave : ℕ → ℕ → ℕ → ℕ) (es : List Event) (adc : Simulator) (interval now later : ℕ)
    → sample_interval adc.config.sample_rate ≡ some interval
    → now < 2 ^ 63
    → AreTimed now es
    → last_reading now es + interval ≤ later
    → (run wave (begin adc interval now) es).adc.is_running ≡ true
    → let s = run wave (begin adc interval now) es in
      length (tick wave later s).taken ≡ suc (length s.taken)
tick-run wave es adc interval now later e low timed late alive =
    let p =
      run-IsPaced wave es now interval now (begin adc interval now)
        (interval_small adc.config.sample_rate interval e) timed
        (begin-IsPaced adc interval now low) in
    tick_due wave later _ alive (omega (arith, p.soon, late))

-- The greatest value is that of a two's complement number of as many bits as the resolution says, for
-- a resolution of 1 to 32 bits.
pub max_value_lem :
    (resolution : ℕ)
    → 1 ≤ resolution
    → resolution ≤ 32
    → max_value resolution + 1 ≡ 2 ^ (resolution - 1)
unfolding max_value
max_value_lem resolution low high = elim (dec_lt resolution 32) [
  | yes narrow ↦
      let test : (ltb 0 resolution && ltb resolution 32) ≡ true = ground arith in
      rw test (
        omega (
          arith,
          one-le-pow (resolution - 1) 2 (omega arith),
          pow-le-pow_right {n = 2} (omega arith) {i = resolution - 1} {j = 31} (omega arith),
        ))
  | no wide ↦
      let test : (ltb 0 resolution && ltb resolution 32) ≡ false = ground arith in
      rw test (ap (λ (k : ℕ). 2 ^ k) {x = 31} {y = resolution - 1} (omega arith))
]
