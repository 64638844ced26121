-- ===== src/Ring/Create/Rounding.antt =====
-- The capacity that `ring_buffer_create` of src/buffer/ring_buffer.c arrives at, and when its loop
-- ends.
use native.Mathlib.Nat.{two-pow-succ, one-le-pow, pow-le-pow_right}
use native.Mathlib.Decide.{dec_lt, ℕ_discrete}
use fast_ring.Prelude.{
  ℕ, zero, suc, ◌+◌, ◌-◌, ◌*◌, ◌%◌, ◌^◌, ◌≤◌, ◌<◌, ◌≡◌, ◌≢◌, refl, ap, ◌∙◌, arith, bit_and, none,
  some, ltb, true, false, if◌then◌else◌, sub32, u32_mod, power_of_test,
}
use fast_ring.Ring.Create.{next_power, round_up}
use fast_ring.Ring.Inv.{IsPower}

-- A power of two from 2 to 2^31 that holds `c` and is less than twice as large.
pub record IsRounding (c r : ℕ) : Type 0 where
  pub power : IsPower r
  pub holds : c ≤ r
  pub tight : r < 2 * (if ltb c 2 then 2 else c)

exponent_lt : (i j : ℕ) → 2 ^ i ≤ 2 ^ j → i ≤ j
exponent_lt i j h = elim (dec_lt j i) [
  | yes p ↦ absurd (
      omega (
        arith,
        two-pow-succ j,
        one-le-pow j 2 (omega arith),
        pow-le-pow_right {n = 2} (omega arith) {i = suc j} {j = i} p,
      ))
  | no p ↦ omega arith
]

doubling-IsPower : (k c : ℕ) → c ≡ 2 ^ k → 2 ≤ c → c ≤ 2 ^ 31 → IsPower c
doubling-IsPower k c e low high = record {
  exponent = k;
  value = e;
  low = exponent_lt 1 k (omega arith);
  high = exponent_lt k 31 (omega arith);
}

-- One test of the loop.
next_power_more :
    (fuel p c : ℕ) → p < c → next_power (suc fuel) p c ≡ next_power fuel (p * 2 % u32_mod) c
unfolding next_power
next_power_more fuel p c h = let e : ltb p c ≡ true = ground arith in rw (e, next_power)

next_power_done : (fuel p c : ℕ) → c ≤ p → next_power (suc fuel) p c ≡ some p
unfolding next_power
next_power_done fuel p c h = let e : ltb p c ≡ false = ground arith in rw (e, next_power)

-- Short of 2^31 a doubling does not wrap.
doubled : (j : ℕ) → j < 31 → 2 ^ j * 2 % u32_mod ≡ 2 ^ suc j
doubled j h =
    omega (arith, two-pow-succ j, pow-le-pow_right {n = 2} (omega arith) {i = suc j} {j = 31} h)

-- From 2^j below the capacity, enough fuel for the doublings that are left.
next_power_lem :
    (fuel j c : ℕ)
    → 2 ≤ c
    → c ≤ 2 ^ 31
    → 2 ^ j < 2 * c
    → 32 ≤ fuel + j
    → j ≤ 31
    → (r : ℕ) × (next_power fuel (2 ^ j) c ≡ some r) × IsPower r × (c ≤ r) × (r < 2 * c)
next_power_lem zero j c low high below enough jl = absurd (omega arith)
next_power_lem (suc fuel) j c low high below enough jl = elim (dec_lt (2 ^ j) c) [
  | yes smaller ↦
      let short : j < 31 = room smaller in
      let (r, e, power, holds, tight) =
        next_power_lem fuel (suc j) c low high (omega (arith, two-pow-succ j)) (omega arith)
          short in
      (
        r,
        next_power_more fuel (2 ^ j) c smaller
            ∙ ap (λ k. next_power fuel k c) (doubled j short)
            ∙ e,
        power,
        holds,
        tight,
      )
  | no reached ↦ (
    2 ^ j,
    next_power_done fuel (2 ^ j) c (omega arith),
    doubling-IsPower j (2 ^ j) refl (omega arith) (pow-le-pow_right (omega arith) jl),
    omega arith,
    below,
  )
]
  where
    room : 2 ^ j < c → j < 31
    room smaller = elim (dec_lt j 31) [
      | yes h ↦ h
      | no h ↦
          absurd
            (omega (arith, pow-le-pow_right {n = 2} (omega arith) {i = 31} {j = j} (omega arith)))
    ]

-- The three ways through `round_up`.
round_small : (fuel c : ℕ) → c < 2 → round_up fuel c ≡ some 2
unfolding round_up
round_small fuel c h = let e : ltb c 2 ≡ true = ground arith in rw (e, round_up)

round_power : (fuel c : ℕ) → 2 ≤ c → c ≤ 2 ^ 31 → bit_and c (c - 1) ≡ 0 → round_up fuel c ≡ some c
unfolding round_up
round_power fuel c low high e = ground (arith, less)
  where
    less : bit_and c (sub32 c 1) ≡ 0
    less = ap (bit_and c) {x = sub32 c 1} {y = c - 1} (omega arith) ∙ e

round_loop :
    (fuel c : ℕ)
    → 2 ≤ c
    → c < u32_mod
    → bit_and c (c - 1) ≢ 0
    → round_up fuel c ≡ next_power fuel 1 c
unfolding round_up
round_loop fuel c low high ne = ground (arith, less)
  where
    less : bit_and c (sub32 c 1) ≡ bit_and c (c - 1)
    less = ap (bit_and c) {x = sub32 c 1} {y = c - 1} (omega arith)

-- For a capacity of at most 2^31, 32 tests are enough for the loop: the capacity is rounded up to
-- the least power of two from 2 on that holds it.
pub round_up-IsRounding :
    (fuel c : ℕ) → c ≤ 2 ^ 31 → 32 ≤ fuel → (r : ℕ) × (round_up fuel c ≡ some r) × IsRounding c r
round_up-IsRounding fuel c high enough = elim (dec_lt c 2) [
  | yes small ↦ (
    2,
    round_small fuel c small,
    record {
      power = doubling-IsPower 1 2 refl (omega arith) (omega arith);
      holds = omega arith;
      tight = ground arith;
    },
  )
  | no large ↦ elim (ℕ_discrete (bit_and c (c - 1)) 0) [
    | yes test ↦
        let (k, e) = power_of_test c (omega arith) test in
        (
          c,
          round_power fuel c (omega arith) high test,
          record {
            power = doubling-IsPower k c e (omega arith) high;
            holds = omega arith;
            tight = ground arith;
          },
        )
    | no fails ↦
        let (r, e, p, holds, tight) =
          next_power_lem fuel 0 c (omega arith) high (omega arith) (omega arith) (omega arith) in
        (
          r,
          round_loop fuel c (omega arith) (omega arith) fails ∙ e,
          record { power = p; holds = holds; tight = ground arith },
        )
  ]
]

next_power_zero : (fuel c : ℕ) → 0 < c → next_power fuel 0 c ≡ none
unfolding next_power
next_power_zero zero c pos = refl
next_power_zero (suc fuel) c pos = next_power_more fuel 0 c pos ∙ next_power_zero fuel c pos

-- Past 2^31 the doubling wraps to 0 and stays there.
next_power_stuck : (fuel j c : ℕ) → j ≤ 31 → 2 ^ 31 < c → next_power fuel (2 ^ j) c ≡ none
unfolding next_power
next_power_stuck zero j c jl big = refl
next_power_stuck (suc fuel) j c jl big =
    next_power_more fuel (2 ^ j) c
      (omega (arith, pow-le-pow_right {n = 2} (omega arith) {i = j} {j = 31} jl))
    ∙ elim (dec_lt j 31) [
      | yes short ↦
          ap (λ k. next_power fuel k c) (doubled j short)
          ∙ next_power_stuck fuel (suc j) c short big
      | no last ↦
          ap (λ k. next_power fuel (2 ^ k * 2 % u32_mod) c) {x = j} {y = 31} (omega arith)
          ∙ next_power_zero fuel c (omega arith)
    ]

-- The loop never ends for a 32-bit capacity above 2^31, whatever the number of rounds allowed.
pub round_up_diverges : (fuel c : ℕ) → 2 ^ 31 < c → c < u32_mod → round_up fuel c ≡ none
round_up_diverges fuel c big word = elim (ℕ_discrete (bit_and c (c - 1)) 0) [
  | yes test ↦ let (k, e) = power_of_test c (omega arith) test in absurd (between k e)
  | no fails ↦
      round_loop fuel c (omega arith) word fails ∙ next_power_stuck fuel 0 c (omega arith) big
]
  where
    between : (k : ℕ) → c ≡ 2 ^ k → ⊥
    between k e = elim (dec_lt 31 k) [
      | yes above ↦ omega (arith, pow-le-pow_right {n = 2} (omega arith) {i = 32} {j = k} above)
      | no below ↦
          omega (arith, pow-le-pow_right {n = 2} (omega arith) {i = k} {j = 31} (omega arith))
    ]
