-- ===== src/Prelude/Masks.antt =====
-- `x & (2^k - 1)` at a variable width: the library's `bit_and` has no laws at variables.
use Prim.Native.Nat.{
  ℕ, zero, suc, ◌+◌, ◌-◌, ◌*◌, ◌/◌, ◌%◌, ◌^◌, ◌≤◌, ◌<◌, min, bit_and, digits, bit_and-bitwise,
}
use mathlib.Core.Path.{◌≡◌, ap, ◌∙◌, sym}
use native.Mathlib.Nat.{
  add-mul-mod_self_left, mod-eq_of_lt, div-add-mod, mod-lt, two-pow-succ, one-le-pow, mod_self,
}
use native.Mathlib.Decide.{ℕ_discrete}
use native.Mathlib.Omega.{arith}

-- The conjunction of the lowest `n` digits.
abbrev low_and : ℕ → ℕ → ℕ → ℕ
low_and n x y = digits (λ _. 0) min n x y

-- As many digits as the left number has units are enough.
low_and-enough : (bound n x y : ℕ) → n ≤ bound → x ≤ n → low_and n x y ≡ bit_and x y
low_and-enough bound zero zero y small enough = sym (bit_and-bitwise zero y)
low_and-enough bound (suc n) zero y small enough = sym (bit_and-bitwise zero y)
low_and-enough bound zero (suc x) y small enough = absurd (omega (arith, enough))
low_and-enough zero (suc n) (suc x) y small enough = absurd (omega (arith, small))
low_and-enough (suc bound) (suc n) (suc x) y small enough =
    let here =
      low_and-enough bound n (suc x / 2) (y / 2) (omega (arith, small)) (omega (arith, enough)) in
    let whole =
      low_and-enough bound x (suc x / 2) (y / 2) (omega (arith, small, enough)) (omega arith) in
    omega (arith, here, whole, bit_and-bitwise (suc x) y)

-- The lowest digit of a conjunction, and the rest.
and-split : (x y : ℕ) → bit_and x y ≡ bit_and (x / 2) (y / 2) * 2 + min (x % 2) (y % 2)
and-split zero y = omega (arith, bit_and-bitwise 0 y, bit_and-bitwise 0 (y / 2))
and-split (suc x) y =
    let rest = low_and-enough x x (suc x / 2) (y / 2) (omega arith) (omega arith) in
    omega (arith, rest, bit_and-bitwise (suc x) y)

-- What holds at 0, and at a number when it does at its half, holds.
by_halves {ℓ} : (P : ℕ → Type ℓ) → P 0 → ((x : ℕ) → P (suc x / 2) → P (suc x)) → (x : ℕ) → P x
by_halves P base up x = go x x (omega arith)
  where
    go : (bound x : ℕ) → x ≤ bound → P x
    go bound zero h = base
    go zero (suc x) h = absurd (omega (arith, h))
    go (suc bound) (suc x) h = up x (go bound (suc x / 2) (omega (arith, h)))

and-none : (x : ℕ) → bit_and x 0 ≡ 0
and-none =
    by_halves (λ x. bit_and x 0 ≡ 0) (bit_and-bitwise 0 0)
      (λ x half. omega (arith, half, and-split (suc x) 0))

and-same : (x : ℕ) → bit_and x x ≡ x
and-same =
    by_halves (λ x. bit_and x x ≡ x) (bit_and-bitwise 0 0)
      (λ x half. omega (arith, half, and-split (suc x) (suc x)))

-- A remainder is determined by any quotient.
pub mod_unique : (n m q r : ℕ) → n ≡ r + m * q → r < m → n % m ≡ r
mod_unique n m q r e h = ap (λ k. k % m) e ∙ add-mul-mod_self_left r m q ∙ mod-eq_of_lt h

mod_digit : (a m : ℕ) → 0 < m → a % (m + m) ≡ (a / 2) % m * 2 + a % 2
mod_digit a m h =
    mod_unique a (m + m) (a / 2 / m) _
      (omega (arith, ap (λ (t : ℕ). t * 2) (div-add-mod (a / 2) m)))
      (omega (arith, mod-lt (a / 2) h))

-- Masking with `2 ^ k - 1` takes the remainder.
pub bit_and-mask : (k a : ℕ) → bit_and a (2 ^ k - 1) ≡ a % 2 ^ k
bit_and-mask zero a = omega (arith, and-none a)
bit_and-mask (suc k) a =
    rw (two-pow-succ k, and-split, mod_digit a (2 ^ k) (one-le-pow k 2 (omega arith)))
      (omega (arith, half, bit_and-mask k (a / 2), one-le-pow k 2 (omega arith)))
  where
    half : bit_and (a / 2) ((2 ^ k + 2 ^ k - 1) / 2) ≡ bit_and (a / 2) (2 ^ k - 1)
    half = ap (bit_and (a / 2)) (omega (arith, one-le-pow k 2 (omega arith)))

power_of_test_fuel : (n c : ℕ) → c ≤ n → 0 < c → bit_and c (c - 1) ≡ 0 → (k : ℕ) × (c ≡ 2 ^ k)
power_of_test_fuel zero c h pos e = absurd (omega arith)
power_of_test_fuel (suc n) c h pos e = elim (ℕ_discrete (c % 2) 0) [
  | yes even ↦
      let (k, half) = power_of_test_fuel n (c / 2) (omega arith) (omega arith) (
        omega (
          arith,
          and-split c (c - 1),
          ap (bit_and (c / 2)) {x = (c - 1) / 2} {y = c / 2 - 1} (omega arith),
        )) in
      (suc k, omega (arith, half, two-pow-succ k))
  | no odd ↦ (
    0,
    omega (
      arith,
      and-split c (c - 1),
      ap (bit_and (c / 2)) {x = (c - 1) / 2} {y = c / 2} (omega arith),
      and-same (c / 2),
    ),
  )
]

-- `c & (c - 1)` is zero only at the powers of two,
pub power_of_test : (c : ℕ) → 0 < c → bit_and c (c - 1) ≡ 0 → (k : ℕ) × (c ≡ 2 ^ k)
power_of_test c = power_of_test_fuel c c (omega arith)

-- and there it is.
pub test_of_power : (k : ℕ) → bit_and (2 ^ k) (2 ^ k - 1) ≡ 0
test_of_power k = bit_and-mask k (2 ^ k) ∙ mod_self (2 ^ k)
