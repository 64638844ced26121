-- ===== src/Logger/Digits.antt =====
-- Numbers of two and three digits as src/utils/logger.c prints them.
use fast_ring.Prelude.{
  ℕ, suc, ◌+◌, ◌/◌, ◌%◌, ◌≤◌, ◌<◌, ◌≡◌, refl, inl, inr, arith, true, false, [], ◌∷◌, ◌++◌, ltb,
  Bool-cases, padded, digits,
}

three : {a b c a' b' c' : ℕ} → a ≡ a' → b ≡ b' → c ≡ c' → a ∷ b ∷ c ∷ [] ≡ a' ∷ b' ∷ c' ∷ []
three ea eb ec = cc

two : {a b a' b' : ℕ} → a ≡ a' → b ≡ b' → a ∷ b ∷ [] ≡ a' ∷ b' ∷ []
two ea eb = cc

-- The last digit, alone or with others before it
digits_less : (k n : ℕ) → n < 10 → digits (suc k) n ≡ (48 + n) ∷ []
unfolding digits
digits_less k n h = let small : ltb n 10 ≡ true = ground arith in rw small refl

digits_more : (k n : ℕ) → 10 ≤ n → digits (suc k) n ≡ digits k (n / 10) ++ ((48 + n % 10) ∷ [])
unfolding digits
digits_more k n h = let large : ltb n 10 ≡ false = ground arith in rw large refl

-- `%02u` and `%03u` of numbers of at most two and three digits
pub two_digits : (n : ℕ) → n < 100 → padded 2 n ≡ (48 + n / 10) ∷ (48 + n % 10) ∷ []
two_digits n h = elim (Bool-cases (ltb n 10)) [
  | inl e ↦ rw (digits_less 9 n (ground (arith, e))) (two (ground (arith, e)) (ground (arith, e)))
  | inr e ↦ rw (digits_more 9 n (ground (arith, e)), digits_less 8 (n / 10) (omega (arith, h))) refl
]

pub three_digits :
    (n : ℕ) → n < 1_000 → padded 3 n ≡ (48 + n / 100) ∷ (48 + n / 10 % 10) ∷ (48 + n % 10) ∷ []
three_digits n h = elim (Bool-cases (ltb n 10)) [
  | inl e ↦
      rw (digits_less 9 n (ground (arith, e)))
        (three (ground (arith, e)) (ground (arith, e)) (ground (arith, e)))
  | inr e ↦ elim (Bool-cases (ltb n 100)) [
    | inl e' ↦
        rw (digits_more 9 n (ground (arith, e)), digits_less 8 (n / 10) (ground (arith, e')))
          (three (ground (arith, e')) (ground (arith, e')) refl)
    | inr e' ↦
        rw
          (
            digits_more 9 n (ground (arith, e)),
            digits_more 8 (n / 10) (ground (arith, e')),
            digits_less 7 (n / 10 / 10) (omega (arith, h)),
          )
          (three (omega arith) refl refl)
  ]
]
