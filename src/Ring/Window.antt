-- ===== src/Ring/Window.antt =====
-- The samples that lie in a block from an index on, going round at its end: what the indices of
-- `ring_buffer_t` in src/buffer/ring_buffer.c stand for.
use native.Mathlib.Nat.{mod-eq_of_lt, mod-lt, mod-add-mod, mod-mod, mod-eq-sub-mod, add-zero}
use native.Mathlib.Decide.{dec_lt}
use fast_ring.Prelude.{
  ℕ, zero, suc, ◌+◌, ◌-◌, ◌%◌, ◌≤◌, ◌<◌, ◌≡◌, ◌≢◌, refl, sym, ap, ap₂, ◌∙◌, arith, List, [], ◌∷◌,
  ◌++◌, length, set, take, drop, get_or, get_or-set_self, get_or-set_ne,
}
use fast_ring.Types.{Sample}
use fast_ring.Ring.{RingBuffer, count}

-- What stands for a read outside the block.
abbrev pub blank : Sample
blank = record { timestamp = 0; value = 0; sequence = 0; channel = 0; flags = 0 }

-- The sample in the slot of the running index `i`.
abbrev pub slot : List Sample → ℕ → ℕ → Sample
slot buf c i = get_or buf (i % c) blank

abbrev pub window : List Sample → ℕ → ℕ → ℕ → List Sample
window buf c t zero = []
window buf c t (suc n) = slot buf c t ∷ window buf c (t + 1) n

-- The samples held, oldest first.
abbrev pub contents : RingBuffer → List Sample
contents rb = window rb.buffer rb.capacity rb.tail (count rb)

-- Running indices less than `c` apart lie in different slots.
pub mod-ne : (c a b : ℕ) → a < b → b < a + c → a % c ≢ b % c
mod-ne c a b h k e = elim (dec_lt (a % c + (b - a)) c) [
  | yes p ↦ omega (arith, split, mod-eq_of_lt p)
  | no p ↦ omega (
    arith,
    split,
    mod-lt a {m = c} (omega arith),
    mod-eq-sub-mod {n = a % c + (b - a)} {m = c} (omega arith),
    mod-eq_of_lt {n = a % c + (b - a) - c} {m = c} (omega (arith, mod-lt a {m = c} (omega arith))),
  )
]
  where
    split : (a % c + (b - a)) % c ≡ b % c
    split = mod-add-mod a c (b - a) ∙ ap (λ (t : ℕ). t % c) {x = a + (b - a)} {y = b} (omega arith)

module _ (buf : List Sample) (c : ℕ) where
  pub length-window : (t n : ℕ) → length (window buf c t n) ≡ n
  length-window t zero = refl
  length-window t (suc n) = ap suc (length-window (t + 1) n)

  pub window-snoc :
      (t n : ℕ) → window buf c t (suc n) ≡ window buf c t n ++ (slot buf c (t + n) ∷ [])
  window-snoc t zero = rw add-zero
  window-snoc t (suc n) = ap (◌∷◌ (slot buf c t)) (
      window-snoc (t + 1) n
      ∙ ap (λ (k : ℕ). window buf c (t + 1) n ++ (slot buf c k ∷ [])) {x = t + 1 + n}
          {y = t + suc n} (omega arith))

  pub window-add : (t m n : ℕ) → window buf c t (m + n) ≡ window buf c t m ++ window buf c (t + m) n
  window-add t zero n =
      ap₂ (window buf c) {x = t} {y = t + 0} {u = 0 + n} {v = n} (omega arith) (omega arith)
  window-add t (suc m) n =
      ap (window buf c t) {x = suc m + n} {y = suc (m + n)} (omega arith)
      ∙ ap (◌∷◌ (slot buf c t)) (
          window-add (t + 1) m n
          ∙ ap (λ (k : ℕ). window buf c (t + 1) m ++ window buf c k n) {x = t + 1 + m}
              {y = t + suc m} (omega arith))

  -- A start that is a whole turn further on gives the same samples.
  pub window-mod : (t n : ℕ) → window buf c (t % c) n ≡ window buf c t n
  window-mod t zero = refl
  window-mod t (suc n) = ap₂ ◌∷◌ (ap (λ (k : ℕ). get_or buf k blank) (mod-mod t c)) (
      sym (window-mod (t % c + 1) n)
      ∙ ap (λ (k : ℕ). window buf c k n) (mod-add-mod t c 1)
      ∙ window-mod (t + 1) n)

  pub take-window : (t m n : ℕ) → m ≤ n → take m (window buf c t n) ≡ window buf c t m
  take-window t zero n h = refl
  take-window t (suc m) zero h = absurd (omega arith)
  take-window t (suc m) (suc n) h = ap (◌∷◌ (slot buf c t)) (take-window (t + 1) m n (omega arith))

  pub drop-window : (t m n : ℕ) → m ≤ n → drop m (window buf c t n) ≡ window buf c (t + m) (n - m)
  drop-window t zero n h =
      ap₂ (window buf c) {x = t} {y = t + 0} {u = n} {v = n - 0} (omega arith) (omega arith)
  drop-window t (suc m) zero h = absurd (omega arith)
  drop-window t (suc m) (suc n) h =
      drop-window (t + 1) m n (omega arith)
      ∙ ap₂ (window buf c) {x = t + 1 + m} {y = t + suc m} {u = n - m} {v = suc n - suc m}
          (omega arith) (omega arith)

  -- A write outside the window leaves it alone.
  pub window-set_outside :
      (x : Sample) (k t n : ℕ)
      → t + n ≤ k
      → k < t + c
      → window (set buf (k % c) x) c t n ≡ window buf c t n
  window-set_outside x k t zero h l = refl
  window-set_outside x k t (suc n) h l =
      ap₂ ◌∷◌
        (get_or-set_ne buf (k % c) (t % c) x blank (λ e. mod-ne c t k (omega arith) l (sym e)))
        (window-set_outside x k (t + 1) n (omega arith) (omega arith))

  pub slot-set : (x : Sample) (k : ℕ) → k % c < length buf → slot (set buf (k % c) x) c k ≡ x
  slot-set x k h = get_or-set_self buf (k % c) x blank h
