-- ===== src/Ring/Transfer.antt =====
-- Samples put at the head and taken at the tail, several at a time: what the single and the batch
-- operations of src/buffer/ring_buffer.c have in common.
use native.Mathlib.Nat.{mod-eq_of_lt, mod-lt, mod-add-mod, mod-mod, add-mod_right, add-zero}
use native.Mathlib.Decide.{dec_lt}
use fast_ring.Prelude.{
  ℕ, suc, ◌+◌, ◌-◌, ◌%◌, ◌≤◌, ◌<◌, ◌≡◌, refl, sym, ap, ap₂, ◌∙◌, inl, inr, arith, List, [], ◌∷◌,
  ◌++◌, append-nil, append_assoc, length, length-set, length-append, set, drop,
}
use fast_ring.Types.{Sample}
use fast_ring.Ring.{RingBuffer, count}
use fast_ring.Ring.Inv.{IsValid, count-cases, count-lt}
use fast_ring.Ring.Window.{
  window, contents, mod-ne, length-window, window-snoc, window-mod, drop-window, window-set_outside,
  slot-set,
}

-- One write to the slot of each running index from `i` on.
unfoldable pub write_ring : List Sample → ℕ → ℕ → List Sample → List Sample
write_ring buf c i [] = buf
write_ring buf c i (x ∷ xs) = write_ring (set buf (i % c) x) c (i + 1) xs

-- The samples `ys` behind those held, and the first `n` of those held given up.
abbrev pub deposit : RingBuffer → List Sample → RingBuffer
deposit rb ys = record rb {
  buffer = write_ring rb.buffer rb.capacity rb.head ys;
  head = (rb.head + length ys) % rb.capacity;
}

abbrev pub withdraw : RingBuffer → ℕ → RingBuffer
withdraw rb n = record rb { tail = (rb.tail + n) % rb.capacity }

pub length-write_ring :
    (buf : List Sample) (c i : ℕ) (xs : List Sample) → length (write_ring buf c i xs) ≡ length buf
unfolding write_ring
length-write_ring buf c i [] = refl
length-write_ring buf c i (x ∷ xs) =
    length-write_ring (set buf (i % c) x) c (i + 1) xs ∙ length-set buf (i % c) x

-- A start that is a whole turn further on writes the same slots.
pub write_ring-mod :
    (buf : List Sample) (c i : ℕ) (xs : List Sample)
    → write_ring buf c (i % c) xs ≡ write_ring buf c i xs
unfolding write_ring
write_ring-mod buf c i [] = refl
write_ring-mod buf c i (x ∷ xs) =
    sym (write_ring-mod (set buf (i % c % c) x) c (i % c + 1) xs)
    ∙ ap₂ (λ b k. write_ring b c k xs) (ap (λ k. set buf k x) (mod-mod i c)) (mod-add-mod i c 1)
    ∙ write_ring-mod (set buf (i % c) x) c (i + 1) xs

pub write_ring-append :
    (buf : List Sample) (c i : ℕ) (xs ys : List Sample)
    → write_ring buf c i (xs ++ ys) ≡ write_ring (write_ring buf c i xs) c (i + length xs) ys
unfolding write_ring
write_ring-append buf c i [] ys = ap (λ k. write_ring buf c k ys) {x = i} {y = i + 0} (omega arith)
write_ring-append buf c i (x ∷ xs) ys =
    write_ring-append (set buf (i % c) x) c (i + 1) xs ys
    ∙ ap (λ k. write_ring (write_ring (set buf (i % c) x) c (i + 1) xs) c k ys)
        {x = i + 1 + length xs} {y = i + suc (length xs)} (omega arith)

-- Writes just past a window extend it by what they write.
window-write_ring :
    (buf : List Sample) (c t n : ℕ) (ys : List Sample)
    → length buf ≡ c
    → n + length ys ≤ c
    → window (write_ring buf c (t + n) ys) c t (n + length ys) ≡ window buf c t n ++ ys
unfolding write_ring
window-write_ring buf c t n [] e h =
    ap (window buf c t) {x = n + 0} {y = n} (omega arith) ∙ sym (append-nil _)
window-write_ring buf c t n (y ∷ ys) e h =
    ap₂ (λ k m. window (write_ring put c k ys) c t m) {x = t + n + 1} {y = t + suc n}
      {u = n + suc (length ys)} {v = suc n + length ys} (omega arith) (omega arith)
    ∙ window-write_ring put c t (suc n) ys (length-set buf ((t + n) % c) y ∙ e) (omega arith)
    ∙ ap (λ ws. ws ++ ys)
        (window-snoc put c t n
          ∙ ap₂ (λ ws z. ws ++ (z ∷ []))
              (window-set_outside buf c y (t + n) t n (omega arith) (omega arith))
              (slot-set buf c y (t + n) (omega (arith, e, mod-lt (t + n) {m = c} (omega arith)))))
    ∙ append_assoc (window buf c t n) (y ∷ []) ys
  where
    put : List Sample
    put = set buf ((t + n) % c) y

module _ {rb : RingBuffer} (v : IsValid rb) where
  -- The head is `count` slots past the tail,
  pub head-mod : rb.head ≡ (rb.tail + count rb) % rb.capacity
  head-mod = elim (count-cases v) [
    | inl (above, e) ↦
        sym (mod-eq_of_lt {n = rb.head} {m = rb.capacity} v.head_in)
        ∙ ap (λ (t : ℕ). t % rb.capacity) {x = rb.head} {y = rb.tail + count rb} (omega arith)
    | inr (below, e) ↦
        sym (mod-eq_of_lt {n = rb.head} {m = rb.capacity} v.head_in)
        ∙ sym (add-mod_right rb.head rb.capacity)
        ∙ ap (λ (t : ℕ). t % rb.capacity) {x = rb.head + rb.capacity} {y = rb.tail + count rb}
            (omega (arith, v.tail_in))
  ]

  -- and no other number of slots below the capacity.
  pub count_unique :
      (k : ℕ) → k < rb.capacity → rb.head ≡ (rb.tail + k) % rb.capacity → count rb ≡ k
  count_unique k h e = elim (dec_lt k (count rb)) [
    | yes p ↦ absurd (
        mod-ne rb.capacity (rb.tail + k) (rb.tail + count rb) (omega arith)
          (omega (arith, count-lt v)) (sym e ∙ head-mod))
    | no p ↦ elim (dec_lt (count rb) k) [
      | yes q ↦ absurd (
          mod-ne rb.capacity (rb.tail + count rb) (rb.tail + k) (omega arith) (omega arith)
            (sym head-mod ∙ e))
      | no q ↦ omega arith
    ]
  ]

  pub length-contents : length (contents rb) ≡ count rb
  length-contents = length-window rb.buffer rb.capacity rb.tail (count rb)

  positive : 0 < rb.capacity
  positive = omega (arith, v.head_in)

module _ {rb : RingBuffer} (v : IsValid rb) (ys : List Sample)
    (fits : count rb + length ys < rb.capacity) where
  pub deposit-IsValid : IsValid (deposit rb ys)
  deposit-IsValid = record {
    power = v.power;
    masked = v.masked;
    sized = length-write_ring rb.buffer rb.capacity rb.head ys ∙ v.sized;
    head_in = mod-lt (rb.head + length ys) (positive v);
    tail_in = v.tail_in;
    dropped_in = v.dropped_in;
  }

  pub count-deposit : count (deposit rb ys) ≡ count rb + length ys
  count-deposit = count_unique deposit-IsValid (count rb + length ys) fits (
      ap (λ (t : ℕ). (t + length ys) % rb.capacity) (head-mod v)
      ∙ mod-add-mod (rb.tail + count rb) rb.capacity (length ys)
      ∙ ap (λ (t : ℕ). t % rb.capacity) {x = rb.tail + count rb + length ys}
          {y = rb.tail + (count rb + length ys)} (omega arith))

  pub contents-deposit : contents (deposit rb ys) ≡ contents rb ++ ys
  contents-deposit = rw count-deposit (
      ap (λ b. window b rb.capacity rb.tail (count rb + length ys))
        (ap (λ k. write_ring rb.buffer rb.capacity k ys) (head-mod v)
          ∙ write_ring-mod rb.buffer rb.capacity (rb.tail + count rb) ys)
      ∙ window-write_ring rb.buffer rb.capacity rb.tail (count rb) ys v.sized (omega arith))

module _ {rb : RingBuffer} (v : IsValid rb) (n : ℕ) (held : n ≤ count rb) where
  pub withdraw-IsValid : IsValid (withdraw rb n)
  withdraw-IsValid = record {
    power = v.power;
    masked = v.masked;
    sized = v.sized;
    head_in = v.head_in;
    tail_in = mod-lt (rb.tail + n) (positive v);
    dropped_in = v.dropped_in;
  }

  pub count-withdraw : count (withdraw rb n) ≡ count rb - n
  count-withdraw = count_unique withdraw-IsValid (count rb - n) (omega (arith, count-lt v)) (
      head-mod v
      ∙ ap (λ (t : ℕ). t % rb.capacity) {x = rb.tail + count rb} {y = rb.tail + n + (count rb - n)}
          (omega arith)
      ∙ sym (mod-add-mod (rb.tail + n) rb.capacity (count rb - n)))

  pub contents-withdraw : contents (withdraw rb n) ≡ drop n (contents rb)
  contents-withdraw = rw count-withdraw (
      window-mod rb.buffer rb.capacity (rb.tail + n) (count rb - n)
      ∙ sym (drop-window rb.buffer rb.capacity rb.tail n (count rb) held))

module _ {rb : RingBuffer} (v : IsValid rb) where
  -- Transfers of nothing, and transfers in two parts.
  pub deposit-nil : deposit rb [] ≡ rb
  unfolding write_ring
  deposit-nil = λ i. record rb { head = still i }
    where
      still : (rb.head + 0) % rb.capacity ≡ rb.head
      still = rw add-zero (mod-eq_of_lt {n = rb.head} {m = rb.capacity} v.head_in)

  pub withdraw-zero : withdraw rb 0 ≡ rb
  withdraw-zero = λ i. record rb { tail = still i }
    where
      still : (rb.tail + 0) % rb.capacity ≡ rb.tail
      still = rw add-zero (mod-eq_of_lt {n = rb.tail} {m = rb.capacity} v.tail_in)

pub deposit-append :
    (rb : RingBuffer) (xs ys : List Sample) → deposit (deposit rb xs) ys ≡ deposit rb (xs ++ ys)
deposit-append rb xs ys = λ i. record rb { buffer = written i; head = moved i }
  where
    c : ℕ
    c = rb.capacity

    written :
        write_ring (write_ring rb.buffer c rb.head xs) c ((rb.head + length xs) % c) ys
        ≡ write_ring rb.buffer c rb.head (xs ++ ys)
    written =
        write_ring-mod _ c (rb.head + length xs) ys
        ∙ sym (write_ring-append rb.buffer c rb.head xs ys)

    moved : ((rb.head + length xs) % c + length ys) % c ≡ (rb.head + length (xs ++ ys)) % c
    moved =
        mod-add-mod (rb.head + length xs) c (length ys)
        ∙ ap (λ k. k % c) {x = rb.head + length xs + length ys} {y = rb.head + length (xs ++ ys)}
            (omega (arith, length-append xs ys))

pub withdraw-add : (rb : RingBuffer) (m n : ℕ) → withdraw (withdraw rb m) n ≡ withdraw rb (m + n)
withdraw-add rb m n = λ i. record rb { tail = moved i }
  where
    moved : ((rb.tail + m) % rb.capacity + n) % rb.capacity ≡ (rb.tail + (m + n)) % rb.capacity
    moved =
        mod-add-mod (rb.tail + m) rb.capacity n
        ∙ ap (λ k. k % rb.capacity) {x = rb.tail + m + n} {y = rb.tail + (m + n)} (omega arith)
