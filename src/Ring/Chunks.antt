-- ===== src/Ring/Chunks.antt =====
-- The `memcpy` calls of the batch operations of src/buffer/ring_buffer.c.
use native.Mathlib.Nat.{mod-eq_of_lt, mod_self}
use native.Mathlib.Decide.{dec_lt}
use fast_ring.Prelude.{
  ℕ, zero, suc, ◌+◌, ◌-◌, ◌≤◌, ◌<◌, ◌≡◌, refl, sym, ap, ap₂, ◌∙◌, arith, List, [], ◌∷◌, ◌++◌,
  length, length-take, set, take, drop, get_or, drop-cons, take-append-drop, u32_mod,
}
use fast_ring.Types.{Sample}
use fast_ring.Ring.{RingBuffer, count, write_chunk, read_chunk, copy_in, copy_out}
use fast_ring.Ring.Inv.{IsValid, power_bounds, count-lt}
use fast_ring.Ring.Window.{
  window, contents, blank, length-window, window-add, window-mod, take-window,
}
use fast_ring.Ring.Transfer.{write_ring, write_ring-mod, write_ring-append}

-- Short of the end of the block the slots are the indices themselves.
write_chunk-write_ring :
    (buf : List Sample) (c i : ℕ) (xs : List Sample)
    → i + length xs ≤ c
    → write_chunk buf i xs ≡ write_ring buf c i xs
unfolding write_chunk write_ring
write_chunk-write_ring buf c i [] h = refl
write_chunk-write_ring buf c i (x ∷ xs) h =
    write_chunk-write_ring (set buf i x) c (i + 1) xs (omega arith)
    ∙ ap (λ k. write_ring (set buf k x) c (i + 1) xs)
        (sym (mod-eq_of_lt {n = i} {m = c} (omega arith)))

pub read_chunk-window :
    (buf : List Sample) (c i n : ℕ)
    → length buf ≡ c
    → i + n ≤ c
    → read_chunk buf i n ≡ window buf c i n
read_chunk-window buf c i zero e h = refl
read_chunk-window buf c i (suc n) e h =
    ap (take (suc n)) (drop-cons i buf blank (omega arith))
    ∙ ap₂ ◌∷◌ (ap (λ k. get_or buf k blank) (sym (mod-eq_of_lt {n = i} {m = c} (omega arith))))
        (read_chunk-window buf c (i + 1) n e (omega arith))

write_chunk-append :
    (buf : List Sample) (i : ℕ) (xs ys : List Sample)
    → write_chunk buf i (xs ++ ys) ≡ write_chunk (write_chunk buf i xs) (i + length xs) ys
unfolding write_chunk
write_chunk-append buf i [] ys = ap (λ k. write_chunk buf k ys) {x = i} {y = i + 0} (omega arith)
write_chunk-append buf i (x ∷ xs) ys =
    write_chunk-append (set buf i x) (i + 1) xs ys
    ∙ ap (λ k. write_chunk (write_chunk (set buf i x) (i + 1) xs) k ys) {x = i + 1 + length xs}
        {y = i + suc (length xs)} (omega arith)

write_chunk-suc :
    (d : Sample) (ds : List Sample) (i : ℕ) (xs : List Sample)
    → write_chunk (d ∷ ds) (suc i) xs ≡ d ∷ write_chunk ds i xs
unfolding write_chunk
write_chunk-suc d ds i [] = refl
write_chunk-suc d ds i (x ∷ xs) =
    ap (λ k. write_chunk (d ∷ set ds i x) k xs) {x = suc i + 1} {y = suc (i + 1)} (omega arith)
    ∙ write_chunk-suc d (set ds i x) (i + 1) xs

-- A transfer to the start of an array replaces its first elements.
pub write_chunk-zero :
    (dst xs : List Sample)
    → length xs ≤ length dst
    → write_chunk dst 0 xs ≡ xs ++ drop (length xs) dst
unfolding write_chunk
write_chunk-zero dst [] h = refl
write_chunk-zero [] (x ∷ xs) h = absurd (omega arith)
write_chunk-zero (d ∷ dst) (x ∷ xs) h =
    ap (λ k. write_chunk (x ∷ dst) k xs) {x = 0 + 1} {y = 1} refl
    ∙ write_chunk-suc x dst 0 xs
    ∙ ap (◌∷◌ x) (write_chunk-zero dst xs (omega arith))

-- The calls that the transfers make, by whether they go past the end of the block.
module _ (rb : RingBuffer) (n : ℕ) (large : rb.capacity < u32_mod) (below : n < u32_mod) where
  copy_in_wraps :
      (samples : List Sample) (f : ℕ)
      → rb.head + f ≡ rb.capacity
      → f < n
      → copy_in rb samples n
        ≡ write_chunk
            (write_chunk rb.buffer rb.head (take f samples))
            0
            (take (n - f) (drop f samples))
  unfolding copy_in
  copy_in_wraps samples f e h = ground arith

  copy_in_straight :
      (samples : List Sample)
      → rb.head + n ≤ rb.capacity
      → copy_in rb samples n ≡ write_chunk rb.buffer rb.head (take n samples)
  unfolding copy_in
  copy_in_straight samples h = ground arith

  copy_out_wraps :
      (dst : List Sample) (f : ℕ)
      → rb.tail + f ≡ rb.capacity
      → f < n
      → copy_out rb dst n
        ≡ write_chunk
            (write_chunk dst 0 (read_chunk rb.buffer rb.tail f))
            f
            (read_chunk rb.buffer 0 (n - f))
  unfolding copy_out
  copy_out_wraps dst f e h = ground arith

  copy_out_straight :
      (dst : List Sample)
      → rb.tail + n ≤ rb.capacity
      → copy_out rb dst n ≡ write_chunk dst 0 (read_chunk rb.buffer rb.tail n)
  unfolding copy_out
  copy_out_straight dst h = ground arith

module _ {rb : RingBuffer} (v : IsValid rb) where
  -- `ring_buffer_push_batch` copies to the slots from the head on, going round.
  pub copy_in-write_ring :
      (samples : List Sample) (n : ℕ)
      → n ≤ length samples
      → n < rb.capacity
      → copy_in rb samples n ≡ write_ring rb.buffer rb.capacity rb.head (take n samples)
  copy_in-write_ring samples n have fits = elim (dec_lt rb.capacity (rb.head + n)) [
    | yes wraps ↦
        copy_in_wraps rb n large below samples f (omega (arith, v.head_in)) (omega arith)
        ∙ ap₂ (λ b k. write_chunk b k (take (n - f) (drop f samples)))
            (write_chunk-write_ring rb.buffer c rb.head (take f samples)
              (omega (arith, length-take f samples, v.head_in)))
            refl
        ∙ write_chunk-write_ring _ c 0 (take (n - f) (drop f samples))
            (omega (arith, length-take (n - f) (drop f samples)))
        ∙ ap
            (λ k.
              write_ring (write_ring rb.buffer c rb.head (take f samples)) c k
                (take (n - f) (drop f samples)))
            (sym (mod_self c))
        ∙ write_ring-mod _ c c _
        ∙ ap
            (λ k.
              write_ring (write_ring rb.buffer c rb.head (take f samples)) c k
                (take (n - f) (drop f samples)))
            {x = c} {y = rb.head + length (take f samples)}
            (omega (arith, length-take f samples, v.head_in))
        ∙ sym
            (write_ring-append rb.buffer c rb.head (take f samples) (take (n - f) (drop f samples)))
        ∙ ap (write_ring rb.buffer c rb.head) (
            sym (take-append-drop f (n - f) samples)
            ∙ ap (λ k. take k samples) {x = f + (n - f)} {y = n} (omega arith))
    | no straight ↦
        copy_in_straight rb n large below samples (omega arith)
        ∙ write_chunk-write_ring rb.buffer c rb.head (take n samples)
            (omega (arith, length-take n samples))
  ]
    where
      c : ℕ
      c = rb.capacity

      f : ℕ
      f = rb.capacity - rb.head

      large : rb.capacity < u32_mod
      large = omega (arith, power_bounds v.power)

      below : n < u32_mod
      below = omega (arith, power_bounds v.power)

  -- `ring_buffer_pop_batch` copies the oldest samples held, in order.
  pub copy_out-contents :
      (dst : List Sample) (n : ℕ)
      → n ≤ count rb
      → copy_out rb dst n ≡ write_chunk dst 0 (take n (contents rb))
  copy_out-contents dst n held = elim (dec_lt rb.capacity (rb.tail + n)) [
    | yes wraps ↦
        copy_out_wraps rb n large below dst f (omega (arith, v.tail_in)) (omega arith)
        ∙ ap₂ (λ xs ys. write_chunk (write_chunk dst 0 xs) f ys)
            (read_chunk-window rb.buffer c rb.tail f v.sized (omega (arith, v.tail_in)))
            (read_chunk-window rb.buffer c 0 (n - f) v.sized (omega (arith, count-lt v))
              ∙ ap (λ k. window rb.buffer c k (n - f)) (sym (mod_self c))
              ∙ window-mod rb.buffer c c (n - f)
              ∙ ap (λ k. window rb.buffer c k (n - f)) {x = c} {y = rb.tail + f}
                  (omega (arith, v.tail_in)))
        ∙ ap
            (λ k.
              write_chunk (write_chunk dst 0 (window rb.buffer c rb.tail f)) k
                (window rb.buffer c (rb.tail + f) (n - f)))
            {x = f} {y = 0 + length (window rb.buffer c rb.tail f)}
            (omega (arith, length-window rb.buffer c rb.tail f))
        ∙ sym (
            write_chunk-append dst 0 (window rb.buffer c rb.tail f)
              (window rb.buffer c (rb.tail + f) (n - f)))
        ∙ ap (write_chunk dst 0) (
            sym (window-add rb.buffer c rb.tail f (n - f))
            ∙ ap (window rb.buffer c rb.tail) {x = f + (n - f)} {y = n} (omega arith)
            ∙ sym (take-window rb.buffer c rb.tail n (count rb) held))
    | no straight ↦
        copy_out_straight rb n large below dst (omega arith)
        ∙ ap (write_chunk dst 0) (
            read_chunk-window rb.buffer c rb.tail n v.sized (omega arith)
            ∙ sym (take-window rb.buffer c rb.tail n (count rb) held))
  ]
    where
      c : ℕ
      c = rb.capacity

      f : ℕ
      f = rb.capacity - rb.tail

      large : rb.capacity < u32_mod
      large = omega (arith, power_bounds v.power)

      below : n < u32_mod
      below = omega (arith, power_bounds v.power, count-lt v)
