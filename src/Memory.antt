-- ===== src/Memory.antt =====
-- The C library's allocator, which this repository only calls: an interface with the part of its
-- documented behaviour that the callers rely on. Blocks are known by their addresses.
use fast_ring.Prelude.{
  ℕ, ◌≡◌, refl, ap, ◌∙◌, arith, Bool, true, false, not, ◌&&◌, ◌||◌, ◌==◌, Option, none, some, List,
  length,
}
use fast_ring.Types.{Sample}

-- The effect of an allocation, and of a release, on which blocks are in use.
abbrev pub Allocates : (ℕ → Bool) → (ℕ → Bool) → Option ℕ → Type 0
Allocates before after none = (q : ℕ) → after q ≡ before q
Allocates before after (some p) = (before p ≡ false) × ((q : ℕ) → after q ≡ ((q == p) || before q))

abbrev pub Releases : (ℕ → Bool) → (ℕ → Bool) → ℕ → Type 0
Releases before after p = (q : ℕ) → after q ≡ (not (q == p) && before q)

pub record Allocator : Type 1 where
  pub Heap : Type 0
  -- whether a block stands at the address
  pub live : Heap → ℕ → Bool
  -- by size in bytes
  pub calloc : Heap → ℕ → Option ℕ × Heap
  pub malloc : Heap → ℕ → Option ℕ × Heap
  -- by alignment and size in bytes
  pub memalign : Heap → ℕ → ℕ → Option ℕ × Heap
  pub free : Heap → ℕ → Heap
  -- what an array of so many samples in the block at the address holds before anything is written
  pub fresh_samples : Heap → ℕ → ℕ → List Sample
  pub calloc_lem : (h : Heap) (n : ℕ) → Allocates (live h) (live (calloc h n).1) (calloc h n).0
  pub malloc_lem : (h : Heap) (n : ℕ) → Allocates (live h) (live (malloc h n).1) (malloc h n).0
  pub memalign_lem :
      (h : Heap) (a n : ℕ) → Allocates (live h) (live (memalign h a n).1) (memalign h a n).0
  pub free_lem : (h : Heap) (p : ℕ) → live h p ≡ true → Releases (live h) (live (free h p)) p
  pub length-fresh_samples : (h : Heap) (p n : ℕ) → length (fresh_samples h p n) ≡ n

-- Other blocks than those in use.
abbrev pub Apart : (ℕ → Bool) → (ℕ → Bool) → Type 0
Apart others before = (q : ℕ) → others q ≡ true → before q ≡ false

abbrev pub nowhere : ℕ → Bool
nowhere q = false

pub nowhere-Apart : (before : ℕ → Bool) → Apart nowhere before
nowhere-Apart before q e = cc

-- A block taken, and released when there are others besides, leaves these and what was there.
pub live-free_later :
    (a : Allocator) (before held later : a.Heap) (others : ℕ → Bool) (p : ℕ)
    → Allocates (a.live before) (a.live held) (some p)
    → ((q : ℕ) → a.live later q ≡ (others q || a.live held q))
    → Apart others (a.live held)
    → (q : ℕ) → a.live (a.free later p) q ≡ (others q || a.live before q)
live-free_later a before held later others p (fresh, grown) more away q =
    a.free_lem later p here q
    ∙ ground (arith, fresh, more q, grown q, grown p, away p, ap (a.live before))
  where
    here : a.live later p ≡ true
    here = ground (arith, more p, grown p)

-- A block taken and released leaves the heap as it was.
pub live-free :
    (a : Allocator) (before held : a.Heap) (p q : ℕ)
    → Allocates (a.live before) (a.live held) (some p)
    → a.live (a.free held p) q ≡ a.live before q
live-free a before held p q taken =
    live-free_later a before held held nowhere p taken (λ k. refl) (nowhere-Apart (a.live held)) q
