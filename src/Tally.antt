-- ===== src/Tally.antt =====
-- An allocator to run the model with: a block's address is its number, and at most `limit` blocks are
-- ever made.
use fast_ring.Prelude.{
  ℕ, zero, suc, ◌≡◌, refl, arith, Bool, true, false, not, ◌&&◌, ◌||◌, ◌==◌, ltb, if◌then◌else◌,
  Option, none, some, List, [], ◌∷◌, ◌++◌, length, get_or, set, replicate, length-replicate,
  Bool-cases, inl, inr,
}
use fast_ring.Memory.{Allocator, Allocates}
use fast_ring.Ring.Window.{blank}

abbrev pub is_live : List Bool → ℕ → Bool
is_live h p = get_or h p false

abbrev pub make : ℕ → List Bool → Option ℕ × List Bool
make limit h = if ltb (length h) limit then (some (length h), h ++ (true ∷ [])) else (none, h)

pub live-append :
    (h : List Bool) (q : ℕ) → is_live (h ++ (true ∷ [])) q ≡ ((q == length h) || is_live h q)
live-append [] zero = refl
live-append [] (suc q) = ground arith
live-append (b ∷ h) zero = ground arith
live-append (b ∷ h) (suc q) = ground (arith, live-append h q)

pub live-length : (h : List Bool) → is_live h (length h) ≡ false
live-length [] = refl
live-length (b ∷ h) = live-length h

pub live-set : (h : List Bool) (p q : ℕ) → is_live (set h p false) q ≡ (not (q == p) && is_live h q)
live-set [] p q = ground arith
live-set (b ∷ h) zero zero = ground arith
live-set (b ∷ h) zero (suc q) = ground arith
live-set (b ∷ h) (suc p) zero = ground arith
live-set (b ∷ h) (suc p) (suc q) = ground (arith, live-set h p q)

pub make_lem :
    (limit : ℕ) (h : List Bool) → Allocates (is_live h) (is_live (make limit h).1) (make limit h).0
make_lem limit h = elim (Bool-cases (ltb (length h) limit)) [
  | inl room ↦ rw room (live-length h, live-append h)
  | inr full ↦ rw full (λ q. refl)
]

abbrev pub tally : ℕ → Allocator
tally limit = record {
  Heap = List Bool;
  live = is_live;
  calloc = λ h n. make limit h;
  malloc = λ h n. make limit h;
  memalign = λ h a n. make limit h;
  free = λ h p. set h p false;
  fresh_samples = λ h p n. replicate n blank;
  calloc_lem = λ h n. make_lem limit h;
  malloc_lem = λ h n. make_lem limit h;
  memalign_lem = λ h a n. make_lem limit h;
  free_lem = λ h p l q. live-set h p q;
  length-fresh_samples = λ h p n. length-replicate n blank;
}
