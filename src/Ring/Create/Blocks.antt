-- ===== src/Ring/Create/Blocks.antt =====
-- What `ring_buffer_create` and `ring_buffer_destroy` of src/buffer/ring_buffer.c do to the heap, and
-- the buffer that a creation gives.
use fast_ring.Prelude.{
  ℕ, ◌*◌, ◌^◌, ◌≤◌, ◌<◌, ◌≡◌, ◌≢◌, refl, sym, ap, inl, inr, arith, Bool, true, false, not, ◌&&◌,
  ◌||◌, Option, none, some, Bool-cases, ◌==◌, sub32, u32_mod,
}
use fast_ring.Types.{sample_size}
use fast_ring.Memory.{Allocator, Allocates}
use fast_ring.Ring.{RingBuffer, count}
use fast_ring.Ring.Inv.{IsValid, IsPower, power_bounds, empty-test}
use fast_ring.Ring.Create.{
  Handle, with_block, with_control, allocate, create, destroy, control_size,
}
use fast_ring.Ring.Create.Rounding.{IsRounding, round_up-IsRounding, round_up_diverges}

-- One of the two blocks of a buffer.
abbrev pub inside : Handle → ℕ → Bool
inside hd q = (q == hd.address) || (q == hd.storage)

-- A valid, empty buffer of capacity `c`.
pub record IsEmptyRing (c : ℕ) (rb : RingBuffer) : Type 0 where
  pub valid : IsValid rb
  pub sized : rb.capacity ≡ c
  pub empty : count rb ≡ 0
  pub kept : rb.dropped ≡ 0

-- Both blocks of a buffer are in use, and differ.
pub record IsOwned (live : ℕ → Bool) (hd : Handle) : Type 0 where
  pub control : live hd.address ≡ true
  pub block : live hd.storage ≡ true
  pub apart : hd.address ≢ hd.storage

-- What an attempt to make a buffer of capacity `c` leaves.
pub record IsMade (c : ℕ) (before after : ℕ → Bool) (hd : Handle) : Type 0 where
  pub ring : IsEmptyRing c hd.ring
  pub owned : IsOwned after hd
  pub fresh : (q : ℕ) → inside hd q ≡ true → before q ≡ false
  pub grown : (q : ℕ) → after q ≡ (inside hd q || before q)

abbrev pub Makes : ℕ → (ℕ → Bool) → (ℕ → Bool) → Option Handle → Type 0
Makes c before after none = (q : ℕ) → after q ≡ before q
Makes c before after (some hd) = IsMade c before after hd

module _ (a : Allocator) where
  open a use {
    Heap, live, calloc, memalign, free, fresh_samples, calloc_lem, memalign_lem, free_lem,
    length-fresh_samples,
  }

  fresh_ring :
      (h : Heap) (block c : ℕ)
      → IsPower c
      → IsEmptyRing c (record {
        head = 0;
        tail = 0;
        capacity = c;
        mask = sub32 c 1;
        buffer = fresh_samples h block c;
        dropped = 0;
      })
  fresh_ring h block c p = record {
    valid = valid;
    sized = refl;
    empty = (empty-test valid).0 refl;
    kept = refl;
  }
    where
      valid : IsValid (record {
        head = 0;
        tail = 0;
        capacity = c;
        mask = sub32 c 1;
        buffer = fresh_samples h block c;
        dropped = 0;
      })
      valid = record {
        power = p;
        masked = omega (arith, power_bounds p);
        sized = length-fresh_samples h block c;
        head_in = omega (arith, power_bounds p);
        tail_in = omega (arith, power_bounds p);
        dropped_in = omega arith;
      }

  with_block-Makes :
      (before : ℕ → Bool) (h1 : Heap) (c rb : ℕ) (r : Option ℕ × Heap)
      → IsPower c
      → Allocates before (live h1) (some rb)
      → Allocates (live h1) (live r.1) r.0
      → Makes c before (live (with_block a c rb r).1) (with_block a c rb r).0
  unfolding with_block
  with_block-Makes before h1 c rb (none, h2) p (free1, grow1) same =
      λ q. ground (arith, same q, grow1 q, free1, free_lem h2 rb still q)
    where
      still : live h2 rb ≡ true
      still = ground (arith, same rb, grow1 rb)
  with_block-Makes before h1 c rb (some block, h2) p (free1, grow1) (free2, grow2) = record {
    ring = fresh_ring h2 block c p;
    owned = record {
      control = ground (arith, grow2 rb, grow1 rb);
      block = ground (arith, grow2 block);
      apart = λ e. ground (arith, free2, grow1 rb, ap (live h1) e);
    };
    fresh = λ q hq. ground (arith, free1, free2, grow1 q);
    grown = λ q. ground (arith, grow1 q, grow2 q);
  }

  with_control-Makes :
      (before : ℕ → Bool) (c : ℕ) (r : Option ℕ × Heap)
      → IsPower c
      → Allocates before (live r.1) r.0
      → Makes c before (live (with_control a c r).1) (with_control a c r).0
  unfolding with_control
  with_control-Makes before c (none, h) p same = same
  with_control-Makes before c (some rb, h) p first =
      with_block-Makes before h c rb (memalign h 64 (c * sample_size)) p first
        (memalign_lem h 64 (c * sample_size))

  -- Either both allocations succeed, or nothing is left allocated.
  pub allocate-Makes :
      (h : Heap) (c : ℕ) → IsPower c → Makes c (live h) (live (allocate a h c).1) (allocate a h c).0
  unfolding allocate
  allocate-Makes h c p =
      with_control-Makes (live h) c (calloc h control_size) p (calloc_lem h control_size)

  pub destroy-live :
      (h : Heap) (hd : Handle)
      → IsOwned (live h) hd
      → (q : ℕ) → live (destroy a h (some hd)) q ≡ (not (inside hd q) && live h q)
  unfolding destroy
  destroy-live h hd o q =
      ground (arith, block_gone q, free_lem (free h hd.storage) hd.address still q)
    where
      block_gone : (r : ℕ) → live (free h hd.storage) r ≡ (not (r == hd.storage) && live h r)
      block_gone = free_lem h hd.storage o.block

      still : live (free h hd.storage) hd.address ≡ true
      still =
          let away : hd.address ≢ hd.storage = o.apart in
          ground (arith, block_gone hd.address, o.control)

  -- `ring_buffer_create` for a capacity of at most 2^31 returns, with 32 rounds allowed to its loop.
  -- A buffer that it gives is valid and empty and has the rounded capacity and two new blocks;
  -- without one, no block is left allocated.
  pub create-Makes :
      (fuel : ℕ) (h : Heap) (c : ℕ)
      → c ≤ 2 ^ 31
      → 32 ≤ fuel
      → (r : ℕ) × IsRounding c r
        × (create a fuel h c ≡ some (allocate a h r))
        × Makes r (live h) (live (allocate a h r).1) (allocate a h r).0
  unfolding create
  create-Makes fuel h c high enough =
      let (r, e, rounding) = round_up-IsRounding fuel c high enough in
      (r, rounding, rw (e, create), allocate-Makes h r rounding.power)

  -- A larger 32-bit capacity keeps `ring_buffer_create` in its loop for ever.
  pub create_diverges :
      (fuel : ℕ) (h : Heap) (c : ℕ) → 2 ^ 31 < c → c < u32_mod → create a fuel h c ≡ none
  unfolding create
  create_diverges fuel h c big word = rw (round_up_diverges fuel c big word, create)

  -- `ring_buffer_destroy` gives back exactly the blocks that `ring_buffer_create` took.
  destroy-create :
      (h h' : Heap) (c : ℕ) (hd : Handle)
      → IsMade c (live h) (live h') hd
      → (q : ℕ) → live (destroy a h' (some hd)) q ≡ live h q
  destroy-create h h' c hd m q =
      let gone : inside hd q ≡ true → live h q ≡ false = m.fresh q in
      elim (Bool-cases (inside hd q)) [
        | inl e ↦ rw (destroy-live h' hd m.owned q, e) (sym (gone e))
        | inr e ↦ rw (destroy-live h' hd m.owned q, e, m.grown q, e)
      ]
