-- ===== src/Workers/Network/Holding.antt =====
-- The memory that the network thread of src/thread/thread_workers.c holds: the client's two blocks and the
-- pool of blocks.
use fast_ring.Prelude.{
  ℕ, zero, suc, ◌≡◌, refl, subst, ◌∙◌, ◌⊎◌, inl, inr, Bool, true, false, Option, none, some, List,
  [], ◌∷◌,
}
use fast_ring.Memory.{Allocator, Allocates, live-free}
use fast_ring.Client.{TcpConfig}
use fast_ring.Client.Lifetime
use fast_ring.Client.Lifetime.{Owned, chosen_config, client_size}
use fast_ring.Workers.Pool.{
  Pool, block_pool_size, max_block_size, fill_pool, init_block_pool, get_block_from_pool,
}

-- Each block of a list, or its absence, as allocated after the one before.
abbrev pub Filled : (ℕ → Bool) → (ℕ → Bool) → List (Option ℕ) → Type 0
Filled before after [] = (q : ℕ) → after q ≡ before q
Filled before after (b ∷ bs) = (next : ℕ → Bool) × Allocates before next b × Filled next after bs

-- The pool is not ready and holds nothing, or holds its blocks.
abbrev pub PoolHolds : (ℕ → Bool) → (ℕ → Bool) → Pool → Type 0
PoolHolds before after pool =
    ((pool.is_ready ≡ false) × ((q : ℕ) → after q ≡ before q))
    ⊎ ((pool.is_ready ≡ true) × Filled before after pool.blocks)

-- Since `before`, the blocks of the client and after them those of the pool were taken, and no others.
abbrev pub Holds : (ℕ → Bool) → (ℕ → Bool) → Option Owned → Pool → Type 0
Holds before after none pool = (pool.is_ready ≡ false) × ((q : ℕ) → after q ≡ before q)
Holds before after (some t) pool =
    (b : ℕ) × (t.send_buffer ≡ some b)
    × (first : ℕ → Bool) × Allocates before first (some t.address)
    × (second : ℕ → Bool) × Allocates first second (some b)
    × PoolHolds second after pool

module _ (a : Allocator) where
  open a use {Heap, live, calloc, malloc, free, calloc_lem, malloc_lem}

  fill_pool-Filled :
      (n : ℕ) (h : Heap) → Filled (live h) (live (fill_pool a n h).1) (fill_pool a n h).0
  unfolding fill_pool
  fill_pool-Filled zero h = λ q. refl
  fill_pool-Filled (suc n) h = (
    live (malloc h max_block_size).1,
    malloc_lem h max_block_size,
    fill_pool-Filled n (malloc h max_block_size).1,
  )

  -- The pool as a block is taken from it
  get_block_from_pool-PoolHolds :
      (before : ℕ → Bool) (pool : Pool) (h : Heap)
      → PoolHolds before (live h) pool
      → let (b, pool', h') = get_block_from_pool a pool h in PoolHolds before (live h') pool'
  unfolding get_block_from_pool init_block_pool
  get_block_from_pool-PoolHolds before pool h (inl (down, same)) = rw down (
      inr (
        refl,
        subst
            (λ f.
              Filled f (live (fill_pool a block_pool_size h).1) (fill_pool a block_pool_size h).0)
            (λ i q. same q i) (fill_pool-Filled block_pool_size h),
      ))
  get_block_from_pool-PoolHolds before pool h (inr (up, filled)) = rw up (inr (refl, filled))

  pub get_block_from_pool-Holds :
      (before : ℕ → Bool) (t : Owned) (pool : Pool) (h : Heap)
      → Holds before (live h) (some t) pool
      → let (b, pool', h') = get_block_from_pool a pool h in Holds before (live h') (some t) pool'
  get_block_from_pool-Holds before t pool h (b, eb, first, one, second, two, held) =
      (b, eb, first, one, second, two, get_block_from_pool-PoolHolds second pool h held)

  with_buffer-Holds :
      (before h : Heap) (config : TcpConfig) (p : ℕ) (r : Option ℕ × Heap) (pool : Pool)
      → pool.is_ready ≡ false
      → Allocates (live before) (live h) (some p)
      → Allocates (live h) (live r.1) r.0
      → let (t, h') = Lifetime.with_buffer a config p r in Holds (live before) (live h') t pool
  unfolding Lifetime.with_buffer
  with_buffer-Holds before h config p (none, h') pool down taken same =
      (down, λ q. live-free a before h' p q (taken.0, λ k. same k ∙ taken.1 k))
  with_buffer-Holds before h config p (some b, h') pool down taken more =
      (b, refl, live h, taken, live h', more, inl (down, λ q. refl))

  with_client-Holds :
      (before : Heap) (config : Option TcpConfig) (r : Option ℕ × Heap) (pool : Pool)
      → pool.is_ready ≡ false
      → Allocates (live before) (live r.1) r.0
      → let (t, h') = Lifetime.with_client a config r in Holds (live before) (live h') t pool
  unfolding Lifetime.with_client
  with_client-Holds before config (none, h) pool down same = (down, same)
  with_client-Holds before config (some p, h) pool down taken =
      with_buffer-Holds before h (chosen_config config) p
        (malloc h (chosen_config config).buffer_size) pool down taken
        (malloc_lem h (chosen_config config).buffer_size)

  -- A client made, or not made
  pub create-Holds :
      (before : ℕ → Bool) (h : Heap) (config : Option TcpConfig) (pool : Pool)
      → Holds before (live h) none pool
      → let (t, h') = Lifetime.create a h config in Holds before (live h') t pool
  unfolding Lifetime.create
  create-Holds before h config pool (down, same) =
      subst (λ f. Holds f (live (Lifetime.create a h config).1) (Lifetime.create a h config).0 pool)
        (λ i q. same q i)
        (with_client-Holds h config (calloc h client_size) pool down (calloc_lem h client_size))
