-- ===== src/Workers/Pool.antt =====
-- The pool of blocks of src/thread/thread_workers.c: `init_block_pool` and `get_block_from_pool`.
use fast_ring.Prelude.{
  ℕ, zero, suc, ◌+◌, ◌*◌, ◌%◌, ◌≡◌, refl, sym, ap, ◌∙◌, arith, Bool, true, false, Option, none,
  some, List, [], ◌∷◌, if◌then◌else◌, by_test, add32, length, get_or, get_elem?,
  get_elem?-eq-get_or, ◌⊎◌, inl, inr,
}
use fast_ring.Memory.{Allocator}

-- `g_block_pool`, `g_block_pool_ready` and `pool_index`; a block is known by its address.
pub record Pool : Type 0 where
  pub blocks : List (Option ℕ)
  pub is_ready : Bool
  pub index : ℕ

abbrev pub block_pool_size : ℕ
block_pool_size = 16

-- `max_block_size`: the header and 256 samples
abbrev pub max_block_size : ℕ
max_block_size = 24 + 256 * 16

module _ (a : Allocator) where
  open a use {Heap, malloc}

  -- The loop of `init_block_pool`
  unfoldable pub fill_pool : ℕ → Heap → List (Option ℕ) × Heap
  fill_pool zero h = ([], h)
  fill_pool (suc n) h =
      let (b, h1) = malloc h max_block_size in let (bs, h2) = fill_pool n h1 in (b ∷ bs, h2)

  -- `init_block_pool`
  unfoldable pub init_block_pool : Pool → Heap → Pool × Heap
  init_block_pool pool h =
      let (bs, h') = fill_pool block_pool_size h in
      if pool.is_ready then (pool, h) else (record pool { blocks = bs; is_ready = true }, h')

  -- `get_block_from_pool`
  unfoldable pub get_block_from_pool : Pool → Heap → Option ℕ × Pool × Heap
  get_block_from_pool pool h =
      let (pool', h') = if pool.is_ready then (pool, h) else init_block_pool pool h in
      (
        get_or pool'.blocks (pool'.index % block_pool_size) none,
        record pool' { index = add32 pool'.index 1 },
        h',
      )

  -- The pool is empty and not ready, or has its 16 places.
  abbrev pub IsPool : Pool → Type 0
  IsPool pool = (pool.is_ready ≡ false) ⊎ (length pool.blocks ≡ block_pool_size)

  length-fill_pool : (n : ℕ) (h : Heap) → length (fill_pool n h).0 ≡ n
  unfolding fill_pool
  length-fill_pool zero h = refl
  length-fill_pool (suc n) h = ap suc (length-fill_pool n (malloc h max_block_size).1)

  init_block_pool-blocks :
      (pool : Pool) (h : Heap)
      → IsPool pool
      → length (init_block_pool pool h).0.blocks ≡ block_pool_size
  unfolding init_block_pool
  init_block_pool-blocks pool h p =
      by_test (λ (out : Pool × Heap). length out.0.blocks ≡ block_pool_size) pool.is_ready
        (λ up. elim p [ inl down ↦ absurd (ground (arith, up, down)) | inr e ↦ e ])
        (λ down. length-fill_pool block_pool_size h)

  init_block_pool-index : (pool : Pool) (h : Heap) → (init_block_pool pool h).0.index ≡ pool.index
  unfolding init_block_pool
  init_block_pool-index pool h =
      by_test (λ (out : Pool × Heap). out.0.index ≡ pool.index) pool.is_ready (λ up. refl)
        (λ down. refl)

  -- Whenever a block is asked for, the pool has its 16 places after it, and the block is that of the place
  -- whose turn it is, which is one of them; then it is the next one's turn.
  pub get_block_from_pool-IsPool :
      (pool : Pool) (h : Heap)
      → IsPool pool
      → let (b, pool', h') = get_block_from_pool pool h in
        (length pool'.blocks ≡ block_pool_size)
        × (get_elem? pool'.blocks (pool.index % block_pool_size) ≡ some b)
        × (pool'.index ≡ add32 pool.index 1)
  unfolding get_block_from_pool
  get_block_from_pool-IsPool pool h p =
      by_test Gives pool.is_ready
        (λ up.
          give (pool, h) (elim p [ inl down ↦ absurd (ground (arith, up, down)) | inr e ↦ e ]) refl)
        (λ down.
          give (init_block_pool pool h) (init_block_pool-blocks pool h p)
            (init_block_pool-index pool h))
    where
      Gives : Pool × Heap → Type 0
      Gives (pool', h') =
          (length pool'.blocks ≡ block_pool_size)
          × (get_elem? pool'.blocks (pool.index % block_pool_size)
              ≡ some (get_or pool'.blocks (pool'.index % block_pool_size) none))
          × (add32 pool'.index 1 ≡ add32 pool.index 1)

      give :
          (out : Pool × Heap)
          → length out.0.blocks ≡ block_pool_size
          → out.0.index ≡ pool.index
          → Gives out
      give (pool', h') full e = (
        full,
        get_elem?-eq-get_or pool'.blocks (pool.index % block_pool_size) none (omega (arith, full))
            ∙ ap (λ (i : ℕ). some (get_or pool'.blocks (i % block_pool_size) none)) (sym e),
        ap (λ i. add32 i 1) e,
      )
