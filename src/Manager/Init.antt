-- ===== src/Manager/Init.antt =====
-- `buffer_manager_init` of src/buffer/ring_buffer.c makes all three buffers or none.
use mathlib.Core.Option
use fast_ring.Prelude.{
  ℕ, ◌≡◌, refl, ap, ◌∙◌, inl, inr, arith, Bool, false, not, ◌&&◌, Option, none, some,
}
use fast_ring.Types.{AdcError, ring_buffer_size}
use fast_ring.Memory.{Allocator}
use fast_ring.Ring.Create
use fast_ring.Ring.Create.{Handle}
use fast_ring.Ring.Create.Blocks.{inside, IsOwned, IsMade, Makes, allocate-Makes, destroy-live}
use fast_ring.Manager.{Manager, init, with_capture, with_process, with_pool}
use fast_ring.Manager.Lifetime.{
  IsVacant, Inits, IsPower-ring_buffer_size, apart, taken_out, IsOwned-keep,
  create-ring_buffer_size, IsOwned-destroy,
}

module _ (a : Allocator) where
  open a use {Heap, live, free, calloc_lem, free_lem}

  with_pool-Inits :
      (before first second : ℕ → Bool) (bm : Manager) (x y : Handle) (r : Option Handle × Heap)
      → bm.capture_to_process ≡ some x
      → bm.process_to_network ≡ some y
      → IsMade ring_buffer_size before first x
      → IsMade ring_buffer_size first second y
      → Makes ring_buffer_size second (live r.1) r.0
      → Inits before (live (with_pool a bm r).2) (with_pool a bm r).0 (with_pool a bm r).1
        × ((with_pool a bm r).1.address ≡ bm.address)
  unfolding with_pool
  with_pool-Inits before first second bm x y (some hd, h) ex ey mx my mz = (
    inl (
      refl,
      record {
        capture = x;
        process = y;
        pool = hd;
        first = first;
        second = second;
        capture_held = ex;
        process_held = ey;
        pool_held = refl;
        capture_made = mx;
        process_made = my;
        pool_made = mz;
      },
    ),
    refl,
  )
  with_pool-Inits before first second bm x y (none, h) ex ey mx my same =
      (inr (refl, record { no_capture = refl; no_process = refl; no_pool = refl }, back), refl)
    where
      x_owned : IsOwned (live h) x
      x_owned = IsOwned-keep (λ q e. same q ∙ my.grown q ∙ ground arith) mx.owned

      y_owned : IsOwned (live (Create.destroy a h (some x))) y
      y_owned =
          IsOwned-destroy a h x y x_owned (IsOwned-keep (λ q e. same q ∙ e) my.owned)
            (apart mx my (λ q e. e))

      back :
          (q : ℕ)
          → live
              (Create.destroy a (Create.destroy a h bm.capture_to_process) bm.process_to_network)
              q
            ≡ before q
      back q =
          rw (ex, ey)
            (destroy-live a (Create.destroy a h (some x)) y y_owned q
              ∙ ap (λ b. not (inside y q) && b) (destroy-live a h x x_owned q)
              ∙ taken_out (inside x q) (inside y q) false (before q) (first q) (second q) (live h q)
                  (mx.grown q) (my.grown q) (same q) (mx.fresh q) (my.fresh q) (λ e. cc))

  module _ (fuel : ℕ) where
    -- What a call that returns leaves.
    abbrev Returns : (ℕ → Bool) → ℕ → Option (AdcError × Manager × Heap) → Type 0
    Returns before p result =
        (out : AdcError × Manager × Heap) × (result ≡ some out)
        × Inits before (live out.2) out.0 out.1
        × (out.1.address ≡ p)

    with_process-Returns :
        (before first : ℕ → Bool) (bm : Manager) (x : Handle) (r : Option Handle × Heap)
        → bm.capture_to_process ≡ some x
        → bm.network_pool ≡ none
        → IsMade ring_buffer_size before first x
        → Makes ring_buffer_size first (live r.1) r.0
        → Returns before bm.address (with_process a fuel bm r)
    unfolding with_process
    with_process-Returns before first bm x (some hd, h) ex ez mx my = (
      _,
      ap (Option.map (with_pool a (record bm { process_to_network = some hd })))
          (create-ring_buffer_size a fuel h),
      pool_inits.0,
      pool_inits.1,
    )
      where
        pool_inits :
            let out =
              with_pool a
                (record bm { process_to_network = some hd })
                (Create.allocate a h ring_buffer_size) in
            Inits before (live out.2) out.0 out.1 × (out.1.address ≡ bm.address)
        pool_inits =
            with_pool-Inits before first (live h) (record bm { process_to_network = some hd }) x hd
              (Create.allocate a h ring_buffer_size) ex refl mx my
              (allocate-Makes a h ring_buffer_size IsPower-ring_buffer_size)
    with_process-Returns before first bm x (none, h) ex ez mx same = (
      _,
      refl,
      inr (refl, record { no_capture = refl; no_process = refl; no_pool = ez }, back),
      refl,
    )
      where
        back : (q : ℕ) → live (Create.destroy a h bm.capture_to_process) q ≡ before q
        back q = rw ex (
            destroy-live a h x (IsOwned-keep (λ p e. same p ∙ e) mx.owned) q
            ∙ taken_out (inside x q) false false (before q) (first q) (first q) (live h q)
                (mx.grown q) refl (same q) (mx.fresh q) (λ e. cc) (λ e. cc))

    with_capture-Returns :
        (before : ℕ → Bool) (bm : Manager) (r : Option Handle × Heap)
        → IsVacant bm
        → Makes ring_buffer_size before (live r.1) r.0
        → Returns before bm.address (with_capture a fuel bm r)
    unfolding with_capture Option.bind
    with_capture-Returns before bm (none, h) v same = (
      _,
      refl,
      inr (
        refl,
        record { no_capture = refl; no_process = v.no_process; no_pool = v.no_pool },
        same,
      ),
      refl,
    )
    with_capture-Returns before bm (some hd, h) v mx =
        let (out, e, inits, p) =
          with_process-Returns before (live h) (record bm { capture_to_process = some hd }) hd
            (Create.allocate a h ring_buffer_size) refl v.no_pool mx
            (allocate-Makes a h ring_buffer_size IsPower-ring_buffer_size) in
        (out, rw (create-ring_buffer_size a fuel h) e, inits, p)

    -- `buffer_manager_init` on a manager without buffers always returns. It reports success with three
    -- valid, empty buffers of the configured capacity, each in two blocks of its own, or an error with
    -- no buffer and no block left allocated, whichever allocation fails.
    pub init-Returns :
        (h : Heap) (bm : Manager)
        → IsVacant bm
        → (out : AdcError × Manager × Heap) × (init a fuel h bm ≡ some out)
          × Inits (live h) (live out.2) out.0 out.1
          × (out.1.address ≡ bm.address)
    unfolding init Option.bind
    init-Returns h bm v =
        let (out, e, inits, p) =
          with_capture-Returns (live h) bm (Create.allocate a h ring_buffer_size) v
            (allocate-Makes a h ring_buffer_size IsPower-ring_buffer_size) in
        (out, rw (create-ring_buffer_size a fuel h) e, inits, p)
