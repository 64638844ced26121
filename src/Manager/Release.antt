-- ===== src/Manager/Release.antt =====
-- What `buffer_manager_destroy` of src/buffer/ring_buffer.c gives back of what `buffer_manager_create` and
-- `buffer_manager_init` took, at once or when more blocks are in use.
use fast_ring.Prelude.{
  ℕ, ◌≡◌, refl, sym, ap, subst, ◌∙◌, inl, inr, arith, Bool, true, false, ◌||◌, Option, none, some,
}
use fast_ring.Types.{AdcError}
use fast_ring.Memory.{Allocator, Allocates, Apart, nowhere, nowhere-Apart}
use fast_ring.Ring.Create
use fast_ring.Ring.Create.{Handle}
use fast_ring.Ring.Create.Blocks.{IsMade}
use fast_ring.Manager.{Manager, with_block, create, destroy, init}
use fast_ring.Manager.Lifetime.{IsReady, Inits, IsOwned-keep, release-IsReady}
use fast_ring.Manager.Init.{init-Returns}

-- Whatever other blocks there are, they are there before and after.
abbrev beside : (ℕ → Bool) → (ℕ → Bool) → ℕ → Bool
beside others before q = others q || before q

IsMade-beside :
    {c : ℕ} {before after others : ℕ → Bool} {hd : Handle}
    → Apart others after
    → IsMade c before after hd
    → IsMade c (beside others before) (beside others after) hd
IsMade-beside {before} {after} {others} {hd} away m = record {
  ring = m.ring;
  owned = IsOwned-keep (λ q e. ground (arith, e)) m.owned;
  fresh = λ q e. ground (arith, m.fresh q e, m.grown q, away q);
  grown = λ q. ground (arith, m.grown q);
}

IsReady-beside :
    {before after others : ℕ → Bool} {bm : Manager}
    → Apart others after
    → IsReady before after bm
    → IsReady (beside others before) (beside others after) bm
IsReady-beside {before} {after} {others} away r = record {
  capture = r.capture;
  process = r.process;
  pool = r.pool;
  first = beside others r.first;
  second = beside others r.second;
  capture_held = r.capture_held;
  process_held = r.process_held;
  pool_held = r.pool_held;
  capture_made = IsMade-beside away_first r.capture_made;
  process_made = IsMade-beside away_second r.process_made;
  pool_made = IsMade-beside away r.pool_made;
}
  where
    away_second : Apart others r.second
    away_second q e = ground (arith, away q e, r.pool_made.grown q)

    away_first : Apart others r.first
    away_first q e = ground (arith, away_second q e, r.process_made.grown q)

-- What was there before is there after.
Inits-keep :
    {before after : ℕ → Bool} {e : AdcError} {bm : Manager}
    → Inits before after e bm
    → (q : ℕ) → before q ≡ true
    → after q ≡ true
Inits-keep (inl (_, r)) q there =
    ground (arith, there, r.capture_made.grown q, r.process_made.grown q, r.pool_made.grown q)
Inits-keep (inr (_, v, same)) q there = same q ∙ there

module _ (a : Allocator) where
  open a use {Heap, live, free, calloc_lem, free_lem}

  -- The heap without the three buffers.
  abbrev emptied : Heap → Manager → Heap
  emptied h bm =
      Create.destroy a
        (Create.destroy a (Create.destroy a h bm.capture_to_process) bm.process_to_network)
        bm.network_pool

  -- A later heap has more blocks besides.
  abbrev pub IsLater : (ℕ → Bool) → Heap → Heap → Type 0
  IsLater others h later = ((q : ℕ) → live later q ≡ (others q || live h q)) × Apart others (live h)

  live-emptied :
      (h later : Heap) (bm : Manager) (before others : ℕ → Bool) (e : AdcError)
      → Inits before (live h) e bm
      → IsLater others h later
      → (q : ℕ) → live (emptied later bm) q ≡ (others q || before q)
  unfolding Create.destroy
  live-emptied h later bm before others e (inl (_, ready)) (more, away) =
      release-IsReady a later bm (
        subst (λ (f : ℕ → Bool). IsReady (beside others before) f bm) (λ i q. sym (more q) i)
          (IsReady-beside away ready))
  live-emptied h later bm before others e (inr (_, v, same)) (more, away) =
      λ q. rw (v.no_capture, v.no_process, v.no_pool) (more q ∙ ap (λ b. others q || b) (same q))

  -- What a manager that was initialised gives back, now or later.
  abbrev pub IsReturned : (ℕ → Bool) → Manager → Heap → Type 0
  IsReturned before bm h =
      (later : Heap) (others : ℕ → Bool)
      → IsLater others h later
      → (q : ℕ) → live (destroy a later (some bm)) q ≡ (others q || before q)

  module _ (fuel : ℕ) where
    -- Initialising a manager returns; `held` is in use before it.
    abbrev pub Returnable : (ℕ → Bool) → Option Manager × Heap → Type 0
    Returnable before (none, h) = (q : ℕ) → live h q ≡ before q
    Returnable before (some bm, h) =
        (out : AdcError × Manager × Heap) × (init a fuel h bm ≡ some out)
        × Inits (live h) (live out.2) out.0 out.1
        × ((q : ℕ) → before q ≡ true → live h q ≡ true)
        × IsReturned before out.1 out.2

    with_block-Returnable :
        (before : ℕ → Bool) (r : Option ℕ × Heap)
        → Allocates before (live r.1) r.0
        → Returnable before (with_block a r)
    unfolding with_block destroy
    with_block-Returnable before (none, h) same = same
    with_block-Returnable before (some p, h) (fresh, grown) =
        let bm : Manager = record {
          address = p;
          capture_to_process = none;
          process_to_network = none;
          network_pool = none;
        } in
        let (out, e, inits, kept) =
          init-Returns a fuel h bm
            (record { no_capture = refl; no_process = refl; no_pool = refl }) in
        let there : live h p ≡ true = grown p ∙ ground arith in
        let still : live out.2 p ≡ true = Inits-keep inits p there in
        (
          out,
          e,
          inits,
          λ q e. ground (arith, grown q, e),
          λ later others more q.
              freed later out.1 others
                (live-emptied out.2 later out.1 (live h) others out.0 inits more)
                (λ held. sym (more.1 p held) ∙ still) kept q,
        )
      where
        freed :
            (h' : Heap) (bm : Manager) (others : ℕ → Bool)
            → ((q : ℕ) → live (emptied h' bm) q ≡ (others q || live h q))
            → (others p ≡ true → ◌≡◌ {A = Bool} false true)
            → bm.address ≡ p
            → (q : ℕ) → live (free (emptied h' bm) bm.address) q ≡ (others q || before q)
        freed h' bm others same away kept q = rw kept (
            free_lem (emptied h' bm) p (ground (arith, same p, grown p)) q
            ∙ ground (arith, same q, grown q, fresh, away))

    pub create-Returnable : (h : Heap) → Returnable (live h) (create a h)
    unfolding create
    create-Returnable h = with_block-Returnable (live h) (a.calloc h 24) (calloc_lem h 24)

    -- The heap after a manager is made, initialised and destroyed, or could not be made.
    abbrev Restores : (ℕ → Bool) → Option Manager × Heap → Type 0
    Restores before (none, h) = (q : ℕ) → live h q ≡ before q
    Restores before (some bm, h) =
        (out : AdcError × Manager × Heap) × (init a fuel h bm ≡ some out)
        × ((q : ℕ) → live (destroy a out.2 (some out.1)) q ≡ before q)

    at_once :
        (before : ℕ → Bool) (r : Option Manager × Heap) → Returnable before r → Restores before r
    at_once before (none, h) same = same
    at_once before (some bm, h) (out, e, inits, old, back) =
        (out, e, back out.2 nowhere ((λ q. refl), nowhere-Apart (live out.2)))

    -- Whichever allocations fail, making a manager, initialising it and destroying it always returns
    -- and leaves in use exactly the blocks that were in use before.
    destroy-init : (h : Heap) → Restores (live h) (create a h)
    destroy-init h = at_once (live h) (create a h) (create-Returnable h)
