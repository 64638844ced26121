-- ===== src/Manager/Lifetime.antt =====
-- What `buffer_manager_init` and `buffer_manager_destroy` of src/buffer/ring_buffer.c do to the heap.
use fast_ring.Prelude.{
  ℕ, ◌≡◌, refl, sym, ap, ◌∙◌, ◌⊎◌, inl, inr, arith, Bool, true, false, not, ◌&&◌, ◌||◌, none, some,
  Bool-cases,
}
use fast_ring.Types.{AdcError, ok, error_buffer, ring_buffer_size}
use fast_ring.Memory.{Allocator}
use fast_ring.Ring.Inv.{IsPower}
use fast_ring.Ring.Create
use fast_ring.Ring.Create.{Handle}
use fast_ring.Ring.Create.Blocks.{inside, IsOwned, IsMade, destroy-live}
use fast_ring.Manager.{Manager}

-- No buffer yet.
pub record IsVacant (bm : Manager) : Type 0 where
  pub no_capture : bm.capture_to_process ≡ none
  pub no_process : bm.process_to_network ≡ none
  pub no_pool : bm.network_pool ≡ none

-- Three empty buffers of the configured size, made one after the other.
pub record IsReady (before after : ℕ → Bool) (bm : Manager) : Type 0 where
  pub capture : Handle
  pub process : Handle
  pub pool : Handle
  pub first : ℕ → Bool
  pub second : ℕ → Bool
  pub capture_held : bm.capture_to_process ≡ some capture
  pub process_held : bm.process_to_network ≡ some process
  pub pool_held : bm.network_pool ≡ some pool
  pub capture_made : IsMade ring_buffer_size before first capture
  pub process_made : IsMade ring_buffer_size first second process
  pub pool_made : IsMade ring_buffer_size second after pool

-- The manager is ready, or its buffers are as absent as before and the heap as it was.
abbrev pub Inits : (ℕ → Bool) → (ℕ → Bool) → AdcError → Manager → Type 0
Inits before after e bm =
    ((e ≡ ok) × IsReady before after bm)
    ⊎ ((e ≡ error_buffer) × IsVacant bm × ((q : ℕ) → after q ≡ before q))

pub IsPower-ring_buffer_size : IsPower ring_buffer_size
IsPower-ring_buffer_size = record {
  exponent = 14;
  value = refl;
  low = omega arith;
  high = omega arith;
}

-- A buffer made later has none of the blocks of one that is still there.
pub apart :
    {c d : ℕ} {before first second third : ℕ → Bool} {x y : Handle}
    → IsMade c before first x
    → IsMade d second third y
    → ((q : ℕ) → first q ≡ true → second q ≡ true)
    → (q : ℕ) → inside y q ≡ true
    → inside x q ≡ false
apart {first} {second} {x} mx my keeps q in_y = elim (Bool-cases (inside x q)) [
  | inr e ↦ e
  | inl e ↦
      let old : first q ≡ true = mx.grown q ∙ rw e in
      absurd (false_ne_true (sym (my.fresh q in_y) ∙ keeps q old))
]
  where
    false_ne_true : ◌≡◌ {A = Bool} false true → ⊥
    false_ne_true e = cc

-- Three sets of blocks added one after the other, each disjoint from what was there, and taken out
-- again, at one address.
pub taken_out :
    (x y z before first second after : Bool)
    → first ≡ (x || before)
    → second ≡ (y || first)
    → after ≡ (z || second)
    → (x ≡ true → before ≡ false)
    → (y ≡ true → first ≡ false)
    → (z ≡ true → second ≡ false)
    → not z && (not y && (not x && after)) ≡ before
taken_out x y z before first second after e1 e2 e3 h1 h2 h3 = ground arith

pub IsOwned-keep :
    {f g : ℕ → Bool} {hd : Handle}
    → ((q : ℕ) → f q ≡ true → g q ≡ true)
    → IsOwned f hd
    → IsOwned g hd
IsOwned-keep {hd} keeps o = record {
  control = keeps hd.address o.control;
  block = keeps hd.storage o.block;
  apart = o.apart;
}

module _ (a : Allocator) where
  open a use {Heap, live}

  -- The configured size is a power of two, so the loop of `ring_buffer_create` is not entered.
  pub create-ring_buffer_size :
      (fuel : ℕ) (h : Heap)
      → Create.create a fuel h ring_buffer_size ≡ some (Create.allocate a h ring_buffer_size)
  unfolding Create.create Create.round_up
  create-ring_buffer_size fuel h = refl

  -- A buffer that is released leaves another whole.
  pub IsOwned-destroy :
      (h : Heap) (x y : Handle)
      → IsOwned (live h) x
      → IsOwned (live h) y
      → ((q : ℕ) → inside y q ≡ true → inside x q ≡ false)
      → IsOwned (live (Create.destroy a h (some x))) y
  IsOwned-destroy h x y ox oy away = record {
    control = destroy-live a h x ox y.address ∙ rw (away y.address here) oy.control;
    block = destroy-live a h x ox y.storage ∙ rw (away y.storage there) oy.block;
    apart = oy.apart;
  }
    where
      here : inside y y.address ≡ true
      here = ground arith

      there : inside y y.storage ≡ true
      there = ground arith

  -- Handing the three buffers back in the order of their making.
  module _ {before after : ℕ → Bool} {bm : Manager} (r : IsReady before after bm) where
    open r use {capture, process, pool, first, second, capture_made, process_made, pool_made}

    first-second : (q : ℕ) → first q ≡ true → second q ≡ true
    first-second q e = process_made.grown q ∙ ground arith

    second-after : (q : ℕ) → second q ≡ true → after q ≡ true
    second-after q e = pool_made.grown q ∙ ground arith

    process-first : (q : ℕ) → inside process q ≡ true → inside capture q ≡ false
    process-first = apart capture_made process_made (λ q e. e)

    pool-first : (q : ℕ) → inside pool q ≡ true → inside capture q ≡ false
    pool-first = apart capture_made pool_made first-second

    pool-second : (q : ℕ) → inside pool q ≡ true → inside process q ≡ false
    pool-second = apart process_made pool_made (λ q e. e)

  pub release-IsReady :
      (h : Heap) {before : ℕ → Bool} (bm : Manager)
      → IsReady before (live h) bm
      → (q : ℕ)
      → live
          (Create.destroy a
            (Create.destroy a (Create.destroy a h bm.capture_to_process) bm.process_to_network)
            bm.network_pool)
          q
        ≡ before q
  release-IsReady h {before} bm r q =
      rw (r.capture_held, r.process_held, r.pool_held)
        (destroy-live a h2 r.pool pool_owned q
          ∙ ap (λ b. not (inside r.pool q) && b)
              (destroy-live a h1 r.process process_owned q
                ∙ ap (λ b. not (inside r.process q) && b)
                    (destroy-live a h r.capture capture_owned q))
          ∙ taken_out (inside r.capture q) (inside r.process q) (inside r.pool q) (before q)
              (r.first q) (r.second q) (live h q) (r.capture_made.grown q) (r.process_made.grown q)
              (r.pool_made.grown q) (r.capture_made.fresh q) (r.process_made.fresh q)
              (r.pool_made.fresh q))
    where
      h1 : Heap
      h1 = Create.destroy a h (some r.capture)

      h2 : Heap
      h2 = Create.destroy a h1 (some r.process)

      capture_owned : IsOwned (live h) r.capture
      capture_owned =
          IsOwned-keep (λ p e. second-after r p (first-second r p e)) r.capture_made.owned

      process_owned : IsOwned (live h1) r.process
      process_owned =
          IsOwned-destroy h r.capture r.process capture_owned
            (IsOwned-keep (second-after r) r.process_made.owned) (process-first r)

      pool_owned : IsOwned (live h2) r.pool
      pool_owned =
          IsOwned-destroy h1 r.process r.pool process_owned
            (IsOwned-destroy h r.capture r.pool capture_owned r.pool_made.owned (pool-first r))
            (pool-second r)
