-- ===== src/Main/Keeping.antt =====
-- What `main` of src/main.c holds once its parts are made, and what its shutting down gives back, now or later.
use fast_ring.Prelude.{
  ℕ, ◌<◌, ◌≡◌, refl, sym, subst, ap, inl, inr, arith, Bool, true, false, ◌||◌, Option, none, some,
  List, [],
}
use fast_ring.Types.{
  AdcError, ok, error_init, error_buffer, error_network, error_thread, error_timeout,
  error_invalid_param,
}
use fast_ring.Memory.{Allocator, Allocates, nowhere, nowhere-Apart, live-free_later}
use fast_ring.Ring.Create.{Handle}
use fast_ring.Manager
use fast_ring.Manager.{Manager}
use fast_ring.Manager.Lifetime.{Inits, IsReady}
use fast_ring.Manager.Release.{IsLater, IsReturned, Returnable, create-Returnable}
use fast_ring.Threads
use fast_ring.Threads.{ThreadManager, Context, idle}
use fast_ring.Threads.Lifecycle.{
  at_rest, first, start-Starts, destroy-start, init-create, unjoined-destroy,
}
use fast_ring.Threads.Blocks.{Placed, thread_manager_size, make, with_manager, release}
use fast_ring.Main.Startup.{
  Start, failed, started, clean_up, abandon, with_start, with_init, with_threads, with_buffers,
  with_buffer_manager, start_up, shut_down,
}

-- No thread is left unjoined; or one could not be created, and those before it are left.
abbrev pub Strands : (ℕ → Bool) → Option ThreadManager → Type 0
Strands creates none = Unit {0}
Strands creates (some m) = (i : ℕ) × (i < 3) × (creates i ≡ false) × (m.unjoined ≡ first i)

-- Nothing was given back since `before`, and a capture buffer was made.
pub record HasCapture (before live : ℕ → Bool) (bm : Manager) : Type 0 where
  pub capture : Handle
  pub held : bm.capture_to_process ≡ some capture
  pub there : live capture.address ≡ true
  pub fresh : before capture.address ≡ false
  pub old : (q : ℕ) → before q ≡ true → live q ≡ true

IsReady-HasCapture :
    {before after : ℕ → Bool} {bm : Manager} → IsReady before after bm → HasCapture before after bm
IsReady-HasCapture r = record {
  capture = r.capture;
  held = r.capture_held;
  there =
      let q = r.capture.address in
      ground (arith, r.pool_made.grown q, r.process_made.grown q, r.capture_made.owned.control);
  fresh = r.capture_made.fresh r.capture.address (ground arith);
  old =
      λ q e. ground (arith, e, r.capture_made.grown q, r.process_made.grown q, r.pool_made.grown q);
}

module _ (a : Allocator) (creates : ℕ → Bool) where
  open a use {Heap, live, free}

  -- All threads run, and shutting down joins them all and gives back what was taken since `before`, when
  -- the heap is as it stands or has more blocks besides.
  pub record IsUp (before : ℕ → Bool) (bm : Manager) (tm : Placed) (h : Heap) : Type 0 where
    pub running : tm.manager.is_running ≡ true
    pub threads : tm.manager.unjoined ≡ first 3
    pub closed : ThreadManager
    pub closes : (later : Heap) → (shut_down a creates later bm tm).0 ≡ some closed
    pub joined : closed.unjoined ≡ []
    pub buffer : HasCapture before (live h) bm
    pub back :
        (later : Heap) (others : ℕ → Bool)
        → IsLater a others h later
        → (q : ℕ) → live (shut_down a creates later bm tm).1 q ≡ (others q || before q)

  -- After a failure the heap is as it was.
  abbrev pub Keeps : (ℕ → Bool) → Start a creates → Type 0
  Keeps before (failed left h) = Strands creates left × ((q : ℕ) → live h q ≡ before q)
  Keeps before (started bm tm h) = IsUp before bm tm h

  module _ (before : ℕ → Bool) (bm : Manager) (h : Heap) (back : IsReturned a before bm h) where
    -- The thread manager, and after it the buffer manager, are given back.
    given_back :
        (h' : Heap) (p : ℕ)
        → Allocates (live h) (live h') (some p)
        → (later : Heap) (others : ℕ → Bool) → IsLater a others h' later
        → (q : ℕ) → live (Manager.destroy a (free later p) (some bm)) q ≡ (others q || before q)
    given_back h' p (fresh, grown) later others (more, away) = back (free later p) others (
      live-free_later a h h' later others p (fresh, grown) more away,
      λ q e. ground (arith, grown q, away q e),
    )

    at_once :
        (h' : Heap) (p : ℕ)
        → Allocates (live h) (live h') (some p)
        → (q : ℕ) → live (Manager.destroy a (free h' p) (some bm)) q ≡ before q
    at_once h' p taken = given_back h' p taken h' nowhere ((λ q. refl), nowhere-Apart (live h'))

    unchanged : (q : ℕ) → live (Manager.destroy a h (some bm)) q ≡ before q
    unchanged = back h nowhere ((λ q. refl), nowhere-Apart (live h))

    module _ (buffer : HasCapture before (live h) bm) where
      with_start-Keeps :
          (tm : Placed) (h' : Heap) (contexts : List Context)
          → Allocates (live h) (live h') (some tm.address)
          → let m = at_rest (some bm.address) idle idle idle false contexts in
            Keeps before (with_start a creates bm tm h' (Threads.start creates m))
      unfolding with_start abandon clean_up shut_down release
      with_start-Keeps tm h' contexts taken =
          let m = at_rest (some bm.address) idle idle idle false contexts in
          let out = Threads.start creates m in
          let P = λ (e : AdcError). Keeps before (with_start a creates bm tm h' (e, out.1)) in
          elim (start-Starts (some bm.address) idle idle idle false contexts creates) [
            | inl (e, up, resumed, states, all) ↦ subst P (sym e) (record {
              running = up;
              threads = all;
              closed = Threads.destroy out.1;
              closes = λ later. refl;
              joined =
                  unjoined-destroy (some bm.address) idle idle idle false contexts creates e up;
              buffer = record {
                capture = buffer.capture;
                held = buffer.held;
                there = ground (arith, taken.1 buffer.capture.address, buffer.there);
                fresh = buffer.fresh;
                old = λ q e. ground (arith, taken.1 q, buffer.old q e);
              };
              back = given_back h' tm.address taken;
            })
            | inr (i, low, refused, e, down, left) ↦ subst P (sym e) (
              destroy-start (some bm.address) idle idle idle false contexts creates e,
              at_once h' tm.address taken,
            )
          ]

      with_threads-Keeps :
          (r : Option ℕ × Heap)
          → Allocates (live h) (live r.1) r.0
          → Keeps before (with_threads a creates bm (with_manager a r))
      unfolding with_threads with_manager with_init
      with_threads-Keeps (none, h') same =
          (tt, λ q. back h' nowhere (same, nowhere-Apart (live h)) q)
      with_threads-Keeps (some p, h') taken =
          let (contexts, e) = init-create bm.address in
          let tm : Placed = record { address = p; manager = Threads.create } in
          subst (λ out. Keeps before (with_init a creates bm tm h' out)) (sym e)
            (with_start-Keeps
              (record {
                address = p;
                manager = at_rest (some bm.address) idle idle idle false contexts;
              })
              h' contexts taken)

    with_buffers-Keeps :
        (e : AdcError)
        → (e ≡ ok → HasCapture before (live h) bm)
        → Keeps before (with_buffers a creates (e, bm, h))
    unfolding with_buffers make
    with_buffers-Keeps ok buffer =
        with_threads-Keeps (buffer refl) (a.calloc h thread_manager_size)
          (a.calloc_lem h thread_manager_size)
    with_buffers-Keeps error_init buffer = (tt, unchanged)
    with_buffers-Keeps error_buffer buffer = (tt, unchanged)
    with_buffers-Keeps error_network buffer = (tt, unchanged)
    with_buffers-Keeps error_thread buffer = (tt, unchanged)
    with_buffers-Keeps error_timeout buffer = (tt, unchanged)
    with_buffers-Keeps error_invalid_param buffer = (tt, unchanged)

  made_capture :
      {before middle after : ℕ → Bool} {e : AdcError} {bm : Manager}
      → Inits middle after e bm
      → ((q : ℕ) → before q ≡ true → middle q ≡ true)
      → e ≡ ok
      → HasCapture before after bm
  made_capture (inl (_, r)) old success =
      let b = IsReady-HasCapture r in
      record {
        capture = b.capture;
        held = b.held;
        there = b.there;
        fresh = ground (arith, old b.capture.address, b.fresh);
        old = λ q e. b.old q (old q e);
      }
  made_capture (inr (refused, v, same)) old success = absurd cc

  with_buffer_manager-Keeps :
      (fuel : ℕ) (before : ℕ → Bool) (r : Option Manager × Heap)
      → Returnable a fuel before r
      → (s : Start a creates) × (with_buffer_manager a creates fuel r ≡ some s) × Keeps before s
  unfolding with_buffer_manager
  with_buffer_manager-Keeps fuel before (none, h) same = (_, refl, (tt, same))
  with_buffer_manager-Keeps fuel before (some bm, h) ((e, bm', h'), same, inits, old, back) = (
    with_buffers a creates (e, bm', h'),
    ap (λ r. elim r [ none ↦ none | some out ↦ some (with_buffers a creates out) ]) same,
    with_buffers-Keeps before bm' h' back e (made_capture inits old),
  )

  pub start_up-Keeps :
      (fuel : ℕ) (h : Heap)
      → (s : Start a creates) × (start_up a creates fuel h ≡ some s) × Keeps (live h) s
  unfolding start_up
  start_up-Keeps fuel h =
      with_buffer_manager-Keeps fuel (live h) (Manager.create a h) (create-Returnable a fuel h)
