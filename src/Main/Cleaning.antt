-- ===== src/Main/Cleaning.antt =====
-- What `main` of src/main.c leaves when a part cannot be made, and when it shuts down.
use fast_ring.Prelude.{ℕ, ◌≡◌, refl, Bool, true, some, []}
use fast_ring.Memory.{Allocator, nowhere, nowhere-Apart}
use fast_ring.Threads.{ThreadManager}
use fast_ring.Threads.Lifecycle.{first}
use fast_ring.Main.Startup.{Start, failed, started, start_up, shut_down}
use fast_ring.Main.Keeping.{Strands, Keeps, start_up-Keeps}

module _ (a : Allocator) (creates : ℕ → Bool) where
  open a use {Heap, live}

  -- After a failure the heap is as it was. Else all threads run, and shutting down joins them all and
  -- leaves the heap as it was, if it is as it stands.
  abbrev pub Cleans : (ℕ → Bool) → Start a creates → Type 0
  Cleans before (failed left h) = Strands creates left × ((q : ℕ) → live h q ≡ before q)
  Cleans before (started bm tm h) =
      (tm.manager.is_running ≡ true)
      × (tm.manager.unjoined ≡ first 3)
      × (m : ThreadManager) × ((shut_down a creates h bm tm).0 ≡ some m)
      × (m.unjoined ≡ [])
      × ((q : ℕ) → live (shut_down a creates h bm tm).1 q ≡ before q)

  Keeps-Cleans :
      (before : ℕ → Bool) (s : Start a creates) → Keeps a creates before s → Cleans before s
  Keeps-Cleans before (failed left h) same = same
  Keeps-Cleans before (started bm tm h) up = (
    up.running,
    up.threads,
    up.closed,
    up.closes h,
    up.joined,
    up.back h nowhere ((λ q. refl), nowhere-Apart (live h)),
  )

  -- Whichever allocations and threads fail, the start of the program returns. If a part cannot be made,
  -- the heap is left as it was, with no thread or, if a thread could not be created, with those
  -- before it unjoined. Else all three threads run, and a shutting down from there joins them all and
  -- leaves the heap as it was.
  pub start_up-Cleans :
      (fuel : ℕ) (h : Heap)
      → (s : Start a creates) × (start_up a creates fuel h ≡ some s) × Cleans (live h) s
  start_up-Cleans fuel h =
      let (s, e, kept) = start_up-Keeps a creates fuel h in (s, e, Keeps-Cleans (live h) s kept)
