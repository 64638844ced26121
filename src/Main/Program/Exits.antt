-- ===== src/Main/Program/Exits.antt =====
-- How `main` of src/main.c ends.
use fast_ring.Prelude.{ℕ, ◌≡◌, ◌≢◌, ◌⊎◌, Bool, not, ◌&&◌, ◌||◌, Option, none, some, List, []}
use fast_ring.Memory.{Allocator}
use fast_ring.Sockets.{Sockets}
use fast_ring.Manager.{Manager}
use fast_ring.Logger.{Logger}
use fast_ring.Workers.Network.{Network}
use fast_ring.Main.Options.{Reading, help, unknown, settings}
use fast_ring.Main.Loop.{going, main_loop}
use fast_ring.Main.Startup.{Start, failed, started, start_up}
use fast_ring.Main.Program.{Surroundings, Exit, file_wanted, run_threads}

module _ (a : Allocator) (s : Sockets) (creates : ℕ → Bool) (env : Surroundings) where
  open a use {Heap, live}
  open s use {Net}

  -- An exit with a code that leaves the blocks said in use and no file open.
  abbrev pub Ends : ℕ → (ℕ → Bool) → Option (Exit a s creates) → Type 0
  Ends code left out =
      (e : Exit a s creates) × (out ≡ some e)
      × (e.code ≡ code)
      × ((q : ℕ) → live e.heap q ≡ left q)
      × (e.logger.open_files ≡ [])

  -- After the start with the heap `h`: the main loop goes on after all the rounds; or the threads end, with what
  -- they took and did not give back still in use, and all else as before the program.
  abbrev pub Runs : (ℕ → Bool) → ℕ → Net → Heap → Option (Exit a s creates) → Type 0
  Runs before run_time n h out =
      ((printed : List ℕ) × (main_loop run_time env.start_time env.start_time [] env.turns
          ≡ going printed)
        × (out ≡ none))
      ⊎ ((w : Network a s) × (run_threads a s creates env n h ≡ some w)
          × Ends 0 (λ q. (live w.heap q && not (live h q)) || before q) out)

  -- By what the start comes to
  abbrev pub Starts : (ℕ → Bool) → ℕ → Net → Start a creates → Option (Exit a s creates) → Type 0
  Starts before run_time n (failed left h) out = Ends 1 before out
  Starts before run_time n (started bm tm h) out = Runs before run_time n h out

  -- How the program ends by what its arguments say.
  abbrev pub Finishes : ℕ → Net → Heap → Reading → Option (Exit a s creates) → Type 0
  Finishes fuel n h help out = Ends 0 (live h) out
  Finishes fuel n h (unknown argument) out = Ends 1 (live h) out
  Finishes fuel n h (settings o) out =
      ((file_wanted env o.log_file ≡ some none) × Ends 1 (live h) out)
      ⊎ ((file_wanted env o.log_file ≢ some none)
          × (r : Start a creates) × (start_up a creates fuel h ≡ some r)
          × Starts (live h) o.run_time_seconds n r out)
