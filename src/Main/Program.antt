-- ===== src/Main/Program.antt =====
-- `main` of src/main.c as one run: the arguments, the log, the parts, the main loop with the threads of
-- src/thread/thread_workers.c, and the exit. Of the threads a run has what they do to the heap, the rounds of the
-- capture thread before those of the network thread; the processing thread takes no memory. What threads do that
-- a start left running which failed is left out, and so are the messages but the first.
pub mod Exits
mod Tests
use fast_ring.Prelude.{ℕ, Bool, true, false, Option, none, some, List, [], Text}
use fast_ring.Memory.{Allocator}
use fast_ring.Manager.{Manager}
use fast_ring.Threads.Blocks.{Placed}
use fast_ring.Logger.{LogLevel, Logger, logger_init, logger_close}
use fast_ring.Main.Options.{Settings, defaults, Reading, help, unknown, settings, read_arguments}
use fast_ring.Main.Startup.{Start, failed, started, start_up, shut_down}
use fast_ring.Sockets.{Sockets}
use fast_ring.Workers.{Stats}
use fast_ring.Workers.Capture.{Chance, capture_rounds}
use fast_ring.Workers.Network.{Network}
use fast_ring.Workers.Network.Rounds.{Visit, network_rounds}
use fast_ring.Main.Leaving.{no_pool}
use fast_ring.Main.Loop.{Turn, Outcome, signalled, expired, going, main_loop}

-- What the program meets: what `fopen` answers to a name, the times at which it starts its log and its
-- main loop, the rounds of the loop, and those of the capture and of the network thread, with the
-- addresses of the callback and its data and the rounds allowed to each sending loop; `source` is
-- `__FILE__` of the logger.
pub record Surroundings : Type 0 where
  pub source : Text
  pub opens : Text → Option ℕ
  pub log_time : ℕ
  pub start_time : ℕ
  pub turns : List Turn
  pub callback : ℕ
  pub callback_data : ℕ
  pub captures : List (Chance × Chance × Option Manager)
  pub visits : List Visit
  pub send_rounds : ℕ

-- What `fopen` answers if a log file is asked for.
abbrev pub file_wanted : Surroundings → Option Text → Option (Option ℕ)
file_wanted env none = none
file_wanted env (some name) = some (env.opens name)

-- The statistics, as `calloc` leaves them
abbrev zero_stats : Stats
zero_stats = record { total_samples = 0; dropped_samples = 0; sent_bytes = 0; send_errors = 0 }

module _ (a : Allocator) (s : Sockets) (creates : ℕ → Bool) where
  open a use {Heap}
  open s use {Net}

  -- The exit code, and what is left.
  pub record Exit : Type 0 where
    pub code : ℕ
    pub heap : Heap
    pub logger : Logger

  -- What the capture and the network thread come to, from the heap that the start leaves; `none` if a sending
  -- loop goes on.
  unfoldable pub run_threads : Surroundings → Net → Heap → Option (Network a s)
  run_threads env n h = network_rounds a s env.send_rounds env.visits (record {
    buffers = none;
    client = none;
    pool = no_pool;
    stats = zero_stats;
    heap = (capture_rounds a env.callback env.callback_data env.captures (none, h)).1;
    net = n;
  })

  -- What comes behind the main loop: the end of the threads, the release of the parts, and the closing of the log
  unfoldable pub with_threads_run : Logger → Manager → Placed → Option (Network a s) → Option Exit
  with_threads_run log bm tm none = none
  with_threads_run log bm tm (some w) =
      some (record {
        code = 0;
        heap = (shut_down a creates w.heap bm tm).1;
        logger = logger_close log;
      })

  -- The main loop; `none` if it goes on.
  unfoldable pub with_outcome :
      Surroundings → Logger → Manager → Placed → Net → Heap → Outcome → Option Exit
  with_outcome env log bm tm n h (going printed) = none
  with_outcome env log bm tm n h _ = with_threads_run log bm tm (run_threads env n h)

  -- What the start comes to
  unfoldable pub with_start_up :
      Surroundings → Settings → Logger → Net → Option (Start a creates) → Option Exit
  with_start_up env o log n none = none
  with_start_up env o log n (some (failed left h)) =
      some (record { code = 1; heap = h; logger = logger_close log })
  with_start_up env o log n (some (started bm tm h)) =
      with_outcome env log bm tm n h
        (main_loop o.run_time_seconds env.start_time env.start_time [] env.turns)

  -- What `logger_init` reports
  unfoldable pub with_log :
      ℕ → Surroundings → Settings → Net → Heap → Option (Bool × Logger) → Option Exit
  with_log fuel env o n h none = none
  with_log fuel env o n h (some (false, log)) = some (record { code = 1; heap = h; logger = log })
  with_log fuel env o n h (some (true, log)) = with_start_up env o log n (start_up a creates fuel h)

  -- What the arguments say
  unfoldable pub with_reading : ℕ → Surroundings → Net → Heap → Logger → Reading → Option Exit
  with_reading fuel env n h log help = some (record { code = 0; heap = h; logger = log })
  with_reading fuel env n h log (unknown a) = some (record { code = 1; heap = h; logger = log })
  with_reading fuel env n h log (settings o) =
      with_log fuel env o n h
        (logger_init env.log_time env.source (file_wanted env o.log_file) o.log_level log)

  -- `main`
  unfoldable pub main :
      (Text → ℕ) → ℕ → Surroundings → List Text → Net → Heap → Logger → Option Exit
  main atoi fuel env arguments n h log =
      with_reading fuel env n h log (read_arguments atoi defaults arguments)
