-- ===== src/Main/Leaving/Tests.antt =====
-- A run whose three threads start, with one round of the capture thread and one of the network thread, and its
-- end.

use fast_ring.Prelude.{
  ℕ, ◌≡◌, refl, arith, Bool, true, Option, none, some, List, [], ◌∷◌, replicate, length-replicate,
}
use fast_ring.Tally.{tally, is_live}
use mathlib.Core.Option
use fast_ring.Ring.Window.{blank}
use fast_ring.Ring.Create
use fast_ring.Ring.Create.{Handle}
use fast_ring.Manager
use fast_ring.Manager.{Manager}
use fast_ring.Threads
use fast_ring.Threads.Blocks.{Placed, make, with_manager}
use fast_ring.Adc
use fast_ring.Adc.{Simulator, default_config}
use fast_ring.Workers.Capture.{
  Chance, capture_rounds, capture_thread_worker, with_simulator, set_up, restart, start_by,
}
use fast_ring.Main.Leaving.{no_pool, IsLeft, shut_down-IsLeft}
use fast_ring.Loopback.{Wires, loopback}
use fast_ring.Ring.{count, pop_batch}
use fast_ring.Ring.Inv.{IsValid}
use fast_ring.Client
use fast_ring.Client.{connect, with_socket, with_address, set_options}
use fast_ring.Client.Lifetime
use fast_ring.Client.Lifetime.{Owned}
use fast_ring.Workers.{Stats}
use fast_ring.Workers.Network.{
  Network, network_thread_worker, with_buffer, with_new_client, with_client, with_result,
  with_connection, put_ring,
}
use fast_ring.Workers.Network.Rounds.{Visit, network_rounds}
use fast_ring.Main.Startup.{
  started, start_up, with_buffer_manager, with_buffers, with_threads, with_init, with_start,
  shut_down,
}

-- Every thread can be created, and the allocator makes twenty blocks.
abbrev everyone : ℕ → Bool
everyone i = true

abbrev hollow : ℕ → ℕ → Handle
hollow control block = record {
  address = control;
  storage = block;
  ring = record {
    head = 0;
    tail = 0;
    capacity = 16384;
    mask = 16383;
    buffer = replicate 16384 blank;
    dropped = 0;
  };
}

abbrev buffers : Manager
buffers = record {
  address = 0;
  capture_to_process = some (hollow 1 2);
  process_to_network = some (hollow 3 4);
  network_pool = some (hollow 5 6);
}

abbrev running_threads : Placed
running_threads = record {
  address = 7;
  manager = (Threads.start everyone (Threads.init Threads.create (some 0)).1).1;
}

up : start_up (tally 20) everyone 32 [] ≡ some (started buffers running_threads (replicate 8 true))
unfolding start_up with_buffer_manager with_buffers with_threads with_init with_start make
    with_manager Manager.create Manager.with_block Manager.init Manager.with_capture
    Manager.with_process Manager.with_pool Create.create Create.allocate Create.with_control
    Create.with_block Create.round_up Threads.create Threads.init Threads.start Threads.start_loop
    Option.bind
up = refl

abbrev simulator : Simulator
simulator = record {
  address = 8;
  config = default_config;
  is_running = true;
  sequence = 0;
  start_time = 5;
  callback = some 77;
  callback_data = 78;
  unjoined = 1;
}

abbrev first_round : List (Chance × Chance × Option Manager)
first_round =
    (record { creates = true; now = 5 }, record { creates = true; now = 6 }, some buffers) ∷ []

sampling :
    capture_rounds (tally 20) 77 78 first_round (none, replicate 8 true)
    ≡ (some simulator, replicate 9 true)
unfolding capture_rounds capture_thread_worker with_simulator set_up restart start_by Adc.create
    Adc.with_memory Adc.chosen_config Adc.start
sampling = refl

-- A round of the network thread that connects and finds nothing to send
abbrev nets : Wires
nets = record { opened = []; output = []; answers = [] }

abbrev zero_stats : Stats
zero_stats = record { total_samples = 0; dropped_samples = 0; sent_bytes = 0; send_errors = 0 }

abbrev visits : List Visit
visits = record { now = 7; samples = replicate 256 blank; buffers = some buffers } ∷ []

hollow-IsValid : IsValid (hollow 3 4).ring
hollow-IsValid = record {
  power = record { exponent = 14; value = refl; low = omega arith; high = omega arith };
  masked = refl;
  sized = length-replicate 16384 blank;
  head_in = omega arith;
  tail_in = omega arith;
  dropped_in = omega arith;
}

abbrev connected : Owned
connected = record {
  address = 9;
  send_buffer = some 10;
  client = record {
    config = Lifetime.default_config;
    socket_fd = some 0;
    connected = true;
    block_sequence = 0;
  };
}

abbrev network : Option Owned → List Bool → Wires → Network (tally 20) loopback
network client heap net = record {
  buffers = some buffers;
  client = client;
  pool = no_pool;
  stats = zero_stats;
  heap = heap;
  net = net;
}

serving :
    network_rounds
      (tally 20)
      loopback
      4121
      visits
      (record (network none (replicate 9 true) nets) { buffers = none })
    ≡ some (network (some connected) (replicate 11 true) (record nets { opened = true ∷ [] }))
unfolding network_rounds Option.bind network_thread_worker with_buffer with_new_client with_client
    with_result with_connection put_ring Lifetime.create Lifetime.with_client Lifetime.with_buffer
    Lifetime.chosen_config connect with_socket with_address Client.with_connection set_options
    pop_batch count
serving = refl

shut_down-IsLeft_example :
    IsLeft
      (tally 20)
      everyone
      (is_live [])
      (replicate 8 true)
      (replicate 11 true)
      77
      buffers
      simulator
      connected
      (shut_down (tally 20) everyone (replicate 11 true) buffers running_threads)
shut_down-IsLeft_example =
    shut_down-IsLeft (tally 20) everyone 32 [] (replicate 8 true) buffers running_threads up 77 78
      first_round simulator (replicate 9 true) sampling loopback 4121 visits zero_stats nets
      (network (some connected) (replicate 11 true) (record nets { opened = true ∷ [] })) connected
      (omega arith) (length-replicate 256 blank, hollow-IsValid, tt) serving refl
