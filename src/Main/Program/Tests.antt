-- ===== src/Main/Program/Tests.antt =====
-- A run of seven seconds with a log file, whose threads start, with one round of the capture thread and one
-- of the network thread.
use fast_ring.Prelude.{ℕ, ◌-◌, ◌+◌, ◌*◌, Bool, true, some, List, [], ◌∷◌, Text, codes, replicate}
use fast_ring.Loopback.{Wires}
use fast_ring.Ring.{RingBuffer}
use fast_ring.Ring.Create.{Handle}
use fast_ring.Ring.Window.{blank}
use fast_ring.Manager.{Manager}
use fast_ring.Workers.Network.Rounds.{Visit}
use fast_ring.Main.Loop.{Turn}
use fast_ring.Main.Program.{Surroundings}

-- An `atoi` for digits
read_from : ℕ → Text → ℕ
read_from n [] = n
read_from n (c ∷ cs) = read_from (n * 10 + (c - 48)) cs

abbrev everyone : ℕ → Bool
everyone i = true

abbrev at : ℕ → Turn
at now = record { is_running = true; current_time = now }

-- A buffer with one sample
abbrev pair : RingBuffer
pair = record {
  head = 1;
  tail = 0;
  capacity = 2;
  mask = 1;
  buffer = blank ∷ blank ∷ [];
  dropped = 0;
}

abbrev handle : ℕ → Handle
handle control = record { address = control; storage = control + 1; ring = pair }

abbrev buffers : Manager
buffers = record {
  address = 0;
  capture_to_process = some (handle 1);
  process_to_network = some (handle 3);
  network_pool = some (handle 5);
}

abbrev one_round : Visit
one_round = record { now = 7; samples = replicate 256 blank; buffers = some buffers }

abbrev surroundings : Surroundings
surroundings = record {
  source = codes "src/utils/logger.c";
  opens = λ name. some 3;
  log_time = 900;
  start_time = 1000;
  turns = at 1000 ∷ at 4000 ∷ at 6100 ∷ at 8000 ∷ at 9000 ∷ [];
  callback = 77;
  callback_data = 78;
  captures =
      (record { creates = true; now = 5 }, record { creates = true; now = 6 }, some buffers) ∷ [];
  visits = one_round ∷ [];
  send_rounds = 4_121;
}

abbrev seven_seconds : List Text
seven_seconds = codes "-t" ∷ codes "7" ∷ codes "-l" ∷ codes "a.log" ∷ []

abbrev nets : Wires
nets = record { opened = []; output = []; answers = [] }
