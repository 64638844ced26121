-- ===== src/Block/Tests.antt =====
-- A round of the network thread with two samples, on a connection that takes the header only.
use fast_ring.Prelude.{
  ℕ, ◌≡◌, refl, arith, true, some, List, [], ◌∷◌, ◌++◌, ◌<◌, replicate, length-replicate,
}
use fast_ring.Types.{Sample}
use fast_ring.Ring.{RingBuffer, count}
use fast_ring.Ring.Inv.{IsValid, count-gap}
use fast_ring.Ring.Window.{blank}
use fast_ring.Client.{Client}
use fast_ring.Workers.{Stats}
use fast_ring.Loopback.{Wires, accept, broken, loopback}
use fast_ring.Block.{DataBlock, network_round, bytes_of, block_bytes}
use fast_ring.Block.Parse.{IsStorable, AreStorable, IsWhole, read_block, read_block-block_bytes}
use fast_ring.Block.Typing.{IsTyped, next_block, run-IsTyped}
use fast_ring.Workers.Counts.{Pipeline, Event, sampled, processed, popped, IsTallied, run}
use fast_ring.Workers.Passing.{held, brought}
use fast_ring.Workers.Order.{brought_all, gathered_all}
use fast_ring.Block.Sending.{IsRound, network_round-IsRound}

abbrev numbered : ℕ → Sample
numbered n = record blank { sequence = n }

-- Two samples, round the end of the block.
abbrev pending : RingBuffer
pending = record {
  head = 1;
  tail = 3;
  capacity = 4;
  mask = 3;
  buffer = numbered 9 ∷ numbered 6 ∷ numbered 7 ∷ numbered 8 ∷ [];
  dropped = 0;
}

pending-IsValid : IsValid pending
pending-IsValid = record {
  power = record { exponent = 2; value = refl; low = omega arith; high = omega arith };
  masked = refl;
  sized = refl;
  head_in = omega arith;
  tail_in = omega arith;
  dropped_in = omega arith;
}

abbrev online : Client
online = record {
  config = record {
    server_ip = [];
    server_port = 8080;
    send_timeout_ms = 5000;
    recv_timeout_ms = 5000;
    buffer_size = 65536;
    keep_alive = true;
  };
  socket_fd = some 0;
  connected = true;
  block_sequence = 0;
}

abbrev wires : Wires
wires = record { opened = true ∷ []; output = []; answers = accept 24 ∷ broken ∷ [] }

abbrev counters : Stats
counters = record { total_samples = 2; dropped_samples = 0; sent_bytes = 0; send_errors = 0 }

abbrev array : List Sample
array = replicate 256 blank

-- The lowest byte first.
magic_bytes : bytes_of 4 0xADC0DA7A ≡ 0x7A ∷ 0xDA ∷ 0xC0 ∷ 0xAD ∷ []
unfolding bytes_of
magic_bytes = refl

network_round-IsRound_example :
    (out : RingBuffer × Stats × Client × Wires) × (network_round loopback 4121 online wires 7
        pending counters array
      ≡ some out)
    × IsRound online [] out.3.output 7 2 pending counters out.0 out.1 out.2
network_round-IsRound_example =
    network_round-IsRound loopback online 0 refl refl 4121 7 wires counters array pending-IsValid
      (length-replicate 256 blank) (omega arith) 2 (ground (arith, count-gap pending-IsValid))
      (omega arith)

abbrev one_sample : DataBlock
one_sample = record {
  magic = 0xADC0DA7A;
  version = 1;
  sequence = 0;
  sample_count = 1;
  timestamp = 5_000_000_000;
  samples = numbered 77 ∷ [];
}

one_sample-IsWhole : IsWhole one_sample
one_sample-IsWhole = record {
  magic_fits = omega arith;
  version_fits = omega arith;
  sequence_fits = omega arith;
  count_fits = omega arith;
  timestamp_fits = omega arith;
  counted = refl;
  stored = (
    record {
      timestamp_fits = omega arith;
      value_fits = omega arith;
      sequence_fits = omega arith;
      channel_fits = omega arith;
      flags_fit = omega arith;
    },
    tt,
  );
}

read_block-block_bytes_example : read_block (block_bytes one_sample) ≡ one_sample
read_block-block_bytes_example = read_block-block_bytes one_sample one_sample-IsWhole

-- Two samples in each buffer; one more comes, and both buffers move on.
abbrev line : Pipeline
line = record {
  capture = pending;
  process = pending;
  stats = record counters { total_samples = 4 };
  collected = 0;
}

line-IsTallied : IsTallied line
line-IsTallied = record {
  capture_valid = pending-IsValid;
  process_valid = pending-IsValid;
  dropped = refl;
  total = ground (arith, count-gap pending-IsValid);
}

abbrev rounds : List Event
rounds = sampled (numbered 5) ∷ popped array ∷ processed array ∷ []

numbered-IsStorable : (n : ℕ) → n < 100 → IsStorable (numbered n)
numbered-IsStorable n h = record {
  timestamp_fits = omega arith;
  value_fits = omega arith;
  sequence_fits = omega (arith, h);
  channel_fits = omega arith;
  flags_fit = omega arith;
}

rounds-AreStorable : AreStorable (held line ++ brought_all rounds)
unfolding brought_all brought count
rounds-AreStorable = (
  numbered-IsStorable 8 (omega arith),
  (
    numbered-IsStorable 9 (omega arith),
    (
      numbered-IsStorable 8 (omega arith),
      (numbered-IsStorable 9 (omega arith), (numbered-IsStorable 5 (omega arith), tt)),
    ),
  ),
)

run-IsTyped_example :
    IsTyped (run line rounds) (gathered_all line rounds) (next_block (run line rounds) 9 array)
run-IsTyped_example =
    run-IsTyped rounds 9 array (refl, (refl, tt)) line-IsTallied rounds-AreStorable (omega arith)
      (length-replicate 256 blank)
