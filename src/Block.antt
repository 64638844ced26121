-- ===== src/Block.antt =====
-- `data_block_t` of include/adc_types.h as it stands in memory on a little-endian platform, its sending
-- by `tcp_client_send_data_block` of src/network/tcp_client.c, and the sending half of
-- `network_thread_worker` of src/thread/thread_workers.c on a connected client.
pub mod Sending
pub mod Parse
pub mod Typing
mod Tests
use mathlib.Core.Option
use fast_ring.Prelude.{
  ℕ, zero, suc, ◌+◌, ◌*◌, ◌/◌, ◌%◌, ◌^◌, Option, none, some, List, [], ◌∷◌, ◌++◌, length, take, ltb,
  ◌==◌, true, false, if◌then◌else◌, add64, u64_mod,
}
use fast_ring.Types.{
  AdcError, ok, error_init, error_buffer, error_network, error_thread, error_timeout,
  error_invalid_param, Sample, sample_size,
}
use fast_ring.Ring.{RingBuffer, Popped, pop_batch}
use fast_ring.Sockets.{Sockets}
use fast_ring.Client.{Client, send_all}
use fast_ring.Workers.{Stats}

-- `data_block_t`
pub record DataBlock : Type 0 where
  pub magic : ℕ
  pub version : ℕ
  pub sequence : ℕ
  pub sample_count : ℕ
  pub timestamp : ℕ
  pub samples : List Sample

-- `sizeof(data_block_t)`: the fields before the flexible array.
abbrev pub header_size : ℕ
header_size = 24

abbrev pub samples_per_block : ℕ
samples_per_block = 256

-- The `n` bytes of a number, lowest first.
pub bytes_of : ℕ → ℕ → List ℕ
bytes_of zero x = []
bytes_of (suc n) x = x % 256 ∷ bytes_of n (x / 256)

pub sample_bytes : Sample → List ℕ
sample_bytes s =
    bytes_of 4 s.timestamp
    ++ (bytes_of 4 s.value
        ++ (bytes_of 4 s.sequence ++ (bytes_of 2 s.channel ++ bytes_of 2 s.flags)))

pub samples_bytes : List Sample → List ℕ
samples_bytes [] = []
samples_bytes (s ∷ rest) = sample_bytes s ++ samples_bytes rest

pub block_bytes : DataBlock → List ℕ
block_bytes b =
    bytes_of 4 b.magic
    ++ (bytes_of 4 b.version
        ++ (bytes_of 4 b.sequence
            ++ (bytes_of 4 b.sample_count ++ (bytes_of 8 b.timestamp ++ samples_bytes b.samples))))

-- The `block_size` of `tcp_client_send_data_block`
abbrev pub block_size : DataBlock → ℕ
block_size b = (header_size + b.sample_count * sample_size) % u64_mod

-- The block that `network_thread_worker` fills in from the samples popped.
abbrev pub fill_block : ℕ → List Sample → ℕ → DataBlock
fill_block now samples popped = record {
  magic = 0xADC0DA7A;
  version = 1;
  sequence = 0;
  sample_count = popped;
  timestamp = now;
  samples = take popped samples;
}

-- The counters after a send
unfoldable pub count_send : AdcError → ℕ → Stats → Stats
count_send ok popped stats = record stats {
  sent_bytes = add64 stats.sent_bytes (header_size + popped * sample_size);
}
count_send _ popped stats = record stats { send_errors = add64 stats.send_errors 1 }

module _ (s : Sockets) where
  open s use {Net}

  -- `tcp_client_send_data_block`; the block is followed by whatever stands behind it in memory, of which
  -- nothing is sent if it has as many samples as it says.
  pub send_data_block : ℕ → Client → Net → DataBlock → Option (AdcError × Client × Net)
  send_data_block fuel c n b = send_all s fuel c n (block_bytes b) (block_size b)

  -- `network_thread_worker` from the sending on, with `popped` samples in its local array,
  unfoldable pub send_popped :
      ℕ → Client → Net → ℕ → Stats → Popped → Option (RingBuffer × Stats × Client × Net)
  send_popped fuel c n now stats p =
      Option.map (λ (err, c', n'). (p.ring, count_send err p.popped stats, c', n'))
        (send_data_block fuel c n (fill_block now p.samples p.popped))

  -- and from the pop on. `now` is the reading of the clock, and the pool has a block.
  unfoldable pub network_round :
      ℕ
      → Client
      → Net
      → ℕ
      → RingBuffer
      → Stats
      → List Sample
      → Option (RingBuffer × Stats × Client × Net)
  network_round fuel c n now process stats samples =
      let p = pop_batch process samples samples_per_block in
      let sent = send_popped fuel c n now stats p in
      if p.some_popped
      then if ltb 0 p.popped then sent else some (p.ring, stats, c, n)
      else some (p.ring, stats, c, n)
