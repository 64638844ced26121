-- ===== src/Block/Sending.antt =====
-- What a round of the network thread of src/thread/thread_workers.c sends.
use mathlib.Core.Option
use fast_ring.Prelude.{
  ℕ, zero, suc, ◌+◌, ◌*◌, ◌/◌, ◌≡◌, ◌≢◌, ◌≤◌, ◌<◌, ◌^◌, refl, ap, ◌∙◌, arith, add64, true, some,
  List, [], ◌∷◌, ◌++◌, length, length-append, length-take, take, take-take, drop, min, ltb,
  take_front,
}
use fast_ring.Types.{
  AdcError, ok, error_init, error_buffer, error_network, error_thread, error_timeout,
  error_invalid_param, Sample, sample_size,
}
use fast_ring.Ring.{RingBuffer, count}
use fast_ring.Ring.Inv.{IsValid}
use fast_ring.Ring.Window.{contents}
use fast_ring.Ring.Transfer.{withdraw, withdraw-IsValid, contents-withdraw, length-contents}
use fast_ring.Ring.PopBatch.{pop_batch_held}
use fast_ring.Sockets.{Sockets}
use fast_ring.Client.{Client}
use fast_ring.Client.Streams.{IsDelivery, Delivers, send_all-Delivers}
use fast_ring.Workers.{Stats}
use fast_ring.Block.{
  DataBlock, samples_per_block, bytes_of, sample_bytes, samples_bytes, block_bytes, header_size,
  block_size, fill_block, count_send, send_data_block, send_popped, network_round,
}

length-bytes_of : (n x : ℕ) → length (bytes_of n x) ≡ n
unfolding bytes_of
length-bytes_of zero x = refl
length-bytes_of (suc n) x = omega (arith, length-bytes_of n (x / 256))

length-sample_bytes : (s : Sample) → length (sample_bytes s) ≡ sample_size
unfolding sample_bytes bytes_of
length-sample_bytes s = refl

length-samples_bytes : (xs : List Sample) → length (samples_bytes xs) ≡ length xs * sample_size
unfolding samples_bytes
length-samples_bytes [] = refl
length-samples_bytes (s ∷ xs) = omega (
  arith,
  length-append (sample_bytes s) (samples_bytes xs),
  length-sample_bytes s,
  length-samples_bytes xs,
)

-- A block that has as many samples as it says is as long as is said.
length-block_bytes :
    (b : DataBlock)
    → b.sample_count ≡ length b.samples
    → b.sample_count < 2 ^ 32
    → length (block_bytes b) ≡ block_size b
unfolding block_bytes bytes_of
length-block_bytes b e small = omega (arith, length-samples_bytes b.samples)

-- What a round that pops `k` samples leaves: they are gone from the buffer, and the first bytes of a
-- block of them were written. Without an error as many bytes as the whole block has are counted, and
-- nothing else; with one, an error and nothing else.
pub record IsRound (c : Client) (before after : List ℕ) (now k : ℕ) (process : RingBuffer)
    (stats : Stats) (rb : RingBuffer) (stats' : Stats) (c' : Client) : Type 0 where
  pub valid : IsValid rb
  pub left : contents rb ≡ drop k (contents process)
  pub err : AdcError
  pub delivery :
      IsDelivery c before after (block_bytes (fill_block now (contents process) k)) err c'
  pub counted :
      err ≡ ok
      → stats' ≡ record stats {
        sent_bytes =
            add64 stats.sent_bytes (length (block_bytes (fill_block now (contents process) k)));
      }
  pub missed : err ≢ ok → stats' ≡ record stats { send_errors = add64 stats.send_errors 1 }

-- What `count_send` counts.
counted_lem :
    (err : AdcError) (k : ℕ) (stats : Stats)
    → err ≡ ok
    → count_send err k stats
      ≡ record stats { sent_bytes = add64 stats.sent_bytes (header_size + k * sample_size) }
unfolding count_send
counted_lem err k stats e = ap (λ err. count_send err k stats) e

missed_lem :
    (err : AdcError) (k : ℕ) (stats : Stats)
    → err ≢ ok
    → count_send err k stats ≡ record stats { send_errors = add64 stats.send_errors 1 }
unfolding count_send
missed_lem ok k stats h = absurd (h refl)
missed_lem error_init k stats h = refl
missed_lem error_buffer k stats h = refl
missed_lem error_network k stats h = refl
missed_lem error_thread k stats h = refl
missed_lem error_timeout k stats h = refl
missed_lem error_invalid_param k stats h = refl

module _ (s : Sockets) (c : Client) (d : ℕ) (up : c.connected ≡ true)
    (held : c.socket_fd ≡ some d) where
  open s use {Net, wire}

  send_data_block-Delivers :
      (fuel : ℕ) (n : Net) (b : DataBlock)
      → b.sample_count ≡ length b.samples
      → b.sample_count ≤ samples_per_block
      → 4120 < fuel
      → Delivers s c d n (block_bytes b) (send_data_block s fuel c n b)
  unfolding send_data_block
  send_data_block-Delivers fuel n b e small enough =
      let size : length (block_bytes b) ≡ block_size b =
        length-block_bytes b e (omega (arith, small)) in
      rw⁻¹ size (
        send_all-Delivers s c d up held fuel n (block_bytes b) (omega (arith, size, small))
          (omega (arith, size, small)) (omega (arith, size, small, enough)))

  module _ (fuel now : ℕ) (n : Net) {process : RingBuffer} (stats : Stats) (samples : List Sample)
      (v : IsValid process) (have : length samples ≡ samples_per_block) (enough : 4120 < fuel)
      (k : ℕ) (ek : k ≡ min samples_per_block (count process)) (some_held : k ≢ 0) where
    opened :
        network_round s fuel c n now process stats samples
        ≡ Option.map
            (λ (err, c', n'). (withdraw process k, count_send err k stats, c', n'))
            (send_data_block s fuel c n (fill_block now (contents process) k))
    unfolding network_round send_popped
    opened =
        rw
          (
            pop_batch_held v samples samples_per_block k ek some_held (omega (arith, have)),
            positive,
          )
          (ap
            (λ xs.
              Option.map (λ (err, c', n'). (withdraw process k, count_send err k stats, c', n'))
                (send_data_block s fuel c n (record (fill_block now xs k) { samples = xs })))
            same_samples)
      where
        positive : ltb 0 k ≡ true
        positive = ground arith

        same_samples :
            take k (take k (contents process) ++ drop k samples) ≡ take k (contents process)
        same_samples =
            take_front k (take k (contents process)) (drop k samples)
              (omega (arith, length-take k (contents process), length-contents v, ek))
            ∙ take-take k k (contents process) (omega arith)

    -- A round of the network thread on a connection, with samples to send, returns, with 4121 rounds
    -- allowed to the sending loop. It takes the oldest samples, at most a block of them, from the
    -- buffer, and writes the first bytes of a block of these samples in order. If the sending returns
    -- no error, the length of the whole block is added to the bytes sent, and if it returns one, 1 to
    -- the errors, modulo 2^64; the other statistics stay.
    pub network_round-IsRound :
        (out : RingBuffer × Stats × Client × Net) × (network_round s fuel c n now process stats
            samples
          ≡ some out)
        × IsRound c (wire n d) (wire out.3 d) now k process stats out.0 out.1 out.2
    network_round-IsRound =
        let (out, e, delivery) =
          send_data_block-Delivers fuel n (fill_block now (contents process) k) counted_samples
            (omega (arith, ek)) enough in
        (
          (withdraw process k, count_send out.0 k stats, out.1, out.2),
          opened
              ∙ ap
                  (Option.map
                    (λ (err, c', n'). (withdraw process k, count_send err k stats, c', n')))
                  e,
          record {
            valid = withdraw-IsValid v k (omega (arith, ek));
            left = contents-withdraw v k (omega (arith, ek));
            err = out.0;
            delivery = delivery;
            counted = λ sent.
                counted_lem out.0 k stats sent
                ∙ ap (λ b. record stats { sent_bytes = add64 stats.sent_bytes b })
                    {x = header_size + k * sample_size}
                    {y = length (block_bytes (fill_block now (contents process) k))}
                    (omega (
                      arith,
                      ek,
                      length-block_bytes (fill_block now (contents process) k) counted_samples
                          (omega (arith, ek)),
                    ));
            missed = missed_lem out.0 k stats;
          },
        )
      where
        counted_samples : k ≡ length (take k (contents process))
        counted_samples = omega (arith, length-take k (contents process), length-contents v, ek)
