-- ===== src/Workers/Network/Sent.antt =====
-- A round of the network thread of src/thread/thread_workers.c from the samples popped on.

use fast_ring.Prelude.{
  ℕ, ◌≡◌, ◌≢◌, ◌<◌, refl, sym, ap, subst, inr, arith, Bool, true, Option, none, some, List, take,
  drop, length, ◌++◌, min, ltb, if◌then◌else◌,
}
use fast_ring.Types.{Sample}
use fast_ring.Memory.{Allocator}
use fast_ring.Sockets.{Sockets}
use fast_ring.Ring.{RingBuffer, Popped, pop_batch, count}
use fast_ring.Ring.Inv.{IsValid}
use fast_ring.Ring.Window.{contents}
use fast_ring.Ring.Transfer.{withdraw, withdraw-IsValid, contents-withdraw}
use fast_ring.Ring.PopBatch.{pop_batch_held}
use fast_ring.Ring.Create.{Handle}
use fast_ring.Manager.{Manager}
use fast_ring.Client.{Client}
use fast_ring.Client.Lifetime.{Owned}
use fast_ring.Block.{samples_per_block, send_popped, network_round}
use fast_ring.Block.Sending.{network_round-IsRound}
use fast_ring.Workers.{Stats}
use fast_ring.Workers.Pool.{Pool}
use fast_ring.Workers.Network.Holding.{Holds}
use fast_ring.Workers.Network.{Network, after_send, with_block}
use fast_ring.Workers.Network.Drained.{IsSound, IsSoundClient, Ends-IsSound, drained, Drains, put}

module _ (a : Allocator) (s : Sockets) (bm : Manager) (hd : Handle) (v : IsValid hd.ring)
    (samples : List Sample) (have : length samples ≡ samples_per_block) (fuel : ℕ)
    (enough : 4120 < fuel) (now : ℕ) (before : ℕ → Bool) where
  -- As many samples as a round takes, if there are any
  module _ (m : ℕ) (em : m ≡ min samples_per_block (count hd.ring)) (some_held : m ≢ 0) where
    abbrev pub taken : Popped
    taken = record {
      some_popped = true;
      samples = take m (contents hd.ring) ++ drop m samples;
      popped = m;
      ring = withdraw hd.ring m;
    }

    pub pop_taken : pop_batch hd.ring samples samples_per_block ≡ taken
    pop_taken = pop_batch_held v samples samples_per_block m em some_held (omega (arith, have, em))

    pub positive : ltb 0 m ≡ true
    positive = ground arith

    left-IsValid : IsValid (withdraw hd.ring m)
    left-IsValid = withdraw-IsValid v m (omega (arith, em))

    left : contents (withdraw hd.ring m) ≡ drop m (contents hd.ring)
    left = contents-withdraw v m (omega (arith, em))

    module _ (w : Network a s) (t : Owned) (held : w.buffers ≡ drained a s bm hd before hd.ring)
        (d : ℕ) (up : t.client.connected ≡ true) (fd : t.client.socket_fd ≡ some d) where
      -- The sending returns.
      sends :
          (out : RingBuffer × Stats × Client × s.Net) × (send_popped s fuel t.client w.net now
              w.stats taken
            ≡ some out)
          × IsValid out.0
          × (contents out.0 ≡ drop m (contents hd.ring))
          × IsSound out.2
      unfolding network_round
      sends =
          let (out, e, round) =
            network_round-IsRound s t.client d up fd fuel now w.net w.stats samples v have enough m
              em some_held in
          let choose = λ (q : Popped) (b : Bool).
            if q.some_popped
            then if b
              then send_popped s fuel t.client w.net now w.stats q
              else some (q.ring, w.stats, t.client, w.net)
            else some (q.ring, w.stats, t.client, w.net) in
          let e' = subst (λ (q : Popped). choose q (ltb 0 q.popped) ≡ some out) pop_taken e in
          (
            out,
            subst (λ b. choose taken b ≡ some out) positive e',
            round.valid,
            round.left,
            Ends-IsSound d up fd round.delivery.ends,
          )

      pub with_block-Drains :
          (r : Option ℕ × Pool × a.Heap)
          → w.client ≡ some t
          → Holds before (a.live r.2) (some t) r.1
          → Drains a s bm hd before (with_block a s fuel now w hd t taken r)
      unfolding with_block after_send
      with_block-Drains (none, pool, h) ec memory = (
        _,
        refl,
        record {
          ring = withdraw hd.ring m;
          placed = put a s bm hd before w.buffers _ held;
          valid = left-IsValid;
          k = m;
          bounded = omega (arith, em);
          left = left;
          sound = subst IsSoundClient (sym ec) (inr (up, d, fd));
          held = subst (λ (c : Option Owned). Holds before (a.live h) c pool) (sym ec) memory;
        },
      )
      with_block-Drains (some b, pool, h) ec memory =
          let (out, e, valid, rest, sound) = sends in
          (
            _,
            ap (after_send a s (record w { pool = pool; heap = h }) hd t) e,
            record {
              ring = out.0;
              placed = put a s bm hd before w.buffers _ held;
              valid = valid;
              k = m;
              bounded = omega (arith, em);
              left = rest;
              sound = sound;
              held = memory;
            },
          )
