-- ===== src/Workers/Network/Draining.antt =====
-- What a round of the network thread of src/thread/thread_workers.c does to its buffer and its memory.
use native.Mathlib.Decide.{ℕ_discrete}
use fast_ring.Prelude.{
  ℕ, ◌≡◌, ◌<◌, refl, sym, ap, ◌∙◌, subst, inl, inr, Bool, true, false, Option, none, some, List,
  length, min, ltb, if◌then◌else◌,
}
use fast_ring.Types.{AdcError, Sample}
use fast_ring.Memory.{Allocator}
use fast_ring.Sockets.{Sockets}
use fast_ring.Ring.{Popped, count}
use fast_ring.Ring.Inv.{IsValid}
use fast_ring.Ring.PopBatch.{pop_batch_none}
use fast_ring.Ring.Create.{Handle}
use fast_ring.Manager.{Manager}
use fast_ring.Client
use fast_ring.Client.{Client}
use fast_ring.Client.Lifetime
use fast_ring.Client.Descriptors.{connect-Connects}
use fast_ring.Client.Lifetime.{Owned, default_config, IsOffline, create-IsOffline}
use fast_ring.Block.{samples_per_block}
use fast_ring.Workers.Pool.{get_block_from_pool}
use fast_ring.Workers.Network.Holding.{Holds, get_block_from_pool-Holds, create-Holds}
use fast_ring.Workers.Network.{
  Network, put_ring, with_block, with_connection, with_result, with_client, with_new_client,
  with_buffer, network_thread_worker,
}
use fast_ring.Workers.Network.Drained.{
  IsSound, IsSoundClient, drained, IsHeld, Drains, same_ring, put,
}
use fast_ring.Workers.Network.Sent.{taken, pop_taken, positive, with_block-Drains}

module _ (a : Allocator) (s : Sockets) (bm : Manager) (hd : Handle) (v : IsValid hd.ring)
    (samples : List Sample) (have : length samples ≡ samples_per_block) (fuel : ℕ)
    (enough : 4120 < fuel) (now : ℕ) (before : ℕ → Bool) where
  -- A connected client
  with_connection-Drains :
      (w : Network a s) (t : Owned) (d : ℕ)
      → w.buffers ≡ drained a s bm hd before hd.ring
      → t.client.connected ≡ true
      → t.client.socket_fd ≡ some d
      → w.client ≡ some t
      → Holds before (a.live w.heap) (some t) w.pool
      → Drains a s bm hd before (with_connection a s fuel now samples w hd t)
  unfolding with_connection
  with_connection-Drains w t d held up fd ec memory =
      let r = get_block_from_pool a w.pool w.heap in
      let idle = λ (q : Popped). some (record w { buffers = put_ring a s w.buffers hd q.ring }) in
      let choose = λ (q : Popped) (b : Bool).
        if q.some_popped
        then if b then with_block a s fuel now w hd t q r else idle q
        else idle q in
      let P = λ (q : Popped). Drains a s bm hd before (choose q (ltb 0 q.popped)) in
      elim (ℕ_discrete (min samples_per_block (count hd.ring)) 0) [
        | yes nothing ↦ subst P (sym (pop_batch_none v samples samples_per_block nothing)) (
            same_ring a s bm hd before v (record w { buffers = put_ring a s w.buffers hd hd.ring })
              (put a s bm hd before w.buffers hd.ring held)
              (subst IsSoundClient (sym ec) (inr (up, d, fd)))
              (subst (λ (c : Option Owned). Holds before (a.live w.heap) c w.pool) (sym ec) memory))
        | no some_held ↦
            let m = min samples_per_block (count hd.ring) in
            subst P
              (sym (pop_taken a s bm hd v samples have fuel enough now before m refl some_held))
              (subst
                (λ b. Drains a s bm hd before (
                  choose (taken a s bm hd v samples have fuel enough now before m refl some_held)
                    b))
                (sym (positive a s bm hd v samples have fuel enough now before m refl some_held))
                (with_block-Drains a s bm hd v samples have fuel enough now before m refl some_held
                  w t held d up fd r ec
                  (get_block_from_pool-Holds a before t w.pool w.heap memory)))
      ]

  -- A client to connect
  with_result-Drains :
      (w : Network a s) (t : Owned)
      → w.buffers ≡ drained a s bm hd before hd.ring
      → t.client.connected ≡ false
      → Holds before (a.live w.heap) (some t) w.pool
      → Drains a s bm hd before
          (with_result a s fuel now samples w hd t (Client.connect s t.client w.net))
  unfolding with_result
  with_result-Drains w t held down memory =
      let out = Client.connect s t.client w.net in
      let P = λ (e : AdcError).
        Drains a s bm hd before (with_result a s fuel now samples w hd t (e, out.1, out.2)) in
      elim (connect-Connects s w.net t.client down) [
        | inl (e, up, (d, fd, fresh, opened)) ↦
            subst P (sym e)
              (with_connection-Drains _ (record t { client = out.1 }) d held up fd refl memory)
        | inr (e, down_still, gone, same) ↦
            subst P (sym e) (same_ring a s bm hd before v _ held (inl down_still) memory)
      ]

  with_client-Drains :
      (w : Network a s) (t : Owned)
      → w.buffers ≡ drained a s bm hd before hd.ring
      → IsSound t.client
      → w.client ≡ some t
      → Holds before (a.live w.heap) (some t) w.pool
      → Drains a s bm hd before (with_client a s fuel now samples w hd t)
  unfolding with_client
  with_client-Drains w t held sound ec memory =
      let online = with_connection a s fuel now samples w hd t in
      let tried = with_result a s fuel now samples w hd t (Client.connect s t.client w.net) in
      let P = λ (b : Bool). Drains a s bm hd before (if b then online else tried) in
      elim sound [
        | inl down ↦ subst P (sym down) (with_result-Drains w t held down memory)
        | inr (up, d, fd) ↦ subst P (sym up) (with_connection-Drains w t d held up fd ec memory)
      ]

  with_new_client-Drains :
      (w : Network a s) (r : Option Owned × a.Heap)
      → w.buffers ≡ drained a s bm hd before hd.ring
      → w.client ≡ none
      → IsOffline r.0
      → Holds before (a.live r.1) r.0 w.pool
      → Drains a s bm hd before (with_new_client a s fuel now samples w hd r)
  unfolding with_new_client
  with_new_client-Drains w (none, h) held ec offline memory =
      same_ring a s bm hd before v _ held (subst IsSoundClient (sym ec) tt)
        (subst (λ (c : Option Owned). Holds before (a.live h) c w.pool) (sym ec) memory)
  with_new_client-Drains w (some t, h) held ec offline memory =
      with_client-Drains _ t held (inl offline) refl memory

  with_buffer-Drains :
      (w : Network a s)
      → w.buffers ≡ drained a s bm hd before hd.ring
      → IsSoundClient w.client
      → IsHeld a s bm hd before w
      → Drains a s bm hd before (with_buffer a s fuel now samples w hd)
  unfolding with_buffer
  with_buffer-Drains w held sound memory = go w.client refl sound memory
    where
      go :
          (client : Option Owned)
          → w.client ≡ client
          → IsSoundClient client
          → Holds before (a.live w.heap) client w.pool
          → Drains a s bm hd before (elim client [
            | some t ↦ with_client a s fuel now samples w hd t
            | none ↦
                with_new_client a s fuel now samples w hd
                  (Lifetime.create a w.heap (some default_config))
          ])
      go none ec sound memory =
          with_new_client-Drains w _ held ec (create-IsOffline a w.heap (some default_config))
            (create-Holds a before w.heap (some default_config) w.pool memory)
      go (some t) ec sound memory = with_client-Drains w t held sound ec memory

  -- A round of the network thread on a valid buffer always returns, whether memory, the connection, the
  -- sending or the pool of blocks fails, with 4121 rounds allowed to the sending loop: the buffer stays
  -- valid and loses some of its oldest samples, at most a block of them; the client keeps a socket while it is
  -- connected; and the blocks of one client and of the pool are all that was ever taken.
  pub network_thread_worker-Drains :
      (w : Network a s)
      → w.buffers ≡ some bm
      → bm.process_to_network ≡ some hd
      → IsSoundClient w.client
      → IsHeld a s bm hd before w
      → Drains a s bm hd before (network_thread_worker a s fuel now samples w)
  unfolding network_thread_worker
  network_thread_worker-Drains w held here sound memory =
      let whole : w.buffers ≡ drained a s bm hd before hd.ring =
        held ∙ ap (λ p. some (record bm { process_to_network = p })) here in
      let P = λ (p : Option Handle).
        Drains a s bm hd before
          (elim p [ none ↦ some w | some hd' ↦ with_buffer a s fuel now samples w hd' ]) in
      let Q = λ (b : Option Manager). Drains a s bm hd before (elim b [
        | none ↦ some w
        | some bm' ↦ elim bm'.process_to_network [
          | none ↦ some w
          | some hd' ↦ with_buffer a s fuel now samples w hd'
        ]
      ]) in
      subst Q (sym held) (subst P (sym here) (with_buffer-Drains w whole sound memory))
