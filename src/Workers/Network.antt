-- ===== src/Workers/Network.antt =====
-- `network_thread_worker` of src/thread/thread_workers.c: the client, the connection, the samples and the
-- block.
pub mod Holding
pub mod Drained
pub mod Sent
pub mod Draining
pub mod Rounds
use fast_ring.Prelude.{ℕ, Bool, true, false, Option, none, some, List, ltb, if◌then◌else◌}
use fast_ring.Types.{AdcError, ok, Sample}
use fast_ring.Memory.{Allocator}
use fast_ring.Sockets.{Sockets}
use fast_ring.Ring.{RingBuffer, Popped, pop_batch}
use fast_ring.Ring.Create.{Handle}
use fast_ring.Manager.{Manager}
use fast_ring.Client
use fast_ring.Client.{Client}
use fast_ring.Client.Lifetime
use fast_ring.Client.Lifetime.{Owned, default_config}
use fast_ring.Block.{samples_per_block, send_popped}
use fast_ring.Workers.{Stats}
use fast_ring.Workers.Pool.{Pool, get_block_from_pool}

module _ (a : Allocator) (s : Sockets) where
  open a use {Heap}
  open s use {Net}

  -- What the network thread works on.
  pub record Network : Type 0 where
    pub buffers : Option Manager
    pub client : Option Owned
    pub pool : Pool
    pub stats : Stats
    pub heap : Heap
    pub net : Net

  -- The second buffer, changed.
  unfoldable pub put_ring : Option Manager → Handle → RingBuffer → Option Manager
  put_ring none hd rb = none
  put_ring (some bm) hd rb =
      some (record bm { process_to_network = some (record hd { ring = rb }) })

  -- After the sending of `tcp_client_send_data_block`
  unfoldable pub after_send :
      Network → Handle → Owned → Option (RingBuffer × Stats × Client × Net) → Option Network
  after_send w hd t none = none
  after_send w hd t (some (rb, stats, c, n)) = some (record w {
    buffers = put_ring w.buffers hd rb;
    client = some (record t { client = c });
    stats = stats;
    net = n;
  })

  -- With samples popped: the samples are gone from the buffer also when the pool has no block.
  unfoldable pub with_block :
      ℕ → ℕ → Network → Handle → Owned → Popped → Option ℕ × Pool × Heap → Option Network
  with_block fuel now w hd t p (none, pool, h) =
      some (record w { buffers = put_ring w.buffers hd p.ring; pool = pool; heap = h })
  with_block fuel now w hd t p (some b, pool, h) =
      after_send (record w { pool = pool; heap = h }) hd t
        (send_popped s fuel t.client w.net now w.stats p)

  -- From the pop on. `samples` is the local array, which starts uninitialised.
  unfoldable pub with_connection : ℕ → ℕ → List Sample → Network → Handle → Owned → Option Network
  with_connection fuel now samples w hd t =
      let p = pop_batch hd.ring samples samples_per_block in
      let sent = with_block fuel now w hd t p (get_block_from_pool a w.pool w.heap) in
      let idle = some (record w { buffers = put_ring w.buffers hd p.ring }) in
      if p.some_popped then if ltb 0 p.popped then sent else idle else idle

  -- What `tcp_client_connect` reports
  unfoldable pub with_result :
      ℕ → ℕ → List Sample → Network → Handle → Owned → AdcError × Client × Net → Option Network
  with_result fuel now samples w hd t (ok, c, n) =
      let t' = record t { client = c } in
      with_connection fuel now samples (record w { client = some t'; net = n }) hd t'
  with_result fuel now samples w hd t (err, c, n) =
      some (record w { client = some (record t { client = c }); net = n })

  -- From the client on
  unfoldable pub with_client : ℕ → ℕ → List Sample → Network → Handle → Owned → Option Network
  with_client fuel now samples w hd t =
      let online = with_connection fuel now samples w hd t in
      let tried = with_result fuel now samples w hd t (Client.connect s t.client w.net) in
      if t.client.connected then online else tried

  -- What `tcp_client_create` gives
  unfoldable pub with_new_client :
      ℕ → ℕ → List Sample → Network → Handle → Option Owned × Heap → Option Network
  with_new_client fuel now samples w hd (none, h) = some (record w { heap = h })
  with_new_client fuel now samples w hd (some t, h) =
      with_client fuel now samples (record w { client = some t; heap = h }) hd t

  -- With a buffer
  unfoldable pub with_buffer : ℕ → ℕ → List Sample → Network → Handle → Option Network
  with_buffer fuel now samples w hd = elim w.client [
    | some t ↦ with_client fuel now samples w hd t
    | none ↦ with_new_client fuel now samples w hd (Lifetime.create a w.heap (some default_config))
  ]

  -- `network_thread_worker`; `none` is a call that has not returned.
  unfoldable pub network_thread_worker : ℕ → ℕ → List Sample → Network → Option Network
  network_thread_worker fuel now samples w = elim w.buffers [
    | none ↦ some w
    | some bm ↦ elim bm.process_to_network [
      | none ↦ some w
      | some hd ↦ with_buffer fuel now samples w hd
    ]
  ]
