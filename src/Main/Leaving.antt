-- ===== src/Main/Leaving.antt =====
-- What stays behind when `main` of src/main.c shuts down after the capture thread of
-- src/thread/thread_workers.c has made a simulator and the network thread a client: nothing of main.c
-- destroys them.
mod Tests
use mathlib.Core.Option.{some-injective}
use fast_ring.Prelude.{
  ℕ, ◌<◌, ◌≡◌, refl, sym, ap, subst, ◌∙◌, arith, inl, inr, Bool, true, false, not, ◌&&◌, Option,
  none, some, List, [], ◌∷◌, ◌==◌, ◌||◌,
}
use fast_ring.Memory.{Allocator, Allocates}
use fast_ring.Sockets.{Sockets}
use fast_ring.Ring.Create.{Handle}
use fast_ring.Adc.{Simulator}
use fast_ring.Adc.Lifecycle.{threads}
use fast_ring.Manager.{Manager}
use fast_ring.Threads.{ThreadManager}
use fast_ring.Threads.Blocks.{Placed}
use fast_ring.Client.Lifetime.{Owned}
use fast_ring.Workers.{Stats}
use fast_ring.Workers.Pool.{Pool}
use fast_ring.Workers.Capture.{Chance, capture_rounds, Captures, capture_rounds-Captures}
use fast_ring.Workers.Network.{Network}
use fast_ring.Workers.Network.Holding.{Filled, PoolHolds, Holds}
use fast_ring.Workers.Network.Rounds.{
  Visit, AreVisits, network_rounds, IsTidy, network_rounds-IsTidy,
}
use fast_ring.Main.Startup.{started, start_up, shut_down}
use fast_ring.Main.Keeping.{IsUp, Keeps, start_up-Keeps}

-- What is in use stays in use.
Filled-keep :
    (bs : List (Option ℕ)) (before after : ℕ → Bool)
    → Filled before after bs
    → (q : ℕ) → before q ≡ true
    → after q ≡ true
Filled-keep [] before after same q there = same q ∙ there
Filled-keep (none ∷ bs) before after (next, same, filled) q there =
    Filled-keep bs next after filled q (same q ∙ there)
Filled-keep (some p ∷ bs) before after (next, (fresh, grown), filled) q there =
    Filled-keep bs next after filled q (ground (arith, grown q, there))

PoolHolds-keep :
    (pool : Pool) (before after : ℕ → Bool)
    → PoolHolds before after pool
    → (q : ℕ) → before q ≡ true
    → after q ≡ true
PoolHolds-keep pool before after (inl (down, same)) q there = same q ∙ there
PoolHolds-keep pool before after (inr (up, filled)) q there =
    Filled-keep pool.blocks before after filled q there

-- The blocks of a client that was made are new and in use.
record HasClient (before after : ℕ → Bool) (t : Owned) : Type 0 where
  keeps : (q : ℕ) → before q ≡ true → after q ≡ true
  address_new : before t.address ≡ false
  address_there : after t.address ≡ true
  buffer : ℕ
  buffer_held : t.send_buffer ≡ some buffer
  buffer_new : before buffer ≡ false
  buffer_there : after buffer ≡ true

Holds-HasClient :
    (before after : ℕ → Bool) (t : Owned) (pool : Pool)
    → Holds before after (some t) pool
    → HasClient before after t
Holds-HasClient before after t pool (b, eb, first, (new, grown), second, (new', grown'), held) =
    record {
      keeps = λ q e. PoolHolds-keep pool second after held q (ground (arith, grown q, grown' q, e));
      address_new = new;
      address_there =
          PoolHolds-keep pool second after held t.address
            (ground (arith, grown t.address, grown' t.address));
      buffer = b;
      buffer_held = eb;
      buffer_new = ground (arith, grown b, new');
      buffer_there = PoolHolds-keep pool second after held b (ground (arith, grown' b));
    }

-- What was in use when the capture thread, or after it the network thread, began is so when it ends.
pub Holds-keep :
    (before after : ℕ → Bool) (t : Option Owned) (pool : Pool)
    → Holds before after t pool
    → (q : ℕ) → before q ≡ true
    → after q ≡ true
Holds-keep before after none pool (down, same) q there = same q ∙ there
Holds-keep before after (some t) pool held q there =
    (Holds-HasClient before after t pool held).keeps q there

pub Captures-keep :
    (a : Allocator) (callback cb_data : ℕ) (before : ℕ → Bool) (adc : Option Simulator) (h : a.Heap)
    → Captures a callback cb_data before (adc, h)
    → (q : ℕ) → before q ≡ true
    → a.live h q ≡ true
Captures-keep a callback cb_data before none h same q there = same q ∙ there
Captures-keep a callback cb_data before (some adc) h c q there =
    ground (arith, c.one_block.1 q, there)

-- The pool before the program runs
abbrev pub no_pool : Pool
no_pool = record { blocks = []; is_ready = false; index = 0 }

module _ (a : Allocator) (creates : ℕ → Bool) where
  open a use {Heap, live}

  -- After shutting down, by the heap `h` of the start and the heap `later`: every thread of the manager is joined,
  -- and all that the start took is given back and nothing that was taken later. So the blocks of the simulator and of
  -- the client stay in use; the simulator has its callback set and its thread, if it runs, not waited for, while the
  -- capture buffer is released.
  pub record IsLeft (before : ℕ → Bool) (h later : Heap) (callback : ℕ) (bm : Manager)
      (adc : Simulator) (t : Owned) (out : Option ThreadManager × Heap) : Type 0 where
    pub manager : ThreadManager
    pub closed : out.0 ≡ some manager
    pub joined : manager.unjoined ≡ []
    pub rest : (q : ℕ) → live out.1 q ≡ ((live later q && not (live h q)) || before q)
    pub simulator_stays : live out.1 adc.address ≡ true
    pub calls : adc.callback ≡ some callback
    pub runs_on : adc.unjoined ≡ threads adc.is_running
    pub client_stays : live out.1 t.address ≡ true
    pub send_buffer : ℕ
    pub buffer_held : t.send_buffer ≡ some send_buffer
    pub buffer_stays : live out.1 send_buffer ≡ true
    pub capture : Handle
    pub filled : bm.capture_to_process ≡ some capture
    pub dangling : live out.1 capture.address ≡ false

  IsUp-IsLeft :
      (before : ℕ → Bool) (callback cb_data : ℕ) (bm : Manager) (tm : Placed)
      (h middle later : Heap) (adc : Simulator) (t : Owned)
      → IsUp a creates before bm tm h
      → Captures a callback cb_data (live h) (some adc, middle)
      → HasClient (live middle) (live later) t
      → IsLeft before h later callback bm adc t (shut_down a creates later bm tm)
  IsUp-IsLeft before callback cb_data bm tm h middle later adc t up c client = record {
    manager = up.closed;
    closed = up.closes later;
    joined = up.joined;
    rest = rest;
    simulator_stays =
        let q = adc.address in
        rest q ∙ ground (arith, c.one_block.0, c.one_block.1 q, client.keeps q);
    calls = c.calls;
    runs_on = c.tended.joined;
    client_stays =
        let q = t.address in
        rest q ∙ ground (arith, c.one_block.1 q, client.address_new, client.address_there);
    send_buffer = client.buffer;
    buffer_held = client.buffer_held;
    buffer_stays =
        let q = client.buffer in
        rest q ∙ ground (arith, c.one_block.1 q, client.buffer_new, client.buffer_there);
    capture = up.buffer.capture;
    filled = up.buffer.held;
    dangling = rest up.buffer.capture.address ∙ ground (arith, up.buffer.fresh, up.buffer.there);
  }
    where
      rest :
          (q : ℕ)
          → live (shut_down a creates later bm tm).1 q
            ≡ ((live later q && not (live h q)) || before q)
      rest =
          up.back later (λ q. live later q && not (live h q))
            (λ q. ground (arith, c.one_block.1 q, client.keeps q), λ q e. ground (arith, e))

  -- If the start of the program succeeds, the capture thread, in whatever rounds, has made a simulator, and the network
  -- thread, in whatever rounds after these, a client, then shutting down joins every thread of the manager and
  -- gives back all that the start took and nothing that was taken later: the blocks of the simulator and of the client
  -- stay in use, and the callback of the simulator is set and its thread, if it runs, not waited for, although
  -- the capture buffer is released.
  pub shut_down-IsLeft :
      (fuel : ℕ) (before h : Heap) (bm : Manager) (tm : Placed)
      → start_up a creates fuel before ≡ some (started bm tm h)
      → (callback cb_data : ℕ) (rounds : List (Chance × Chance × Option Manager)) (adc : Simulator)
        (middle : Heap)
      → capture_rounds a callback cb_data rounds (none, h) ≡ (some adc, middle)
      → (s : Sockets) (fuel' : ℕ) (visits : List Visit) (stats : Stats) (net : s.Net)
        (w : Network a s) (t : Owned)
      → 4120 < fuel'
      → AreVisits visits
      → network_rounds a s fuel' visits (record {
        buffers = none;
        client = none;
        pool = no_pool;
        stats = stats;
        heap = middle;
        net = net;
      })
        ≡ some w
      → w.client ≡ some t
      → IsLeft (live before) h w.heap callback bm adc t (shut_down a creates w.heap bm tm)
  shut_down-IsLeft fuel before h bm tm success callback cb_data rounds adc middle made s fuel'
        visits stats net w t enough fine sent has =
      let (state, e, kept) = start_up-Keeps a creates fuel before in
      let up =
        subst (λ s. Keeps a creates (live before) s)
          (some-injective state (started bm tm h) (sym e ∙ success)) kept in
      let captures =
        subst (λ r. Captures a callback cb_data (live h) r) made
          (capture_rounds-Captures a callback cb_data h rounds) in
      let (w', e', tidy) =
        network_rounds-IsTidy a s fuel' enough (live middle) visits
          (record {
            buffers = none;
            client = none;
            pool = no_pool;
            stats = stats;
            heap = middle;
            net = net;
          })
          fine (record { sound = tt; held = (refl, λ q. refl) }) in
      let tidy' = subst (IsTidy a s (live middle)) (some-injective w' w (sym e' ∙ sent)) tidy in
      IsUp-IsLeft (live before) callback cb_data bm tm h middle w.heap adc t up captures (
        Holds-HasClient (live middle) (live w.heap) t w.pool
          (subst (λ (c : Option Owned). Holds (live middle) (live w.heap) c w.pool) has tidy'.held))
