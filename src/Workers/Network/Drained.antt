-- ===== src/Workers/Network/Drained.antt =====
-- What a round of the network thread of src/thread/thread_workers.c leaves.

use fast_ring.Prelude.{
  ℕ, ◌≡◌, ◌≤◌, refl, sym, ap, subst, ◌⊎◌, inl, inr, arith, Bool, true, false, Option, none, some,
  drop,
}
use fast_ring.Types.{AdcError}
use fast_ring.Memory.{Allocator}
use fast_ring.Sockets.{Sockets}
use fast_ring.Ring.{RingBuffer}
use fast_ring.Ring.Inv.{IsValid}
use fast_ring.Ring.Window.{contents}
use fast_ring.Ring.Create.{Handle}
use fast_ring.Manager.{Manager}
use fast_ring.Client.{Client}
use fast_ring.Client.Lifetime.{Owned}
use fast_ring.Block.{samples_per_block}
use fast_ring.Client.Streams.{Ends}
use fast_ring.Workers.Network.Holding.{Holds}
use fast_ring.Workers.Network.{Network, put_ring}

-- A client that is not connected, or that has a socket.
abbrev pub IsSound : Client → Type 0
IsSound c = (c.connected ≡ false) ⊎ ((c.connected ≡ true) × (d : ℕ) × (c.socket_fd ≡ some d))

-- The thread manager has no client, or a sound one.
abbrev pub IsSoundClient : Option Owned → Type 0
IsSoundClient none = Unit {0}
IsSoundClient (some t) = IsSound t.client

pub Ends-IsSound :
    {c c' : Client} {len k : ℕ} {err : AdcError} (d : ℕ)
    → c.connected ≡ true
    → c.socket_fd ≡ some d
    → Ends c len k err c'
    → IsSound c'
Ends-IsSound d up fd (inl (e, whole, same)) = subst IsSound (sym same) (inr (up, d, fd))
Ends-IsSound d up fd (inr (inl (e, part, same))) = subst IsSound (sym same) (inr (up, d, fd))
Ends-IsSound d up fd (inr (inr (e, part, same))) = subst IsSound (sym same) (inl refl)

module _ (a : Allocator) (s : Sockets) (bm : Manager) (hd : Handle) (before : ℕ → Bool) where
  -- The buffers with another second one.
  abbrev pub drained : RingBuffer → Option Manager
  drained rb = some (record bm { process_to_network = some (record hd { ring = rb }) })

  -- The memory is that of the client and of the pool, and no other since `before`.
  abbrev pub IsHeld : Network a s → Type 0
  IsHeld w = Holds before (a.live w.heap) w.client w.pool

  -- What a round leaves: in the buffer all but some of the oldest samples, at most a block of them.
  pub record IsDrained (w : Network a s) : Type 0 where
    pub ring : RingBuffer
    pub placed : w.buffers ≡ drained ring
    pub valid : IsValid ring
    pub k : ℕ
    pub bounded : k ≤ samples_per_block
    pub left : contents ring ≡ drop k (contents hd.ring)
    pub sound : IsSoundClient w.client
    pub held : IsHeld w

  -- A round that returns
  abbrev pub Drains : Option (Network a s) → Type 0
  Drains out = (w : Network a s) × (out ≡ some w) × IsDrained w

  pub same_ring :
      IsValid hd.ring
      → (w : Network a s) → w.buffers ≡ drained hd.ring
      → IsSoundClient w.client
      → IsHeld w
      → Drains (some w)
  same_ring v w e sound held = (
    w,
    refl,
    record {
      ring = hd.ring;
      placed = e;
      valid = v;
      k = 0;
      bounded = omega arith;
      left = refl;
      sound = sound;
      held = held;
    },
  )

  pub put :
      (buffers : Option Manager) (rb : RingBuffer)
      → buffers ≡ drained hd.ring
      → put_ring a s buffers hd rb ≡ drained rb
  unfolding put_ring
  put buffers rb held = ap (λ b. put_ring a s b hd rb) held
