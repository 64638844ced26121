-- ===== src/Workers/Network/Rounds.antt =====
-- The rounds of the network thread of src/thread/thread_workers.c, over whatever the other threads make of the
-- buffers meanwhile.
use mathlib.Core.Option
use fast_ring.Prelude.{
  ℕ, Bool, ◌≡◌, ◌<◌, refl, sym, ap, subst, ◌∙◌, Option, none, some, List, [], ◌∷◌, length,
}
use fast_ring.Types.{Sample}
use fast_ring.Memory.{Allocator}
use fast_ring.Sockets.{Sockets}
use fast_ring.Ring.Inv.{IsValid}
use fast_ring.Ring.Create.{Handle}
use fast_ring.Manager.{Manager}
use fast_ring.Block.{samples_per_block}
use fast_ring.Workers.Network.{Network, network_thread_worker, with_buffer}
use fast_ring.Workers.Network.Holding.{Holds}
use fast_ring.Workers.Network.Drained.{IsSoundClient}
use fast_ring.Workers.Network.Draining.{network_thread_worker-Drains}

-- The clock, what the local array holds, and the buffers that a round finds.
pub record Visit : Type 0 where
  pub now : ℕ
  pub samples : List Sample
  pub buffers : Option Manager

-- Every buffer found is valid.
abbrev pub HasValid : Option Handle → Type 0
HasValid none = Unit {0}
HasValid (some hd) = IsValid hd.ring

abbrev pub FindsValid : Option Manager → Type 0
FindsValid none = Unit {0}
FindsValid (some bm) = HasValid bm.process_to_network

abbrev pub AreVisits : List Visit → Type 0
AreVisits [] = Unit {0}
AreVisits (r ∷ rs) = (length r.samples ≡ samples_per_block) × FindsValid r.buffers × AreVisits rs

module _ (a : Allocator) (s : Sockets) where
  open a use {live}

  -- The client keeps a socket while it is connected, and the blocks of one client and of the pool are all that was
  -- taken since `before`.
  pub record IsTidy (before : ℕ → Bool) (w : Network a s) : Type 0 where
    pub sound : IsSoundClient w.client
    pub held : Holds before (live w.heap) w.client w.pool

  -- A round that returns
  abbrev Tidies : (ℕ → Bool) → Option (Network a s) → Type 0
  Tidies before out = (w : Network a s) × (out ≡ some w) × IsTidy before w

  module _ (fuel : ℕ) where
    -- The rounds of the network thread
    unfoldable pub network_rounds : List Visit → Network a s → Option (Network a s)
    network_rounds [] w = some w
    network_rounds (r ∷ rs) w =
        Option.bind
          (network_thread_worker a s fuel r.now r.samples (record w { buffers = r.buffers }))
          (network_rounds rs)

    module _ (enough : 4120 < fuel) (before : ℕ → Bool) where
      -- A round by the buffers that it finds.
      abbrev round_on : ℕ → List Sample → Network a s → Option Manager → Option (Network a s)
      round_on now samples w buffers = elim buffers [
        | none ↦ some w
        | some bm ↦ elim bm.process_to_network [
          | none ↦ some w
          | some hd ↦ with_buffer a s fuel now samples w hd
        ]
      ]

      round-Tidies :
          (now : ℕ) (samples : List Sample) (buffers : Option Manager) (w : Network a s)
          → w.buffers ≡ buffers
          → length samples ≡ samples_per_block
          → FindsValid buffers
          → IsTidy before w
          → Tidies before (network_thread_worker a s fuel now samples w)
      unfolding network_thread_worker
      round-Tidies now samples none w e have valid tidy =
          subst (λ (b : Option Manager). Tidies before (round_on now samples w b)) (sym e)
            (w, refl, tidy)
      round-Tidies now samples (some bm) w e have valid tidy = go bm.process_to_network refl valid
        where
          go :
              (p : Option Handle)
              → bm.process_to_network ≡ p
              → HasValid p
              → Tidies before (network_thread_worker a s fuel now samples w)
          go none ep v =
              subst (λ (b : Option Manager). Tidies before (round_on now samples w b))
                (sym (e ∙ ap (λ p. some (record bm { process_to_network = p })) ep)) (w, refl, tidy)
          go (some hd) ep v =
              let (w', returned, d) =
                network_thread_worker-Drains a s bm hd v samples have fuel enough now before w e ep
                  tidy.sound tidy.held in
              (w', returned, record { sound = d.sound; held = d.held })

      -- However often the network thread goes round, whatever buffers it finds, and whether memory, the connection,
      -- the sending or the pool of blocks fails, each round returns, with 4121 rounds allowed to its sending loop; the
      -- client keeps a socket while it is connected; and the blocks of one client and of the pool, taken once, are
      -- all the memory that was ever taken.
      pub network_rounds-IsTidy :
          (rs : List Visit) (w : Network a s)
          → AreVisits rs
          → IsTidy before w
          → (w' : Network a s) × (network_rounds rs w ≡ some w') × IsTidy before w'
      unfolding network_rounds Option.bind
      network_rounds-IsTidy [] w visits tidy = (w, refl, tidy)
      network_rounds-IsTidy (r ∷ rs) w (have, valid, visits) tidy =
          let (w1, e1, tidy1) =
            round-Tidies r.now r.samples r.buffers (record w { buffers = r.buffers }) refl have
              valid (record { sound = tidy.sound; held = tidy.held }) in
          let (w2, e2, tidy2) = network_rounds-IsTidy rs w1 visits tidy1 in
          (w2, ap (λ out. Option.bind out (network_rounds rs)) e1 ∙ e2, tidy2)
