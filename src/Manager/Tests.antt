-- ===== src/Manager/Tests.antt =====
-- The construction of buffers and of the buffer manager, with an allocator that can fail.
use fast_ring.Prelude.{◌≡◌, refl, Bool, true, none, some, List, [], ◌∷◌}
use fast_ring.Tally.{tally, is_live}
use fast_ring.Types.{AdcError}
use fast_ring.Manager.{Manager, init}
use fast_ring.Manager.Lifetime.{Inits}
use fast_ring.Manager.Init.{init-Returns}

abbrev vacant : Manager
vacant = record {
  address = 0;
  capture_to_process = none;
  process_to_network = none;
  network_pool = none;
}

init-Returns_example :
    (out : AdcError × Manager × List Bool) × (init (tally 6) 0 (true ∷ []) vacant ≡ some out)
    × Inits (is_live (true ∷ [])) (is_live out.2) out.0 out.1
    × (out.1.address ≡ 0)
init-Returns_example =
    init-Returns (tally 6) 0 (true ∷ []) vacant
      (record { no_capture = refl; no_process = refl; no_pool = refl })
