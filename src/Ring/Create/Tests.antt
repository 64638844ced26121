-- ===== src/Ring/Create/Tests.antt =====
-- The construction of ring buffers, with an allocator that can fail.
use fast_ring.Prelude.{ℕ, ◌≡◌, refl, arith, false, none, some, [], ◌∷◌}
use fast_ring.Tally.{tally, is_live}
use fast_ring.Ring.Create.{round_up, next_power, create, allocate, with_control, with_block}
use fast_ring.Ring.Create.Rounding.{IsRounding}
use fast_ring.Ring.Create.Blocks.{Makes, create-Makes, create_diverges}

-- 5 is rounded up to 8 in four tests; 2^31 + 1 is past the last power of two of a word.
round_up-runs :
    (round_up 4 5 ≡ some 8) × (round_up 3 5 ≡ none) × (round_up 100 2_147_483_649 ≡ none)
unfolding round_up next_power
round_up-runs = (refl, refl, refl)

-- With one block to be had, the control block is given back.
out_of_memory : create (tally 1) 32 [] 8 ≡ some (none, false ∷ [])
unfolding create round_up next_power allocate with_control with_block
out_of_memory = refl

create-Makes_example :
    (r : ℕ) × IsRounding 5 r
    × (create (tally 2) 32 [] 5 ≡ some (allocate (tally 2) [] r))
    × Makes r (is_live []) (is_live (allocate (tally 2) [] r).1) (allocate (tally 2) [] r).0
create-Makes_example = create-Makes (tally 2) 32 [] 5 (omega arith) (omega arith)

create_diverges_example : create (tally 2) 1000 [] 3_000_000_000 ≡ none
create_diverges_example =
    create_diverges (tally 2) 1000 [] 3_000_000_000 (omega arith) (omega arith)
