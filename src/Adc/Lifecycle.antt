-- ===== src/Adc/Lifecycle.antt =====
-- The simulator of src/adc/adc_simulator.c from its creation to its release.
use fast_ring.Prelude.{
  ℕ, ◌+◌, ◌≡◌, refl, ap, ◌∙◌, arith, Bool, true, false, Option, none, some, List, [], ◌∷◌, by_test,
}
use fast_ring.Types.{AdcError}
use fast_ring.Memory.{Allocator, Allocates, live-free}
use fast_ring.Config.{AdcConfig}
use fast_ring.Adc.{
  Simulator, start, stop, set_callback, adc_simulator_start, adc_simulator_stop, halted, Call,
  start_call, stop_call, callback_call, call, call_all, simulator_size, chosen_config, create,
  with_memory, destroy,
}

-- While the simulator is running there is one thread to wait for, and else none.
abbrev pub threads : Bool → ℕ
threads true = 1
threads false = 0

-- The simulator stands where it was made, and has as many threads as it should.
pub record IsTended (p : ℕ) (adc : Simulator) : Type 0 where
  pub placed : adc.address ≡ p
  pub joined : adc.unjoined ≡ threads adc.is_running

pub start-IsTended :
    (creates : Bool) (now p : ℕ) (adc : Simulator)
    → IsTended p adc
    → IsTended p (start creates now adc).1
unfolding start
start-IsTended creates now p adc t =
    by_test (λ (out : AdcError × Simulator). IsTended p out.1) adc.is_running (λ up. t)
      (λ down.
        by_test (λ (out : AdcError × Simulator). IsTended p out.1) creates
          (λ made. record {
            placed = t.placed;
            joined = ap (λ (k : ℕ). k + 1) (t.joined ∙ ap threads down);
          })
          (λ failed. record { placed = t.placed; joined = t.joined }))

stop-IsTended : (p : ℕ) (adc : Simulator) → IsTended p adc → IsTended p (stop adc).1
unfolding stop
stop-IsTended p adc t =
    by_test (λ (out : AdcError × Simulator). IsTended p out.1) adc.is_running
      (λ up. record { placed = t.placed; joined = omega (arith, t.joined, ap threads up) })
      (λ down. t)

call_all-IsTended :
    (cs : List Call) (p : ℕ) (adc : Simulator)
    → IsTended p adc
    → (later : Simulator) × (call_all (some adc) cs ≡ some later) × IsTended p later
unfolding call_all call adc_simulator_start adc_simulator_stop set_callback
call_all-IsTended [] p adc t = (adc, refl, t)
call_all-IsTended (start_call creates now ∷ cs) p adc t =
    call_all-IsTended cs p (start creates now adc).1 (start-IsTended creates now p adc t)
call_all-IsTended (stop_call ∷ cs) p adc t =
    call_all-IsTended cs p (stop adc).1 (stop-IsTended p adc t)
call_all-IsTended (callback_call f d ∷ cs) p adc t =
    call_all-IsTended cs p _ (record { placed = t.placed; joined = t.joined })

halted-IsTended :
    (p : ℕ) (adc : Simulator)
    → IsTended p adc
    → ((halted adc).address ≡ p) × ((halted adc).is_running ≡ false) × ((halted adc).unjoined ≡ 0)
unfolding halted stop
halted-IsTended p adc t =
    by_test (λ (x : Simulator). (x.address ≡ p) × (x.is_running ≡ false) × (x.unjoined ≡ 0))
      adc.is_running (λ up. rw up (t.placed, refl, omega (arith, t.joined, ap threads up)))
      (λ down. (t.placed, down, t.joined ∙ ap threads down))

-- Whatever calls are made of a simulator after its creation, and even if no thread can be created, when
-- it is released it is not running and no thread that it started is left to wait for.
pub halted-call_all :
    (a : Allocator) (h : a.Heap) (config : Option AdcConfig) (made : Simulator) (cs : List Call)
    → (create a h config).0 ≡ some made
    → (later : Simulator) × (call_all (create a h config).0 cs ≡ some later)
      × ((halted later).is_running ≡ false)
      × ((halted later).unjoined ≡ 0)
unfolding create with_memory
halted-call_all a h config made cs e = go (a.calloc h simulator_size) e
  where
    go :
        (out : Option ℕ × a.Heap)
        → (with_memory a config out).0 ≡ some made
        → (later : Simulator) × (call_all (with_memory a config out).0 cs ≡ some later)
          × ((halted later).is_running ≡ false)
          × ((halted later).unjoined ≡ 0)
    go (none, h') absent = cc
    go (some p, h') present =
        let (later, same, t) = call_all-IsTended cs p _ (record { placed = refl; joined = refl }) in
        let (place, down, none_left) = halted-IsTended p later t in (later, same, down, none_left)

call_all-none : (cs : List Call) → call_all none cs ≡ none
unfolding call_all call adc_simulator_start adc_simulator_stop set_callback
call_all-none [] = refl
call_all-none (start_call creates now ∷ cs) = call_all-none cs
call_all-none (stop_call ∷ cs) = call_all-none cs
call_all-none (callback_call f d ∷ cs) = call_all-none cs

-- The release of a simulator gives back what its creation took, whatever calls are made between; and if
-- there was no memory for it, the calls and the release do nothing.
pub destroy-call_all :
    (a : Allocator) (h : a.Heap) (config : Option AdcConfig) (cs : List Call) (q : ℕ)
    → let (made, h') = create a h config in a.live (destroy a h' (call_all made cs)) q ≡ a.live h q
unfolding create with_memory destroy
destroy-call_all a h config cs q = go (a.calloc h simulator_size) (a.calloc_lem h simulator_size)
  where
    go :
        (out : Option ℕ × a.Heap)
        → Allocates (a.live h) (a.live out.1) out.0
        → let (made, h') = with_memory a config out in
          a.live (destroy a h' (call_all made cs)) q ≡ a.live h q
    go (none, h') same = ap (λ r. a.live (destroy a h' r) q) (call_all-none cs) ∙ same q
    go (some p, h') taken =
        let (later, same, t) =
          call_all-IsTended cs p
            (record {
              address = p;
              config = chosen_config config;
              is_running = false;
              sequence = 0;
              start_time = 0;
              callback = none;
              callback_data = 0;
              unjoined = 0;
            })
            (record { placed = refl; joined = refl }) in
        ap (λ r. a.live (destroy a h' r) q) same
        ∙ ap (λ r. a.live (a.free h' r) q) (halted-IsTended p later t).0
        ∙ live-free a h h' p q taken
