-- ===== src/Adc/Tests.antt =====
-- A simulator of 400 kHz, with a clock that is late once.
use fast_ring.Prelude.{
  ℕ, ◌+◌, ◌*◌, ◌≤◌, ◌≡◌, refl, arith, true, false, some, List, [], ◌∷◌, length, suc,
}
use fast_ring.Config.{AdcConfig}
use fast_ring.Adc.{
  Simulator, begin, run, tick, Event, round, stop_asked, step, take_sample, next_time, deliver,
  sample_interval,
}
use fast_ring.Adc.Rate.{AreTimed, last_reading, run-rate, tick-run}

abbrev fast : AdcConfig
fast = record { sample_rate = 400000; resolution = 16; channel_count = 1; enable_trigger = false }

abbrev idle : Simulator
idle = record {
  address = 5;
  config = fast;
  is_running = false;
  sequence = 7;
  start_time = 0;
  callback = some 3;
  callback_data = 4;
  unjoined = 0;
}

abbrev busy : Simulator
busy = record idle { is_running = true; sequence = 0; start_time = 10; unjoined = 1 }

abbrev ramp : ℕ → ℕ → ℕ → ℕ
ramp greatest now sequence = now

abbrev rounds : List Event
rounds =
    round 10 ∷ round 11 ∷ round 12 ∷ round 30 ∷ round 31 ∷ round 32 ∷ stop_asked ∷ round 40 ∷ []

taken : length (run ramp (begin busy 2 10) rounds).taken ≡ 4
unfolding run step tick take_sample next_time deliver
taken = refl

interval_fast : sample_interval 400000 ≡ some 2
unfolding sample_interval
interval_fast = refl

timed : AreTimed 10 rounds
timed = ground arith

run-rate_example :
    10 + length (run ramp (begin busy 2 10) rounds).taken * 2 ≤ last_reading 10 rounds + 2
run-rate_example = run-rate ramp rounds busy 2 10 interval_fast (omega arith) timed

abbrev early : List Event
early = round 10 ∷ round 11 ∷ []

alive : (run ramp (begin busy 2 10) early).adc.is_running ≡ true
unfolding run step tick take_sample next_time deliver
alive = refl

tick-run_example :
    length (tick ramp 13 (run ramp (begin busy 2 10) early)).taken
    ≡ suc (length (run ramp (begin busy 2 10) early).taken)
tick-run_example =
    tick-run ramp early busy 2 10 13 interval_fast (omega arith) (ground arith) (omega arith) alive
