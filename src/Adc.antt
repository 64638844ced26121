-- ===== src/Adc.antt =====
-- src/adc/adc_simulator.c on its POSIX side: the simulator's state, its operations, and the rounds of its
-- sampling thread. The wave is a floating-point computation with noise and an argument: it
-- takes the greatest value, the time and the sample's number, and gives the bits of the `int32_t`. Readings of the clock are arguments too.
pub mod Numbers
pub mod Rate
pub mod Lifecycle
mod Tests
use fast_ring.Prelude.{
  ℕ, ◌+◌, ◌-◌, ◌*◌, ◌/◌, ◌%◌, ◌^◌, Bool, true, false, ◌&&◌, Option, none, some, List, [], ◌∷◌, ◌++◌,
  ltb, leb, ◌==◌, if◌then◌else◌, add32, add64, sub32, sub64, u32_mod,
}
use fast_ring.Types.{AdcError, ok, error_thread, error_invalid_param, Sample}
use fast_ring.Memory.{Allocator}
use fast_ring.Config.{AdcConfig}

-- `struct adc_simulator` at its address. `unjoined` is no part of the program: it counts the sampling
-- threads that were started and not joined.
pub record Simulator : Type 0 where
  pub address : ℕ
  pub config : AdcConfig
  pub is_running : Bool
  pub sequence : ℕ
  pub start_time : ℕ
  pub callback : Option ℕ
  pub callback_data : ℕ
  pub unjoined : ℕ

abbrev pub default_config : AdcConfig
default_config = record {
  sample_rate = 40000;
  resolution = 32;
  channel_count = 1;
  enable_trigger = false;
}

-- `adc_config_get_default`
pub adc_config_get_default : Option AdcConfig → Option AdcConfig
adc_config_get_default none = none
adc_config_get_default (some config) = some default_config

-- The greatest value of a sample, from the resolution.
unfoldable pub max_value : ℕ → ℕ
max_value resolution =
    if ltb 0 resolution && ltb resolution 32
    then sub32 (2 ^ (resolution - 1) % u32_mod) 1
    else 2 ^ 31 - 1

-- The sample of `capture_thread` and of `adc_simulator_get_sample`, and its sequence number used up.
unfoldable pub take_sample : (ℕ → ℕ → ℕ → ℕ) → ℕ → Simulator → Sample × Simulator
take_sample wave now adc = (
  record {
    timestamp = sub64 now adc.start_time % u32_mod;
    value = wave (max_value adc.config.resolution) now adc.sequence;
    sequence = adc.sequence;
    channel = 0;
    flags = 0;
  },
  record adc { sequence = add32 adc.sequence 1 },
)

-- `adc_simulator_get_sample` by its two pointers, of which `wanted` says that the second is not NULL.
pub adc_simulator_get_sample :
    (ℕ → ℕ → ℕ → ℕ) → ℕ → Option Simulator → Bool → AdcError × Option Sample × Option Simulator
adc_simulator_get_sample wave now none wanted = (error_invalid_param, none, none)
adc_simulator_get_sample wave now (some adc) false = (error_invalid_param, none, some adc)
adc_simulator_get_sample wave now (some adc) true =
    let (x, adc') = take_sample wave now adc in (ok, some x, some adc')

-- `adc_simulator_start` of a simulator that is there; the first argument says whether the thread can be
-- created.
unfoldable pub start : Bool → ℕ → Simulator → AdcError × Simulator
start creates now adc =
    if adc.is_running
    then (ok, adc)
    else if creates
    then (
      ok,
      record adc { is_running = true; start_time = now; sequence = 0; unjoined = adc.unjoined + 1 },
    )
    else (error_thread, record adc { start_time = now; sequence = 0 })

-- `adc_simulator_start`
unfoldable pub adc_simulator_start : Bool → ℕ → Option Simulator → AdcError × Option Simulator
adc_simulator_start creates now none = (error_invalid_param, none)
adc_simulator_start creates now (some adc) = let (e, adc') = start creates now adc in (e, some adc')

-- `adc_simulator_stop` of a simulator that is there, which waits for the thread.
unfoldable pub stop : Simulator → AdcError × Simulator
stop adc =
    if adc.is_running
    then (ok, record adc { is_running = false; unjoined = adc.unjoined - 1 })
    else (ok, adc)

-- `adc_simulator_stop`
unfoldable pub adc_simulator_stop : Option Simulator → AdcError × Option Simulator
adc_simulator_stop none = (error_invalid_param, none)
adc_simulator_stop (some adc) = let (e, adc') = stop adc in (e, some adc')

-- `adc_simulator_is_running`
pub is_running : Option Simulator → Bool
is_running none = false
is_running (some adc) = adc.is_running

-- `adc_simulator_set_callback`
unfoldable pub set_callback : Option Simulator → Option ℕ → ℕ → AdcError × Option Simulator
set_callback none f user_data = (error_invalid_param, none)
set_callback (some adc) f user_data =
    (ok, some (record adc { callback = f; callback_data = user_data }))

-- `sizeof(adc_simulator_t)` on a 64-bit platform with glibc
abbrev pub simulator_size : ℕ
simulator_size = 120

-- The configuration that a new simulator takes.
unfoldable pub chosen_config : Option AdcConfig → AdcConfig
chosen_config (some config) = config
chosen_config none = default_config

-- The simulator as `adc_simulator_destroy` releases it.
unfoldable pub halted : Simulator → Simulator
halted adc = if adc.is_running then (stop adc).1 else adc

-- A call of another part of the program on the simulator, and a sequence of them.
pub data Call : Type 0 where
  start_call : Bool → ℕ → Call
  stop_call : Call
  callback_call : Option ℕ → ℕ → Call

unfoldable pub call : Option Simulator → Call → Option Simulator
call adc (start_call creates now) = (adc_simulator_start creates now adc).1
call adc stop_call = (adc_simulator_stop adc).1
call adc (callback_call f user_data) = (set_callback adc f user_data).1

unfoldable pub call_all : Option Simulator → List Call → Option Simulator
call_all adc [] = adc
call_all adc (c ∷ cs) = call_all (call adc c) cs

module _ (a : Allocator) where
  open a use {Heap, calloc, free}

  -- `adc_simulator_create` once `calloc` has answered; the block is zeroed.
  unfoldable pub with_memory : Option AdcConfig → Option ℕ × Heap → Option Simulator × Heap
  with_memory config (none, h) = (none, h)
  with_memory config (some p, h) = (
    some (record {
      address = p;
      config = chosen_config config;
      is_running = false;
      sequence = 0;
      start_time = 0;
      callback = none;
      callback_data = 0;
      unjoined = 0;
    }),
    h,
  )

  -- `adc_simulator_create`
  unfoldable pub create : Heap → Option AdcConfig → Option Simulator × Heap
  create h config = with_memory config (calloc h simulator_size)

  -- `adc_simulator_destroy`
  unfoldable pub destroy : Heap → Option Simulator → Heap
  destroy h none = h
  destroy h (some adc) = free h (halted adc).address

-- `sample_interval_us` of `capture_thread`; a rate of 0 divides by zero, which is `none`.
unfoldable pub sample_interval : ℕ → Option ℕ
sample_interval rate = if rate == 0 then none else some (1_000_000 / rate)

-- A call that the sampling thread makes.
pub record Delivery : Type 0 where
  pub sample : Sample
  pub callback : ℕ
  pub user_data : ℕ

-- The sampling thread between two rounds. `taken` and `delivered` are no part of the program: they list
-- the samples generated, and the calls of a callback.
pub record Sampling : Type 0 where
  pub adc : Simulator
  pub interval : ℕ
  pub next_sample_time : ℕ
  pub taken : List Sample
  pub delivered : List Delivery

-- The call of the callback, if one is set.
unfoldable pub deliver : Simulator → Sample → List Delivery
deliver adc x = elim adc.callback [
  | none ↦ []
  | some f ↦ record { sample = x; callback = f; user_data = adc.callback_data } ∷ []
]

-- The time of the next sample after one at `now`.
unfoldable pub next_time : ℕ → ℕ → ℕ → ℕ
next_time interval next now =
    let planned = add64 next interval in if ltb planned now then add64 now interval else planned

-- A round of the loop of `capture_thread` at the reading `now` of the clock.
unfoldable pub tick : (ℕ → ℕ → ℕ → ℕ) → ℕ → Sampling → Sampling
tick wave now s =
    let (x, adc') = take_sample wave now s.adc in
    if s.adc.is_running && leb s.next_sample_time now
    then record s {
      adc = adc';
      next_sample_time = next_time s.interval s.next_sample_time now;
      taken = s.taken ++ (x ∷ []);
      delivered = s.delivered ++ deliver adc' x;
    }
    else s

-- What befalls the thread: a round, or between rounds a call of `adc_simulator_set_callback`,
-- or that `adc_simulator_stop` clears `running`.
pub data Event : Type 0 where
  round : ℕ → Event
  callback_set : Option ℕ → ℕ → Event
  stop_asked : Event

unfoldable pub step : (ℕ → ℕ → ℕ → ℕ) → Sampling → Event → Sampling
step wave s (round now) = tick wave now s
step wave s (callback_set f user_data) = record s {
  adc = record s.adc { callback = f; callback_data = user_data };
}
step wave s stop_asked = record s { adc = record s.adc { is_running = false } }

unfoldable pub run : (ℕ → ℕ → ℕ → ℕ) → Sampling → List Event → Sampling
run wave s [] = s
run wave s (e ∷ es) = run wave (step wave s e) es

-- The thread at its start, at the reading `now` of the clock.
abbrev pub begin : Simulator → ℕ → ℕ → Sampling
begin adc interval now = record {
  adc = adc;
  interval = interval;
  next_sample_time = now;
  taken = [];
  delivered = [];
}
