-- ===== src/Config.antt =====
-- src/utils/config.c and the structures of include/config.h: the default configuration and the test of
-- a configuration. The two floating-point fields of the ADC are left out, a text is its characters
-- before the terminating zero, and an `int` is its bit pattern. `config_print` only prints.
pub mod Ranges
mod Tests
use fast_ring.Prelude.{
  ℕ, ◌-◌, ◌*◌, Bool, true, false, ◌||◌, Option, none, some, List, [], ◌∷◌, ltb, ◌==◌, if◌then◌else◌,
  take, u32_mod,
}
use fast_ring.Types.{ring_buffer_size}

pub record AdcConfig : Type 0 where
  pub sample_rate : ℕ
  pub resolution : ℕ
  pub channel_count : ℕ
  pub enable_trigger : Bool

pub record BufferConfig : Type 0 where
  pub ring_buffer_size : ℕ
  pub buffer_count : ℕ
  pub batch_size : ℕ

pub record NetworkConfig : Type 0 where
  pub server_ip : List ℕ
  pub server_port : ℕ
  pub send_timeout_ms : ℕ
  pub recv_timeout_ms : ℕ
  pub buffer_size : ℕ
  pub keep_alive : Bool
  pub no_delay : Bool

pub record ThreadConfig : Type 0 where
  pub capture_priority : ℕ
  pub process_priority : ℕ
  pub network_priority : ℕ
  pub stack_size : ℕ
  pub set_affinity : Bool
  pub cpu_core : ℕ

pub record LogConfig : Type 0 where
  pub log_file : List ℕ
  pub log_level : ℕ
  pub log_to_file : Bool
  pub log_to_console : Bool
  pub max_file_size : ℕ
  pub max_backup_files : ℕ

pub record SystemConfig : Type 0 where
  pub adc : AdcConfig
  pub buffer : BufferConfig
  pub network : NetworkConfig
  pub thread : ThreadConfig
  pub log : LogConfig
  pub run_time_seconds : ℕ

-- "127.0.0.1"
abbrev pub default_server_ip : List ℕ
default_server_ip = 49 ∷ 50 ∷ 55 ∷ 46 ∷ 48 ∷ 46 ∷ 48 ∷ 46 ∷ 49 ∷ []

-- `strncpy` into an array of `size` characters, whose last one is then set to zero.
abbrev pub copy_text : ℕ → List ℕ → List ℕ
copy_text size text = take (size - 1) text

-- The defaults of a structure that is not NULL.
pub config_get_adc_default : AdcConfig → AdcConfig
config_get_adc_default config = record {
  sample_rate = 40000;
  resolution = 32;
  channel_count = 1;
  enable_trigger = false;
}

pub config_get_buffer_default : BufferConfig → BufferConfig
config_get_buffer_default config = record {
  ring_buffer_size = ring_buffer_size;
  buffer_count = 3;
  batch_size = 256;
}

pub config_get_network_default : NetworkConfig → NetworkConfig
config_get_network_default config = record {
  server_ip = copy_text 16 default_server_ip;
  server_port = 8080;
  send_timeout_ms = 5000;
  recv_timeout_ms = 5000;
  buffer_size = 1024 * 64;
  keep_alive = true;
  no_delay = true;
}

-- The priorities are those of the POSIX side.
pub config_get_thread_default : ThreadConfig → ThreadConfig
config_get_thread_default config = record {
  capture_priority = 99;
  process_priority = 80;
  network_priority = 70;
  stack_size = 0;
  set_affinity = false;
  cpu_core = 0;
}

pub config_get_log_default : LogConfig → LogConfig
config_get_log_default config = record {
  log_file = [];
  log_level = 1;
  log_to_file = false;
  log_to_console = true;
  max_file_size = 10 * 1024 * 1024;
  max_backup_files = 3;
}

-- `config_get_default`; −1 for the run time is no limit.
pub config_get_default : Option SystemConfig → Option SystemConfig
config_get_default none = none
config_get_default (some config) = some (record {
  adc = config_get_adc_default config.adc;
  buffer = config_get_buffer_default config.buffer;
  network = config_get_network_default config.network;
  thread = config_get_thread_default config.thread;
  log = config_get_log_default config.log;
  run_time_seconds = u32_mod - 1;
})

-- `config_validate`
pub config_validate : Option SystemConfig → Bool
config_validate none = false
config_validate (some config) =
    if config.adc.sample_rate == 0 || ltb 1_000_000 config.adc.sample_rate
    then false
    else if config.adc.resolution == 0 || ltb 32 config.adc.resolution
    then false
    else if ltb config.buffer.ring_buffer_size 256 || ltb 1_048_576 config.buffer.ring_buffer_size
    then false
    else if config.network.server_port == 0
    then false
    else true
