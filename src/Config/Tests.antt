-- ===== src/Config/Tests.antt =====
-- Configurations that are accepted, and one that is not.
use fast_ring.Prelude.{ℕ, ◌≤◌, ◌≡◌, ◌^◌, refl, arith, true, false, some, []}
use fast_ring.Tally.{tally, is_live}
use fast_ring.Ring.Create
use fast_ring.Ring.Create.Rounding.{IsRounding}
use fast_ring.Ring.Create.Blocks.{Makes}
use fast_ring.Config.{SystemConfig, config_validate}
use fast_ring.Config.Ranges.{create-config_validate}

abbrev small : SystemConfig
small = record {
  adc = record { sample_rate = 1000; resolution = 12; channel_count = 1; enable_trigger = false };
  buffer = record { ring_buffer_size = 300; buffer_count = 3; batch_size = 256 };
  network = record {
    server_ip = [];
    server_port = 9000;
    send_timeout_ms = 1;
    recv_timeout_ms = 1;
    buffer_size = 1;
    keep_alive = false;
    no_delay = false;
  };
  thread = record {
    capture_priority = 0;
    process_priority = 0;
    network_priority = 0;
    stack_size = 0;
    set_affinity = false;
    cpu_core = 0;
  };
  log = record {
    log_file = [];
    log_level = 0;
    log_to_file = false;
    log_to_console = false;
    max_file_size = 0;
    max_backup_files = 0;
  };
  run_time_seconds = 0;
}

small-accepted : config_validate (some small) ≡ true
unfolding config_validate
small-accepted = refl

create-config_validate_example :
    (r : ℕ) × IsRounding 300 r
    × (r ≤ 2 ^ 20)
    × (Create.create (tally 2) 32 [] 300 ≡ some (Create.allocate (tally 2) [] r))
    × Makes r
        (is_live [])
        (is_live (Create.allocate (tally 2) [] r).1)
        (Create.allocate (tally 2) [] r).0
create-config_validate_example =
    create-config_validate (tally 2) 32 [] small small-accepted (omega arith)
