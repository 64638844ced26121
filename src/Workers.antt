-- ===== src/Workers.antt =====
-- The work of the capture and the processing thread on the buffers: `adc_sample_callback` and
-- `process_thread_worker` of src/thread/thread_workers.c.
pub mod Process
pub mod Counts
pub mod Passing
pub mod Order
pub mod Journey
pub mod Capture
pub mod Pool
pub mod Network
mod Tests
use fast_ring.Prelude.{
  ℕ, Bool, true, false, Option, none, some, List, ltb, if◌then◌else◌, add64, sub32,
}
use fast_ring.Types.{Sample}
use fast_ring.Ring.{RingBuffer, Pushed, Popped, push, push_batch, pop_batch}
use fast_ring.Ring.Create.{Handle}
use fast_ring.Manager.{Manager}

-- The counters of `system_stats_t`. Its averages are floating-point numbers and are left out.
pub record Stats : Type 0 where
  pub total_samples : ℕ
  pub dropped_samples : ℕ
  pub sent_bytes : ℕ
  pub send_errors : ℕ

-- `adc_sample_callback` with a buffer and counters
unfoldable pub count_push : Bool × RingBuffer → Stats → RingBuffer × Stats
count_push (true, rb) stats = (rb, record stats { total_samples = add64 stats.total_samples 1 })
count_push (false, rb) stats =
    (rb, record stats { dropped_samples = add64 stats.dropped_samples 1 })

-- `adc_sample_callback` by what `cb_data` leads to: the buffer and the counters, or NULL.
pub adc_sample_callback :
    Option RingBuffer → Option Stats → Sample → Option RingBuffer × Option Stats
adc_sample_callback none stats x = (none, stats)
adc_sample_callback (some rb) none x = (some (push rb x).1, none)
adc_sample_callback (some rb) (some stats) x =
    let (rb', stats') = count_push (push rb x) stats in (some rb', some stats')

abbrev pub batch_size : ℕ
batch_size = 256

-- `process_thread_worker` from the pop on. `samples` is the local array, which starts uninitialised.
unfoldable pub process_rings :
    RingBuffer → RingBuffer → Stats → List Sample → RingBuffer × RingBuffer × Stats
process_rings capture process stats samples =
    let p = pop_batch capture samples batch_size in
    let q = push_batch process p.samples p.popped in
    if p.some_popped
    then (
      p.ring,
      q.ring,
      if ltb q.pushed p.popped
          then record stats {
            dropped_samples = add64 stats.dropped_samples (sub32 p.popped q.pushed);
          }
          else stats,
    )
    else (p.ring, process, stats)

-- `process_thread_worker` with its tests for NULL
pub process_thread_worker : Option Manager → Stats → List Sample → Option Manager × Stats
process_thread_worker none stats samples = (none, stats)
process_thread_worker (some bm) stats samples = elim bm.capture_to_process [
  | none ↦ (some bm, stats)
  | some capture ↦ elim bm.process_to_network [
    | none ↦ (some bm, stats)
    | some process ↦
        let (c, p, stats') = process_rings capture.ring process.ring stats samples in
        (
          some (record bm {
            capture_to_process = some (record capture { ring = c });
            process_to_network = some (record process { ring = p });
          }),
          stats',
        )
  ]
]
