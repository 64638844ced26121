-- ===== src/Threads/Parts.antt =====
-- The fields of `struct thread_manager` of src/thread/thread_manager.c for the statistics and for the parts
-- that the workers make, with the functions that read and set them. `A` and `C` stand for simulators and
-- clients.
use fast_ring.Prelude.{ℕ, Bool, true, false, Option, none, some, List, ltb, if◌then◌else◌, get_or}
use fast_ring.Types.{AdcError, ok, error_invalid_param}
use fast_ring.Threads.{ThreadManager, thread_count}
use fast_ring.Threads.Loop.{ThreadStats, no_stats}

pub record Linked (A C : Type 0) : Type 0 where
  pub manager : ThreadManager
  pub thread_stats : List ThreadStats
  pub adc : Option A
  pub tcp_client : Option C

module _ {A C : Type 0} where
  -- `thread_manager_is_running`
  unfoldable pub is_running : Option (Linked A C) → Bool
  is_running none = false
  is_running (some tm) = tm.manager.is_running

  -- `thread_manager_get_stats`; the Boolean says that the last argument is not NULL.
  unfoldable pub get_stats : Option (Linked A C) → ℕ → Bool → AdcError × Option ThreadStats
  get_stats none type wanted = (error_invalid_param, none)
  get_stats (some tm) type false = (error_invalid_param, none)
  get_stats (some tm) type true =
      if ltb type thread_count
      then (ok, some (get_or tm.thread_stats type no_stats))
      else (error_invalid_param, none)

  -- `thread_manager_get_buffer_manager`
  unfoldable pub get_buffer_manager : Option (Linked A C) → Option ℕ
  get_buffer_manager none = none
  get_buffer_manager (some tm) = tm.manager.buffer_manager

  -- `thread_manager_get_adc` and `thread_manager_set_adc`
  unfoldable pub get_adc : Option (Linked A C) → Option A
  get_adc none = none
  get_adc (some tm) = tm.adc

  unfoldable pub set_adc : Option (Linked A C) → Option A → Option (Linked A C)
  set_adc none adc = none
  set_adc (some tm) adc = some (record tm { adc = adc })

  -- `thread_manager_get_tcp_client` and `thread_manager_set_tcp_client`
  unfoldable pub get_tcp_client : Option (Linked A C) → Option C
  get_tcp_client none = none
  get_tcp_client (some tm) = tm.tcp_client

  unfoldable pub set_tcp_client : Option (Linked A C) → Option C → Option (Linked A C)
  set_tcp_client none client = none
  set_tcp_client (some tm) client = some (record tm { tcp_client = client })
