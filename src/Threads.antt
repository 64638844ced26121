-- ===== src/Threads.antt =====
-- src/thread/thread_manager.c: the thread manager that exists, on the POSIX side. Whether the i-th
-- `pthread_create` succeeds is an argument. The lock and the floating-point statistics are left out.
pub mod Lifecycle
pub mod Blocks
pub mod Calls
pub mod Loop
pub mod Parts
mod Tests
use fast_ring.Prelude.{
  ℕ, zero, suc, ◌+◌, Bool, true, false, Option, none, some, List, [], ◌∷◌, ◌++◌, ◌==◌, ltb,
  if◌then◌else◌, set, get_or,
}
use fast_ring.Types.{AdcError, ok, error_thread, error_invalid_param}

-- `thread_state_t`
pub data ThreadState : Type 0 where
  idle running paused failed stopped : ThreadState

-- A `thread_worker_t`: one of the three of src/thread/thread_workers.c, or another function.
pub data Worker : Type 0 where
  capture_thread_worker process_thread_worker network_thread_worker : Worker
  other_worker : ℕ → Worker

-- `thread_context_t`, without the manager and the type, which are those of its place.
pub record Context : Type 0 where
  pub worker : Option Worker
  pub user_data : ℕ

-- `struct thread_manager`; the buffer manager is known by its address. `unjoined` is no part of the
-- program: it lists the threads that were started and not joined.
pub record ThreadManager : Type 0 where
  pub buffer_manager : Option ℕ
  pub states : List ThreadState
  pub is_running : Bool
  pub is_paused : Bool
  pub contexts : List Context
  pub unjoined : List ℕ

abbrev pub thread_count : ℕ
thread_count = 3

abbrev no_context : Context
no_context = record { worker = none; user_data = 0 }

-- What `thread_manager_create` fills in.
unfoldable pub create : ThreadManager
create = record {
  buffer_manager = none;
  states = idle ∷ idle ∷ idle ∷ [];
  is_running = false;
  is_paused = false;
  contexts = no_context ∷ no_context ∷ no_context ∷ [];
  unjoined = [];
}

-- The context at `type`, with a new worker.
abbrev put_worker : List Context → ℕ → Worker → List Context
put_worker contexts type f =
    set contexts type (record (get_or contexts type no_context) { worker = some f })

-- `thread_manager_init`
unfoldable pub init : ThreadManager → Option ℕ → AdcError × ThreadManager
init tm none = (error_invalid_param, tm)
init tm (some bm) =
    let c1 = put_worker tm.contexts 0 capture_thread_worker in
    let c2 = put_worker c1 1 process_thread_worker in
    let c3 = put_worker c2 2 network_thread_worker in
    (ok, record tm { buffer_manager = some bm; contexts = c3 })

-- The loop of `thread_manager_start`, with `n` threads to start from the `i`-th on.
unfoldable pub start_loop : (ℕ → Bool) → ℕ → ℕ → ThreadManager → AdcError × ThreadManager
start_loop creates zero i tm = (ok, tm)
start_loop creates (suc n) i tm = elim (creates i) [
  | true ↦
      start_loop creates n (i + 1)
        (record tm { states = set tm.states i running; unjoined = tm.unjoined ++ (i ∷ []) })
  | false ↦ (error_thread, record tm { states = set tm.states i running; is_running = false })
]

-- `thread_manager_start`
unfoldable pub start : (ℕ → Bool) → ThreadManager → AdcError × ThreadManager
start creates tm =
    if tm.is_running
    then (ok, tm)
    else start_loop creates thread_count 0 (record tm { is_running = true; is_paused = false })

-- `pthread_join` takes a thread off those not joined.
pub join : ℕ → List ℕ → List ℕ
join i [] = []
join i (t ∷ ts) = if t == i then ts else t ∷ join i ts

-- The loop of `thread_manager_stop`
pub stop_loop : ℕ → ℕ → ThreadManager → ThreadManager
stop_loop zero i tm = tm
stop_loop (suc n) i tm =
    stop_loop n (i + 1)
      (record tm { states = set tm.states i stopped; unjoined = join i tm.unjoined })

-- `thread_manager_stop`
pub stop : ThreadManager → AdcError × ThreadManager
stop tm =
    if tm.is_running
    then (ok, stop_loop thread_count 0 (record tm { is_running = false }))
    else (ok, tm)

-- `thread_manager_destroy` up to the release of the manager.
pub destroy : ThreadManager → ThreadManager
destroy tm = if tm.is_running then (stop tm).1 else tm

-- `thread_manager_pause` and `thread_manager_resume`
pub pause : ThreadManager → AdcError × ThreadManager
pause tm = (ok, record tm { is_paused = true })

pub resume : ThreadManager → AdcError × ThreadManager
resume tm = (ok, record tm { is_paused = false })

-- `thread_manager_get_state`; a type is an unsigned number.
pub get_state : Option ThreadManager → ℕ → ThreadState
get_state none type = idle
get_state (some tm) type = if ltb type thread_count then get_or tm.states type idle else idle

-- `thread_manager_set_worker`
pub set_worker : ThreadManager → ℕ → Option Worker → ℕ → AdcError × ThreadManager
set_worker tm type f user_data =
    if ltb type thread_count
    then (
      ok,
      record tm { contexts = set tm.contexts type (record { worker = f; user_data = user_data }) },
    )
    else (error_invalid_param, tm)
