-- ===== src/Threads/Calls.antt =====
-- Sequences of calls on one thread manager of src/thread/thread_manager.c.
use fast_ring.Prelude.{
  ℕ, ◌≡◌, sym, subst, Bool, true, false, Option, some, List, [], ◌∷◌, ltb, by_test,
}
use fast_ring.Types.{AdcError}
use fast_ring.Threads.{
  ThreadState, idle, running, Worker, Context, ThreadManager, start_loop, start, join, stop_loop,
  stop, pause, resume, set_worker, init, create,
}
use fast_ring.Threads.Lifecycle.{at_rest, init-create}

-- A call: which threads can be created is given with a start.
pub data Call : Type 0 where
  start_call : (ℕ → Bool) → Call
  stop_call : Call
  pause_call : Call
  resume_call : Call
  worker_call : ℕ → Option Worker → ℕ → Call

unfoldable pub call : ThreadManager → Call → ThreadManager
call tm (start_call creates) = (start creates tm).1
call tm stop_call = (stop tm).1
call tm pause_call = (pause tm).1
call tm resume_call = (resume tm).1
call tm (worker_call type f user_data) = (set_worker tm type f user_data).1

unfoldable pub call_all : ThreadManager → List Call → ThreadManager
call_all tm [] = tm
call_all tm (c ∷ cs) = call_all (call tm c) cs

-- Every thread can be created.
abbrev pub AreGranted : List Call → Type 0
AreGranted [] = Unit {0}
AreGranted (start_call creates ∷ cs) =
    (creates 0 ≡ true) × (creates 1 ≡ true) × (creates 2 ≡ true) × AreGranted cs
AreGranted (stop_call ∷ cs) = AreGranted cs
AreGranted (pause_call ∷ cs) = AreGranted cs
AreGranted (resume_call ∷ cs) = AreGranted cs
AreGranted (worker_call type f user_data ∷ cs) = AreGranted cs

-- A manager with all its threads running, paused or not.
abbrev at_work : Option ℕ → Bool → List Context → ThreadManager
at_work bm p contexts = record {
  buffer_manager = bm;
  states = running ∷ running ∷ running ∷ [];
  is_running = true;
  is_paused = p;
  contexts = contexts;
  unjoined = 0 ∷ 1 ∷ 2 ∷ [];
}

-- The manager runs with all three threads running and to be joined, once each; or it does not run and
-- no thread is to be joined.
pub data IsOrderly : ThreadManager → Type 0 where
  works : (bm : Option ℕ) (p : Bool) (contexts : List Context) → IsOrderly (at_work bm p contexts)
  rests :
      (bm : Option ℕ) (s0 s1 s2 : ThreadState) (p : Bool) (contexts : List Context)
      → IsOrderly (at_rest bm s0 s1 s2 p contexts)

worker-IsOrderly :
    (tm : ThreadManager) (type : ℕ) (f : Option Worker) (user_data : ℕ)
    → ((contexts : List Context) → IsOrderly (record tm { contexts = contexts }))
    → IsOrderly (set_worker tm type f user_data).1
unfolding set_worker
worker-IsOrderly tm type f user_data whole =
    by_test (λ (out : AdcError × ThreadManager). IsOrderly out.1) (ltb type 3) (λ e. whole _)
      (λ e. whole tm.contexts)

call-IsOrderly :
    (tm : ThreadManager) (c : Call) → AreGranted (c ∷ []) → IsOrderly tm → IsOrderly (call tm c)
unfolding call start start_loop stop stop_loop join pause resume
call-IsOrderly tm (start_call creates) granted (works bm p contexts) = works bm p contexts
call-IsOrderly tm (start_call creates) (e0, e1, e2, done) (rests bm s0 s1 s2 p contexts) =
    rw (e0, e1, e2, start_loop) (works bm false contexts)
call-IsOrderly tm stop_call granted (works bm p contexts) = rests bm _ _ _ p contexts
call-IsOrderly tm stop_call granted (rests bm s0 s1 s2 p contexts) = rests bm s0 s1 s2 p contexts
call-IsOrderly tm pause_call granted (works bm p contexts) = works bm true contexts
call-IsOrderly tm pause_call granted (rests bm s0 s1 s2 p contexts) =
    rests bm s0 s1 s2 true contexts
call-IsOrderly tm resume_call granted (works bm p contexts) = works bm false contexts
call-IsOrderly tm resume_call granted (rests bm s0 s1 s2 p contexts) =
    rests bm s0 s1 s2 false contexts
call-IsOrderly tm (worker_call type f u) granted (works bm p contexts) =
    worker-IsOrderly (at_work bm p contexts) type f u (λ cs. works bm p cs)
call-IsOrderly tm (worker_call type f u) granted (rests bm s0 s1 s2 p contexts) =
    worker-IsOrderly (at_rest bm s0 s1 s2 p contexts) type f u (λ cs. rests bm s0 s1 s2 p cs)

calls-IsOrderly :
    (cs : List Call) (tm : ThreadManager)
    → AreGranted cs
    → IsOrderly tm
    → IsOrderly (call_all tm cs)
unfolding call_all
calls-IsOrderly [] tm granted o = o
calls-IsOrderly (start_call creates ∷ cs) tm (e0, e1, e2, granted) o =
    calls-IsOrderly cs _ granted (call-IsOrderly tm (start_call creates) (e0, e1, e2, tt) o)
calls-IsOrderly (stop_call ∷ cs) tm granted o =
    calls-IsOrderly cs _ granted (call-IsOrderly tm stop_call tt o)
calls-IsOrderly (pause_call ∷ cs) tm granted o =
    calls-IsOrderly cs _ granted (call-IsOrderly tm pause_call tt o)
calls-IsOrderly (resume_call ∷ cs) tm granted o =
    calls-IsOrderly cs _ granted (call-IsOrderly tm resume_call tt o)
calls-IsOrderly (worker_call type f u ∷ cs) tm granted o =
    calls-IsOrderly cs _ granted (call-IsOrderly tm (worker_call type f u) tt o)

-- Whatever sequence of starts, stops, pauses, resumptions and changes of workers a new manager is given, if each
-- thread can be created, it runs with all three threads running and to be joined, once each, or it does
-- not run and no thread is to be joined.
pub call_all-IsOrderly :
    (bm : ℕ) (cs : List Call)
    → AreGranted cs
    → let (err, tm) = init create (some bm) in IsOrderly (call_all tm cs)
call_all-IsOrderly bm cs granted =
    let (contexts, e) = init-create bm in
    subst (λ (out : AdcError × ThreadManager). IsOrderly (call_all out.1 cs)) (sym e)
      (calls-IsOrderly cs _ granted (rests (some bm) idle idle idle false contexts))
