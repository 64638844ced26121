-- ===== src/Threads/Loop.antt =====
-- The loop of a thread, `thread_wrapper` of src/thread/thread_manager.c, over readings of what other
-- threads write. The average of the cycles is a floating-point number and is left out; the maximum is
-- exact for cycles below 2^53.
use fast_ring.Prelude.{
  ℕ, zero, suc, ◌==◌, ◌+◌, ◌%◌, ◌<◌, ◌≡◌, refl, sym, ap, ap₂, subst, ◌∙◌, arith, Bool, true, false,
  not, ◌&&◌, List, [], ◌⊎◌, inl, inr, ◌∷◌, ltb, if◌then◌else◌, by_test, add64, sub64, u64_mod,
}

-- `thread_stats_t`
pub record ThreadStats : Type 0 where
  pub loop_count : ℕ
  pub item_count : ℕ
  pub error_count : ℕ
  pub max_cycle_time : ℕ

abbrev pub no_stats : ThreadStats
no_stats = record { loop_count = 0; item_count = 0; error_count = 0; max_cycle_time = 0 }

-- The priority under SCHED_FIFO that `set_thread_priority` asks for.
pub thread_priority : ℕ → ℕ
thread_priority type =
    if type == 0 then 99 else if type == 1 then 80 else if type == 2 then 70 else 50

-- A round of the loop: what it reads of `running`, of `paused`, of the state of the thread, whether a
-- worker is set, and the cycles before and after the work.
pub record Round : Type 0 where
  pub is_running : Bool
  pub is_paused : Bool
  pub state_is_running : Bool
  pub has_worker : Bool
  pub start_cycles : ℕ
  pub end_cycles : ℕ

-- The statistics after a round of work.
unfoldable pub count_round : ℕ → ThreadStats → ThreadStats
count_round cycle_time stats = record stats {
  loop_count = add64 stats.loop_count 1;
  max_cycle_time = if ltb stats.max_cycle_time cycle_time then cycle_time else stats.max_cycle_time;
}

-- A thread: what its worker works on, its statistics, and whether it has stopped.
pub record Thread (W : Type 0) : Type 0 where
  pub world : W
  pub stats : ThreadStats
  pub has_stopped : Bool

module _ {W : Type 0} (worker : W → W) where
  -- What is done in a round if the state is running.
  unfoldable pub work_round : Round → Thread W → Thread W
  work_round r t = record t {
    world = if r.has_worker then worker t.world else t.world;
    stats = count_round (sub64 r.end_cycles r.start_cycles) t.stats;
  }

  -- A round that finds the manager running.
  unfoldable pub visit : Round → Thread W → Thread W
  visit r t = if r.is_paused then t else if r.state_is_running then work_round r t else t

  -- `thread_wrapper` over the rounds.
  unfoldable pub thread_wrapper : List Round → Thread W → Thread W
  thread_wrapper [] t = t
  thread_wrapper (r ∷ rs) t =
      let rest = thread_wrapper rs (visit r t) in
      if r.is_running then rest else record t { has_stopped = true }

  -- The rounds that work: those up to the first that finds the manager not running, but for those that
  -- find it paused or the thread in another state.
  abbrev pub is_work : Round → Bool
  is_work r = not r.is_paused && r.state_is_running

  abbrev pub working : List Round → ℕ
  working [] = 0
  working (r ∷ rs) =
      let rest = working rs in if r.is_running then if is_work r then suc rest else rest else 0

  -- A worker called so many times.
  abbrev pub iterate : ℕ → W → W
  iterate zero w = w
  iterate (suc n) w = iterate n (worker w)

  -- A worker is set in all rounds.
  abbrev pub AreSet : List Round → Type 0
  AreSet [] = Unit {0}
  AreSet (r ∷ rs) = (r.has_worker ≡ true) × AreSet rs

  visit_lem :
      (r : Round) (t : Thread W)
      → r.has_worker ≡ true
      → ((is_work r ≡ true)
          × ((visit r t).world ≡ worker t.world)
          × ((visit r t).stats.loop_count ≡ add64 t.stats.loop_count 1))
        ⊎ ((is_work r ≡ false) × (visit r t ≡ t))
  unfolding visit work_round count_round
  visit_lem r t set =
      by_test P r.is_paused (λ e. inr (ap (λ b. not b && r.state_is_running) e, refl))
        (λ e.
          by_test P r.state_is_running
            (λ f. inl (
              ap₂ (λ b c. not b && c) e f,
              ap (λ b. if b then worker t.world else t.world) set,
              refl,
            ))
            (λ f. inr (ap₂ (λ b c. not b && c) e f, refl)))
    where
      P : Thread W → Type 0
      P out =
          ((is_work r ≡ true)
            × (out.world ≡ worker t.world)
            × (out.stats.loop_count ≡ add64 t.stats.loop_count 1))
          ⊎ ((is_work r ≡ false) × (out ≡ t))

  -- The thread calls its worker once for each round that works, and counts these rounds modulo 2^64, if
  -- a worker is set throughout.
  pub thread_wrapper_lem :
      (rs : List Round) (t : Thread W)
      → AreSet rs
      → t.stats.loop_count < u64_mod
      → ((thread_wrapper rs t).world ≡ iterate (working rs) t.world)
        × ((thread_wrapper rs t).stats.loop_count ≡ (t.stats.loop_count + working rs) % u64_mod)
  unfolding thread_wrapper
  thread_wrapper_lem [] t set low = (refl, omega (arith, low))
  thread_wrapper_lem (r ∷ rs) t set low =
      outer (λ t' low'. thread_wrapper_lem rs t' set.1 low') r.is_running
    where
      rest : Thread W
      rest = thread_wrapper rs (visit r t)

      Counts : ℕ → Type 0
      Counts k =
          (rest.world ≡ iterate k t.world)
          × (rest.stats.loop_count ≡ (t.stats.loop_count + k) % u64_mod)

      Known : Type 0
      Known =
          (t' : Thread W)
          → t'.stats.loop_count < u64_mod
          → ((thread_wrapper rs t').world ≡ iterate (working rs) t'.world)
            × ((thread_wrapper rs t').stats.loop_count
                ≡ (t'.stats.loop_count + working rs) % u64_mod)

      counts : Known → Counts (if is_work r then suc (working rs) else working rs)
      counts known = elim (visit_lem r t set.0) [
        | inl (work, called, counted) ↦
            let ih = known (visit r t) (omega (arith, counted)) in
            subst (λ b. Counts (if b then suc (working rs) else working rs)) (sym work)
              (ih.0 ∙ ap (iterate (working rs)) called, omega (arith, ih.1, counted))
        | inr (idle, same) ↦
            let low' = subst (λ (x : Thread W). x.stats.loop_count < u64_mod) (sym same) low in
            let ih = known (visit r t) low' in
            subst (λ b. Counts (if b then suc (working rs) else working rs)) (sym idle)
              (
                ih.0 ∙ ap (λ (x : Thread W). iterate (working rs) x.world) same,
                ih.1 ∙ ap (λ (x : Thread W). (x.stats.loop_count + working rs) % u64_mod) same,
              )
      ]

      outer :
          Known
          → (b : Bool)
          → let out = if b then rest else record t { has_stopped = true } in
            let k = if b then if is_work r then suc (working rs) else working rs else 0 in
            (out.world ≡ iterate k t.world)
            × (out.stats.loop_count ≡ (t.stats.loop_count + k) % u64_mod)
      outer known true = counts known
      outer known false = (refl, omega (arith, low))
