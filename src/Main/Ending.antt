-- ===== src/Main/Ending.antt =====
-- How the main loop of src/main.c ends, and how often it prints.
use fast_ring.Prelude.{
  ℕ, ◌+◌, ◌*◌, ◌^◌, ◌≤◌, ◌<◌, ◌≡◌, refl, arith, ◌⊎◌, inl, inr, false, not, List, [], ◌∷◌, leb,
  by_test, Bool-cases,
}
use fast_ring.Main.Loop.{Turn, Outcome, signalled, expired, going, is_expired, is_due, main_loop}

-- The clock does not go back, from `last` on, and stays in 64 bits.
abbrev pub AreTimed : ℕ → List Turn → Type 0
AreTimed last [] = Unit {0}
AreTimed last (t ∷ ts) =
    (last ≤ t.current_time) × (t.current_time < 2 ^ 64) × AreTimed t.current_time ts

-- One of the rounds is at the time limit or past it.
abbrev pub Reaches : ℕ → List Turn → Type 0
Reaches limit [] = ⊥
Reaches limit (t ∷ ts) = (limit ≤ t.current_time) ⊎ Reaches limit ts

-- A signal has come before a round.
abbrev pub IsInterrupted : List Turn → Type 0
IsInterrupted [] = ⊥
IsInterrupted (t ∷ ts) = (t.is_running ≡ false) ⊎ IsInterrupted ts

-- The first of the rounds at the limit or past it is at the time given.
abbrev pub IsFirst : ℕ → ℕ → List Turn → Type 0
IsFirst limit now [] = ⊥
IsFirst limit now (t ∷ ts) =
    ((limit ≤ t.current_time) × (t.current_time ≡ now))
    ⊎ ((t.current_time < limit) × IsFirst limit now ts)

-- The loop has ended, by a signal or at the first round at the limit or past it.
abbrev pub Ends : ℕ → List Turn → Outcome → Type 0
Ends limit ts (signalled printed) = IsInterrupted ts
Ends limit ts (expired now printed) = IsFirst limit now ts
Ends limit ts (going printed) = ⊥

Ends-later :
    (limit : ℕ) (t : Turn) (ts : List Turn) (o : Outcome)
    → t.current_time < limit
    → Ends limit ts o
    → Ends limit (t ∷ ts) o
Ends-later limit t ts (signalled printed) low h = inr h
Ends-later limit t ts (expired now printed) low h = inr (low, h)
Ends-later limit t ts (going printed) low h = elim h [ ]

is_expired_lem :
    (run_time start now : ℕ)
    → 0 < run_time
    → run_time < 2 ^ 31
    → start ≤ now
    → now < 2 ^ 64
    → is_expired run_time start now ≡ leb (start + run_time * 1_000) now
unfolding is_expired
is_expired_lem run_time start now positive small later low = ground arith

Reaches-later :
    (limit : ℕ) (t : Turn) (ts : List Turn)
    → t.current_time < limit
    → Reaches limit (t ∷ ts)
    → Reaches limit ts
Reaches-later limit t ts low (inl h) = absurd (omega (arith, low, h))
Reaches-later limit t ts low (inr h) = h

-- With a time limit the loop does end: once the clock reads the limit or more, at the first such round,
-- not before, unless a signal has come before a round.
pub main_loop-Ends :
    (run_time start begun last : ℕ) (printed : List ℕ) (ts : List Turn)
    → 0 < run_time
    → run_time < 2 ^ 31
    → start ≤ begun
    → AreTimed begun ts
    → Reaches (start + run_time * 1_000) ts
    → Ends (start + run_time * 1_000) ts (main_loop run_time start last printed ts)
unfolding main_loop
main_loop-Ends run_time start begun last printed [] positive small later timed reaches = reaches
main_loop-Ends run_time start begun last printed (t ∷ ts) positive small later timed reaches =
    let limit = start + run_time * 1_000 in
    let same =
      is_expired_lem run_time start t.current_time positive small (omega (arith, later, timed.0))
        timed.1 in
    by_test (Ends limit (t ∷ ts)) (not t.is_running) (λ e. inl (ground (arith, e)))
      (λ e.
        by_test (Ends limit (t ∷ ts)) (is_expired run_time start t.current_time)
          (λ past. inl (ground (arith, past, same), refl))
          (λ early.
            let low : t.current_time < limit = ground (arith, early, same) in
            let rest = Reaches-later limit t ts low reaches in
            Ends-later limit t ts _ low (
              main_loop-Ends run_time start t.current_time _ _ ts positive small
                (omega (arith, later, timed.0)) timed.2 rest)))

-- The times of the printing, the last first, are 5 seconds apart and from the start.
abbrev pub IsSpaced : ℕ → List ℕ → Type 0
IsSpaced start [] = Unit {0}
IsSpaced start (t ∷ []) = start + 5_000 ≤ t
IsSpaced start (t ∷ u ∷ us) = (u + 5_000 ≤ t) × IsSpaced start (u ∷ us)

abbrev pub latest : ℕ → List ℕ → ℕ
latest start [] = start
latest start (t ∷ ts) = t

abbrev pub printed_times : Outcome → List ℕ
printed_times (signalled printed) = printed
printed_times (expired now printed) = printed
printed_times (going printed) = printed

IsSpaced-cons :
    (start t : ℕ) (ts : List ℕ)
    → latest start ts + 5_000 ≤ t
    → IsSpaced start ts
    → IsSpaced start (t ∷ ts)
IsSpaced-cons start t [] h spaced = h
IsSpaced-cons start t (u ∷ us) h spaced = (h, spaced)

main_loop-printed_times :
    (run_time start begun : ℕ) (printed : List ℕ) (ts : List Turn)
    → latest start printed ≤ begun
    → AreTimed begun ts
    → IsSpaced start printed
    → IsSpaced start (printed_times (main_loop run_time start (latest start printed) printed ts))
unfolding main_loop is_due
main_loop-printed_times run_time start begun printed [] later timed spaced = spaced
main_loop-printed_times run_time start begun printed (t ∷ ts) later timed spaced =
    let P = λ (o : Outcome). IsSpaced start (printed_times o) in
    by_test P (not t.is_running) (λ e. spaced)
      (λ e.
        by_test P (is_expired run_time start t.current_time) (λ past. spaced)
          (λ early. elim (Bool-cases (is_due (latest start printed) t.current_time)) [
            | inl due ↦ rw due (
                main_loop-printed_times run_time start t.current_time (t.current_time ∷ printed) ts
                  (omega arith) timed.2
                  (IsSpaced-cons start t.current_time printed
                    (ground (arith, due, later, timed.0, timed.1)) spaced))
            | inr idle ↦ rw idle (
                main_loop-printed_times run_time start t.current_time printed ts
                  (omega (arith, later, timed.0)) timed.2 spaced)
          ]))

-- However often the main loop goes round, it prints the statistics at most once in 5 seconds, and first 5
-- seconds after its start.
pub main_loop-IsSpaced :
    (run_time start : ℕ) (ts : List Turn)
    → AreTimed start ts
    → IsSpaced start (printed_times (main_loop run_time start start [] ts))
main_loop-IsSpaced run_time start ts timed =
    main_loop-printed_times run_time start start [] ts (omega arith) timed tt
