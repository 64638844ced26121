-- ===== src/Main/Tests.antt =====
-- Arguments, rounds of the main loop, and a start for which a thread cannot be created.
use native.Mathlib.Nat.{pow-suc}
use fast_ring.Prelude.{
  ℕ, zero, suc, ◌+◌, ◌-◌, ◌*◌, ◌/◌, ◌%◌, ◌^◌, ◌<◌, ◌≡◌, refl, ap, ◌∙◌, inl, inr, arith, Bool, true,
  false, some, List, [], ◌∷◌, ◌++◌, ltb, by_test, Text, codes, digits,
}
use fast_ring.Tally.{tally, is_live}
use fast_ring.Main.Options.{defaults, unknown, read_arguments, read_pair, read_last, is_option}
use fast_ring.Main.Reading.{
  Request, server, port, rate, time, log_to, verbose, ask_help, arguments, wanted, ReadsDecimal,
  read_arguments-arguments,
}
use fast_ring.Main.Loop.{Turn, expired, main_loop, is_expired, is_due}
use fast_ring.Main.Ending.{AreTimed, Ends, main_loop-Ends}
use fast_ring.Main.Startup.{Start, start_up}
use fast_ring.Main.Cleaning.{Cleans, start_up-Cleans}

-- An `atoi` for digits
read_from : ℕ → Text → ℕ
read_from n [] = n
read_from n (c ∷ cs) = read_from (n * 10 + (c - 48)) cs

atoi : Text → ℕ
atoi t = read_from 0 t

read_from-append : (n : ℕ) (s t : Text) → read_from n (s ++ t) ≡ read_from (read_from n s) t
unfolding read_from
read_from-append n [] t = refl
read_from-append n (c ∷ cs) t = read_from-append (n * 10 + (c - 48)) cs t

read_from-digits : (k n : ℕ) → n < 10 ^ k → read_from 0 (digits k n) ≡ n
unfolding read_from digits
read_from-digits zero n h = omega (arith, h)
read_from-digits (suc k) n h =
    by_test (λ (t : Text). read_from 0 t ≡ n) (ltb n 10) (λ e. omega arith)
      (λ e.
        let high : n / 10 < 10 ^ k = omega (arith, h, pow-suc 10 k) in
        read_from-append 0 (digits k (n / 10)) ((48 + n % 10) ∷ [])
        ∙ ap (λ (m : ℕ). m * 10 + (48 + n % 10 - 48)) (read_from-digits k (n / 10) high)
        ∙ omega arith)

atoi-ReadsDecimal : ReadsDecimal atoi
unfolding atoi
atoi-ReadsDecimal n h = read_from-digits 10 n (omega (arith, h))

no_value : read_arguments atoi defaults (codes "-v" ∷ codes "-s" ∷ []) ≡ unknown (codes "-s")
unfolding read_arguments read_pair read_last is_option
no_value = refl

-- Both spellings, a second port, and help at the end with an argument that is not known behind it
abbrev requests : List Request
requests =
    port true 8000
    ∷ server false (codes "10.0.0.1")
    ∷ verbose true
    ∷ rate false 48000
    ∷ time true 30
    ∷ port false 9000
    ∷ log_to true (codes "a.log")
    ∷ []

read_arguments-arguments_example :
    read_arguments atoi defaults (arguments requests (ask_help true (codes "-x" ∷ [])))
    ≡ wanted requests (ask_help true (codes "-x" ∷ [])) defaults
read_arguments-arguments_example =
    read_arguments-arguments atoi atoi-ReadsDecimal requests (ask_help true (codes "-x" ∷ []))
      defaults (omega arith)

abbrev at : ℕ → Turn
at now = record { is_running = true; current_time = now }

abbrev turns : List Turn
turns = at 1000 ∷ at 4000 ∷ at 6100 ∷ at 8000 ∷ at 9000 ∷ []

ended : main_loop 7 1000 1000 [] turns ≡ expired 8000 (6100 ∷ [])
unfolding main_loop is_expired is_due
ended = refl

timed : AreTimed 1000 turns
timed = ground arith

main_loop-Ends_example : Ends (1000 + 7 * 1_000) turns (main_loop 7 1000 1000 [] turns)
main_loop-Ends_example =
    main_loop-Ends 7 1000 1000 1000 [] turns (omega arith) (omega arith) (omega arith) timed
      (inr (inr (inr (inl (omega arith)))))

abbrev two_only : ℕ → Bool
two_only i = ltb i 2

start_up-Cleans_example :
    (s : Start (tally 20) two_only) × (start_up (tally 20) two_only 32 [] ≡ some s)
    × Cleans (tally 20) two_only (is_live []) s
start_up-Cleans_example = start_up-Cleans (tally 20) two_only 32 []
