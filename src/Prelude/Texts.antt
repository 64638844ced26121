-- ===== src/Prelude/Texts.antt =====
-- Texts as lists of character codes, without the NUL that ends them in C.
use Prim.Native.Nat.{ℕ, zero, suc, ◌+◌, ◌-◌, ◌/◌, ◌%◌, ◌≤◌}
use Prim.Native.Char.{code}
use Prim.Native.String.{String}
use mathlib.Core.Path.{◌≡◌, refl, ap, ◌∙◌}
use mathlib.Core.Bool.{Bool, true, false, ◌&&◌}
use mathlib.Core.List.{List, [], ◌∷◌, ◌++◌}
use native.Mathlib.Omega.{arith}
use fast_ring.Prelude.Tests.{ltb, ◌==◌, if◌then◌else◌, by_test}
use fast_ring.Prelude.Lists.{length, replicate, length-append, length-replicate}

abbrev pub Text : Type 0
Text = List ℕ

abbrev pub codes : String → Text
codes String.[] = []
codes (String.◌∷◌ c s) = code c ∷ codes s

abbrev pub same_text : Text → Text → Bool
same_text [] [] = true
same_text [] (d ∷ ds) = false
same_text (c ∷ cs) [] = false
same_text (c ∷ cs) (d ∷ ds) = (c == d) && same_text cs ds

-- The pieces of a text one after the other.
abbrev pub joined : List Text → Text
joined [] = []
joined (t ∷ ts) = t ++ joined ts

abbrev pub total_length : List Text → ℕ
total_length [] = 0
total_length (t ∷ ts) = length t + total_length ts

pub length-joined : (ts : List Text) → length (joined ts) ≡ total_length ts
length-joined [] = refl
length-joined (t ∷ ts) =
    length-append t (joined ts) ∙ ap (λ (k : ℕ). length t + k) (length-joined ts)

-- `%u` of a number with at most as many digits as the first argument says.
unfoldable pub digits : ℕ → ℕ → Text
digits zero n = []
digits (suc k) n =
    let front = digits k (n / 10) in
    if ltb n 10 then (48 + n) ∷ [] else front ++ ((48 + n % 10) ∷ [])

-- `%u` of a 32-bit number
abbrev pub decimal : ℕ → Text
decimal n = digits 10 n

-- `%02u` and `%03u` of a 32-bit number
abbrev pub padded : ℕ → ℕ → Text
padded width n = replicate (width - length (decimal n)) 48 ++ decimal n

pub length-digits : (k n : ℕ) → length (digits k n) ≤ k
unfolding digits
length-digits zero n = omega arith
length-digits (suc k) n =
    by_test (λ (t : Text). length t ≤ suc k) (ltb n 10) (λ e. omega arith)
      (λ e.
        omega
          (arith, length-digits k (n / 10), length-append (digits k (n / 10)) ((48 + n % 10) ∷ [])))

pub length-padded : (width n : ℕ) → width ≤ 10 → length (padded width n) ≤ 10
length-padded width n h = omega (
  arith,
  h,
  length-digits 10 n,
  length-append (replicate {A = ℕ} (width - length (decimal n)) 48) (decimal n),
  length-replicate {A = ℕ} (width - length (decimal n)) 48,
)
