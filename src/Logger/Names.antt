-- ===== src/Logger/Names.antt =====
-- The name of a source file in a message of src/utils/logger.c.

use fast_ring.Prelude.{
  ℕ, zero, suc, ◌+◌, ◌≤◌, ◌≡◌, refl, ap, ◌∙◌, ◌≢◌, ◌⊎◌, inl, inr, arith, Option, none, some, [],
  ◌∷◌, ◌++◌, ltb, ◌==◌, if◌then◌else◌, by_test, ==→eq, ==→ne, take, drop, get_elem?, Text, subst,
}
use fast_ring.Logger.{strrchr, last_separator, base_name}

-- The character stands nowhere in the text.
abbrev pub Absent : ℕ → Text → Type 0
Absent c [] = Unit {0}
Absent c (d ∷ ds) = (d ≢ c) × Absent c ds

Absent-drop : (c n : ℕ) (s : Text) → Absent c s → Absent c (drop n s)
Absent-drop c zero s h = h
Absent-drop c (suc n) [] h = tt
Absent-drop c (suc n) (d ∷ ds) h = Absent-drop c n ds h.1

-- An answer of `strrchr` is right.
abbrev IsLast : ℕ → Text → Option ℕ → Type 0
IsLast c s none = Absent c s
IsLast c s (some i) = (get_elem? s i ≡ some c) × Absent c (drop (i + 1) s)

strrchr-IsLast : (c : ℕ) (s : Text) → IsLast c s (strrchr c s)
unfolding strrchr
strrchr-IsLast c [] = tt
strrchr-IsLast c (d ∷ ds) = go (strrchr c ds) (strrchr-IsLast c ds)
  where
    go :
        (r : Option ℕ)
        → IsLast c ds r
        → IsLast c
            (d ∷ ds)
            (elim r [ some i ↦ some (suc i) | none ↦ if d == c then some 0 else none ])
    go (some i) (here, rest) = (
      here,
      subst (λ k. Absent c (drop k (d ∷ ds))) {x = suc (i + 1)} {y = suc i + 1} (omega arith) rest,
    )
    go none h =
        by_test (IsLast c (d ∷ ds)) (d == c) (λ e. (ap some (==→eq d c e), h))
          (λ e. (==→ne d c e, h))

Absent-further : (c i j : ℕ) (s : Text) → i ≤ j → Absent c (drop i s) → Absent c (drop j s)
Absent-further c zero j s h a = Absent-drop c j s a
Absent-further c (suc i) zero s h a = absurd (omega (arith, h))
Absent-further c (suc i) (suc j) [] h a = tt
Absent-further c (suc i) (suc j) (d ∷ ds) h a = Absent-further c i j ds (omega (arith, h)) a

cut : (c i : ℕ) (s : Text) → get_elem? s i ≡ some c → s ≡ (take i s ++ (c ∷ [])) ++ drop (i + 1) s
cut c i [] e = cc
cut c zero (d ∷ ds) e = ap (λ k. k ∷ ds) (only e)
  where
    only : some d ≡ some c → d ≡ c
    only e = cc
cut c (suc i) (d ∷ ds) e =
    ap (◌∷◌ d) (cut c i ds e)
    ∙ ap (λ k. d ∷ ((take i ds ++ (c ∷ [])) ++ drop k (d ∷ ds))) {x = suc (i + 1)} {y = suc i + 1}
        (omega arith)

-- The name of a file without its directory, which is empty or ends with a separator: `/` has the code 47,
-- and the backslash 92.
pub record IsBaseName (file name : Text) : Type 0 where
  pub directory : Text
  pub whole : file ≡ directory ++ name
  pub ends :
      (directory ≡ [])
      ⊎ ((front : Text) × (c : ℕ) × (directory ≡ front ++ (c ∷ [])) × ((c ≡ 47) ⊎ (c ≡ 92)))
  pub no_slash : Absent 47 name
  pub no_backslash : Absent 92 name

after :
    (file : Text) (c i : ℕ)
    → get_elem? file i ≡ some c
    → (c ≡ 47) ⊎ (c ≡ 92)
    → Absent 47 (drop (i + 1) file)
    → Absent 92 (drop (i + 1) file)
    → IsBaseName file (drop (i + 1) file)
after file c i here separator no_slash no_backslash = record {
  directory = take i file ++ (c ∷ []);
  whole = cut c i file here;
  ends = inr (take i file, c, refl, separator);
  no_slash = no_slash;
  no_backslash = no_backslash;
}

-- The name in a message is the part of the path behind the last of all the slashes and backslashes, or
-- the whole path if it has neither.
pub base_name-IsBaseName : (file : Text) → IsBaseName file (base_name file)
unfolding base_name last_separator
base_name-IsBaseName file =
    go (strrchr 47 file) (strrchr 92 file) (strrchr-IsLast 47 file) (strrchr-IsLast 92 file)
  where
    go :
        (slash backslash : Option ℕ)
        → IsLast 47 file slash
        → IsLast 92 file backslash
        → IsBaseName file
            (elim (last_separator slash backslash) [ none ↦ file | some i ↦ drop (i + 1) file ])
    go none none h k = record {
      directory = [];
      whole = refl;
      ends = inl refl;
      no_slash = h;
      no_backslash = k;
    }
    go (some i) none h k = after file 47 i h.0 (inl refl) h.1 (Absent-drop 92 (i + 1) file k)
    go none (some j) h k = after file 92 j k.0 (inr refl) (Absent-drop 47 (j + 1) file h) k.1
    go (some i) (some j) h k =
        by_test
          (λ (r : Option ℕ). IsBaseName file (elim r [ none ↦ file | some i ↦ drop (i + 1) file ]))
          (ltb i j)
          (λ e.
            after file 92 j k.0 (inr refl)
              (Absent-further 47 (i + 1) (j + 1) file (ground arith) h.1) k.1)
          (λ e.
            after file 47 i h.0 (inl refl) h.1
              (Absent-further 92 (j + 1) (i + 1) file (ground arith) k.1))
