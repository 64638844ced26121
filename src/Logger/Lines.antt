-- ===== src/Logger/Lines.antt =====
-- What `log_message` of src/utils/logger.c writes.

use fast_ring.Prelude.{
  ℕ, zero, suc, ◌+◌, ◌-◌, ◌≤◌, ◌<◌, ◌≡◌, refl, sym, ap, ◌∙◌, ◌⊎◌, inl, inr, arith, true, false,
  Option, none, some, List, [], ◌∷◌, ◌++◌, append-nil, ltb, ltb→lt, ltb→le, Bool-cases,
  if◌then◌else◌, by_test, length, length-append, length-take, take, take_all, Text,
}
use fast_ring.Logger.{
  LogLevel, rank, Logger, base_name, time_of_day, prefix, buffer_size, compose, emit, log_message,
}
use fast_ring.Logger.Head.{length-prefix, IsHead, prefix-IsHead}

-- What goes to the log file, if there is one.
abbrev pub in_file : Option ℕ → Text → List (ℕ × Text)
in_file none text = []
in_file (some f) text = (f, text) ∷ []

-- The text stands at the end of the console and of the log file, and nothing else is changed.
pub record IsAdded (text : Text) (log later : Logger) : Type 0 where
  pub on_console : later.console ≡ log.console ++ (text ∷ [])
  pub on_file : later.written ≡ log.written ++ in_file log.file text
  pub same_file : later.file ≡ log.file
  pub same_level : later.level ≡ log.level
  pub same_open : later.open_files ≡ log.open_files

emit-IsAdded : (text : Text) (log : Logger) → IsAdded text log (emit text log)
unfolding emit
emit-IsAdded text log = record {
  on_console = refl;
  on_file = filed log.file;
  same_file = refl;
  same_level = refl;
  same_open = refl;
}
  where
    filed :
        (file : Option ℕ)
        → elim file [ none ↦ log.written | some f ↦ log.written ++ ((f, text) ∷ []) ]
          ≡ log.written ++ in_file file text
    filed none = sym (append-nil log.written)
    filed (some f) = refl

-- What a message adds: nothing if its level is too low, and else one text on the console and in the file.
abbrev pub Logs : ℕ → LogLevel → Text → ℕ → Text → Logger → Option Logger → Type 0
Logs now level file line body log out =
    ((rank level < rank log.level) × (out ≡ some log))
    ⊎ ((rank log.level ≤ rank level)
        × (front text : Text) × (later : Logger) × (out ≡ some later)
        × IsHead now level file line front
        × IsAdded text log later
        × (length text < buffer_size)
        × (text ≡ take (buffer_size - 1) (front ++ body ++ (10 ∷ []))))

take-append :
    (n : ℕ) (xs ys : Text) → length xs ≤ n → take n (xs ++ ys) ≡ xs ++ take (n - length xs) ys
take-append n [] ys h = ap (λ k. take k ys) {x = n} {y = n - 0} (omega arith)
take-append zero (x ∷ xs) ys h = absurd (omega (arith, h))
take-append (suc n) (x ∷ xs) ys h = ap (◌∷◌ x) (
    take-append n xs ys (omega (arith, h))
    ∙ ap (λ k. xs ++ take k ys) {x = n - length xs} {y = suc n - suc (length xs)} (omega arith))

take-append_left : (n : ℕ) (xs ys : Text) → n ≤ length xs → take n (xs ++ ys) ≡ take n xs
take-append_left zero xs ys h = refl
take-append_left (suc n) [] ys h = absurd (omega (arith, h))
take-append_left (suc n) (x ∷ xs) ys h = ap (◌∷◌ x) (take-append_left n xs ys (omega (arith, h)))

-- `compose` cuts the whole line, newline and all, to what fits.
compose_lem :
    (front body : Text)
    → length front < buffer_size
    → compose front body ≡ some (take (buffer_size - 1) (front ++ body ++ (10 ∷ [])))
unfolding compose
compose_lem front body h =
    rw (fits, take_all front (buffer_size - 1) (omega (arith, h)))
      (ap some (go (Bool-cases (ltb (length body) (buffer_size - length front - 1)))))
  where
    fits : ltb buffer_size (length front) ≡ false
    fits = ground arith

    text : Text
    text = front ++ take (buffer_size - length front - 1) body

    go :
        (ltb (length body) (buffer_size - length front - 1) ≡ true)
          ⊎ (ltb (length body) (buffer_size - length front - 1) ≡ false)
        → (if ltb (length text) (buffer_size - 1) then text ++ (10 ∷ []) else text)
          ≡ take (buffer_size - 1) (front ++ body ++ (10 ∷ []))
    go (inl e) =
        let room : length body < buffer_size - length front - 1 = ground (arith, e) in
        let whole : take (buffer_size - length front - 1) body ≡ body =
          take_all body _ (omega (arith, room)) in
        let short : ltb (length (front ++ body)) (buffer_size - 1) ≡ true =
          ground (arith, room, length-append front body) in
        let sum : length (front ++ body ++ (10 ∷ [])) ≡ length front + length body + 1 =
          length-append (front ++ body) (10 ∷ [])
          ∙ ap (λ (k : ℕ). k + 1) (length-append front body) in
        rw (whole, short)
          (sym (take_all (front ++ body ++ (10 ∷ [])) (buffer_size - 1) (omega (arith, room, sum))))
    go (inr e) =
        let room : buffer_size - length front - 1 ≤ length body = ground (arith, e) in
        let full : ltb (length text) (buffer_size - 1) ≡ false = ground (
          arith,
          h,
          room,
          length-append front (take (buffer_size - length front - 1) body),
          length-take (buffer_size - length front - 1) body,
        ) in
        rw full (
          ap (λ k. front ++ take k body) {x = buffer_size - length front - 1}
            {y = buffer_size - 1 - length front} (omega arith)
          ∙ sym (take-append (buffer_size - 1) front body (omega (arith, h)))
          ∙ sym (
              take-append_left (buffer_size - 1) (front ++ body) (10 ∷ [])
                (omega (arith, h, room, length-append front body))))

-- A message is dropped exactly if its level is below the level set. Else one text is added to the console
-- and, if there is a log file, the same to it, and nothing else of the logger changes. The text is the whole
-- line, cut to the 4095 characters that the buffer takes: the time of day in hours, minutes, seconds and
-- milliseconds, the level, the name of the source file without its directory, the line, the message and a
-- newline. The buffer is never overrun, provided that the name of the source file has at most 4000
-- characters.
pub log_message-Logs :
    (now : ℕ) (level : LogLevel) (file : Text) (line : ℕ) (body : Text) (log : Logger)
    → length (base_name file) ≤ 4_000
    → Logs now level file line body log (log_message now level file line body log)
unfolding log_message
log_message-Logs now level file line body log small =
    by_test (Logs now level file line body log) (ltb (rank level) (rank log.level))
      (λ low. inl (ltb→lt _ _ low, refl))
      (λ high. inr (
        ltb→le _ _ high,
        front,
        written,
        emit written log,
        whole,
        prefix-IsHead now level file line,
        emit-IsAdded written log,
        short,
        refl,
      ))
  where
    front : Text
    front = prefix (time_of_day now) level file line

    written : Text
    written = take (buffer_size - 1) (front ++ body ++ (10 ∷ []))

    fits : length front < buffer_size
    fits = omega (arith, small, length-prefix (time_of_day now) level file line)

    whole :
        elim (compose front body) [ none ↦ none | some text ↦ some (emit text log) ]
        ≡ some (emit written log)
    whole =
        ap (λ c. elim c [ none ↦ none | some text ↦ some (emit text log) ])
          (compose_lem front body fits)

    short : length written < buffer_size
    short = omega (arith, length-take (buffer_size - 1) (front ++ body ++ (10 ∷ [])))
