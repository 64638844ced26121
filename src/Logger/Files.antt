-- ===== src/Logger/Files.antt =====
-- The log file of src/utils/logger.c: opened and closed over any calls.
use fast_ring.Prelude.{
  ℕ, Bool, ◌⊎◌, inl, inr, ◌≤◌, ◌≡◌, ◌≢◌, refl, sym, ap, ◌∙◌, arith, true, false, Option, none, some,
  List, [], ◌∷◌, ◌++◌, ◌==◌, length, Text, codes,
}
use fast_ring.Logger.{
  LogLevel, info, level_name, Logger, base_name, log_message, logger_set_level, without, close_file,
  logger_close, introduce, logger_init, LogCall, init_call, message_call, level_call, close_call,
  call, call_all,
}
use fast_ring.Logger.Lines.{log_message-Logs}

-- The files that ought to be open.
abbrev pub held : Option ℕ → List ℕ
held none = []
held (some f) = f ∷ []

-- The log file is the only one that is open.
abbrev pub IsKept : Logger → Type 0
IsKept log = log.open_files ≡ held log.file

without_self : (f : ℕ) → without f (f ∷ []) ≡ []
unfolding without
without_self f = let same : (f == f) ≡ true = ground arith in rw same refl

pub close_file-IsKept :
    (log : Logger)
    → IsKept log
    → ((logger_close log).file ≡ none) × ((logger_close log).open_files ≡ [])
unfolding logger_close close_file
close_file-IsKept log kept = go log.file refl kept
  where
    go :
        (file : Option ℕ)
        → log.file ≡ file
        → log.open_files ≡ held file
        → ((close_file file log).file ≡ none) × ((close_file file log).open_files ≡ [])
    go none absent e = (absent, e)
    go (some f) present e = (refl, ap (without f) e ∙ without_self f)

log_message-IsKept :
    (now : ℕ) (level : LogLevel) (source : Text) (line : ℕ) (body : Text) (log : Logger)
    → length (base_name source) ≤ 4_000
    → IsKept log
    → (later : Logger) × (log_message now level source line body log ≡ some later) × IsKept later
log_message-IsKept now level source line body log small kept =
    elim (log_message-Logs now level source line body log small) [
      | inl (low, same) ↦ (log, same, kept)
      | inr (high, front, text, later, same, head, added, short, cut) ↦
          (later, same, added.same_open ∙ kept ∙ sym (ap held added.same_file))
    ]

-- A step of the program that returns, with the log file kept.
abbrev Keeps : Option Logger → Type 0
Keeps out = (later : Logger) × (out ≡ some later) × IsKept later

introduce-IsKept :
    (now : ℕ) (source : Text) (level : LogLevel) (log : Logger)
    → length (base_name source) ≤ 4_000
    → IsKept log
    → (later : Logger) × (introduce now source level log ≡ some (true, later)) × IsKept later
unfolding introduce logger_set_level
introduce-IsKept now source level log small kept =
    let body = codes "Logger system initialized, level: " ++ level_name level in
    let (later, same, ok) =
      log_message-IsKept now info source 51 body (record log { level = level }) small kept in
    (later, ap (λ out. elim out [ none ↦ none | some log' ↦ some (true, log') ]) same, ok)

-- `logger_init` returns, keeps the log file the only open one, and fails, with no file open, exactly if the
-- log file cannot be opened.
pub logger_init-IsKept :
    (now : ℕ) (source : Text) (opens : Option (Option ℕ)) (level : LogLevel) (log : Logger)
    → length (base_name source) ≤ 4_000
    → IsKept log
    → (ready : Bool) × (later : Logger) × (logger_init now source opens level log
        ≡ some (ready, later))
      × IsKept later
      × (((ready ≡ true) × (opens ≢ some none))
          ⊎ ((ready ≡ false) × (opens ≡ some none) × (later.open_files ≡ [])))
unfolding logger_init logger_close
logger_init-IsKept now source none level log small kept =
    let (gone, closed) = close_file-IsKept log kept in
    let (later, same, ok) =
      introduce-IsKept now source level (logger_close log) small (closed ∙ sym (ap held gone)) in
    (true, later, same, ok, inl (refl, λ e. cc))
logger_init-IsKept now source (some none) level log small kept =
    let (gone, closed) = close_file-IsKept log kept in
    (false, logger_close log, refl, closed ∙ sym (ap held gone), inr (refl, refl, closed))
logger_init-IsKept now source (some (some f)) level log small kept =
    let (gone, closed) = close_file-IsKept log kept in
    let (later, same, ok) =
      introduce-IsKept now source level
        (record (logger_close log) {
          file = some f;
          open_files = f ∷ (logger_close log).open_files;
        })
        small (ap (◌∷◌ f) closed) in
    (true, later, same, ok, inl (refl, λ e. cc))

call-Keeps :
    (source : Text) (c : LogCall) (log : Logger)
    → length (base_name source) ≤ 4_000
    → IsKept log
    → Keeps (call source c log)
unfolding call logger_close logger_set_level
call-Keeps source (init_call now opens level) log small kept =
    let (ready, later, same, ok, closed) =
      logger_init-IsKept now source opens level log small kept in
    (later, ap (λ out. elim out [ none ↦ none | some out ↦ some out.1 ]) same, ok)
call-Keeps source (message_call now level line body) log small kept =
    log_message-IsKept now level source line body log small kept
call-Keeps source (level_call level) log small kept = (logger_set_level level log, refl, kept)
call-Keeps source close_call log small kept =
    let (gone, closed) = close_file-IsKept log kept in
    (logger_close log, refl, closed ∙ sym (ap held gone))

-- Whatever calls the program makes of a logger whose log file is the only open one, each of them
-- returns, the log file stays the only one that is open, and closing the logger leaves no file open.
-- The name of the source file has at most 4000 characters.
pub logger_close-call_all :
    (source : Text) (cs : List LogCall) (log : Logger)
    → length (base_name source) ≤ 4_000
    → IsKept log
    → (later : Logger) × (call_all source cs log ≡ some later)
      × IsKept later
      × ((logger_close later).open_files ≡ [])
unfolding call_all
logger_close-call_all source [] log small kept = (log, refl, kept, (close_file-IsKept log kept).1)
logger_close-call_all source (c ∷ cs) log small kept =
    let (next, same, ok) = call-Keeps source c log small kept in
    let (later, rest, kept_on, closed) = logger_close-call_all source cs next small ok in
    (
      later,
      ap (λ out. elim out [ none ↦ none | some log' ↦ call_all source cs log' ]) same ∙ rest,
      kept_on,
      closed,
    )
