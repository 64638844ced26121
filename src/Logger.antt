-- ===== src/Logger.antt =====
-- src/utils/logger.c on its POSIX side. What `printf` makes of a format and its arguments is an
-- argument, and so are the readings of the clock and what `fopen` answers. The lock is not modelled: one
-- message is written at a time.
pub mod Names
mod Digits
pub mod Head
pub mod Lines
pub mod Files
mod Tests
use fast_ring.Prelude.{
  ℕ, suc, ◌+◌, ◌-◌, ◌*◌, ◌/◌, ◌%◌, Bool, true, false, not, ◌&&◌, ◌||◌, Option, none, some, List, [],
  ◌∷◌, ◌++◌, ltb, leb, ◌==◌, if◌then◌else◌, length, take, drop, Text, codes, decimal, padded,
  joined,
}

-- `log_level_t`, without the count of the levels
pub data LogLevel : Type 0 where
  debug info warn error fatal : LogLevel

-- The value of a level in C.
unfoldable pub rank : LogLevel → ℕ
rank debug = 0
rank info = 1
rank warn = 2
rank error = 3
rank fatal = 4

-- `g_level_names`
unfoldable pub level_name : LogLevel → Text
level_name debug = codes "DEBUG"
level_name info = codes "INFO"
level_name warn = codes "WARN"
level_name error = codes "ERROR"
level_name fatal = codes "FATAL"

-- `g_log_file` and `g_log_level`, and what was written. A file is known by its number. `open_files` is no
-- part of the program: it lists the files opened and not closed.
pub record Logger : Type 0 where
  pub file : Option ℕ
  pub level : LogLevel
  pub console : List Text
  pub written : List (ℕ × Text)
  pub open_files : List ℕ

-- `g_log_file` and `g_log_level` when the program begins
abbrev pub silent : Logger
silent = record { file = none; level = info; console = []; written = []; open_files = [] }

-- `strrchr`: where the character stands last.
unfoldable pub strrchr : ℕ → Text → Option ℕ
strrchr c [] = none
strrchr c (d ∷ ds) = elim (strrchr c ds) [
  | some i ↦ some (suc i)
  | none ↦ if d == c then some 0 else none
]

-- `last_slash` after its correction by `last_backslash`
unfoldable pub last_separator : Option ℕ → Option ℕ → Option ℕ
last_separator slash none = slash
last_separator none (some j) = some j
last_separator (some i) (some j) = if ltb i j then some j else some i

-- `filename`: the name without the path.
unfoldable pub base_name : Text → Text
base_name file = elim (last_separator (strrchr 47 file) (strrchr 92 file)) [
  | none ↦ file
  | some i ↦ drop (i + 1) file
]

-- `hours`, `minutes`, `seconds` and `millis`
pub record TimeOfDay : Type 0 where
  pub hours : ℕ
  pub minutes : ℕ
  pub seconds : ℕ
  pub millis : ℕ

unfoldable pub time_of_day : ℕ → TimeOfDay
time_of_day timestamp = record {
  hours = timestamp / 3_600_000 % 24;
  minutes = timestamp / 60_000 % 60;
  seconds = timestamp / 1_000 % 60;
  millis = timestamp % 1_000;
}

-- The format "[%02u:%02u:%02u.%03u] [%s] [%s:%d] "
unfoldable pub prefix : TimeOfDay → LogLevel → Text → ℕ → Text
prefix t level file line = joined (
    codes "["
    ∷ padded 2 t.hours
    ∷ codes ":"
    ∷ padded 2 t.minutes
    ∷ codes ":"
    ∷ padded 2 t.seconds
    ∷ codes "."
    ∷ padded 3 t.millis
    ∷ codes "] ["
    ∷ level_name level
    ∷ codes "] ["
    ∷ base_name file
    ∷ codes ":"
    ∷ decimal line
    ∷ codes "] "
    ∷ [])

abbrev pub buffer_size : ℕ
buffer_size = 4096

-- What `buffer` holds after `snprintf`, `vsnprintf` and the newline, up to its NUL; `none` if the
-- prefix alone is so long that `vsnprintf` would write outside the buffer.
unfoldable pub compose : Text → Text → Option Text
compose front body =
    let text = take (buffer_size - 1) front ++ take (buffer_size - length front - 1) body in
    if ltb buffer_size (length front)
    then none
    else some (if ltb (length text) (buffer_size - 1) then text ++ (10 ∷ []) else text)

-- The output on the console, and in the file if there is one.
unfoldable pub emit : Text → Logger → Logger
emit text log = record log {
  console = log.console ++ (text ∷ []);
  written = elim log.file [ none ↦ log.written | some f ↦ log.written ++ ((f, text) ∷ []) ];
}

-- `log_message`; `none` where `compose` has none.
unfoldable pub log_message : ℕ → LogLevel → Text → ℕ → Text → Logger → Option Logger
log_message now level file line body log =
    if ltb (rank level) (rank log.level)
    then some log
    else elim (compose (prefix (time_of_day now) level file line) body) [
      | none ↦ none
      | some text ↦ some (emit text log)
    ]

-- `logger_set_level` and `logger_get_level`
unfoldable pub logger_set_level : LogLevel → Logger → Logger
logger_set_level level log = record log { level = level }

pub logger_get_level : Logger → LogLevel
logger_get_level log = log.level

-- The files but one.
unfoldable pub without : ℕ → List ℕ → List ℕ
without f [] = []
without f (g ∷ gs) = let rest = without f gs in if g == f then rest else g ∷ rest

-- `fclose` of the log file, if there is one.
unfoldable pub close_file : Option ℕ → Logger → Logger
close_file none log = log
close_file (some f) log = record log { file = none; open_files = without f log.open_files }

-- `logger_close`
unfoldable pub logger_close : Logger → Logger
logger_close log = close_file log.file log

-- The rest of `logger_init` when the file is open or none is wanted: the level, and the first message.
-- `source` is `__FILE__`.
unfoldable pub introduce : ℕ → Text → LogLevel → Logger → Option (Bool × Logger)
introduce now source level log =
    elim (log_message now info source 51
      (codes "Logger system initialized, level: " ++ level_name level)
      (logger_set_level level log)) [ none ↦ none | some log' ↦ some (true, log') ]

-- `logger_init`, which succeeds or not. The file name is known by what `fopen` answers to it.
unfoldable pub logger_init :
    ℕ → Text → Option (Option ℕ) → LogLevel → Logger → Option (Bool × Logger)
logger_init now source none level log = introduce now source level (close_file log.file log)
logger_init now source (some none) level log = some (false, close_file log.file log)
logger_init now source (some (some f)) level log =
    let log' = close_file log.file log in
    introduce now source level (record log' { file = some f; open_files = f ∷ log'.open_files })

-- A call of the logger by the program, and a sequence of them.
pub data LogCall : Type 0 where
  init_call : ℕ → Option (Option ℕ) → LogLevel → LogCall
  message_call : ℕ → LogLevel → ℕ → Text → LogCall
  level_call : LogLevel → LogCall
  close_call : LogCall

unfoldable pub call : Text → LogCall → Logger → Option Logger
call source (init_call now opens level) log = elim (logger_init now source opens level log) [
  | none ↦ none
  | some out ↦ some out.1
]
call source (message_call now level line body) log = log_message now level source line body log
call source (level_call level) log = some (logger_set_level level log)
call source close_call log = some (logger_close log)

unfoldable pub call_all : Text → List LogCall → Logger → Option Logger
call_all source [] log = some log
call_all source (c ∷ cs) log = elim (call source c log) [
  | none ↦ none
  | some log' ↦ call_all source cs log'
]
