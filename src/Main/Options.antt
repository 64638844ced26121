-- ===== src/Main/Options.antt =====
-- The arguments that `main` of src/main.c reads. `atoi` is the C library's: it gives the bits of an `int`.
use fast_ring.Prelude.{
  ℕ, ◌-◌, ◌%◌, ◌^◌, Bool, ◌||◌, Option, none, some, List, [], ◌∷◌, if◌then◌else◌, take, Text, codes,
  same_text,
}
use fast_ring.Logger.{LogLevel, debug, info}

-- The variables that the arguments set; `server_ip` is an array of 16 characters with its NUL, and
-- `run_time_seconds` the bits of an `int`.
pub record Settings : Type 0 where
  pub server_ip : Text
  pub server_port : ℕ
  pub sample_rate : ℕ
  pub run_time_seconds : ℕ
  pub log_file : Option Text
  pub log_level : LogLevel

abbrev pub defaults : Settings
defaults = record {
  server_ip = codes "127.0.0.1";
  server_port = 8080;
  sample_rate = 40000;
  run_time_seconds = 2 ^ 32 - 1;
  log_file = none;
  log_level = info;
}

-- What reading the arguments comes to: the help and an exit with 0, an argument that is not known and an exit
-- with 1, or settings to go on with.
pub data Reading : Type 0 where
  help : Reading
  unknown : Text → Reading
  settings : Settings → Reading

-- What one argument does: it ends the reading, or it is used up alone or with its value.
pub data Step : Type 0 where
  ends : Reading → Step
  alone : Settings → Step
  with_value : Settings → Step

-- The argument is the one or the other.
unfoldable pub is_option : Text → Text → Text → Bool
is_option a short long = same_text a short || same_text a long

module _ (atoi : Text → ℕ) where
  -- An argument with another one behind it.
  unfoldable pub read_pair : Settings → Text → Text → Step
  read_pair o a b =
      if is_option a (codes "-h") (codes "--help")
      then ends help
      else if is_option a (codes "-s") (codes "--server")
      then with_value (record o { server_ip = take 15 b })
      else if is_option a (codes "-p") (codes "--port")
      then with_value (record o { server_port = atoi b % 2 ^ 16 })
      else if is_option a (codes "-r") (codes "--rate")
      then with_value (record o { sample_rate = atoi b % 2 ^ 32 })
      else if is_option a (codes "-t") (codes "--time")
      then with_value (record o { run_time_seconds = atoi b % 2 ^ 32 })
      else if is_option a (codes "-l") (codes "--log")
      then with_value (record o { log_file = some b })
      else if is_option a (codes "-v") (codes "--verbose")
      then alone (record o { log_level = debug })
      else ends (unknown a)

  -- The last argument: an option that wants a value is not known there.
  unfoldable pub read_last : Settings → Text → Step
  read_last o a =
      if is_option a (codes "-h") (codes "--help")
      then ends help
      else if is_option a (codes "-v") (codes "--verbose")
      then alone (record o { log_level = debug })
      else ends (unknown a)

  -- The loop over the arguments behind the program's name.
  unfoldable pub read_arguments : Settings → List Text → Reading
  read_arguments o [] = settings o
  read_arguments o (a ∷ []) = elim (read_last o a) [
    | ends r ↦ r
    | alone o' ↦ settings o'
    | with_value o' ↦ settings o'
  ]
  read_arguments o (a ∷ b ∷ rest) = elim (read_pair o a b) [
    | ends r ↦ r
    | alone o' ↦ read_arguments o' (b ∷ rest)
    | with_value o' ↦ read_arguments o' rest
  ]
