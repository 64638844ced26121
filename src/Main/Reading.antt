-- ===== src/Main/Reading.antt =====
-- What the arguments of src/main.c set, in any order and in either spelling.
use native.Mathlib.Nat.{mod-eq_of_lt}
use fast_ring.Prelude.{
  ℕ, ◌<◌, ◌≡◌, refl, ap, ◌∙◌, arith, ◌^◌, ◌%◌, Bool, true, false, some, List, [], ◌∷◌, length,
  take_all, Text, codes, decimal,
}
use fast_ring.Logger.{debug}
use fast_ring.Main.Options.{
  Settings, Reading, help, settings, is_option, read_pair, read_last, read_arguments,
}

-- One thing that the user asks for; `true` is the short spelling.
pub data Request : Type 0 where
  server : Bool → Text → Request
  port : Bool → ℕ → Request
  rate : Bool → ℕ → Request
  time : Bool → ℕ → Request
  log_to : Bool → Text → Request
  verbose : Bool → Request

-- What may stand behind the requests: nothing, or a call for help with any arguments behind it.
pub data End : Type 0 where
  stop : End
  ask_help : Bool → List Text → End

-- The spelling of an option in the usage text
abbrev spelled : Bool → Text → Text → Text
spelled true short long = short
spelled false short long = long

-- A request as the user writes it, in front of other arguments
abbrev written : Request → List Text → List Text
written (server b ip) rest = spelled b (codes "-s") (codes "--server") ∷ ip ∷ rest
written (port b n) rest = spelled b (codes "-p") (codes "--port") ∷ decimal n ∷ rest
written (rate b n) rest = spelled b (codes "-r") (codes "--rate") ∷ decimal n ∷ rest
written (time b n) rest = spelled b (codes "-t") (codes "--time") ∷ decimal n ∷ rest
written (log_to b name) rest = spelled b (codes "-l") (codes "--log") ∷ name ∷ rest
written (verbose b) rest = spelled b (codes "-v") (codes "--verbose") ∷ rest

abbrev pub arguments : List Request → End → List Text
arguments [] stop = []
arguments [] (ask_help b rest) = spelled b (codes "-h") (codes "--help") ∷ rest
arguments (r ∷ rs) e = written r (arguments rs e)

-- What a request is for
abbrev changed : Request → Settings → Settings
changed (server b ip) o = record o { server_ip = ip }
changed (port b n) o = record o { server_port = n }
changed (rate b n) o = record o { sample_rate = n }
changed (time b n) o = record o { run_time_seconds = n }
changed (log_to b name) o = record o { log_file = some name }
changed (verbose b) o = record o { log_level = debug }

-- What the requests come to: a later one counts more than an earlier one, and help ends everything.
abbrev pub wanted : List Request → End → Settings → Reading
wanted [] stop o = settings o
wanted [] (ask_help b rest) o = help
wanted (r ∷ rs) e o = wanted rs e (changed r o)

-- The values are in the ranges of the variables.
abbrev InRange : Request → Type 0
InRange (server b ip) = length ip < 16
InRange (port b n) = n < 2 ^ 16
InRange (rate b n) = n < 2 ^ 31
InRange (time b n) = n < 2 ^ 31
InRange (log_to b name) = Unit {0}
InRange (verbose b) = Unit {0}

abbrev pub AreInRange : List Request → Type 0
AreInRange [] = Unit {0}
AreInRange (r ∷ rs) = InRange r × AreInRange rs

-- `atoi` reads what `%u` prints, up to the greatest `int`.
abbrev pub ReadsDecimal : (Text → ℕ) → Type 0
ReadsDecimal atoi = (n : ℕ) → n < 2 ^ 31 → atoi (decimal n) ≡ n

module _ (atoi : Text → ℕ) (reads : ReadsDecimal atoi) where
  read_word : (n : ℕ) → n < 2 ^ 31 → atoi (decimal n) % 2 ^ 32 ≡ n
  read_word n small = rw (reads n small) (mod-eq_of_lt (omega (arith, small)))

  read_port : (n : ℕ) → n < 2 ^ 16 → atoi (decimal n) % 2 ^ 16 ≡ n
  read_port n small = rw (reads n (omega (arith, small))) (mod-eq_of_lt small)

  verbose_lem :
      (b : Bool) (o : Settings) (rest : List Text)
      → read_arguments atoi o (written (verbose b) rest)
        ≡ read_arguments atoi (record o { log_level = debug }) rest
  unfolding read_arguments read_pair read_last is_option
  verbose_lem true o [] = refl
  verbose_lem false o [] = refl
  verbose_lem true o (a ∷ rest) = refl
  verbose_lem false o (a ∷ rest) = refl

  help_lem :
      (b : Bool) (o : Settings) (rest : List Text)
      → read_arguments atoi o (arguments [] (ask_help b rest)) ≡ help
  unfolding read_arguments read_pair read_last is_option
  help_lem true o [] = refl
  help_lem false o [] = refl
  help_lem true o (a ∷ rest) = refl
  help_lem false o (a ∷ rest) = refl

  -- One request is read as what it is for.
  request_lem :
      (r : Request) (o : Settings) (rest : List Text)
      → InRange r
      → read_arguments atoi o (written r rest) ≡ read_arguments atoi (changed r o) rest
  unfolding read_arguments read_pair is_option
  request_lem (server true ip) o rest h =
      ap (λ t. read_arguments atoi (record o { server_ip = t }) rest)
        (take_all ip 15 (omega (arith, h)))
  request_lem (server false ip) o rest h =
      ap (λ t. read_arguments atoi (record o { server_ip = t }) rest)
        (take_all ip 15 (omega (arith, h)))
  request_lem (port true n) o rest h =
      ap (λ k. read_arguments atoi (record o { server_port = k }) rest) (read_port n h)
  request_lem (port false n) o rest h =
      ap (λ k. read_arguments atoi (record o { server_port = k }) rest) (read_port n h)
  request_lem (rate true n) o rest h =
      ap (λ k. read_arguments atoi (record o { sample_rate = k }) rest) (read_word n h)
  request_lem (rate false n) o rest h =
      ap (λ k. read_arguments atoi (record o { sample_rate = k }) rest) (read_word n h)
  request_lem (time true n) o rest h =
      ap (λ k. read_arguments atoi (record o { run_time_seconds = k }) rest) (read_word n h)
  request_lem (time false n) o rest h =
      ap (λ k. read_arguments atoi (record o { run_time_seconds = k }) rest) (read_word n h)
  request_lem (log_to true name) o rest h = refl
  request_lem (log_to false name) o rest h = refl
  request_lem (verbose b) o rest h = verbose_lem b o rest

  -- Requests in any order, each in its short or its long spelling and as often as one likes, are read as
  -- the settings that they ask for, the later one counting of two for the same variable, and as a call
  -- for help if one stands behind them, whatever comes after it. A server's name has at most 15
  -- characters, a port is below 2^16, a rate and a time below 2^31, and `atoi` reads decimal numbers.
  pub read_arguments-arguments :
      (rs : List Request) (e : End) (o : Settings)
      → AreInRange rs
      → read_arguments atoi o (arguments rs e) ≡ wanted rs e o
  unfolding read_arguments
  read_arguments-arguments [] stop o h = refl
  read_arguments-arguments [] (ask_help b rest) o h = help_lem b o rest
  read_arguments-arguments (r ∷ rs) e o h =
      request_lem r o (arguments rs e) h.0 ∙ read_arguments-arguments rs e (changed r o) h.1
