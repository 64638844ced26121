-- ===== src/Logger/Tests.antt =====
-- A logger with a file, and messages from `src/main.c`.
use fast_ring.Prelude.{◌≡◌, refl, arith, some, [], ◌∷◌, Text, codes, digits}
use fast_ring.Logger.{
  warn, level_name, Logger, silent, strrchr, last_separator, base_name, time_of_day, prefix,
  log_message,
}
use fast_ring.Logger.Lines.{Logs, log_message-Logs}

abbrev source : Text
source = codes "src/main.c"

abbrev filed : Logger
filed = record silent { file = some 3; open_files = 3 ∷ [] }

base_name_main : base_name source ≡ codes "main.c"
unfolding base_name strrchr last_separator
base_name_main = refl

prefix_main :
    prefix (time_of_day 86_399_005) warn source 135 ≡ codes "[23:59:59.005] [WARN] [main.c:135] "
unfolding prefix time_of_day level_name base_name strrchr last_separator digits
prefix_main = refl

log_message-Logs_example :
    Logs 86_399_005 warn source 135
      (codes "late")
      filed
      (log_message 86_399_005 warn source 135 (codes "late") filed)
unfolding base_name strrchr last_separator
log_message-Logs_example =
    log_message-Logs 86_399_005 warn source 135 (codes "late") filed (omega arith)
