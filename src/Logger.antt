-- ===== src/Logger.antt =====
-- service/sources/logger and service/include/logger: the levels, the lines, and the factory; File is
-- the logger that writes to a file. The time stamp and the stream are parameters. A configuration is
-- the list of its pairs.
pub mod File
pub mod Reopening
mod Tests
use social_network.Prelude.{
  ℕ, Bool, true, false, not, List, [], ◌∷◌, ◌++◌, Option, none, some, ltb, ◌==◌, if◌then◌else◌,
  Bytes, codes, equal, Attempt, done, std_exception,
}

abbrev pub LoggerConfig : Type 0
LoggerConfig = List (Bytes × Bytes)

-- `config.find(key)`.
unfoldable pub find : Bytes → LoggerConfig → Option Bytes
unfolding equal
find key [] = none
find key ((name, text) ∷ config) = if equal name key then some text else find key config

pub data LogLevel : Type 0 where
  log_alert log_error log_warng log_infor log_debug log_trace : LogLevel

abbrev pub number : LogLevel → ℕ
number log_alert = 0
number log_error = 1
number log_warng = 2
number log_infor = 3
number log_debug = 4
number log_trace = 5

unfoldable pub to_loglevel : LoggerConfig → LogLevel
unfolding find equal
to_loglevel config = elim (find (codes "level") config) [
  | none ↦ log_error
  | some level ↦
      if equal level (codes "0")
      then log_alert
      else if equal level (codes "1")
      then log_error
      else if equal level (codes "2")
      then log_warng
      else if equal level (codes "3")
      then log_infor
      else if equal level (codes "4")
      then log_debug
      else if equal level (codes "5")
      then log_trace
      else log_error
]

unfoldable pub available : LogLevel → LogLevel → Bool
available max_level level = not (ltb (number max_level) (number level))

unfoldable pub uncolored : LogLevel → Bytes
uncolored log_alert = codes " [ALERT] "
uncolored log_error = codes " [ERROR] "
uncolored log_warng = codes " [WARNG] "
uncolored log_infor = codes " [INFOR] "
uncolored log_debug = codes " [DEBUG] "
uncolored log_trace = codes " [TRACE] "

-- An escape sequence of the terminal.
abbrev pub escape : Bytes → Bytes
escape s = 27 ∷ b'[' ∷ s ++ b'm' ∷ []

unfoldable pub colored : LogLevel → Bytes
colored log_alert =
    b' ' ∷ escape (codes "36;1") ++ codes "[ALERT]" ++ escape (codes "0") ++ codes " "
colored log_error =
    b' ' ∷ escape (codes "31;1") ++ codes "[ERROR]" ++ escape (codes "0") ++ codes " "
colored log_warng =
    b' ' ∷ escape (codes "33;1") ++ codes "[WARNG]" ++ escape (codes "0") ++ codes " "
colored log_infor =
    b' ' ∷ escape (codes "32;1") ++ codes "[INFOR]" ++ escape (codes "0") ++ codes " "
colored log_debug =
    b' ' ∷ escape (codes "34;1") ++ codes "[DEBUG]" ++ escape (codes "0") ++ codes " "
colored log_trace =
    b' ' ∷ escape (codes "37;1") ++ codes "[TRACE]" ++ escape (codes "0") ++ codes " "

-- What one call writes to a stream.
unfoldable pub line : Bytes → Bytes → Bytes → Bytes
line timestamp custom_directive message = timestamp ++ custom_directive ++ message ++ 10 ∷ []

abbrev pub is_true : Option Bytes → Bool
unfolding equal
is_true none = false
is_true (some text) = equal text (codes "true")

-- The loggers of the two standard streams.
unfoldable pub log : LoggerConfig → Bytes → Bytes → LogLevel → Bytes
unfolding find line colored uncolored
log config timestamp message level =
    line timestamp
      (if is_true (find (codes "color") config) then colored level else uncolored level) message

-- `_file_name_`: `file` moves behind every slash.
unfoldable pub file_name_loop : Bytes → Bytes → Bytes
file_name_loop file [] = file
file_name_loop file (c ∷ path) =
    if c == b'/' then file_name_loop path path else file_name_loop file path

unfoldable pub file_name : Bytes → Bytes
unfolding file_name_loop
file_name path = file_name_loop path path

-- The factory: the creators by their names; a name that is known keeps its creator.
abbrev pub Creators : Type 0 → Type 0
Creators Logger = List (Bytes × (LoggerConfig → Attempt Logger))

module _ {Logger : Type 0} where
  unfoldable pub find_creator : Bytes → Creators Logger → Option (LoggerConfig → Attempt Logger)
  unfolding equal
  find_creator name [] = none
  find_creator name ((known, create) ∷ creators) =
      if equal known name then some create else find_creator name creators

  abbrev pub emplaced :
      Bytes × (LoggerConfig → Attempt Logger)
      → Creators Logger
      → Option (LoggerConfig → Attempt Logger)
      → Creators Logger × Bool
  emplaced creator creators none = (creator ∷ creators, true)
  emplaced creator creators (some known) = (creators, false)

  unfoldable pub register_logger :
      Bytes → (LoggerConfig → Attempt Logger) → Creators Logger → Creators Logger × Bool
  unfolding find_creator
  register_logger name create creators =
      emplaced (name, create) creators (find_creator name creators)

  unfoldable pub produce : Creators Logger → LoggerConfig → Attempt Logger
  unfolding find find_creator
  produce creators config = elim (find (codes "type") config) [
    | none ↦ std_exception (codes "logging factory configuration requires a type of logger")
    | some type ↦ elim (find_creator type creators) [
      | none ↦ std_exception (codes "couldn't produce logger for type: " ++ type)
      | some create ↦ create config
    ]
  ]
