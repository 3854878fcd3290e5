-- ===== src/Logger/File.antt =====
-- service/sources/logger/logger_file.cpp. The file system is a record; a stream is whether it is
-- open, and `none` is the null pointer. The times are those that the clock gives, in nanoseconds
-- from its epoch, and the interval is short enough to be counted in them.
use social_network.Prelude.{
  ℕ, ◌*◌, ◌-◌, Bool, true, false, ◌++◌, Option, none, some, ltb, if◌then◌else◌, Bytes, codes,
  is_empty, ℤ, pos, negsuc, Attempt, done, dns_exception, std_exception,
}
use social_network.NumberParser.{stoi_bits}
use social_network.FilePath.{fs_parent_path}
use social_network.Logger.{LoggerConfig, LogLevel, find, uncolored, line}

-- `is_directory`, `create_directories`, the opening of a stream, and what is written to an open one.
pub record Files (State : Type 0) : Type 0 where
  pub is_directory : State → Bytes → Attempt Bool
  pub create_directories : State → Bytes → State × Attempt Bool
  pub open_file : State → Bytes → State × Bool
  pub append : State → Bytes → Bytes → State

pub record LoggerFile : Type 0 where
  pub reopen_interval_ : ℕ
  pub last_reopen_ : ℕ
  pub file_name_ : Bytes
  pub file_ : Option Bool

abbrev pub is_open : Option Bool → Bool
is_open none = false
is_open (some was_open) = was_open

abbrev pub closed : Option Bool → Option Bool
closed none = none
closed (some was_open) = some false

-- The logger and the system behind a call, and what is thrown.
abbrev pub Reopened : Type 0 → Type 0
Reopened State = (LoggerFile × State) × Attempt (Unit {0})

-- `throw e` of a `std::exception&` throws a copy of that class alone.
abbrev pub sliced : Bytes
sliced = codes "std::exception"

module _ {State : Type 0} (files : Files State) where
  abbrev pub created : Bytes → State × Attempt Bool → State × Attempt (Unit {0})
  created parent_dir (s, done true) = (s, done tt)
  created parent_dir (s, done false) =
      (s, std_exception (codes "cannot create directory for log file: " ++ parent_dir))
  created parent_dir (s, dns_exception what) = (s, dns_exception what)
  created parent_dir (s, std_exception what) = (s, std_exception what)

  unfoldable pub ensure_folder : State → Bytes → State × Attempt (Unit {0})
  unfolding fs_parent_path
  ensure_folder s file_name =
      let parent_dir = fs_parent_path file_name in
      elim (files.is_directory s parent_dir) [
        | done true ↦ (s, done tt)
        | done false ↦ created parent_dir (files.create_directories s parent_dir)
        | dns_exception what ↦ (s, dns_exception what)
        | std_exception what ↦ (s, std_exception what)
      ]

  -- A new stream is opened when it is made.
  unfoldable pub make_stream : State → Bytes → Option Bool → State × Bool
  make_stream s file_name none = files.open_file s file_name
  make_stream s file_name (some was_open) = (s, was_open)

  abbrev pub open_again : Bytes → State × Bool → State × Bool
  open_again file_name (s, true) = (s, true)
  open_again file_name (s, false) = files.open_file s file_name

  -- What `try` gives, with the stream.
  unfoldable pub opened : LoggerFile → ℕ → State × Bool → Reopened State
  opened this later (s, true) =
      ((record this { file_ = some true; last_reopen_ = later }, s), done tt)
  opened this later (s, false) = ((record this { file_ = some false }, s), std_exception sliced)

  unfoldable pub then_open : LoggerFile → ℕ → State × Attempt (Unit {0}) → Reopened State
  unfolding make_stream opened
  then_open this later (s, done t) =
      opened this later (open_again this.file_name_ (make_stream s this.file_name_ this.file_))
  then_open this later (s, dns_exception what) = ((this, s), std_exception sliced)
  then_open this later (s, std_exception what) = ((this, s), std_exception sliced)

  -- A clock that was set back gives no time that has passed, and the interval is positive.
  abbrev pub is_due : LoggerFile → ℕ → Bool
  is_due this now = ltb (this.reopen_interval_ * 1000000000) (now - this.last_reopen_)

  -- `now` and `later` are the two times that the clock is asked for.
  unfoldable pub reopen : LoggerFile → State → ℕ → ℕ → Reopened State
  unfolding ensure_folder then_open
  reopen this s now later =
      if is_due this now
      then then_open (record this { last_reopen_ = now; file_ = closed this.file_ }) later
          (ensure_folder s this.file_name_)
      else ((this, s), done tt)

  unfoldable pub log_directive : LoggerFile → State → Bytes → Bytes → Bytes → ℕ → ℕ → Reopened State
  unfolding line reopen
  log_directive this s timestamp custom_directive message now later =
      let output = line timestamp custom_directive message in
      reopen this (if is_open this.file_ then files.append s this.file_name_ output else s) now
        later

  unfoldable pub log : LoggerFile → State → Bytes → LogLevel → Bytes → ℕ → ℕ → Reopened State
  unfolding log_directive uncolored
  log this s timestamp level message now later =
      log_directive this s timestamp (uncolored level) message now later

  -- `std::stol`, and the default for what is not positive.
  abbrev pub interval_of : Option ℤ → Option ℕ
  interval_of none = none
  interval_of (some (negsuc n)) = some 300
  interval_of (some (pos n)) = some (if ltb 0 n then n else 300)

  unfoldable pub reopen_interval : Option Bytes → Attempt ℕ
  unfolding stoi_bits
  reopen_interval none = done 300
  reopen_interval (some text) = elim (interval_of (stoi_bits 63 text)) [
    | none ↦ std_exception (text ++ codes " is not a valid reopen interval")
    | some n ↦ done n
  ]

  abbrev pub constructed : Reopened State → State × Attempt LoggerFile
  constructed ((this, s), done t) = (s, done this)
  constructed ((this, s), dns_exception what) = (s, dns_exception what)
  constructed ((this, s), std_exception what) = (s, std_exception what)

  -- The constructor; a name that is empty stands for `app.log`.
  unfoldable pub logger_file : LoggerConfig → State → ℕ → ℕ → State × Attempt LoggerFile
  unfolding find reopen_interval reopen
  logger_file config s now later = elim (find (codes "file_name") config) [
    | none ↦ (s, std_exception (codes "no output file provided to file logger"))
    | some name ↦ elim (reopen_interval (find (codes "file_reopen_interval") config)) [
      | dns_exception what ↦ (s, dns_exception what)
      | std_exception what ↦ (s, std_exception what)
      | done interval ↦ constructed (
          reopen
            (record {
              reopen_interval_ = interval;
              last_reopen_ = 0;
              file_name_ = if is_empty name then codes "app.log" else name;
              file_ = none;
            })
            s now later)
    ]
  ]
