-- ===== src/Logger/Reopening.antt =====
-- What `reopen` of service/sources/logger/logger_file.cpp leaves, and the name that `_file_name_` of
-- service/include/logger/logger.h cuts out of a path.
use social_network.Prelude.{
  ℕ, ◌≡◌, refl, Bool, true, false, [], ◌∷◌, Option, none, some, if◌then◌else◌, Bytes, has, arith,
  Attempt, done, dns_exception, std_exception,
}
use social_network.FilePath.{fs_filename}
use social_network.Logger.{file_name_loop, file_name}
use social_network.Logger.File.{
  Files, LoggerFile, is_open, closed, Reopened, sliced, ensure_folder, make_stream, open_again,
  opened, then_open, is_due, reopen,
}

-- The stream is open since `later`, or closed, and then the exception says nothing of the cause.
abbrev pub Outcome : {State : Type 0} → ℕ → ℕ → Reopened State → Type 0
Outcome now later ((this, s), done t) = (this.file_ ≡ some true) × (this.last_reopen_ ≡ later)
Outcome now later ((this, s), dns_exception what) = ⊥
Outcome now later ((this, s), std_exception what) =
    (what ≡ sliced) × (is_open this.file_ ≡ false) × (this.last_reopen_ ≡ now)

closed-is_open : (file : Option Bool) → is_open (closed file) ≡ false
closed-is_open none = refl
closed-is_open (some was_open) = refl

module _ {State : Type 0} (files : Files State) (later : ℕ) where
  opened-Outcome :
      (this : LoggerFile) (r : State × Bool)
      → Outcome this.last_reopen_ later (opened files this later r)
  unfolding opened
  opened-Outcome this (s, true) = (refl, refl)
  opened-Outcome this (s, false) = (refl, refl, refl)

  then_open-Outcome :
      (this : LoggerFile) (r : State × Attempt (Unit {0}))
      → is_open this.file_ ≡ false
      → Outcome this.last_reopen_ later (then_open files this later r)
  unfolding then_open
  then_open-Outcome this (s, done t) h =
      opened-Outcome this
        (open_again files this.file_name_ (make_stream files s this.file_name_ this.file_))
  then_open-Outcome this (s, dns_exception what) h = (refl, h, refl)
  then_open-Outcome this (s, std_exception what) h = (refl, h, refl)

  -- When the interval has passed, `reopen` leaves the stream open and its time the later one, or it
  -- leaves no open stream and throws, and what it throws says `std::exception` and nothing of the cause.
  pub reopen-Outcome :
      (this : LoggerFile) (s : State) (now : ℕ)
      → is_due files this now ≡ true
      → Outcome now later (reopen files this s now later)
  unfolding reopen
  reopen-Outcome this s now due = rw due (
      then_open-Outcome (record this { last_reopen_ = now; file_ = closed this.file_ })
        (ensure_folder files s this.file_name_) (closed-is_open this.file_))

filename-none : (s : Bytes) → has b'/' s ≡ false → fs_filename s ≡ s
unfolding fs_filename has
filename-none [] h = refl
filename-none (c ∷ s) h = ground arith

file_name_loop-filename :
    (file s : Bytes) → file_name_loop file s ≡ (if has b'/' s then fs_filename s else file)
unfolding file_name_loop fs_filename has
file_name_loop-filename file [] = refl
file_name_loop-filename file (c ∷ s) =
    ground (arith, file_name_loop-filename s s, file_name_loop-filename file s, filename-none s)

-- `_file_name_` cuts out the same name as `std::filesystem::path::filename`.
pub file_name-filename : (path : Bytes) → file_name path ≡ fs_filename path
unfolding file_name
file_name-filename path = ground (arith, file_name_loop-filename path path, filename-none path)
