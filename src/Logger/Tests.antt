-- ===== src/Logger/Tests.antt =====
-- Runs of the loggers, and the theorem of `reopen` at a full disk.
use social_network.Prelude.{
  ◌≡◌, refl, Bool, true, false, [], ◌∷◌, ◌++◌, some, Bytes, codes, is_empty, equal, done,
  std_exception, not,
}
use social_network.Logger.{log_error, log_infor, to_loglevel, available, log, file_name}
use social_network.Logger.File.{Files, LoggerFile, sliced, reopen, logger_file, log as log_file}
use social_network.Logger.Reopening.{Outcome, reopen-Outcome}

-- The state is what stands in the only file; a folder without a name is none.
abbrev one_folder : Bool → Files Bytes
one_folder has_space = record {
  is_directory = λ s path. done (not (is_empty path));
  create_directories = λ s path. (s, std_exception (codes "Invalid argument"));
  open_file = λ s path. (s, has_space);
  append = λ s path text. s ++ text;
}

abbrev app_log : LoggerFile
app_log = record {
  reopen_interval_ = 300;
  last_reopen_ = 0;
  file_name_ = codes "/var/log/app.log";
  file_ = some true;
}

colored_line :
    log ((codes "color", codes "true") ∷ []) (codes "12:00") (codes "hi") log_error
    ≡ codes "12:00 " ++ 27 ∷ codes "[31;1m[ERROR]" ++ 27 ∷ codes "[0m hi" ++ 10 ∷ []
unfolding log equal
colored_line = refl

level_of_words : to_loglevel ((codes "level", codes "debug") ∷ []) ≡ log_error
unfolding to_loglevel equal
level_of_words = refl

info_at_error : available log_error log_infor ≡ false
unfolding available
info_at_error = refl

source_name : file_name (codes "src/service/main.cpp") ≡ codes "main.cpp"
unfolding file_name
source_name = refl

-- The default name has no folder, and its logger is not made, on a disk with space.
default_file :
    (logger_file (one_folder true) ((codes "file_name", codes "app.log") ∷ []) [] 1000000000000 0).1
    ≡ std_exception sliced
unfolding logger_file equal
default_file = refl

written :
    (log_file (one_folder true) app_log [] (codes "12:00") log_error (codes "hi") 1 2).0.1
    ≡ codes "12:00 [ERROR] hi" ++ 10 ∷ []
unfolding log_file
written = refl

reopen-Outcome_example :
    Outcome 1000000000000 1000000000001
      (reopen (one_folder false) app_log [] 1000000000000 1000000000001)
reopen-Outcome_example =
    reopen-Outcome (one_folder false) 1000000000001 app_log [] 1000000000000 refl
