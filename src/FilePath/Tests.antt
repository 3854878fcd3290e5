-- ===== src/FilePath/Tests.antt =====
-- Runs over a system with one file, and the theorems at concrete paths.
use social_network.StringHelpers.{starts_with}
use social_network.Prelude.{
  ◌++◌, has, ℕ, ◌≡◌, refl, true, false, [], ◌∷◌, none, some, Bytes, codes, equal, if◌then◌else◌,
  pos, done, ap, sym, ◌∙◌, Option,
}
use social_network.FilePath.{FilePath, set_path, basename, extension, filename, fs_parent_path}
use social_network.FilePath.System.{Filesystem, FileType, regular, directory, Stat, ended, entry}
use social_network.FilePath.Bits.{bit}
use social_network.FilePath.Permissions.{
  Caller, can_access, may_execute, executable, set_writeable, can_write, permissions_loop,
  set_directory_permissions,
}
use social_network.FilePath.Entries.{then_entry, report, set_directory_permissions-last}
use social_network.FilePath.Writing.{
  SetsModes, with_mode, may_execute-executable, can_write-set_writeable,
}
use social_network.FilePath.Names.{IsSuffix, basename-extension}
use social_network.FilePath.Listing.{list_files, list_subdirs, list_files-kept}

abbrev log : Bytes
log = codes "/var/log/a.log"

-- The state is what `stat` says of the file, and every path is that file, or its folder.
abbrev one_file : FileType → Filesystem Stat
unfolding equal
one_file type = record {
  status = λ s path. record {
    type = if equal path (codes "/var/log") then directory else type;
    perms = s.st_mode;
    ec = none;
  };
  symlink_status = λ s path. record { type = type; perms = s.st_mode; ec = none };
  stat = λ s path. some s;
  is_empty = λ s path. (false, none);
  absolute = λ s path. (path, none);
  weakly_canonical = λ s path. (path, none);
  relative = λ s path base. done (codes "a.log");
  last_write_time = λ s path. (pos 0, none);
  file_size = λ s path. (0, none);
  space = λ s path. (record { capacity = 0; free = 0; available = 0 }, none);
  directory_iterator = λ s path. entry log (entry (codes "/var/log/b.txt") ended);
  permissions = λ s path m. (with_mode (λ n. m) s, none);
  create_hard_link = λ s from to. (s, none);
  create_symlink = λ s from to. (s, none);
  copy_symlink = λ s from to. (s, none);
  rename = λ s from to. (s, none);
  copy = λ s from to recursive. (s, none);
  copy_file = λ s from to. (s, (true, none));
  remove = λ s path. (s, (true, none));
  remove_all = λ s path. (s, (1, none));
  create_directory = λ s path. (s, (true, none));
  create_directories = λ s path. (s, (true, none));
  create_empty = λ s path. s;
  set_last_write_time = λ s path ts. (s, none);
  resize_file = λ s path size. (s, done tt);
}

-- 0644 of the user 1000.
abbrev owned : Stat
owned = record { st_uid = 1000; st_gid = 100; st_mode = 420; st_ctime = pos 0 }

abbrev ann : Caller
ann = record { uid = 1000; gid = 100 }

abbrev file : FilePath
unfolding set_path
file = set_path log

without_slash : (set_path (codes "/var/log/")).path_ ≡ codes "/var/log"
unfolding set_path
without_slash = refl

parents :
    (fs_parent_path log ≡ codes "/var/log")
    × (fs_parent_path (codes "/a") ≡ codes "/")
    × (fs_parent_path (codes "a") ≡ [])
unfolding fs_parent_path
parents = (refl, refl, refl)

name : (basename file ≡ codes "a") × (extension file ≡ codes ".log")
unfolding basename extension file
name = (refl, refl)

mode : (executable true 420 ≡ 493) × (executable false 493 ≡ 420)
unfolding executable
mode = (refl, refl)

may_execute-executable_example : may_execute ann (with_mode (executable true) owned) ≡ true
unfolding may_execute can_access
may_execute-executable_example = may_execute-executable ann owned true

abbrev uid_of : Option Stat → ℕ
uid_of none = 0
uid_of (some st) = st.st_uid

abbrev gid_of : Option Stat → ℕ
gid_of none = 0
gid_of (some st) = st.st_gid

one_file-SetsModes : SetsModes (one_file regular)
unfolding one_file
one_file-SetsModes s s' path m st h e = (
  sym (ap (λ p. p.0.st_uid) h) ∙ ap uid_of e,
  sym (ap (λ p. p.0.st_gid) h) ∙ ap gid_of e,
  (λ k below. ap (λ p. bit k p.0.st_mode) (sym h)),
)

can_write-set_writeable_example :
    can_write (one_file regular) (with_mode (λ n. 292) owned) file ann ≡ false
unfolding set_writeable one_file file
can_write-set_writeable_example =
    can_write-set_writeable (one_file regular) file file one_file-SetsModes owned
      (with_mode (λ n. 292) owned) ann owned false refl refl refl

basename-extension_example :
    (basename file ++ extension file ≡ filename file)
    × (has b'/' (filename file) ≡ false)
    × IsSuffix (extension file)
basename-extension_example = basename-extension file

list_files-kept_example :
    (list_files (one_file regular) owned (set_path (codes "/var/log")) [] (codes ".log")
      ≡ (log ∷ [], none))
    × (list_subdirs (one_file regular) owned (set_path (codes "/var/log")) [] (codes ".log")
        ≡ ([], none))
unfolding list_files list_subdirs set_path one_file starts_with
list_files-kept_example =
    list_files-kept (one_file regular) owned (set_path (codes "/var/log")) [] (codes ".log")

-- A system where the permissions of the folder `/a` cannot be changed.
abbrev guarded : Filesystem Stat
unfolding one_file equal
guarded = record (one_file directory) {
  permissions = λ s path m.
      if equal path (codes "/a") then (s, some (codes "denied")) else (with_mode (λ n. m) s, none);
}

set_directory_permissions-last_example :
    (set_directory_permissions guarded owned file 493 true
      (then_entry (entry (codes "/a") ended) (codes "/b"))).1
    ≡ report guarded file none
unfolding permissions_loop guarded file
set_directory_permissions-last_example =
    set_directory_permissions-last guarded owned file 493 (entry (codes "/a") ended) (codes "/b")
      refl refl refl
