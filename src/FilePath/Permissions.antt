-- ===== src/FilePath/Permissions.antt =====
-- service/sources/helpers/filepath.cpp: who may read, write and execute, and the members that change
-- the permissions.
use social_network.Prelude.{
  ℕ, ◌%◌, Bool, true, false, not, ◌&&◌, ◌||◌, ◌++◌, Option, none, some, ◌==◌, if◌then◌else◌, Bytes,
  codes, Attempt, done, std_exception,
}
use social_network.FilePath.{FilePath, is_nil, set_path}
use social_network.FilePath.System.{
  Filesystem, Stat, Walk, ended, threw, entry, is_known, ErrorCode, is_regular, is_folder,
  is_soft_link, fs_exists, exists, absolute_path,
}
use social_network.FilePath.Bits.{bit, set_bit, clear_bit}

-- `geteuid()` and `getegid()`.
pub record Caller : Type 0 where
  pub uid : ℕ
  pub gid : ℕ

-- The user root may what others may not.
unfoldable pub can_access : Caller → ℕ → ℕ → ℕ → Stat → Bool
unfolding bit
can_access who owner group others st =
    if st.st_uid == who.uid
    then bit owner st.st_mode
    else if st.st_gid == who.gid
    then bit group st.st_mode
    else bit others st.st_mode || who.uid == 0

unfoldable pub may_execute : Caller → Stat → Bool
unfolding bit
may_execute who st =
    if st.st_uid == who.uid || who.uid == 0
    then bit 6 st.st_mode
    else if st.st_gid == who.gid
    then bit 3 st.st_mode
    else bit 0 st.st_mode

abbrev pub of_stat : (Stat → Bool) → Option Stat → Bool
of_stat f none = false
of_stat f (some st) = f st

-- The permissions that are written.
unfoldable pub writeable : Bool → ℕ → ℕ
unfolding set_bit clear_bit
writeable true cur_perm = set_bit 7 cur_perm
writeable false cur_perm = clear_bit 1 (clear_bit 4 (clear_bit 7 cur_perm))

unfoldable pub executable : Bool → ℕ → ℕ
unfolding bit set_bit clear_bit
executable true cur_perm =
    let owner = set_bit 6 cur_perm in
    let group = if bit 5 cur_perm then set_bit 3 owner else owner in
    if bit 2 cur_perm then set_bit 0 group else group
executable false cur_perm = clear_bit 0 (clear_bit 3 (clear_bit 6 cur_perm))

-- `perms & mask`.
abbrev pub masked : ℕ → ℕ
masked perms = perms % 4096

-- What the exception of a `std::filesystem` function says.
abbrev pub filesystem_error : Bytes → ErrorCode → Bytes
filesystem_error path none = codes "filesystem error: status: [" ++ path ++ codes "]"
filesystem_error path (some what) =
    codes "filesystem error: status: " ++ what ++ codes " [" ++ path ++ codes "]"

module _ {State : Type 0} (fs : Filesystem State) (s : State) (file : FilePath) where
  unfoldable pub can_read : Caller → Bool
  unfolding can_access
  can_read who = not (is_nil file.path_) && of_stat (can_access who 8 5 2) (fs.stat s file.path_)

  unfoldable pub can_write : Caller → Bool
  unfolding can_access
  can_write who = not (is_nil file.path_) && of_stat (can_access who 7 4 1) (fs.stat s file.path_)

  unfoldable pub can_execute : Caller → Bool
  unfolding may_execute absolute_path exists set_path
  can_execute who =
      if not (is_nil file.path_)
      then (elim (absolute_path fs s file) [
        | none ↦ false
        | some path ↦ exists fs s (set_path path) && of_stat (may_execute who) (fs.stat s path)
      ])
      else false

  -- `permissions` with the error code, which is thrown.
  unfoldable pub settle : Bytes → State × ErrorCode → State × Attempt FilePath
  settle name (s', none) = (s', done file)
  settle name (s', some what) = (s', std_exception (name ++ codes "(): " ++ what))

  unfoldable pub change_permissions : Bytes → (ℕ → ℕ) → State × Attempt FilePath
  unfolding settle
  change_permissions name f =
      let st = fs.status s file.path_ in
      if is_nil file.path_
      then (s, std_exception (name ++ codes "(): path is empty"))
      else if is_known st.type
      then settle name (fs.permissions s file.path_ (f st.perms))
      else (s, std_exception (filesystem_error file.path_ st.ec))

  unfoldable pub set_writeable : Bool → State × Attempt FilePath
  unfolding change_permissions writeable
  set_writeable flag = change_permissions (codes "set_writeable") (writeable flag)

  unfoldable pub set_executable : Bool → State × Attempt FilePath
  unfolding change_permissions executable
  set_executable flag = change_permissions (codes "set_executable") (executable flag)

  unfoldable pub permissions : Option ℕ
  unfolding fs_exists
  permissions =
      if not (is_nil file.path_) && (fs_exists fs s file.path_).0
      then some (fs.status s file.path_).perms
      else none

  unfoldable pub set_file_permissions : ℕ → State × Attempt FilePath
  unfolding settle
  set_file_permissions perms =
      let name = codes "set_file_permissions" in
      let st = fs.status s file.path_ in
      let link = fs.symlink_status s file.path_ in
      if is_nil file.path_
      then (s, std_exception (name ++ codes "(): path is empty"))
      else settle name (
          if is_regular st.type || is_soft_link link.type
          then fs.permissions s file.path_ (masked perms)
          else (s, link.ec))

module _ {State : Type 0} (fs : Filesystem State) where
  -- The loop over the entries; every call overwrites the error code of the one before.
  unfoldable pub permissions_loop :
      ℕ → State → ErrorCode → Walk → (State × ErrorCode) × Option Bytes
  permissions_loop perm s ec ended = ((s, ec), none)
  permissions_loop perm s ec (threw what) = ((s, ec), some what)
  permissions_loop perm s ec (entry path walk) =
      let st = fs.status s path in
      let next = if is_folder st.type then fs.permissions s path perm else (s, st.ec) in
      permissions_loop perm next.0 next.1 walk

  unfoldable pub walked :
      FilePath → Bytes → (State × ErrorCode) × Option Bytes → State × Attempt FilePath
  unfolding settle
  walked file name (r, none) = settle fs r.0 file name r
  walked file name (r, some what) = (r.0, std_exception what)

  -- `walk` is what the recursive iterator gives while the loop runs.
  unfoldable pub set_directory_permissions :
      State → FilePath → ℕ → Bool → Walk → State × Attempt FilePath
  unfolding settle permissions_loop walked
  set_directory_permissions s file perms recursive walk =
      let name = codes "set_directory_permissions" in
      let st = fs.status s file.path_ in
      if is_nil file.path_
      then (s, std_exception (name ++ codes "(): path is empty"))
      else if recursive
      then walked file name (permissions_loop (masked perms) s none walk)
      else settle fs s file name
          (if is_folder st.type then fs.permissions s file.path_ (masked perms) else (s, st.ec))
