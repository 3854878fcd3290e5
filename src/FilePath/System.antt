-- ===== src/FilePath/System.antt =====
-- The calls of `std::filesystem` and of POSIX that service/sources/helpers/filepath.cpp makes: what
-- the system answers is a record, and what `std::filesystem` derives from a status is written out.
use social_network.Prelude.{
  ℕ, Bool, true, false, not, ◌&&◌, Option, none, some, if◌then◌else◌, Bytes, Attempt, ℤ, negsuc,
  done,
}
use social_network.FilePath.{FilePath, is_nil}

-- An error code with its message; a call without an error clears it.
abbrev pub ErrorCode : Type 0
ErrorCode = Option Bytes

-- `std::filesystem::file_type`: `other` is a device, a pipe, a socket or unknown; `no_type` is a
-- status that could not be had.
pub data FileType : Type 0 where
  no_type not_found regular directory symlink other : FileType

-- A status; a status that was not found has the error code of that.
pub record Status : Type 0 where
  pub type : FileType
  pub perms : ℕ
  pub ec : ErrorCode

-- What the code reads of a `struct stat`.
pub record Stat : Type 0 where
  pub st_uid : ℕ
  pub st_gid : ℕ
  pub st_mode : ℕ
  pub st_ctime : ℤ

-- `std::filesystem::space_info`.
pub record Space : Type 0 where
  pub capacity : ℕ
  pub free : ℕ
  pub available : ℕ

-- The entries that an iterator over a directory gives, and the exception it may end in.
pub data Walk : Type 0 where
  ended : Walk
  threw : Bytes → Walk
  entry : Bytes → Walk → Walk

-- The system: `status` follows symbolic links and `symlink_status` does not; the others are named
-- after the functions that are called, which give the state behind the call.
pub record Filesystem (State : Type 0) : Type 0 where
  pub status : State → Bytes → Status
  pub symlink_status : State → Bytes → Status
  pub stat : State → Bytes → Option Stat
  pub is_empty : State → Bytes → Bool × ErrorCode
  pub absolute : State → Bytes → Bytes × ErrorCode
  pub weakly_canonical : State → Bytes → Bytes × ErrorCode
  pub relative : State → Bytes → Bytes → Attempt Bytes
  pub last_write_time : State → Bytes → ℤ × ErrorCode
  pub file_size : State → Bytes → ℕ × ErrorCode
  pub space : State → Bytes → Space × ErrorCode
  pub directory_iterator : State → Bytes → Walk
  pub permissions : State → Bytes → ℕ → State × ErrorCode
  pub create_hard_link : State → Bytes → Bytes → State × ErrorCode
  pub create_symlink : State → Bytes → Bytes → State × ErrorCode
  pub copy_symlink : State → Bytes → Bytes → State × ErrorCode
  pub rename : State → Bytes → Bytes → State × ErrorCode
  pub copy : State → Bytes → Bytes → Bool → State × ErrorCode
  pub copy_file : State → Bytes → Bytes → State × (Bool × ErrorCode)
  pub remove : State → Bytes → State × (Bool × ErrorCode)
  pub remove_all : State → Bytes → State × (ℕ × ErrorCode)
  pub create_directory : State → Bytes → State × (Bool × ErrorCode)
  pub create_directories : State → Bytes → State × (Bool × ErrorCode)
  pub create_empty : State → Bytes → State
  pub set_last_write_time : State → Bytes → ℤ → State × ErrorCode
  pub resize_file : State → Bytes → ℕ → State × Attempt (Unit {0})

abbrev pub no_error : ErrorCode → Bool
no_error none = true
no_error (some what) = false

-- `std::filesystem::exists` of a status.
abbrev pub is_found : FileType → Bool
is_found no_type = false
is_found not_found = false
is_found regular = true
is_found directory = true
is_found symlink = true
is_found other = true

abbrev pub is_known : FileType → Bool
is_known no_type = false
is_known not_found = true
is_known regular = true
is_known directory = true
is_known symlink = true
is_known other = true

abbrev pub is_regular : FileType → Bool
is_regular regular = true
is_regular no_type = false
is_regular not_found = false
is_regular directory = false
is_regular symlink = false
is_regular other = false

abbrev pub is_folder : FileType → Bool
is_folder directory = true
is_folder no_type = false
is_folder not_found = false
is_folder regular = false
is_folder symlink = false
is_folder other = false

abbrev pub is_soft_link : FileType → Bool
is_soft_link symlink = true
is_soft_link no_type = false
is_soft_link not_found = false
is_soft_link regular = false
is_soft_link directory = false
is_soft_link other = false

abbrev pub is_special : FileType → Bool
is_special type =
    is_found type && not (is_regular type) && not (is_folder type) && not (is_soft_link type)

module _ {State : Type 0} (fs : Filesystem State) (s : State) where
  -- A status that is known has no error for `exists`.
  unfoldable pub fs_exists : Bytes → Bool × ErrorCode
  fs_exists path =
      let st = fs.status s path in (is_found st.type, if is_known st.type then none else st.ec)

  module _ (file : FilePath) where
    -- An answer that an error makes `false`, of a path that is not empty.
    abbrev pub asked : (Bytes → Bool × ErrorCode) → Bool
    asked ask =
        if not (is_nil file.path_)
        then (let rv = ask file.path_ in if no_error rv.1 then rv.0 else false)
        else false

    unfoldable pub exists : Bool
    unfolding fs_exists
    exists = asked fs_exists

    -- `is_empty` is asked of what exists alone.
    unfoldable pub exists_and_empty : Bool
    unfolding fs_exists
    exists_and_empty =
        asked
          (λ path. if (fs_exists path).0 then fs.is_empty s path else (false, (fs_exists path).1))

    unfoldable pub is_file : Bool
    is_file = asked (λ path. let st = fs.status s path in (is_regular st.type, st.ec))

    unfoldable pub is_link : Bool
    is_link = asked (λ path. let st = fs.symlink_status s path in (is_soft_link st.type, st.ec))

    unfoldable pub is_directory : Bool
    is_directory = asked (λ path. let st = fs.status s path in (is_folder st.type, st.ec))

    unfoldable pub is_other : Bool
    is_other = asked (λ path. let st = fs.status s path in (is_special st.type, st.ec))

    unfoldable pub file_exists : Bool
    unfolding exists is_file
    file_exists = exists && is_file

    unfoldable pub link_exists : Bool
    unfolding exists is_link
    link_exists = exists && is_link

    unfoldable pub directory_exists : Bool
    unfolding exists is_directory
    directory_exists = exists && is_directory

    abbrev pub if_done : Bytes × ErrorCode → Option Bytes
    if_done (path, none) = some path
    if_done (path, some what) = none

    unfoldable pub absolute_path : Option Bytes
    absolute_path = if not (is_nil file.path_) then if_done (fs.absolute s file.path_) else none

    unfoldable pub canonical_path : Option Bytes
    canonical_path =
        if not (is_nil file.path_) then if_done (fs.weakly_canonical s file.path_) else none

    -- The status has changed then, not that the file was created.
    unfoldable pub get_created_ts : ℤ
    get_created_ts =
        if not (is_nil file.path_)
        then elim (fs.stat s file.path_) [ none ↦ negsuc 0 | some st ↦ st.st_ctime ]
        else negsuc 0

    -- The error code is not read here and below.
    unfoldable pub get_last_modified_ts : ℤ
    get_last_modified_ts =
        if not (is_nil file.path_) then (fs.last_write_time s file.path_).0 else negsuc 0

    unfoldable pub set_last_modified_ts : ℤ → State
    set_last_modified_ts ts =
        if not (is_nil file.path_) then (fs.set_last_write_time s file.path_ ts).0 else s

    unfoldable pub get_size : ℕ
    get_size = if not (is_nil file.path_) then (fs.file_size s file.path_).0 else 0

    -- The overload that throws.
    unfoldable pub set_size : ℕ → State × Attempt (Unit {0})
    set_size size =
        if not (is_nil file.path_) then fs.resize_file s file.path_ size else (s, done tt)

    unfoldable pub total_space : ℕ
    total_space = if not (is_nil file.path_) then (fs.space s file.path_).0.capacity else 0

    unfoldable pub available_space : ℕ
    available_space = if not (is_nil file.path_) then (fs.space s file.path_).0.available else 0

    unfoldable pub free_space : ℕ
    free_space = if not (is_nil file.path_) then (fs.space s file.path_).0.free else 0
