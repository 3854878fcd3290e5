-- ===== src/FilePath.antt =====
-- service/sources/helpers/filepath.cpp. The path and what `std::filesystem::path` makes of it;
-- System is the file system as the code sees it, Status and Permissions are the questions,
-- Operations the changes, Listing the contents of a directory.
pub mod Names
pub mod System
pub mod Bits
pub mod Permissions
pub mod Writing
pub mod Operations
pub mod Entries
pub mod Listing
mod Tests
use social_network.Prelude.{
  ◌-◌, Bool, true, false, not, ◌&&◌, [], ◌∷◌, leb, ltb, ◌==◌, if◌then◌else◌, Bytes, has, length,
  take,
}
use social_network.Url.Path.{ends_slash}

pub record FilePath : Type 0 where
  pub path_ : Bytes

-- `set_path`, which the constructors and the assignments call.
unfoldable pub set_path : Bytes → FilePath
unfolding ends_slash
set_path path = record {
  path_ = if ltb 1 (length path) && ends_slash path then take (length path - 1) path else path;
}

unfoldable pub swap : FilePath → FilePath → FilePath × FilePath
swap f1 f2 = (f2, f1)

abbrev pub is_nil : Bytes → Bool
is_nil [] = true
is_nil (c ∷ s) = false

-- `std::filesystem::path::filename` is what stands behind the last slash.
unfoldable pub fs_filename : Bytes → Bytes
unfolding has
fs_filename [] = []
fs_filename (c ∷ s) = if has b'/' (c ∷ s) then fs_filename s else c ∷ s

unfoldable pub before_filename : Bytes → Bytes
unfolding has
before_filename [] = []
before_filename (c ∷ s) = if has b'/' (c ∷ s) then c ∷ before_filename s else []

unfoldable pub drop_slashes : Bytes → Bytes
drop_slashes [] = []
drop_slashes (c ∷ s) =
    let rest = drop_slashes s in if c == b'/' && is_nil rest then [] else c ∷ rest

-- `parent_path`: a root is its own parent.
unfoldable pub fs_parent_path : Bytes → Bytes
unfolding before_filename drop_slashes
fs_parent_path s =
    if is_nil (drop_slashes s)
    then s
    else if is_nil (drop_slashes (before_filename s))
    then take 1 (before_filename s)
    else drop_slashes (before_filename s)

-- From the last dot on, and up to there.
unfoldable pub from_dot : Bytes → Bytes
unfolding has
from_dot [] = []
from_dot (c ∷ s) = if has b'.' s then from_dot s else if c == b'.' then c ∷ s else []

unfoldable pub up_to_dot : Bytes → Bytes
unfolding has
up_to_dot [] = []
up_to_dot (c ∷ s) = if has b'.' s then c ∷ up_to_dot s else if c == b'.' then [] else c ∷ s

-- `stem` and `extension` of a file name: a dot at the front starts no extension.
unfoldable pub fs_stem : Bytes → Bytes
unfolding up_to_dot
fs_stem [] = []
fs_stem (c ∷ s) = if c == b'.' && leb (length s) 1 then c ∷ s else c ∷ up_to_dot s

unfoldable pub fs_extension : Bytes → Bytes
unfolding from_dot
fs_extension [] = []
fs_extension (c ∷ s) = if c == b'.' && leb (length s) 1 then [] else from_dot s

module _ (file : FilePath) where
  unfoldable pub parent_path : Bytes
  unfolding fs_parent_path
  parent_path = if not (is_nil file.path_) then fs_parent_path file.path_ else []

  unfoldable pub filename : Bytes
  unfolding fs_filename
  filename = if not (is_nil file.path_) then fs_filename file.path_ else []

  unfoldable pub basename : Bytes
  unfolding fs_filename fs_stem
  basename = if not (is_nil file.path_) then fs_stem (fs_filename file.path_) else []

  unfoldable pub extension : Bytes
  unfolding fs_filename fs_extension
  extension = if not (is_nil file.path_) then fs_extension (fs_filename file.path_) else []

  unfoldable pub hidden : Bool
  unfolding fs_filename
  hidden =
      if not (is_nil file.path_)
      then elim (fs_filename file.path_) [ [] ↦ false | c ∷ s ↦ c == b'.' ]
      else false
