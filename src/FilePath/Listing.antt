-- ===== src/FilePath/Listing.antt =====
-- service/sources/helpers/filepath.cpp: `list_files` and `list_subdirs`. What was pushed before an
-- exception stays in the vector.
use social_network.Prelude.{
  ℕ, ◌≡◌, refl, Bool, true, false, not, ◌&&◌, ◌||◌, List, [], ◌∷◌, ◌++◌, map, append_assoc,
  append-nil, Option, none, some, if◌then◌else◌, Bytes, Bool-cases, inl, inr, sym,
}
use social_network.StringHelpers.{find}
use social_network.FilePath.{FilePath, is_nil, fs_filename, set_path}
use social_network.FilePath.System.{
  Filesystem, FileType, Walk, ended, threw, entry, no_type, not_found, regular, directory, symlink,
  other, is_regular, is_folder, is_soft_link, is_found, fs_exists,
}

abbrev pub is_some : Option ℕ → Bool
is_some none = false
is_some (some n) = true

-- The filter: no text, or a text that is found in the name.
unfoldable pub passes : Bytes → Bytes → Bool
unfolding fs_filename find
passes filter path = is_nil filter || is_some (find filter (fs_filename path))

abbrev pub Listed : Type 0
Listed = List Bytes × Option Bytes

unfoldable pub list_loop : (Bytes → Bool) → Bytes → List Bytes → Walk → Listed
unfolding passes
list_loop is_kind filter items ended = (items, none)
list_loop is_kind filter items (threw what) = (items, some what)
list_loop is_kind filter items (entry path walk) =
    let skipped = list_loop is_kind filter items walk in
    let pushed = list_loop is_kind filter (items ++ path ∷ []) walk in
    if not (is_kind path) then skipped else if not (passes filter path) then skipped else pushed

module _ {State : Type 0} (fs : Filesystem State) (s : State) where
  unfoldable pub is_file_entry : Bytes → Bool
  is_file_entry path =
      is_regular (fs.status s path).type || is_soft_link (fs.symlink_status s path).type

  unfoldable pub is_folder_entry : Bytes → Bool
  is_folder_entry path = is_folder (fs.status s path).type

  module _ (file : FilePath) (items : List Bytes) (filter : Bytes) where
    unfoldable pub list_entries : (Bytes → Bool) → Listed
    unfolding fs_exists list_loop
    list_entries is_kind =
        if not (is_nil file.path_)
        then if (fs_exists fs s file.path_).0 && is_folder (fs.status s file.path_).type
          then list_loop is_kind filter items (fs.directory_iterator s file.path_)
          else (items, none)
        else (items, none)

    unfoldable pub list_files : Listed
    unfolding list_entries is_file_entry
    list_files = list_entries is_file_entry

    unfoldable pub list_subdirs : Listed
    unfolding list_entries is_folder_entry
    list_subdirs = list_entries is_folder_entry

-- The overloads that push paths; an exception comes before the first is pushed.
unfoldable pub push_paths : List FilePath → Listed → List FilePath × Option Bytes
unfolding set_path
push_paths items (files, none) = (items ++ map set_path files, none)
push_paths items (files, some what) = (items, some what)

unfoldable pub list_file_paths :
    {State : Type 0}
    → Filesystem State
    → State
    → FilePath
    → List FilePath
    → Bytes
    → List FilePath × Option Bytes
unfolding push_paths list_files
list_file_paths fs s file items filter = push_paths items (list_files fs s file [] filter)

unfoldable pub list_subdir_paths :
    {State : Type 0}
    → Filesystem State
    → State
    → FilePath
    → List FilePath
    → Bytes
    → List FilePath × Option Bytes
unfolding push_paths list_subdirs
list_subdir_paths fs s file items filter = push_paths items (list_subdirs fs s file [] filter)

-- The entries that were given, and the exception behind them.
abbrev pub entries : Walk → List Bytes
entries ended = []
entries (threw what) = []
entries (entry path walk) = path ∷ entries walk

abbrev pub ending : Walk → Option Bytes
ending ended = none
ending (threw what) = some what
ending (entry path walk) = ending walk

abbrev pub kept : (Bytes → Bool) → List Bytes → List Bytes
kept keeps [] = []
kept keeps (path ∷ paths) = if keeps path then path ∷ kept keeps paths else kept keeps paths

list_loop-kept :
    (is_kind : Bytes → Bool) (filter : Bytes) (items : List Bytes) (walk : Walk)
    → list_loop is_kind filter items walk
      ≡ (items ++ kept (λ path. is_kind path && passes filter path) (entries walk), ending walk)
unfolding list_loop
list_loop-kept is_kind filter items ended = rw (append-nil items) refl
list_loop-kept is_kind filter items (threw what) = rw (append-nil items) refl
list_loop-kept is_kind filter items (entry path walk) = elim (Bool-cases (is_kind path)) [
  | inr e ↦ rw e (list_loop-kept is_kind filter items walk)
  | inl e ↦ elim (Bool-cases (passes filter path)) [
    | inr fails ↦ rw (e, fails) (list_loop-kept is_kind filter items walk)
    | inl holds ↦
        rw
          (
            e,
            holds,
            list_loop-kept is_kind filter (items ++ path ∷ []) walk,
            append_assoc items (path ∷ [])
                (kept (λ p. is_kind p && passes filter p) (entries walk)),
          )
          refl
  ]
]

-- The entries that are looked at: none, unless the path is that of a directory.
abbrev pub walk_of : {State : Type 0} → Filesystem State → State → FilePath → Walk
walk_of fs s file =
    if not (is_nil file.path_) && is_folder (fs.status s file.path_).type
    then fs.directory_iterator s file.path_
    else ended

is_found_folder : (type : FileType) → is_folder type ≡ (is_found type && is_folder type)
is_found_folder no_type = refl
is_found_folder not_found = refl
is_found_folder regular = refl
is_found_folder directory = refl
is_found_folder symlink = refl
is_found_folder other = refl

list_entries-kept :
    {State : Type 0} (fs : Filesystem State) (s : State) (file : FilePath) (items : List Bytes)
    (filter : Bytes) (is_kind : Bytes → Bool)
    → list_entries fs s file items filter is_kind ≡ (
      items ++ kept (λ path. is_kind path && passes filter path) (entries (walk_of fs s file)),
      ending (walk_of fs s file),
    )
unfolding list_entries fs_exists
list_entries-kept fs s file items filter is_kind = elim (Bool-cases (is_nil file.path_)) [
  | inl nil ↦ rw (nil, append-nil items) refl
  | inr given ↦
      let type = (fs.status s file.path_).type in
      elim (Bool-cases (is_folder type)) [
        | inl e ↦
            rw (given, sym (is_found_folder type), e)
              (list_loop-kept is_kind filter items (fs.directory_iterator s file.path_))
        | inr e ↦ rw (given, sym (is_found_folder type), e, append-nil items) refl
      ]
]

-- `list_files` and `list_subdirs` leave the vector as it was with the entries behind it that are of the
-- kind and pass the filter, in the order of the directory, and end as its iterator ends; of a path
-- that is no directory there are none.
pub list_files-kept :
    {State : Type 0} (fs : Filesystem State) (s : State) (file : FilePath) (items : List Bytes)
    (filter : Bytes)
    → let walk = walk_of fs s file in
      let found = λ (is_kind : Bytes → Bool).
        kept (λ path. is_kind path && passes filter path) (entries walk) in
      (list_files fs s file items filter ≡ (items ++ found (is_file_entry fs s), ending walk))
      × (list_subdirs fs s file items filter ≡ (items ++ found (is_folder_entry fs s), ending walk))
unfolding list_files list_subdirs
list_files-kept fs s file items filter = (
  list_entries-kept fs s file items filter (is_file_entry fs s),
  list_entries-kept fs s file items filter (is_folder_entry fs s),
)
