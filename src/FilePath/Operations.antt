-- ===== src/FilePath/Operations.antt =====
-- service/sources/helpers/filepath.cpp: the members that link, copy, move, remove and create. Each
-- gives the state of the system behind it, and its answer or what it throws.
use social_network.Prelude.{
  ℕ, Bool, true, false, not, ◌&&◌, ◌||◌, ◌∷◌, ◌++◌, Option, none, some, ltb, if◌then◌else◌, Bytes,
  Attempt, done, dns_exception, std_exception,
}
use social_network.Url.Path.{starts_slash, ends_slash}
use social_network.FilePath.{FilePath, is_nil, fs_parent_path}
use social_network.FilePath.System.{
  Filesystem, Walk, ended, threw, entry, ErrorCode, no_error, is_regular, is_folder, is_soft_link,
  is_special, fs_exists,
}
use social_network.FilePath.Permissions.{set_file_permissions, set_directory_permissions}

-- `operator/` of two paths.
unfoldable pub join : Bytes → Bytes → Bytes
unfolding starts_slash ends_slash
join a b = if starts_slash b then b else if is_nil a || ends_slash a then a ++ b else a ++ b'/' ∷ b

-- `if (ec) rv = false; return rv;`
abbrev pub answer {ℓ} : {State : Type ℓ} → Bool → State × ErrorCode → State × Attempt Bool
answer rv (s, ec) = (s, done (rv && no_error ec))

module _ {State : Type 0} (fs : Filesystem State) where
  -- One entry that is linked: its folder is created, whatever comes of that.
  unfoldable pub link_entry : State → Bytes → Bytes → Bytes → Bytes → State × ErrorCode
  unfolding join fs_parent_path
  link_entry s target link_path path relative_path =
      let created = fs.create_directories s (join link_path (fs_parent_path relative_path)) in
      fs.create_hard_link created.0 path (join link_path relative_path)

  -- The loop over the entries, which overwrites the error code each time.
  unfoldable pub link_loop :
      Bytes → Bytes → State → ErrorCode → Walk → (State × ErrorCode) × Option Bytes
  unfolding link_entry
  link_loop target link_path s ec ended = ((s, ec), none)
  link_loop target link_path s ec (threw what) = ((s, ec), some what)
  link_loop target link_path s ec (entry path walk) =
      let st = fs.status s path in
      let link = fs.symlink_status s path in
      let skipped = link_loop target link_path s link.ec walk in
      if is_regular st.type || is_soft_link link.type
      then (elim (fs.relative s path target) [
        | std_exception what ↦ ((s, link.ec), some what)
        | dns_exception what ↦ ((s, link.ec), some what)
        | done relative_path ↦
            let r = link_entry s target link_path path relative_path in
            link_loop target link_path r.0 r.1 walk
      ])
      else skipped

  abbrev pub linked : (State × ErrorCode) × Option Bytes → State × Attempt Bool
  linked (r, none) = answer true r
  linked (r, some what) = (r.0, std_exception what)

  -- `walk` is what the recursive iterator gives while the loop runs.
  unfoldable pub link : State → FilePath → Bytes → Bool → Bool → Walk → State × Attempt Bool
  unfolding fs_exists link_loop
  link s file path_to hardlink recursive walk =
      let st = fs.status s file.path_ in
      if not (is_nil file.path_) && not (is_nil path_to)
      then if hardlink
        then if (fs_exists fs s file.path_).0
          then if is_special st.type
            then answer false (s, st.ec)
            else if is_folder st.type
            then if recursive
              then linked (link_loop file.path_ path_to s st.ec walk)
              else answer false (s, st.ec)
            else answer true (fs.create_hard_link s file.path_ path_to)
          else answer false (s, (fs_exists fs s file.path_).1)
        else answer true (fs.create_symlink s file.path_ path_to)
      else (s, done false)

  abbrev pub answered : State × (Bool × ErrorCode) → State × Attempt Bool
  answered (s, (rv, ec)) = answer rv (s, ec)

  unfoldable pub copy : State → FilePath → Bytes → Bool → State × Attempt Bool
  unfolding fs_exists
  copy s file path_to recursive =
      let st = fs.status s file.path_ in
      let to = fs.status s path_to in
      if not (is_nil file.path_) && not (is_nil path_to)
      then if (fs_exists fs s file.path_).0
        then if is_special st.type
          then answer false (s, st.ec)
          else if is_soft_link (fs.symlink_status s file.path_).type
          then answer true (fs.copy_symlink s file.path_ path_to)
          else if is_regular st.type
          then if (fs_exists fs s path_to).0 && is_folder to.type
            then answer true (fs.copy s file.path_ path_to false)
            else answered (fs.copy_file s file.path_ path_to)
          else if is_folder st.type
          then answer true (fs.copy s file.path_ path_to recursive)
          else answer false (s, st.ec)
        else (s, done false)
      else (s, done false)

  unfoldable pub move : State → FilePath → Bytes → State × Attempt Bool
  unfolding fs_exists
  move s file path_to =
      let st = fs.status s file.path_ in
      if not (is_nil file.path_) && not (is_nil path_to)
      then if (fs_exists fs s file.path_).0
        then if is_special st.type
          then answer false (s, st.ec)
          else answer true (fs.rename s file.path_ path_to)
        else answer false (s, (fs_exists fs s file.path_).1)
      else (s, done false)

  abbrev pub removed_any : State × (ℕ × ErrorCode) → State × (Bool × ErrorCode)
  removed_any (s, (n, ec)) = (s, (ltb 0 n, ec))

  unfoldable pub remove : State → FilePath → Bool → State × Attempt Bool
  remove s file recursive =
      let st = fs.status s file.path_ in
      if not (is_nil file.path_)
      then if is_special st.type
        then answer false (s, st.ec)
        else if is_soft_link (fs.symlink_status s file.path_).type || is_regular st.type
        then answered (fs.remove s file.path_)
        else if is_folder st.type
        then if recursive
          then answered (removed_any (fs.remove_all s file.path_))
          else answered (fs.remove s file.path_)
        else answer false (s, st.ec)
      else (s, done false)

  -- What `set_..._permissions` throws is thrown on; the error code is the one before it.
  abbrev pub then_answer : ErrorCode → State × Attempt FilePath → State × Attempt Bool
  then_answer ec (s, done file) = (s, done (no_error ec))
  then_answer ec (s, dns_exception what) = (s, dns_exception what)
  then_answer ec (s, std_exception what) = (s, std_exception what)

  -- 0664.
  unfoldable pub create_file : State → FilePath → State × Attempt Bool
  unfolding fs_exists set_file_permissions
  create_file s file =
      let s' = fs.create_empty s file.path_ in
      let st = fs.status s' file.path_ in
      if not (is_nil file.path_)
      then if (fs_exists fs s file.path_).0
        then (s, done false)
        else if is_regular st.type
        then then_answer st.ec (set_file_permissions fs s' file 436)
        else (s', done (no_error st.ec))
      else (s, done false)

  -- 0777.
  abbrev pub with_permissions : FilePath → State × (Bool × ErrorCode) → State × Attempt Bool
  unfolding set_directory_permissions
  with_permissions file (s, (true, ec)) =
      then_answer ec (set_directory_permissions fs s file 511 false ended)
  with_permissions file (s, (false, ec)) = (s, done (no_error ec))

  unfoldable pub create_directory : State → FilePath → Bool → State × Attempt Bool
  unfolding fs_exists
  create_directory s file full_path =
      if not (is_nil file.path_)
      then if (fs_exists fs s file.path_).0
        then (s, done false)
        else if full_path
        then with_permissions file (fs.create_directories s file.path_)
        else with_permissions file (fs.create_directory s file.path_)
      else (s, done false)
