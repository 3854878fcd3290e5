-- ===== src/FilePath/Entries.antt =====
-- The loop of `set_directory_permissions` of service/sources/helpers/filepath.cpp, entry by entry.
use social_network.Prelude.{
  ℕ, ◌≡◌, refl, ap, ◌∙◌, true, false, none, some, Bytes, done, Attempt, std_exception, codes, ◌++◌,
  if◌then◌else◌,
}
use social_network.FilePath.{FilePath, is_nil}
use social_network.FilePath.System.{
  Filesystem, Walk, ended, threw, entry, ErrorCode, directory, is_folder,
}
use social_network.FilePath.Permissions.{
  masked, settle, permissions_loop, walked, set_directory_permissions,
}
use social_network.FilePath.Listing.{ending}

-- One more entry before the end.
abbrev pub then_entry : Walk → Bytes → Walk
then_entry ended path = entry path ended
then_entry (threw what) path = threw what
then_entry (entry first walk) path = entry first (then_entry walk path)

module _ {State : Type 0} (fs : Filesystem State) where
  permissions_loop-then_entry :
      (perm : ℕ) (s : State) (ec : ErrorCode) (walk : Walk) (path : Bytes)
      → ending walk ≡ none
      → let before = permissions_loop fs perm s ec walk in
        permissions_loop fs perm s ec (then_entry walk path)
        ≡ permissions_loop fs perm before.0.0 before.0.1 (entry path ended)
  unfolding permissions_loop
  permissions_loop-then_entry perm s ec ended path e = refl
  permissions_loop-then_entry perm s ec (threw what) path e = cc
  permissions_loop-then_entry perm s ec (entry first walk) path e =
      let st = fs.status s first in
      let next = if is_folder st.type then fs.permissions s first perm else (s, st.ec) in
      permissions_loop-then_entry perm next.0 next.1 walk path e

  -- What is reported of an error code.
  abbrev pub report : FilePath → ErrorCode → Attempt FilePath
  report file none = done file
  report file (some what) = std_exception (codes "set_directory_permissions(): " ++ what)

  walked-report :
      (file : FilePath) (r : State × ErrorCode)
      → (walked fs file (codes "set_directory_permissions") (r, none)).1 ≡ report file r.1
  unfolding walked settle
  walked-report file (s, none) = refl
  walked-report file (s, some what) = refl

  last-report :
      (perm : ℕ) (s : State) (ec : ErrorCode) (file : FilePath) (path : Bytes)
      → (fs.status s path).type ≡ directory
      → (walked fs file
          (codes "set_directory_permissions")
          (permissions_loop fs perm s ec (entry path ended))).1
        ≡ report file (fs.permissions s path perm).1
  unfolding permissions_loop
  last-report perm s ec file path d =
      rw (permissions_loop, d) (walked-report file (fs.permissions s path perm))

  -- Only the last entry decides what the recursive `set_directory_permissions` reports. Whatever the
  -- calls for the entries before it reported, if the iterator ends without an exception and its last
  -- entry is a directory, then the member returns if the permissions of that directory could be set,
  -- and throws the error of that call if not.
  pub set_directory_permissions-last :
      (s : State) (file : FilePath) (perms : ℕ) (walk : Walk) (path : Bytes)
      → is_nil file.path_ ≡ false
      → ending walk ≡ none
      → let reached = (permissions_loop fs (masked perms) s none walk).0.0 in
        (fs.status reached path).type ≡ directory
        → (set_directory_permissions fs s file perms true (then_entry walk path)).1
          ≡ report file (fs.permissions reached path (masked perms)).1
  unfolding set_directory_permissions
  set_directory_permissions-last s file perms walk path given finishes is_directory =
      let name = codes "set_directory_permissions" in
      let before = permissions_loop fs (masked perms) s none walk in
      rw given (
        ap (λ r. (walked fs file name r).1)
          (permissions_loop-then_entry (masked perms) s none walk path finishes)
        ∙ last-report (masked perms) before.0.0 before.0.1 file path is_directory)
