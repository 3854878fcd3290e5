-- ===== src/FilePath/Names.antt =====
-- The name of a file: `filename`, `basename` and `extension` of service/sources/helpers/filepath.cpp.
use social_network.Prelude.{
  ◌≡◌, refl, Bool, true, false, ◌&&◌, [], ◌∷◌, ◌++◌, ◌==◌, leb, arith, if◌then◌else◌, Bool-cases,
  inl, inr, Bytes, has, length, ==_iff, append-nil,
}
use social_network.FilePath.{
  FilePath, is_nil, fs_filename, from_dot, up_to_dot, fs_stem, fs_extension, filename, basename,
  extension,
}

-- A predicate of a value that depends on a test holds when it does in both cases.
if_both :
    {A : Type 0} (P : A → Type 0) (b : Bool) {x y : A}
    → (b ≡ true → P x)
    → (b ≡ false → P y)
    → P (if b then x else y)
if_both P true h k = h refl
if_both P false h k = k refl

up_to_dot-from_dot : (s : Bytes) → up_to_dot s ++ from_dot s ≡ s
unfolding up_to_dot from_dot has
up_to_dot-from_dot [] = refl
up_to_dot-from_dot (c ∷ s) = ground (arith, up_to_dot-from_dot s, append-nil s)

filename-has : (s : Bytes) → has b'/' (fs_filename s) ≡ false
unfolding fs_filename has
filename-has [] = refl
filename-has (c ∷ s) =
    if_both (λ name. has b'/' name ≡ false) (has b'/' (c ∷ s)) (λ e. filename-has s) (λ e. e)

-- An extension is nothing, or one dot and what has no dot.
abbrev pub IsSuffix : Bytes → Type 0
IsSuffix [] = Unit
IsSuffix (c ∷ s) = (c ≡ b'.') × (has b'.' s ≡ false)

from_dot-IsSuffix : (s : Bytes) → IsSuffix (from_dot s)
unfolding from_dot has
from_dot-IsSuffix [] = tt
from_dot-IsSuffix (c ∷ s) =
    if_both IsSuffix (has b'.' s) (λ e. from_dot-IsSuffix s)
      (λ e. if_both IsSuffix (c == b'.') (λ dot. ((==_iff c b'.').0 dot, e)) (λ other. tt))

stem-extension : (name : Bytes) → fs_stem name ++ fs_extension name ≡ name
unfolding fs_stem fs_extension
stem-extension [] = refl
stem-extension (c ∷ s) = ground (arith, up_to_dot-from_dot s, append-nil s)

extension-IsSuffix : (name : Bytes) → IsSuffix (fs_extension name)
unfolding fs_extension
extension-IsSuffix [] = tt
extension-IsSuffix (c ∷ s) =
    if_both IsSuffix (c == b'.' && leb (length s) 1) (λ e. tt) (λ e. from_dot-IsSuffix s)

-- The base name and the extension make up the file name, which has no slash, and the extension is
-- nothing, or one dot and what has no dot.
pub basename-extension :
    (file : FilePath)
    → (basename file ++ extension file ≡ filename file)
      × (has b'/' (filename file) ≡ false)
      × IsSuffix (extension file)
unfolding basename extension filename has
basename-extension file = elim (Bool-cases (is_nil file.path_)) [
  | inl e ↦ rw e (refl, refl, tt)
  | inr e ↦
      let name = fs_filename file.path_ in
      rw e (stem-extension name, filename-has file.path_, extension-IsSuffix name)
]
