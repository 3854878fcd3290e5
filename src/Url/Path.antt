-- ===== src/Url/Path.antt =====
-- The path segments and `normalize` of url.cpp.
pub mod Normal
pub mod Written
pub mod Destination
use social_network.Prelude.{
  ℕ, Bool, true, false, not, ◌&&◌, List, [], ◌∷◌, ◌++◌, ◌==◌, if◌then◌else◌, Bytes, codes, equal,
  has, is_empty,
}
use social_network.Url.Model.{Url, is_relative}

abbrev pub dot : Bytes
dot = codes "."

abbrev pub dot_dot : Bytes
dot_dot = codes ".."

-- `if (!seg.empty()) segments.push_back(seg);`
abbrev pub push_segment : List Bytes → Bytes → List Bytes
push_segment segments seg = if is_empty seg then segments else segments ++ seg ∷ []

unfoldable pub segments_loop : List Bytes → Bytes → Bytes → List Bytes
segments_loop segments seg [] = push_segment segments seg
segments_loop segments seg (c ∷ it) =
    segments_loop (if c == b'/' then push_segment segments seg else segments)
      (if c == b'/' then [] else seg ++ c ∷ []) it

unfoldable pub get_path_segments : Url → List Bytes → List Bytes
unfolding segments_loop
get_path_segments u segments = segments_loop segments [] u.path

-- `normalized.back()` and `normalized.pop_back()`, on a vector that is not empty.
unfoldable pub back : List Bytes → Bytes
back [] = []
back (x ∷ []) = x
back (x ∷ y ∷ xs) = back (y ∷ xs)

unfoldable pub pop_back : List Bytes → List Bytes
pop_back [] = []
pop_back (x ∷ []) = []
pop_back (x ∷ y ∷ xs) = x ∷ pop_back (y ∷ xs)

-- One round of `normalize`.
unfoldable pub normalize_segment : Bool → List Bytes → Bytes → List Bytes
unfolding back pop_back equal
normalize_segment remove_leading normalized s =
    if equal s dot_dot
    then (if not (is_empty normalized)
        then (if equal (back normalized) dot_dot then normalized ++ s ∷ [] else pop_back normalized)
        else if not remove_leading
        then normalized ++ s ∷ []
        else normalized)
    else if not (equal s dot)
    then normalized ++ s ∷ []
    else normalized

unfoldable pub normalize_loop : Bool → List Bytes → List Bytes → List Bytes
unfolding normalize_segment
normalize_loop remove_leading normalized [] = normalized
normalize_loop remove_leading normalized (s ∷ segments) =
    normalize_loop remove_leading (normalize_segment remove_leading normalized s) segments

-- The loop of `build_path`, with its flag `first`.
unfoldable pub build_loop : Url → Bool → Bool → List Bytes → Bytes → Bytes
unfolding has
build_loop u leading_slash first [] path = path
build_loop u leading_slash first (s ∷ segments) path =
    let before =
      if first
      then (if leading_slash
          then b'/' ∷ []
          else if is_empty u.scheme && has b':' s
          then codes "./"
          else [])
      else b'/' ∷ [] in
    build_loop u leading_slash false segments (path ++ before ++ s)

unfoldable pub build_path : Url → List Bytes → Bool → Bool → Url
unfolding build_loop
build_path u segments leading_slash trailing_slash =
    let path = build_loop u leading_slash true segments [] in
    record u { path = if trailing_slash then path ++ b'/' ∷ [] else path }

-- `*(path_.begin()) == '/'` and `*(path_.rbegin()) == '/'`.
unfoldable pub starts_slash : Bytes → Bool
starts_slash [] = false
starts_slash (c ∷ s) = c == b'/'

unfoldable pub ends_slash : Bytes → Bool
ends_slash [] = false
ends_slash (c ∷ []) = c == b'/'
ends_slash (c ∷ d ∷ s) = ends_slash (d ∷ s)

unfoldable pub normalize : Url → Url
unfolding is_relative get_path_segments normalize_loop build_path starts_slash ends_slash
normalize u =
    if is_empty u.path
    then u
    else build_path u (normalize_loop (not (is_relative u)) [] (get_path_segments u []))
        (starts_slash u.path) (ends_slash u.path)
