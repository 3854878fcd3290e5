-- ===== src/Url/Query.antt =====
-- The query and fragment members of url.cpp, and the other setters that decode.
pub mod RoundTrip
use social_network.Prelude.{
  ℕ, zero, suc, ◌+◌, Bool, true, false, not, ◌&&◌, ◌||◌, List, [], ◌∷◌, ◌++◌, map, Option, none,
  some, ◌==◌, if◌then◌else◌, Bytes, is_empty, length, take_while, drop_while,
}
use social_network.Url.Model.{
  Url, url_reserved_query, url_reserved_query_param, url_reserved_fragment,
}
use social_network.Url.Codec.{encode, decode}

unfoldable pub set_user_info : Url → Bytes → Url
unfolding decode
set_user_info u user_info = record u { user_info = decode user_info [] false }

unfoldable pub set_path : Url → Bytes → Url
unfolding decode
set_path u path = record u { path = decode path [] false }

unfoldable pub get_query : Url → Bytes
unfolding decode
get_query u = decode u.query [] false

unfoldable pub set_query : Url → Bytes → Url
unfolding encode
set_query u query = record u { query = encode query url_reserved_query [] }

unfoldable pub get_fragment : Url → Bytes
unfolding decode
get_fragment u = decode u.fragment [] false

unfoldable pub set_fragment : Url → Bytes → Url
unfolding encode
set_fragment u fragment = record u { fragment = encode fragment url_reserved_fragment [] }

unfoldable pub add_query_parameter : Url → Bytes → Bytes → Url
add_query_parameter u param val =
    let sep = if not (is_empty u.query) then u.query ++ b'&' ∷ [] else u.query in
    let named = encode param url_reserved_query_param sep ++ b'=' ∷ [] in
    record u { query = encode val url_reserved_query_param named }

unfoldable pub add_query_parameters : Url → List (Bytes × Bytes) → Url
unfolding add_query_parameter
add_query_parameters u [] = u
add_query_parameters u ((param, val) ∷ more) =
    add_query_parameters (add_query_parameter u param val) more

unfoldable pub set_query_parameters : Url → List (Bytes × Bytes) → Url
unfolding add_query_parameters
set_query_parameters u params = add_query_parameters (record u { query = [] }) params

-- The tests of the two inner loops.
abbrev pub in_name : ℕ → Bool
in_name c = not (c == b'=') && not (c == b'&')

abbrev pub in_value : ℕ → Bool
in_value c = not (c == b'&')

abbrev pub plus_to_space : Bool → ℕ → ℕ
plus_to_space plus_is_space c = if plus_is_space && c == b'+' then b' ' else c

-- `if (it != end && *it == c) ++it;`, with whether it did.
unfoldable pub skip : ℕ → Bytes → Bool × Bytes
skip c [] = (false, [])
skip c (d ∷ it) = if d == c then (true, it) else (false, d ∷ it)

-- The value behind the name, and what is left; the text is empty if there is no `=`.
unfoldable pub read_value : Bool → Bytes → Bytes × Bytes
unfolding skip
read_value plus_is_space it =
    let (found, it') = skip b'=' it in
    if found
    then (map (plus_to_space plus_is_space) (take_while in_value it'), drop_while in_value it')
    else ([], it)

-- One round for each parameter, on fuel; `none` is fuel that ran out.
unfoldable pub query_parameters_loop : ℕ → Bool → Bytes → Option (List (Bytes × Bytes))
query_parameters_loop zero plus_is_space it = none
query_parameters_loop (suc fuel) plus_is_space [] = some []
query_parameters_loop (suc fuel) plus_is_space (c ∷ it) =
    let name = map (plus_to_space plus_is_space) (take_while in_name (c ∷ it)) in
    let (value, it') = read_value plus_is_space (drop_while in_name (c ∷ it)) in
    elim (query_parameters_loop fuel plus_is_space (skip b'&' it').1) [
      | none ↦ none
      | some more ↦ some ((decode name [] false, decode value [] false) ∷ more)
    ]

unfoldable pub get_query_parameters : Url → Bool → Option (List (Bytes × Bytes))
unfolding query_parameters_loop
get_query_parameters u plus_is_space =
    query_parameters_loop (suc (length u.query)) plus_is_space u.query
