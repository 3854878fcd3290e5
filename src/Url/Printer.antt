-- ===== src/Url/Printer.antt =====
-- What url.cpp prints.
use social_network.Prelude.{
  ℕ, Bool, not, ◌&&◌, ◌||◌, [], ◌∷◌, ◌++◌, none, some, ◌==◌, if◌then◌else◌, Bytes, codes, equal,
  has, is_empty,
}
use social_network.Format.{decimal}
use social_network.Url.Model.{Url, url_reserved_path, url_well_known_ports, find_port, is_relative}
use social_network.Url.Codec.{encode}
use social_network.Url.Path.{starts_slash}

abbrev pub colon_port : ℕ → Bytes
colon_port port = b':' ∷ decimal port

-- The part of `get_authority` behind the host.
unfoldable pub port_suffix : Url → Bytes
unfolding find_port
port_suffix u =
    if not (u.port == 0)
    then colon_port u.port
    else elim (find_port u.scheme url_well_known_ports) [ none ↦ [] | some port ↦ colon_port port ]

unfoldable pub get_authority : Url → Bytes
unfolding port_suffix has
get_authority u =
    let user = if not (is_empty u.user_info) then u.user_info ++ b'@' ∷ [] else [] in
    let host = if has b':' u.host then b'[' ∷ (u.host ++ b']' ∷ []) else u.host in
    user ++ host ++ port_suffix u

-- What `to_string` appends for the query and the fragment.
abbrev pub query_fragment : Url → Bytes
query_fragment u =
    (if not (is_empty u.query) then b'?' ∷ u.query else [])
    ++ (if not (is_empty u.fragment) then b'#' ∷ u.fragment else [])

-- The part of `to_string` between the authority and the query.
unfoldable pub path_text : Url → Bool → Bytes
unfolding encode starts_slash
path_text u has_authority =
    if not (is_empty u.path)
    then encode u.path url_reserved_path
        (if has_authority && not (starts_slash u.path) then b'/' ∷ [] else [])
    else if not (is_empty u.query) || not (is_empty u.fragment)
    then b'/' ∷ []
    else []

unfoldable pub to_string : Url → Bytes
unfolding is_relative encode equal
to_string u =
    let auth = get_authority u in
    (if is_relative u
      then encode u.path url_reserved_path []
      else u.scheme
        ++ b':' ∷ []
        ++ (if not (is_empty auth) || equal u.scheme (codes "file") then codes "//" ++ auth else [])
        ++ path_text u (not (is_empty auth)))
    ++ query_fragment u

unfoldable pub get_path_query : Url → Bytes
unfolding encode
get_path_query u =
    encode u.path url_reserved_path [] ++ (if not (is_empty u.query) then b'?' ∷ u.query else [])

unfoldable pub get_path_query_fragment : Url → Bytes
unfolding encode
get_path_query_fragment u = encode u.path url_reserved_path [] ++ query_fragment u
