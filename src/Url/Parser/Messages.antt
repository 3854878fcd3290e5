-- ===== src/Url/Parser/Messages.antt =====
-- The texts of the exceptions of `parse` in url.cpp.
use social_network.Prelude.{
  [], ◌∷◌, ◌++◌, ◌==◌, if◌then◌else◌, Bytes, codes, drop, take_while, drop_while,
}
use social_network.Url.Model.{Error, nothing_after_scheme, unterminated_ipv6, bad_port}
use social_network.Url.Parser.{in_scheme, in_authority, in_host, in_ipv6, authority_loop}

-- What `parse_host_and_port` reads as the port, behind the host and the colon.
unfoldable pub port_of_part : Bytes → Bytes
port_of_part [] = []
port_of_part (c ∷ it) =
    if c == b'[' then drop 2 (drop_while in_ipv6 it) else drop 1 (drop_while in_host (c ∷ it))

-- The same from the text that `parse` is given, behind `scheme://`.
unfoldable pub port_of_url : Bytes → Bytes
unfolding port_of_part authority_loop
port_of_url url =
    let authority = take_while in_authority (drop 3 (drop_while in_scheme url)) in
    port_of_part (authority_loop [] [] authority).1

-- `what()`, of the exception that `Url(url)` throws.
unfoldable pub what : Error → Bytes → Bytes
unfolding port_of_url
what nothing_after_scheme url =
    codes "URL scheme must be followed by authority or path (" ++ url ++ codes ")"
what unterminated_ipv6 url = codes "unterminated IPv6 address"
what bad_port url = codes "bad or invalid port number (" ++ port_of_url url ++ codes ")"
