-- ===== src/Url/Parser.antt =====
-- The parser of url.cpp. An iterator is the text that it has before it.
pub mod Outcome
pub mod Messages
use social_network.Prelude.{
  ℕ, zero, suc, Bool, true, false, not, ◌&&◌, ◌||◌, List, [], ◌∷◌, ◌++◌, ltb, ◌==◌, if◌then◌else◌,
  Bytes, equal, is_empty, take_while, drop_while, ℤ, pos, negsuc,
}
use social_network.StringHelpers.{to_lowercase_in_place}
use social_network.NumberParser.{try_parse_int}
use social_network.Url.Model.{
  Url, Error, nothing_after_scheme, unterminated_ipv6, bad_port, Result, ok, threw, ◌>>=◌, blank,
  clear, set_scheme, equals,
}
use social_network.Url.Codec.{decode}
use social_network.Url.Query.{skip}

abbrev pub in_path : ℕ → Bool
in_path c = not (c == b'?') && not (c == b'#')

abbrev pub in_query : ℕ → Bool
in_query c = not (c == b'#')

unfoldable pub parse_path : Url → Bytes → Url × Bytes
parse_path u it =
    (record u { path = decode (take_while in_path it) u.path false }, drop_while in_path it)

unfoldable pub parse_query : Url → Bytes → Url × Bytes
parse_query u it = (record u { query = take_while in_query it }, drop_while in_query it)

unfoldable pub parse_fragment : Url → Bytes → Url
parse_fragment u it = record u { fragment = it }

-- `it != end && *it != '?' && *it != '#'`.
abbrev pub at_path : Bytes → Bool
at_path [] = false
at_path (c ∷ it) = in_path c

abbrev pub then_query : Url × Bytes → Url × Bytes
then_query (u, it) = let (found, it') = skip b'?' it in if found then parse_query u it' else (u, it)

abbrev pub then_fragment : Url × Bytes → Url
then_fragment (u, it) = let (found, it') = skip b'#' it in if found then parse_fragment u it' else u

unfoldable pub parse_path_query_fragment : Url → Bytes → Url
unfolding parse_path parse_query parse_fragment skip
parse_path_query_fragment u it =
    then_fragment (then_query (if at_path it then parse_path u it else (u, it)))

-- `nport > 0 && nport < 65536`.
abbrev pub valid_port : ℤ → Bool
valid_port (pos n) = ltb 0 n && ltb n 65536
valid_port (negsuc n) = false

abbrev pub port_number : ℤ → ℕ
port_number (pos n) = n
port_number (negsuc n) = 0

-- `host_ = host;` and what follows it.
unfoldable pub store_host : Url → Bytes → Url
unfolding to_lowercase_in_place
store_host u [] = record u { host = [] }
store_host u (c ∷ host) = record u {
  host = if not (c == b'%') then to_lowercase_in_place (c ∷ host) else c ∷ host;
}

-- Behind the host: the port.
unfoldable pub parse_port : Url → Bytes → Bytes → Result
unfolding skip store_host
parse_port u host it =
    let (found, port) = skip b':' it in
    let (nport, parsed) = try_parse_int port (pos 0) in
    if not found
    then ok (store_host (record u { port = 0 }) host)
    else if is_empty port
    then ok (store_host (record u { port = 0 }) host)
    else if parsed && valid_port nport
    then ok (store_host (record u { port = port_number nport }) host)
    else threw bad_port u

abbrev pub in_ipv6 : ℕ → Bool
in_ipv6 c = not (c == b']')

abbrev pub in_host : ℕ → Bool
in_host c = not (c == b':')

-- At the `]` that ends the address, or at the end of the text.
unfoldable pub close_ipv6 : Url → Bytes → Bytes → Result
unfolding parse_port
close_ipv6 u host [] = threw unterminated_ipv6 u
close_ipv6 u host (c ∷ it) = parse_port u host it

unfoldable pub parse_host_and_port : Url → Bytes → Result
unfolding close_ipv6 parse_port
parse_host_and_port u [] = ok u
parse_host_and_port u (c ∷ it) =
    if c == b'['
    then close_ipv6 u (take_while in_ipv6 it) (drop_while in_ipv6 it)
    else parse_port u (take_while in_host (c ∷ it)) (drop_while in_host (c ∷ it))

abbrev pub in_authority : ℕ → Bool
in_authority c = not (c == b'/') && not (c == b'?') && not (c == b'#')

-- The loop of `parse_authority` over the text up to its end: an `@` moves what was read to `user_info`.
unfoldable pub authority_loop : Bytes → Bytes → Bytes → Bytes × Bytes
authority_loop user_info part [] = (user_info, part)
authority_loop user_info part (c ∷ it) =
    authority_loop (if c == b'@' then part else user_info)
      (if c == b'@' then [] else part ++ c ∷ []) it

abbrev pub set_user : Bytes → Url → Result
set_user user_info u = ok (record u { user_info = user_info })

-- The text that is left is `drop_while in_authority it`.
unfoldable pub parse_authority : Url → Bytes → Result
unfolding authority_loop parse_host_and_port
parse_authority u it =
    let (user_info, part) = authority_loop [] [] (take_while in_authority it) in
    parse_host_and_port u part >>= set_user user_info

abbrev pub in_scheme : ℕ → Bool
in_scheme c = not (c == b':') && not (c == b'?') && not (c == b'#') && not (c == b'/')

-- Behind `scheme:`; the text is not empty.
unfoldable pub parse_hierarchy : Url → Bytes → Result
unfolding skip parse_authority parse_path_query_fragment
parse_hierarchy u it =
    let (slash, it1) = skip b'/' it in
    let (two, it2) = skip b'/' it1 in
    if slash && two
    then (parse_authority u it2 >>= λ v.
        ok (parse_path_query_fragment v (drop_while in_authority it2)))
    else ok (parse_path_query_fragment u it)

-- Behind the scheme: `it` is at the `:`, or `url` is read again from its start.
unfoldable pub parse_scheme : Url → Bytes → Bytes → Bytes → Result
unfolding skip parse_hierarchy set_scheme
parse_scheme u url scheme it =
    let (colon, it') = skip b':' it in
    if not colon
    then ok (parse_path_query_fragment u url)
    else if is_empty it'
    then threw nothing_after_scheme u
    else parse_hierarchy (set_scheme u scheme) it'

abbrev pub may_start_scheme : ℕ → Bool
may_start_scheme c = not (c == b'/') && not (c == b'.') && not (c == b'?') && not (c == b'#')

unfoldable pub parse : Url → Bytes → Result
unfolding parse_scheme parse_path_query_fragment
parse u [] = ok u
parse u (c ∷ it) =
    if may_start_scheme c
    then parse_scheme u (c ∷ it) (take_while in_scheme (c ∷ it)) (drop_while in_scheme (c ∷ it))
    else ok (parse_path_query_fragment u (c ∷ it))

-- The constructors from two, three, four and five texts, and from one.
unfoldable pub from_scheme_path : Bytes → Bytes → Url
unfolding to_lowercase_in_place parse_path_query_fragment
from_scheme_path scheme path_query_fragment =
    parse_path_query_fragment (record blank { scheme = to_lowercase_in_place scheme })
      path_query_fragment

unfoldable pub from_scheme_authority_path : Bytes → Bytes → Bytes → Result
unfolding to_lowercase_in_place parse_authority parse_path_query_fragment
from_scheme_authority_path scheme authority path_query_fragment =
    parse_authority (record blank { scheme = to_lowercase_in_place scheme }) authority >>= λ u.
    ok (parse_path_query_fragment u path_query_fragment)

unfoldable pub from_parts : Bytes → Bytes → Bytes → Bytes → Bytes → Result
unfolding to_lowercase_in_place parse_authority
from_parts scheme authority path query fragment =
    parse_authority
      (record blank {
        scheme = to_lowercase_in_place scheme;
        path = path;
        query = query;
        fragment = fragment;
      })
      authority

unfoldable pub from_string : Bytes → Result
unfolding parse
from_string url = parse blank url

unfoldable pub assign_string : Url → Bytes → Result
unfolding clear parse
assign_string u url = parse (clear u) url

unfoldable pub set_authority : Url → Bytes → Result
unfolding parse_authority
set_authority u authority =
    parse_authority (record u { user_info = []; host = []; port = 0 }) authority

unfoldable pub set_path_query_fragment : Url → Bytes → Url
unfolding parse_path_query_fragment
set_path_query_fragment u path_query_fragment =
    parse_path_query_fragment (record u { path = []; query = []; fragment = [] })
      path_query_fragment
