-- ===== src/Url/RoundTrip/Whole.antt =====
-- A whole URL between the printer and the parser.
use social_network.Prelude.{
  ℕ, ◌≡◌, ◌≢◌, refl, ap, ◌∙◌, Bool, true, false, [], ◌∷◌, ◌++◌, append_assoc, ◌==◌, Bytes, has,
  is_empty, All, IsBytes, Stops, take_while-append, drop_while-append, arith,
}
use social_network.StringHelpers.{to_lowercase_in_place}
use social_network.Url.Model.{
  Url, ok, ◌>>=◌, blank, is_relative, set_scheme, get_port, url_reserved_path,
}
use social_network.Url.Codec.{encode_byte}
use social_network.Url.Codec.RoundTrip.{encoding, encode-encoding}
use social_network.Url.Path.{starts_slash}
use social_network.Url.Parser.{
  in_query, in_scheme, in_authority, may_start_scheme, at_path, parse_path_query_fragment,
  parse_hierarchy, parse_scheme, parse, from_string,
}
use social_network.Url.Printer.{get_authority, path_text, query_fragment, to_string}
use social_network.Url.RoundTrip.Tail.{tail, parse_path_query_fragment-tail}
use social_network.Url.RoundTrip.Authority.{
  IsAuthority, get_authority-full, parse_authority-get_authority,
}

abbrev pub starts_scheme : Bytes → Bool
starts_scheme [] = false
starts_scheme (c ∷ scheme) = may_start_scheme c

-- A URL with a scheme and a host: the texts hold no byte that ends them, the scheme and the host are
-- in lower case, the path starts with a slash, and its bytes are any.
pub record IsCanonical (u : Url) : Type 0 where
  pub scheme_starts : starts_scheme u.scheme ≡ true
  pub scheme_is : All (λ c. in_scheme c ≡ true) u.scheme
  pub scheme_lower : to_lowercase_in_place u.scheme ≡ u.scheme
  pub authority_is : IsAuthority u
  pub has_host : u.host ≢ []
  pub path_starts : starts_slash u.path ≡ true
  pub path_is : IsBytes u.path
  pub query_is : All (λ c. in_query c ≡ true) u.query

-- `//`, the authority, and what follows.
hierarchy : Url → Bytes
hierarchy u = b'/' ∷ b'/' ∷ (get_authority u ++ tail u)

append_all : (s a p q : Bytes) (c : ℕ) → s ++ c ∷ [] ++ a ++ p ++ q ≡ s ++ c ∷ (a ++ (p ++ q))
append_all [] a p q c = ap (λ t. c ∷ t) (append_assoc a p q)
append_all (d ∷ s) a p q c = ap (λ t. d ∷ t) (append_all s a p q c)

slash : (c : ℕ) → (c == b'/') ≡ true → c ≡ b'/'
slash c e = ground arith

starts_at :
    (path rest : Bytes)
    → starts_slash path ≡ true
    → (at_path (encoding url_reserved_path path ++ rest) ≡ true)
      × Stops in_authority (encoding url_reserved_path path ++ rest)
unfolding encoding encode_byte has starts_slash
starts_at [] rest e = ground arith
starts_at (c ∷ path) rest e = rw (slash c e) (refl, refl)

tail_starts :
    (u : Url) → starts_slash u.path ≡ true → (at_path (tail u) ≡ true) × Stops in_authority (tail u)
tail_starts u e = starts_at u.path (query_fragment u) e

starts_slash-full : (s : Bytes) → starts_slash s ≡ true → is_empty s ≡ false
unfolding starts_slash
starts_slash-full [] e = ground arith
starts_slash-full (c ∷ s) e = refl

starts_scheme-full : (s : Bytes) → starts_scheme s ≡ true → is_empty s ≡ false
starts_scheme-full [] e = ground arith
starts_scheme-full (c ∷ s) e = refl

path_text-slash :
    (u : Url) → starts_slash u.path ≡ true → path_text u true ≡ encoding url_reserved_path u.path
unfolding path_text
path_text-slash u e =
    let full = starts_slash-full u.path e in
    rw (path_text, full, e) (encode-encoding u.path url_reserved_path [])

to_string-hierarchy : (u : Url) → IsCanonical u → to_string u ≡ u.scheme ++ b':' ∷ hierarchy u
unfolding to_string hierarchy is_relative
to_string-hierarchy u h =
    let scheme_full = starts_scheme-full u.scheme h.scheme_starts in
    let full = get_authority-full u h.authority_is h.has_host in
    let path = path_text-slash u h.path_starts in
    rw (to_string, scheme_full, full)
      (ap (λ p. u.scheme ++ b':' ∷ [] ++ b'/' ∷ b'/' ∷ get_authority u ++ p ++ query_fragment u)
          path
        ∙ append_all u.scheme (b'/' ∷ b'/' ∷ get_authority u) (encoding url_reserved_path u.path)
            (query_fragment u) b':')

-- The parser behind the scheme.
parse_hierarchy-hierarchy :
    (v u : Url)
    → IsCanonical u
    → parse_hierarchy (record v { path = []; query = []; fragment = [] }) (hierarchy u)
      ≡ ok (record u { scheme = v.scheme; port = get_port u })
unfolding parse_hierarchy hierarchy
parse_hierarchy-hierarchy v u h =
    let (at, stops) = tail_starts u h.path_starts in
    let v' : Url = record v { path = []; query = []; fragment = [] } in
    let (authority, rest) =
      parse_authority-get_authority v' u (tail u) h.authority_is h.has_host stops in
    (λ i. authority i >>= λ w. ok (parse_path_query_fragment w (rest i)))
    ∙ ap ok (
        parse_path_query_fragment-tail
          (record v { user_info = u.user_info; host = u.host; port = get_port u }) u h.path_is at
          h.query_is)

parse-scheme :
    (u : Url) (scheme rest : Bytes)
    → starts_scheme scheme ≡ true
    → All (λ c. in_scheme c ≡ true) scheme
    → parse u (scheme ++ b':' ∷ rest) ≡ parse_scheme u (scheme ++ b':' ∷ rest) scheme (b':' ∷ rest)
unfolding parse
parse-scheme u [] rest e h = ground arith
parse-scheme u (c ∷ scheme) rest e h =
    let front = take_while-append in_scheme (c ∷ scheme) (b':' ∷ rest) h refl in
    let behind = drop_while-append in_scheme (c ∷ scheme) (b':' ∷ rest) h refl in
    rw (parse, e) (λ i. parse_scheme u (c ∷ scheme ++ b':' ∷ rest) (front i) (behind i))

-- The text of a canonical URL is read back as the same URL, with the port number that the scheme
-- stands for where none was given.
pub from_string-to_string :
    (u : Url) → IsCanonical u → from_string (to_string u) ≡ ok (record u { port = get_port u })
unfolding from_string parse_scheme set_scheme
from_string-to_string u h =
    let behind : parse_scheme blank (u.scheme ++ b':' ∷ hierarchy u) u.scheme (b':' ∷ hierarchy u)
        ≡ parse_hierarchy (record blank { scheme = to_lowercase_in_place u.scheme }) (hierarchy u) =
      unfold hierarchy in refl in
    ap (parse blank) (to_string-hierarchy u h)
    ∙ parse-scheme blank u.scheme (hierarchy u) h.scheme_starts h.scheme_is
    ∙ behind
    ∙ ap (λ s. parse_hierarchy (record blank { scheme = s }) (hierarchy u)) h.scheme_lower
    ∙ parse_hierarchy-hierarchy (record blank { scheme = u.scheme }) u h

-- The text of a canonical URL begins with its scheme and `://`.
pub to_string_starts :
    (u : Url)
    → IsCanonical u
    → (rest : Bytes) × (to_string u ≡ u.scheme ++ b':' ∷ b'/' ∷ b'/' ∷ rest)
unfolding hierarchy
to_string_starts u h = (get_authority u ++ tail u, to_string-hierarchy u h)
