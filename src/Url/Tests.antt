-- ===== src/Url/Tests.antt =====
-- Runs of the URL functions, and their theorems at concrete texts.
use social_network.Prelude.{
  ◌≡◌, refl, true, false, List, [], ◌∷◌, some, Bytes, codes, IsBytes, arith, drop_while, take_while,
}
use social_network.Format.{decimal}
use social_network.NumberParser.{try_parse_int}
use social_network.Url.Model.{
  Url, nothing_after_scheme, unterminated_ipv6, bad_port, ok, threw, blank, get_port,
}
use social_network.Url.Codec.{encode, decode}
use social_network.Url.Codec.RoundTrip.{decode-encode}
use social_network.Url.Query.{get_query_parameters, set_query_parameters}
use social_network.Url.Query.RoundTrip.{AreBytes, get_query_parameters-set_query_parameters}
use social_network.Url.Path.{normalize, starts_slash}
use social_network.Url.Parser.Outcome.{Left, parse-Left}
use social_network.Url.Parser.{parse, from_string}
use social_network.StringHelpers.{to_lowercase_in_place}
use social_network.Url.RoundTrip.Authority.{IsAuthority}
use social_network.Url.RoundTrip.Whole.{IsCanonical, from_string-to_string}
use social_network.Url.Printer.{get_authority, path_text, to_string}

abbrev site : Url
site = record blank {
  scheme = codes "http";
  user_info = codes "me";
  host = codes "example.com";
  port = 8080;
  path = codes "/a b";
  query = codes "x=1";
  fragment = codes "top";
}

parsed : from_string (codes "HTTP://me@Example.com:8080/a%20b?x=1#top") ≡ ok site
unfolding from_string drop_while take_while decode try_parse_int
parsed = refl

printed : to_string site ≡ codes "http://me@example.com:8080/a%20b?x=1#top"
unfolding to_string get_authority path_text decimal
printed = refl

parse_errors :
    (from_string (codes "http:") ≡ threw nothing_after_scheme blank)
    × (from_string (codes "http://h:x/") ≡ threw bad_port (record blank { scheme = codes "http" }))
    × (from_string (codes "http://[::1/")
        ≡ threw unterminated_ipv6 (record blank { scheme = codes "http" }))
unfolding from_string drop_while take_while try_parse_int
parse_errors = (refl, refl, refl)

normalized :
    (normalize (record site { path = codes "/a/./b/../../../c/" })
      ≡ record site { path = codes "/c/" })
    × (normalize (record blank { path = codes "a/../" }) ≡ record blank { path = codes "/" })
unfolding normalize
normalized = (refl, refl)

text-IsBytes : IsBytes (codes "a b&c")
text-IsBytes = (omega arith, (omega arith, (omega arith, (omega arith, (omega arith, tt)))))

decode-encode_example : decode (encode (codes "a b&c") (codes "&") []) [] false ≡ codes "a b&c"
decode-encode_example = decode-encode (codes "a b&c") (codes "&") [] text-IsBytes

abbrev params : List (Bytes × Bytes)
params = (codes "a b&c", []) ∷ ([], codes "a b&c") ∷ []

params-AreBytes : AreBytes params
params-AreBytes = ((text-IsBytes, tt), ((tt, text-IsBytes), tt))

get_query_parameters-set_query_parameters_example :
    get_query_parameters (set_query_parameters site params) true ≡ some params
get_query_parameters-set_query_parameters_example =
    get_query_parameters-set_query_parameters site params true params-AreBytes

-- The first segment that is left looks like a scheme.
abbrev crooked : Url
crooked = record blank { path = codes "x/../b:c/./" }

straight : normalize crooked ≡ record blank { path = codes "./b:c/" }
unfolding normalize
straight = refl

parse-Left_example : Left site (parse site (codes "http://h:99999/"))
parse-Left_example = parse-Left site (codes "http://h:99999/") (omega arith)

site-IsAuthority : IsAuthority site
unfolding to_lowercase_in_place
site-IsAuthority = record {
  user_is = ground arith;
  host_is = ground arith;
  lower = refl;
  port_is = omega arith;
}

site-IsCanonical : IsCanonical site
unfolding to_lowercase_in_place starts_slash
site-IsCanonical = record {
  scheme_starts = refl;
  scheme_is = ground arith;
  scheme_lower = refl;
  authority_is = site-IsAuthority;
  has_host = λ e. cc;
  path_starts = refl;
  path_is = ground arith;
  query_is = ground arith;
}

from_string-to_string_example :
    from_string (to_string site) ≡ ok (record site { port = get_port site })
from_string-to_string_example = from_string-to_string site site-IsCanonical
