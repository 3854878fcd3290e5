-- ===== src/Url/Model.antt =====
-- The data of url.h, its constants, and the members that read or write one field.
use social_network.Prelude.{
  ℕ, Bool, not, ◌&&◌, List, [], ◌∷◌, Option, none, some, ◌==◌, if◌then◌else◌, Bytes, codes, equal,
  is_empty,
}
use social_network.StringHelpers.{to_lowercase_in_place}

pub record Url : Type 0 where
  pub scheme : Bytes
  pub user_info : Bytes
  pub host : Bytes
  pub port : ℕ
  pub path : Bytes
  pub query : Bytes
  pub fragment : Bytes

-- The three `runtime_error`s of the parser.
pub data Error : Type 0 where
  nothing_after_scheme unterminated_ipv6 bad_port : Error

-- An exception leaves the object in the state that it has then.
pub data Result : Type 0 where
  ok : Url → Result
  threw : Error → Url → Result

infixl 5 ◌>>=◌
abbrev pub ◌>>=◌ : Result → (Url → Result) → Result
ok u >>= f = f u
threw e u >>= f = threw e u

abbrev pub url_reserved_path : Bytes
url_reserved_path = codes "?#"

abbrev pub url_reserved_query : Bytes
url_reserved_query = codes "?#/:;+@"

abbrev pub url_reserved_query_param : Bytes
url_reserved_query_param = codes "?#/:;+@&="

abbrev pub url_reserved_fragment : Bytes
url_reserved_fragment = []

abbrev pub url_illegal : Bytes
url_illegal = codes "%<>{}|\\\"^`!*'()$,[]"

abbrev pub url_well_known_ports : List (Bytes × ℕ)
url_well_known_ports =
    (codes "ftp", 21)
    ∷ (codes "ssh", 22)
    ∷ (codes "telnet", 23)
    ∷ (codes "smtp", 25)
    ∷ (codes "dns", 53)
    ∷ (codes "http", 80)
    ∷ (codes "ws", 80)
    ∷ (codes "nntp", 119)
    ∷ (codes "imap", 143)
    ∷ (codes "ldap", 389)
    ∷ (codes "https", 443)
    ∷ (codes "wss", 443)
    ∷ (codes "smtps", 465)
    ∷ (codes "rtsp", 554)
    ∷ (codes "ldaps", 636)
    ∷ (codes "dnss", 853)
    ∷ (codes "imaps", 993)
    ∷ (codes "sip", 5060)
    ∷ (codes "sips", 5061)
    ∷ (codes "xmpp", 5222)
    ∷ (codes "postgresql", 5432)
    ∷ (codes "amqp", 5672)
    ∷ []

-- `Url() = default`.
abbrev pub blank : Url
blank = record {
  scheme = [];
  user_info = [];
  host = [];
  port = 0;
  path = [];
  query = [];
  fragment = [];
}

unfoldable pub empty : Url → Bool
empty u =
    is_empty u.scheme
    && is_empty u.host
    && is_empty u.path
    && is_empty u.query
    && is_empty u.fragment

unfoldable pub clear : Url → Url
clear u = record u {
  scheme = [];
  user_info = [];
  host = [];
  port = 0;
  path = [];
  query = [];
  fragment = [];
}

unfoldable pub swap : Url → Url → Url × Url
swap this url = (
  record this {
    scheme = url.scheme;
    user_info = url.user_info;
    host = url.host;
    port = url.port;
    path = url.path;
    query = url.query;
    fragment = url.fragment;
  },
  record url {
    scheme = this.scheme;
    user_info = this.user_info;
    host = this.host;
    port = this.port;
    path = this.path;
    query = this.query;
    fragment = this.fragment;
  },
)

unfoldable pub is_relative : Url → Bool
is_relative u = is_empty u.scheme

unfoldable pub set_scheme : Url → Bytes → Url
unfolding to_lowercase_in_place
set_scheme u scheme = record u { scheme = to_lowercase_in_place scheme }

unfoldable pub set_host : Url → Bytes → Url
set_host u host = record u { host = host }

unfoldable pub set_port : Url → ℕ → Url
set_port u port = record u { port = port }

unfoldable pub set_raw_query : Url → Bytes → Url
set_raw_query u query = record u { query = query }

unfoldable pub set_raw_fragment : Url → Bytes → Url
set_raw_fragment u fragment = record u { fragment = fragment }

-- `URL_WELL_KNOWN_PORTS.find(scheme)`.
unfoldable pub find_port : Bytes → List (Bytes × ℕ) → Option ℕ
unfolding equal
find_port scheme [] = none
find_port scheme ((name, port) ∷ more) =
    if equal name scheme then some port else find_port scheme more

unfoldable pub get_port : Url → ℕ
unfolding find_port
get_port u =
    if not (u.port == 0)
    then u.port
    else elim (find_port u.scheme url_well_known_ports) [ none ↦ 0 | some port ↦ port ]

unfoldable pub equals : Url → Url → Bool
unfolding get_port
equals u1 u2 =
    equal u1.scheme u2.scheme
    && equal u1.user_info u2.user_info
    && equal u1.host u2.host
    && get_port u1 == get_port u2
    && equal u1.path u2.path
    && equal u1.query u2.query
    && equal u1.fragment u2.fragment
