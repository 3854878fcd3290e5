-- ===== src/Configuration.antt =====
-- service/sources/configuration/configuration_data.cpp. An `int` is a `ℤ`. The network and the
-- services are parameters, by way of the socket addresses, and so is the word that printing an
-- address reads behind its bytes.
pub mod Sources
pub mod Precedence
pub mod Valid
pub mod Endpoints
mod Tests
use social_network.Prelude.{
  ℕ, suc, Bool, true, false, not, ◌&&◌, List, [], ◌∷◌, ◌++◌, Option, none, some, leb, ◌==◌,
  if◌then◌else◌, Bytes, codes, equal, is_empty, take, drop, ℤ, pos, negsuc, Attempt, done,
  dns_exception, std_exception, or_throw,
}
use social_network.Prelude.Attempts.{◌>>=◌}
use social_network.Format.{decimal}
use social_network.StringHelpers.{find}
use social_network.IpAddress.{IpAddress, Family}
use social_network.IpAddress.Text.{to_string as ip_to_string}
use social_network.SocketAddress.{SocketAddress, host, port}
use social_network.SocketAddress.Throwing.{address_throwing}
use social_network.Url.Model.{Url, Result, ok, threw, set_port}
use social_network.Url.Parser.{from_string}
use social_network.Url.Parser.Messages.{what}
use social_network.Url.Path.{get_path_segments}
use social_network.Url.Printer.{to_string}
use social_network.Url.Query.{set_user_info, set_path, set_fragment}

-- `config_def`, `config_min` and `config_max`.
abbrev pub pgsql_url : Bytes
pgsql_url = codes "postgresql://localhost:5432/postgres"

abbrev pub pgsql_database : Bytes
pgsql_database = codes "postgres"

abbrev pub pgsql_login : Bytes
pgsql_login = codes "postgres"

abbrev pub pgsql_password : Bytes
pgsql_password = []

abbrev pub pgsql_port : ℕ
pgsql_port = 5432

abbrev pub default_listening : Bytes
default_listening = codes "0.0.0.0:6000"

abbrev pub http_port : ℕ
http_port = 6000

abbrev pub max_threads_count : ℕ
max_threads_count = 10

abbrev pub default_threads_count : ℕ
default_threads_count = 1

abbrev pub min_threads_count : ℕ
min_threads_count = 1

abbrev pub max_queue_capacity : ℕ
max_queue_capacity = 4096

abbrev pub default_queue_capacity : ℕ
default_queue_capacity = 1024

abbrev pub min_queue_capacity : ℕ
min_queue_capacity = 1

abbrev pub default_prometheus_listening : Bytes
default_prometheus_listening = codes "0.0.0.0:6001"

abbrev pub prometheus_host : Bytes
prometheus_host = codes "0.0.0.0"

abbrev pub default_prometheus_port : ℕ
default_prometheus_port = 6001

abbrev pub default_logging_config : List (Bytes × Bytes)
default_logging_config =
    (codes "type", codes "stdout") ∷ (codes "color", codes "true") ∷ (codes "level", codes "1") ∷ []

-- `pgsql_s` and `config_s`.
pub record Pgsql : Type 0 where
  pub url : Bytes
  pub login : Bytes
  pub password : Bytes

pub record Config : Type 0 where
  pub pgsql_master : Pgsql
  pub pgsql_replica : List Pgsql
  pub http_listening : Bytes
  pub http_threads_count : ℤ
  pub http_queue_capacity : ℤ
  pub prometheus_listening : Bytes
  pub prometheus_port : ℤ
  pub logging_config : List (Bytes × Bytes)

unfoldable pub clear : Config → Config
clear c = record c {
  pgsql_master = record { url = pgsql_url; login = []; password = [] };
  pgsql_replica = [];
  http_listening = default_listening;
  http_threads_count = pos default_threads_count;
  http_queue_capacity = pos default_queue_capacity;
  prometheus_listening = default_prometheus_listening;
  prometheus_port = pos default_prometheus_port;
  logging_config = default_logging_config;
}

unfoldable pub init : Config → Config
unfolding clear
init c = clear c

abbrev pub int_text : ℤ → Bytes
int_text (pos n) = decimal n
int_text (negsuc n) = b'-' ∷ decimal (suc n)

-- `validation error '{key}={value}': {text}`.
abbrev pub validation_error : Bytes → Bytes → Bytes → Bytes
validation_error key value text =
    codes "validation error '" ++ key ++ codes "=" ++ value ++ codes "': " ++ text

abbrev pub has_scheme : Option ℕ → Bool
has_scheme none = false
has_scheme (some n) = true

-- The scheme that is put before a text without one.
unfoldable pub with_scheme : Bytes → Bytes
unfolding find
with_scheme url = if has_scheme (find (codes "://") url) then url else codes "postgresql://" ++ url

unfoldable pub parsed_url : Bytes → Result → Attempt Url
unfolding what
parsed_url url (ok u) = done u
parsed_url url (threw e u) = std_exception (what e url)

unfoldable pub check_scheme : Url → Attempt Url
unfolding equal
check_scheme u =
    if not (is_empty u.scheme) && not (equal u.scheme (codes "postgresql"))
    then std_exception (codes "scheme should be 'postgresql'")
    else done u

-- `sock_addr.port()`.
unfoldable pub port_or_throw : SocketAddress → Attempt ℕ
unfolding port
port_or_throw sock_addr =
    or_throw (port sock_addr) (codes "local socket address does not have port number")

abbrev pub or_pgsql_port : Url → ℕ → Url
unfolding set_port
or_pgsql_port u n = if n == 0 then set_port u pgsql_port else u

-- The fragment goes, and an endpoint without a path gets the default database.
unfoldable pub or_database : Url → Url
unfolding set_fragment get_path_segments set_path
or_database u =
    let v = set_fragment u [] in
    if is_empty (get_path_segments v []) then set_path v pgsql_database else v

-- `login:password`, or `login` alone.
abbrev pub split_user_info : Bytes → Option ℕ → Bytes × Bytes
split_user_info userinfo none = (userinfo, [])
split_user_info userinfo (some colon) = (take colon userinfo, drop (suc colon) userinfo)

-- `if (field.empty()) field = !given.empty() ? given : default;`
abbrev pub if_empty : Bytes → Bytes → Bytes → Bytes
if_empty field given default =
    if is_empty field then (if not (is_empty given) then given else default) else field

unfoldable pub store_endpoint : Pgsql → Url → Pgsql
unfolding find set_user_info to_string
store_endpoint pgsql u =
    let user = split_user_info u.user_info (find (codes ":") u.user_info) in
    record pgsql {
      url = to_string (set_user_info u []);
      login = if_empty pgsql.login user.0 pgsql_login;
      password = if_empty pgsql.password user.1 pgsql_password;
    }

-- Behind the `try` block and its handlers.
unfoldable pub or_defaults : Pgsql → Pgsql
or_defaults pgsql = record pgsql {
  login = if is_empty pgsql.login then pgsql_login else pgsql.login;
  password = if is_empty pgsql.password then pgsql_password else pgsql.password;
}

-- The handlers: where no address was found the text stays, and otherwise it is replaced.
unfoldable pub endpoint_result : Pgsql → Attempt Pgsql → Pgsql × List Bytes
unfolding or_defaults
endpoint_result pgsql (done valid) = (or_defaults valid, [])
endpoint_result pgsql (dns_exception text) =
    (or_defaults pgsql, validation_error (codes "pgsql.endpoint") pgsql.url text ∷ [])
endpoint_result pgsql (std_exception text) = (
  or_defaults (record pgsql { url = pgsql_url }),
  validation_error (codes "pgsql.endpoint") pgsql.url text ∷ [],
)

-- `if (value < min || value > max)` of an `int`.
unfoldable pub in_range : ℕ → ℕ → ℤ → Bool
in_range min max (pos n) = leb min n && leb n max
in_range min max (negsuc n) = false

abbrev pub range_text : ℕ → ℕ → Bytes
range_text min max =
    codes "should be in range [" ++ decimal min ++ codes ".." ++ decimal max ++ codes "]"

unfoldable pub validate_count : Bytes → ℕ → ℕ → ℕ → ℤ → ℤ × List Bytes
unfolding in_range decimal
validate_count key min max default count =
    if not (in_range min max count)
    then (pos default, validation_error key (int_text count) (range_text min max) ∷ [])
    else (count, [])

abbrev pub host_port_text : Bytes → Bytes → Bytes
host_port_text host port = host ++ b':' ∷ port

-- The handlers of the two listening addresses.
abbrev pub listening_result : Bytes → Bytes → Bytes → Attempt Bytes → Bytes × List Bytes
listening_result key listening default (done text) = (text, [])
listening_result key listening default (dns_exception text) =
    (listening, validation_error key listening text ∷ [])
listening_result key listening default (std_exception text) =
    (default, validation_error key listening text ∷ [])

module _ (inet_pton : Family → Bytes → Bool × Bytes)
    (host_by_name : Bytes → Attempt (List IpAddress))
    (resolve_service_to_port : Bytes → Attempt ℕ) where
  -- `SocketAddress sock_addr(text)`.
  abbrev pub sock_addr_of : Bytes → Attempt SocketAddress
  unfolding address_throwing
  sock_addr_of text = address_throwing inet_pton host_by_name resolve_service_to_port text

  -- The `try` block, on the text with a scheme.
  unfoldable pub check_endpoint : Pgsql → Attempt Pgsql
  unfolding parsed_url from_string check_scheme address_throwing port_or_throw or_database
      store_endpoint
  check_endpoint pgsql = parsed_url pgsql.url (from_string pgsql.url) >>= λ parsed.
      check_scheme parsed >>= λ u.
      sock_addr_of (host_port_text u.host (decimal u.port)) >>= λ sock_addr.
      port_or_throw sock_addr >>= λ n. done (store_endpoint pgsql (or_database (or_pgsql_port u n)))

  unfoldable pub validate_endpoint : Pgsql → Pgsql × List Bytes
  unfolding with_scheme check_endpoint endpoint_result
  validate_endpoint pgsql =
      let tried = record pgsql { url = with_scheme pgsql.url } in
      endpoint_result tried (check_endpoint tried)

  unfoldable pub validate_replicas : List Pgsql → List Pgsql × List Bytes
  unfolding validate_endpoint
  validate_replicas [] = ([], [])
  validate_replicas (replica ∷ more) =
      let (valid, errors) = validate_endpoint replica in
      let (rest, others) = validate_replicas more in (valid ∷ rest, errors ++ others)

  module _ (behind : ℕ) where
    -- An `http_listening` without a port number gets the default one.
    abbrev pub or_http_port : Bytes → SocketAddress → ℕ → Attempt Bytes
    unfolding host ip_to_string
    or_http_port listening sock_addr n =
        if n == 0
        then (or_throw (host sock_addr) (codes "local socket address does not have host IP address")
            >>= λ ip. done (host_port_text (ip_to_string behind ip) (decimal http_port)))
        else done listening

    unfoldable pub validate_listening : Bytes → Bytes × List Bytes
    unfolding address_throwing port_or_throw or_http_port
    validate_listening listening =
        listening_result (codes "http.listening") listening default_listening (
          sock_addr_of listening >>= λ sock_addr.
          port_or_throw sock_addr >>= λ n. or_http_port listening sock_addr n)

  abbrev pub or_prometheus_port : Bytes → ℕ → Bytes
  or_prometheus_port listening n =
      if n == 0 then host_port_text prometheus_host (decimal default_prometheus_port) else listening

  unfoldable pub validate_prometheus : ℤ → Bytes × List Bytes
  unfolding address_throwing port_or_throw
  validate_prometheus port =
      let listening = host_port_text prometheus_host (int_text port) in
      listening_result (codes "prometheus.listening") listening default_prometheus_listening (
        sock_addr_of listening >>= λ sock_addr.
        port_or_throw sock_addr >>= λ n. done (or_prometheus_port listening n))

  unfoldable pub validate : ℕ → Config → Config × List Bytes
  unfolding validate_endpoint validate_replicas validate_listening validate_count
      validate_prometheus
  validate behind c =
      let (master, master_errors) = validate_endpoint c.pgsql_master in
      let (replicas, replica_errors) = validate_replicas c.pgsql_replica in
      let (listening, listening_errors) = validate_listening behind c.http_listening in
      let (threads, threads_errors) =
        validate_count (codes "http.threads_count") min_threads_count max_threads_count
          default_threads_count c.http_threads_count in
      let (capacity, capacity_errors) =
        validate_count (codes "http.queue_capacity") min_queue_capacity max_queue_capacity
          default_queue_capacity c.http_queue_capacity in
      let (prometheus, prometheus_errors) = validate_prometheus c.prometheus_port in
      (
        record c {
          pgsql_master = master;
          pgsql_replica = replicas;
          http_listening = listening;
          http_threads_count = threads;
          http_queue_capacity = capacity;
          prometheus_listening = prometheus;
        },
        master_errors ++ replica_errors ++ listening_errors ++ threads_errors ++ capacity_errors
            ++ prometheus_errors,
      )
