-- ===== src/Configuration/Precedence.antt =====
-- Which value `Configuration::apply_` checks, of the defaults, the environment and the command line.
use social_network.Prelude.{
  Bool, ℕ, ◌≡◌, refl, sym, ap, ◌∙◌, List, [], ◌∷◌, ◌++◌, map, append-nil, append_assoc, Option,
  none, some, Bytes, codes, ℤ, pos, Option-cases, inl, inr, take_while, Attempt,
}
use social_network.StringHelpers.{trim}
use social_network.NumberParser.{try_parse_int, assign, stoi_bits}
use social_network.Environment.{has, get}
use social_network.IpAddress.{IpAddress, Family}
use social_network.IpAddress.Text.{c_str}
use social_network.Configuration.{
  Pgsql, Config, clear, init, validate, pgsql_url, default_listening, default_threads_count,
  default_queue_capacity, default_prometheus_port, default_prometheus_listening,
  default_logging_config,
}
use social_network.Configuration.Sources.{
  Cli, set_master_url, add_replica, set_listening, set_queue, set_threads, set_prometheus,
  if_parsed, from_env, from_env_int, read_env, from_cli, add_replicas, read_cli, apply,
}

-- A text of the environment over what stands, a number over what stands, and an endpoint more.
abbrev pub text_over : Option Bytes → Bytes → Bytes
unfolding trim
text_over none old = old
text_over (some val) old = trim val

abbrev pub int_over : Option Bytes → ℤ → ℤ
unfolding trim try_parse_int
int_over none old = old
int_over (some val) old = (try_parse_int (trim val) old).0

abbrev pub endpoint : Bytes → Pgsql
endpoint url = record { url = url; login = []; password = [] }

abbrev pub endpoint_of : Option Bytes → List Pgsql
unfolding trim
endpoint_of none = []
endpoint_of (some val) = endpoint (trim val) ∷ []

abbrev pub cli_over {ℓ} : {A : Type ℓ} → Option A → A → A
cli_over none old = old
cli_over (some val) old = val

abbrev pub cli_endpoints : Option (List Bytes) → List Pgsql
cli_endpoints none = []
cli_endpoints (some urls) = map endpoint urls

parsed_over :
    (store : Config → ℤ → Config) (c : Config) (old : ℤ) (parsed : Option ℤ)
    → store c old ≡ c
    → if_parsed store c (assign parsed (pos 0)) ≡ store c (assign parsed old).0
parsed_over store c old none e = sym e
parsed_over store c old (some val) e = refl

-- One assignment behind others.
stage : (f : Config → Config) {x y z : Config} → x ≡ y → f y ≡ z → f x ≡ z
stage f p q = ap f p ∙ q

module _ (getenv : Bytes → Option Bytes) where
  from_env-over :
      (key : Bytes) (store : Config → Bytes → Config) (c : Config) (old : Bytes)
      → store c old ≡ c
      → from_env getenv key store c ≡ store c (text_over (getenv (c_str key)) old)
  unfolding from_env has get
  from_env-over key store c old e = elim (Option-cases (getenv (c_str key))) [
    | inl h ↦ rw (from_env, h) (sym e)
    | inr (val, h) ↦ rw (from_env, h) refl
  ]

  from_env_int-over :
      (key : Bytes) (store : Config → ℤ → Config) (c : Config) (old : ℤ)
      → store c old ≡ c
      → from_env_int getenv key store c ≡ store c (int_over (getenv (c_str key)) old)
  unfolding from_env_int has get int_over try_parse_int
  from_env_int-over key store c old e = elim (Option-cases (getenv (c_str key))) [
    | inl h ↦ rw (from_env_int, h) (sym e)
    | inr (val, h) ↦ rw (from_env_int, h) (parsed_over store c old (stoi_bits 31 (trim val)) e)
  ]

  from_env-add_replica :
      (key : Bytes) (c : Config)
      → from_env getenv key add_replica c
        ≡ record c { pgsql_replica = c.pgsql_replica ++ endpoint_of (getenv (c_str key)) }
  unfolding from_env has get
  from_env-add_replica key c = elim (Option-cases (getenv (c_str key))) [
    | inl h ↦
        rw (from_env, h)
          (ap (λ r. record c { pgsql_replica = r }) (sym (append-nil c.pgsql_replica)))
    | inr (val, h) ↦ rw (from_env, h) refl
  ]

  -- What the environment makes of a configuration.
  abbrev env_settings : Config → Config
  unfolding text_over int_over endpoint_of
  env_settings c = record c {
    pgsql_master = record c.pgsql_master {
      url = text_over (getenv (codes "PGSQL_MASTER_URL")) c.pgsql_master.url;
    };
    pgsql_replica =
        c.pgsql_replica
        ++ endpoint_of (getenv (codes "PGSQL_REPLICA_1_URL"))
        ++ endpoint_of (getenv (codes "PGSQL_REPLICA_2_URL"))
        ++ endpoint_of (getenv (codes "PGSQL_REPLICA_3_URL"))
        ++ endpoint_of (getenv (codes "PGSQL_REPLICA_4_URL"))
        ++ endpoint_of (getenv (codes "PGSQL_REPLICA_5_URL"));
    http_listening = text_over (getenv (codes "HTTP_LISTENING")) c.http_listening;
    http_queue_capacity = int_over (getenv (codes "HTTP_QUEUE_CAPACITY")) c.http_queue_capacity;
    http_threads_count = int_over (getenv (codes "HTTP_THREADS_COUNT")) c.http_threads_count;
    prometheus_port = int_over (getenv (codes "PROMETHEUS_PORT")) c.prometheus_port;
  }

  read_env-env_settings : (c : Config) → read_env getenv c ≡ env_settings c
  unfolding read_env env_settings take_while
  read_env-env_settings c =
      let c1 =
        set_master_url c (text_over (getenv (codes "PGSQL_MASTER_URL")) c.pgsql_master.url) in
      let more = λ (d : Config) (key : Bytes). record d {
        pgsql_replica = d.pgsql_replica ++ endpoint_of (getenv key);
      } in
      let c2 = more c1 (codes "PGSQL_REPLICA_1_URL") in
      let c3 = more c2 (codes "PGSQL_REPLICA_2_URL") in
      let c4 = more c3 (codes "PGSQL_REPLICA_3_URL") in
      let c5 = more c4 (codes "PGSQL_REPLICA_4_URL") in
      let c6 = more c5 (codes "PGSQL_REPLICA_5_URL") in
      let c7 = set_listening c6 (text_over (getenv (codes "HTTP_LISTENING")) c.http_listening) in
      let c8 =
        set_queue c7 (int_over (getenv (codes "HTTP_QUEUE_CAPACITY")) c.http_queue_capacity) in
      let c9 =
        set_threads c8 (int_over (getenv (codes "HTTP_THREADS_COUNT")) c.http_threads_count) in
      let s1 = from_env-over (codes "PGSQL_MASTER_URL") set_master_url c c.pgsql_master.url refl in
      let s2 =
        stage (from_env getenv (codes "PGSQL_REPLICA_1_URL") add_replica) s1
          (from_env-add_replica (codes "PGSQL_REPLICA_1_URL") c1) in
      let s3 =
        stage (from_env getenv (codes "PGSQL_REPLICA_2_URL") add_replica) s2
          (from_env-add_replica (codes "PGSQL_REPLICA_2_URL") c2) in
      let s4 =
        stage (from_env getenv (codes "PGSQL_REPLICA_3_URL") add_replica) s3
          (from_env-add_replica (codes "PGSQL_REPLICA_3_URL") c3) in
      let s5 =
        stage (from_env getenv (codes "PGSQL_REPLICA_4_URL") add_replica) s4
          (from_env-add_replica (codes "PGSQL_REPLICA_4_URL") c4) in
      let s6 =
        stage (from_env getenv (codes "PGSQL_REPLICA_5_URL") add_replica) s5
          (from_env-add_replica (codes "PGSQL_REPLICA_5_URL") c5) in
      let s7 =
        stage (from_env getenv (codes "HTTP_LISTENING") set_listening) s6
          (from_env-over (codes "HTTP_LISTENING") set_listening c6 c.http_listening refl) in
      let s8 =
        stage (from_env_int getenv (codes "HTTP_QUEUE_CAPACITY") set_queue) s7 (
          from_env_int-over (codes "HTTP_QUEUE_CAPACITY") set_queue c7 c.http_queue_capacity
            refl) in
      let s9 =
        stage (from_env_int getenv (codes "HTTP_THREADS_COUNT") set_threads) s8 (
          from_env_int-over (codes "HTTP_THREADS_COUNT") set_threads c8 c.http_threads_count
            refl) in
      stage (from_env_int getenv (codes "PROMETHEUS_PORT") set_prometheus) s9
        (from_env_int-over (codes "PROMETHEUS_PORT") set_prometheus c9 c.prometheus_port refl)

add_replicas-append :
    (urls : List Bytes) (c : Config)
    → add_replicas c urls ≡ record c { pgsql_replica = c.pgsql_replica ++ map endpoint urls }
unfolding add_replicas
add_replicas-append [] c =
    ap (λ r. record c { pgsql_replica = r }) (sym (append-nil c.pgsql_replica))
add_replicas-append (url ∷ urls) c =
    add_replicas-append urls (add_replica c url)
    ∙ ap (λ r. record c { pgsql_replica = r })
        (append_assoc c.pgsql_replica (endpoint url ∷ []) (map endpoint urls))

from_cli-over :
    {A : Type 0} (option : Option A) (store : Config → A → Config) (c : Config) (old : A)
    → store c old ≡ c
    → from_cli option store c ≡ store c (cli_over option old)
from_cli-over none store c old e = sym e
from_cli-over (some val) store c old e = refl

from_cli-add_replicas :
    (urls : Option (List Bytes)) (c : Config)
    → from_cli urls add_replicas c
      ≡ record c { pgsql_replica = c.pgsql_replica ++ cli_endpoints urls }
from_cli-add_replicas none c =
    ap (λ r. record c { pgsql_replica = r }) (sym (append-nil c.pgsql_replica))
from_cli-add_replicas (some urls) c = add_replicas-append urls c

-- What the command line makes of a configuration.
abbrev cli_settings : Cli → Config → Config
cli_settings cli c = record c {
  pgsql_master = record c.pgsql_master { url = cli_over cli.pgsql_master_url c.pgsql_master.url };
  pgsql_replica = c.pgsql_replica ++ cli_endpoints cli.pgsql_replica_url;
  http_listening = cli_over cli.http_listening c.http_listening;
  http_queue_capacity = cli_over cli.http_queue c.http_queue_capacity;
  http_threads_count = cli_over cli.http_threads c.http_threads_count;
  prometheus_port = cli_over cli.prometheus_port c.prometheus_port;
}

read_cli-cli_settings : (cli : Cli) (c : Config) → read_cli cli c ≡ cli_settings cli c
unfolding read_cli
read_cli-cli_settings cli c =
    let c1 = set_master_url c (cli_over cli.pgsql_master_url c.pgsql_master.url) in
    let c2 = record c1 {
      pgsql_replica = c1.pgsql_replica ++ cli_endpoints cli.pgsql_replica_url;
    } in
    let c3 = set_listening c2 (cli_over cli.http_listening c.http_listening) in
    let c4 = set_queue c3 (cli_over cli.http_queue c.http_queue_capacity) in
    let c5 = set_threads c4 (cli_over cli.http_threads c.http_threads_count) in
    let s1 = from_cli-over cli.pgsql_master_url set_master_url c c.pgsql_master.url refl in
    let s2 =
      stage (from_cli cli.pgsql_replica_url add_replicas) s1
        (from_cli-add_replicas cli.pgsql_replica_url c1) in
    let s3 =
      stage (from_cli cli.http_listening set_listening) s2
        (from_cli-over cli.http_listening set_listening c2 c.http_listening refl) in
    let s4 =
      stage (from_cli cli.http_queue set_queue) s3
        (from_cli-over cli.http_queue set_queue c3 c.http_queue_capacity refl) in
    let s5 =
      stage (from_cli cli.http_threads set_threads) s4
        (from_cli-over cli.http_threads set_threads c4 c.http_threads_count refl) in
    stage (from_cli cli.prometheus_port set_prometheus) s5
      (from_cli-over cli.prometheus_port set_prometheus c5 c.prometheus_port refl)

-- The settings that are checked: each is that of the command line if one was given there, otherwise
-- that of the environment if there is one (and, of a number, if it is one), otherwise the default;
-- the replicas are those of the environment by their numbers and then those of the command line.
abbrev pub settings : (Bytes → Option Bytes) → Cli → Config
unfolding text_over int_over endpoint_of
settings getenv cli = record {
  pgsql_master =
      endpoint
        (cli_over cli.pgsql_master_url (text_over (getenv (codes "PGSQL_MASTER_URL")) pgsql_url));
  pgsql_replica =
      endpoint_of (getenv (codes "PGSQL_REPLICA_1_URL"))
      ++ endpoint_of (getenv (codes "PGSQL_REPLICA_2_URL"))
      ++ endpoint_of (getenv (codes "PGSQL_REPLICA_3_URL"))
      ++ endpoint_of (getenv (codes "PGSQL_REPLICA_4_URL"))
      ++ endpoint_of (getenv (codes "PGSQL_REPLICA_5_URL"))
      ++ cli_endpoints cli.pgsql_replica_url;
  http_listening =
      cli_over cli.http_listening (text_over (getenv (codes "HTTP_LISTENING")) default_listening);
  http_threads_count =
      cli_over cli.http_threads
        (int_over (getenv (codes "HTTP_THREADS_COUNT")) (pos default_threads_count));
  http_queue_capacity =
      cli_over cli.http_queue
        (int_over (getenv (codes "HTTP_QUEUE_CAPACITY")) (pos default_queue_capacity));
  prometheus_listening = default_prometheus_listening;
  prometheus_port =
      cli_over cli.prometheus_port
        (int_over (getenv (codes "PROMETHEUS_PORT")) (pos default_prometheus_port));
  logging_config = default_logging_config;
}

-- `apply_` checks the settings that `settings` lists, whatever the object held before: the command
-- line goes before the environment and the environment before the defaults, of every setting, and
-- replicas are collected from both.
pub apply-settings :
    (inet_pton : Family → Bytes → Bool × Bytes) (host_by_name : Bytes → Attempt (List IpAddress))
    (resolve_service_to_port : Bytes → Attempt ℕ) (behind : ℕ) (getenv : Bytes → Option Bytes)
    (cli : Cli) (c : Config)
    → apply inet_pton host_by_name resolve_service_to_port behind getenv cli c
      ≡ validate inet_pton host_by_name resolve_service_to_port behind (settings getenv cli)
unfolding apply init clear
apply-settings inet_pton host_by_name resolve_service_to_port behind getenv cli c =
    ap (validate inet_pton host_by_name resolve_service_to_port behind) (
      ap (read_cli cli) (read_env-env_settings getenv (init c))
      ∙ read_cli-cli_settings cli (env_settings getenv (init c)))
