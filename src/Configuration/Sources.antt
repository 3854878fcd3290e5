-- ===== src/Configuration/Sources.antt =====
-- `Configuration::apply_` of service/sources/configuration/configuration.cpp: the environment, then
-- the options of the command line, then the check. An option is `none` if it was not given or has
-- another type, which throws and is caught.
use social_network.Prelude.{
  ℕ, Bool, List, [], ◌∷◌, ◌++◌, Option, none, some, if◌then◌else◌, Bytes, codes, ℤ, pos, Attempt,
}
use social_network.StringHelpers.{trim}
use social_network.NumberParser.{try_parse_int}
use social_network.Environment.{has, get, value_or}
use social_network.IpAddress.{IpAddress, Family}
use social_network.Configuration.{Config, init, validate}

pub record Cli : Type 0 where
  pub pgsql_master_url : Option Bytes
  pub pgsql_replica_url : Option (List Bytes)
  pub http_listening : Option Bytes
  pub http_queue : Option ℤ
  pub http_threads : Option ℤ
  pub prometheus_port : Option ℤ

abbrev pub set_master_url : Config → Bytes → Config
set_master_url c url = record c { pgsql_master = record c.pgsql_master { url = url } }

-- `pgsql_replica.push_back({}); pgsql_replica.back().url = url;`
abbrev pub add_replica : Config → Bytes → Config
add_replica c url = record c {
  pgsql_replica = c.pgsql_replica ++ (record { url = url; login = []; password = [] }) ∷ [];
}

abbrev pub set_listening : Config → Bytes → Config
set_listening c listening = record c { http_listening = listening }

abbrev pub set_queue : Config → ℤ → Config
set_queue c capacity = record c { http_queue_capacity = capacity }

abbrev pub set_threads : Config → ℤ → Config
set_threads c count = record c { http_threads_count = count }

abbrev pub set_prometheus : Config → ℤ → Config
set_prometheus c port = record c { prometheus_port = port }

-- A text that is read as an `int` is stored.
abbrev pub if_parsed : (Config → ℤ → Config) → Config → ℤ × Bool → Config
if_parsed store c (val, parsed) = if parsed then store c val else c

module _ (getenv : Bytes → Option Bytes) where
  unfoldable pub from_env : Bytes → (Config → Bytes → Config) → Config → Config
  unfolding has get trim
  from_env key store c = if has getenv key then store c (trim (value_or (get getenv key) [])) else c

  unfoldable pub from_env_int : Bytes → (Config → ℤ → Config) → Config → Config
  unfolding has get trim try_parse_int
  from_env_int key store c =
      if has getenv key
      then if_parsed store c (try_parse_int (trim (value_or (get getenv key) [])) (pos 0))
      else c

  unfoldable pub read_env : Config → Config
  unfolding from_env from_env_int
  read_env c = from_env_int (codes "PROMETHEUS_PORT") set_prometheus (
      from_env_int (codes "HTTP_THREADS_COUNT") set_threads (
        from_env_int (codes "HTTP_QUEUE_CAPACITY") set_queue (
          from_env (codes "HTTP_LISTENING") set_listening (
            from_env (codes "PGSQL_REPLICA_5_URL") add_replica (
              from_env (codes "PGSQL_REPLICA_4_URL") add_replica (
                from_env (codes "PGSQL_REPLICA_3_URL") add_replica (
                  from_env (codes "PGSQL_REPLICA_2_URL") add_replica (
                    from_env (codes "PGSQL_REPLICA_1_URL") add_replica
                      (from_env (codes "PGSQL_MASTER_URL") set_master_url c)))))))))

abbrev pub from_cli {ℓ} : {A : Type ℓ} → Option A → (Config → A → Config) → Config → Config
from_cli none store c = c
from_cli (some val) store c = store c val

unfoldable pub add_replicas : Config → List Bytes → Config
add_replicas c [] = c
add_replicas c (v ∷ val) = add_replicas (add_replica c v) val

unfoldable pub read_cli : Cli → Config → Config
unfolding add_replicas
read_cli cli c = from_cli cli.prometheus_port set_prometheus (
    from_cli cli.http_threads set_threads (
      from_cli cli.http_queue set_queue (
        from_cli cli.http_listening set_listening (
          from_cli cli.pgsql_replica_url add_replicas
            (from_cli cli.pgsql_master_url set_master_url c)))))

-- The configuration, and the errors that go to the log.
unfoldable pub apply :
    (Family → Bytes → Bool × Bytes)
    → (Bytes → Attempt (List IpAddress))
    → (Bytes → Attempt ℕ)
    → ℕ
    → (Bytes → Option Bytes)
    → Cli
    → Config
    → Config × List Bytes
unfolding init read_env read_cli validate
apply inet_pton host_by_name resolve_service_to_port behind getenv cli c =
    validate inet_pton host_by_name resolve_service_to_port behind
      (read_cli cli (read_env getenv (init c)))
