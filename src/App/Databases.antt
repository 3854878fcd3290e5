-- ===== src/App/Databases.antt =====
-- `db_start` of app.cpp, and the statements that set up the tables. The text of the exception of
-- `substr` is that of the standard library, a parameter.
pub mod Strings
use social_network.Prelude.{
  ℕ, suc, ◌-◌, ◌^◌, Bool, true, false, not, List, [], ◌∷◌, ◌++◌, Option, none, some, if◌then◌else◌,
  Bytes, codes, equal, is_empty, drop, ℤ, pos, negsuc, Attempt, done, dns_exception, std_exception,
  value,
}
use social_network.Prelude.Attempts.{◌>>=◌}
use social_network.Format.{decimal}
use social_network.Url.Model.{Url, get_port}
use social_network.Url.Parser.{from_string}
use social_network.Configuration.{Pgsql, Config, parsed_url}
use social_network.ConnectionPool.{
  NodeType, master, ConnectionPool, TypeNumTagConnection, make_pool, get_connection,
  release_connection,
}
use social_network.App.{App, Sql, count_request_to_host}

-- `{host}:{port}`, and the connection string.
unfoldable pub node_tag : Url → Bytes
unfolding get_port decimal
node_tag url = url.host ++ b':' ∷ decimal (get_port url)

unfoldable pub connection_text : Bytes → Bytes → Url → Bytes → Bytes
unfolding get_port decimal
connection_text login password url dbname =
    codes "user="
    ++ login
    ++ codes " password="
    ++ password
    ++ codes " host="
    ++ url.host
    ++ codes " port="
    ++ decimal (get_port url)
    ++ codes " dbname="
    ++ dbname
    ++ codes " connect_timeout=60 application_name=social_network"

-- `substr(1)`.
abbrev pub behind_first : Bytes → Bytes → Attempt Bytes
behind_first out_of_range [] = std_exception out_of_range
behind_first out_of_range (c ∷ path) = done path

-- `db_host_tags.insert(tag)`.
unfoldable pub insert_tag : Bytes → List Bytes → List Bytes
unfolding equal
insert_tag tag [] = tag ∷ []
insert_tag tag (t ∷ tags) = if equal t tag then t ∷ tags else t ∷ insert_tag tag tags

-- One pair of a connection string and a tag; the tag is known even if the path is empty.
unfoldable pub pair_of : Bytes → Pgsql → Url → Attempt (Bytes × Bytes)
unfolding connection_text node_tag
pair_of out_of_range pgsql url = behind_first out_of_range url.path >>= λ dbname.
    done (connection_text pgsql.login pgsql.password url dbname, node_tag url)

unfoldable pub add_parsed :
    Bytes → Pgsql → List Bytes → Attempt Url → List Bytes × Attempt (Bytes × Bytes)
unfolding insert_tag pair_of
add_parsed out_of_range pgsql tags (done url) =
    (insert_tag (node_tag url) tags, pair_of out_of_range pgsql url)
add_parsed out_of_range pgsql tags (dns_exception what) = (tags, dns_exception what)
add_parsed out_of_range pgsql tags (std_exception what) = (tags, std_exception what)

unfoldable pub add_node : Bytes → Pgsql → List Bytes → List Bytes × Attempt (Bytes × Bytes)
unfolding add_parsed from_string parsed_url
add_node out_of_range pgsql tags =
    add_parsed out_of_range pgsql tags (parsed_url pgsql.url (from_string pgsql.url))

-- The loop over the replicas, up to the first exception.
abbrev pub then_nodes :
    List Bytes × Attempt (Bytes × Bytes)
    → (List Bytes → List Bytes × Attempt (List (Bytes × Bytes)))
    → List Bytes × Attempt (List (Bytes × Bytes))
then_nodes (tags, done pair) more =
    let (all, rest) = more tags in (all, rest >>= λ r. done (pair ∷ r))
then_nodes (tags, dns_exception what) more = (tags, dns_exception what)
then_nodes (tags, std_exception what) more = (tags, std_exception what)

unfoldable pub add_nodes :
    Bytes → List Pgsql → List Bytes → List Bytes × Attempt (List (Bytes × Bytes))
unfolding add_node
add_nodes out_of_range [] tags = (tags, done [])
add_nodes out_of_range (replica ∷ more) tags =
    then_nodes (add_node out_of_range replica tags) (add_nodes out_of_range more)

-- What `db_start` sets; `db_client_started` is static.
pub record Start (C : Type 0) : Type 0 where
  pub db_client_started : Bool
  pub db_host_tags : List Bytes
  pub db_pool : Option (ConnectionPool C)

-- An `int` as a `size_t`.
abbrev pub to_size : ℤ → ℕ
to_size (pos n) = n
to_size (negsuc n) = 2 ^ 64 - suc n

-- The nodes of both types.
unfoldable pub all_nodes :
    Bytes → Config → List Bytes → List Bytes × Attempt (List (Bytes × Bytes) × List (Bytes × Bytes))
unfolding add_nodes
all_nodes out_of_range config tags =
    let (tags1, masters) = add_nodes out_of_range (config.pgsql_master ∷ []) tags in
    elim masters [
      | done ms ↦
          let (tags2, replicas) = add_nodes out_of_range config.pgsql_replica tags1 in
          (tags2, replicas >>= λ rs. done (ms, rs))
      | dns_exception what ↦ (tags1, dns_exception what)
      | std_exception what ↦ (tags1, std_exception what)
    ]

module _ {C : Type 0} (connect : ℕ → Bytes → Option C) where
  abbrev pub store_pool : Start C → Option (ConnectionPool C) → Start C
  store_pool st none = st
  store_pool st (some p) = record st { db_client_started = true; db_pool = some p }

  unfoldable pub start_pool :
      Start C → ℤ → List Bytes × Attempt (List (Bytes × Bytes) × List (Bytes × Bytes)) → Start C
  unfolding make_pool
  start_pool st threads (tags, done (masters, replicas)) =
      store_pool (record st { db_host_tags = tags })
        (make_pool connect masters replicas (to_size threads))
  start_pool st threads (tags, dns_exception what) = record st { db_host_tags = tags }
  start_pool st threads (tags, std_exception what) = record st { db_host_tags = tags }

  unfoldable pub db_start : Bytes → Config → Start C → Start C
  unfolding start_pool all_nodes
  db_start out_of_range config st =
      if st.db_client_started
      then st
      else start_pool st config.http_threads_count (all_nodes out_of_range config st.db_host_tags)

abbrev pub create_users_table : Bytes
create_users_table =
    codes "CREATE TABLE IF NOT EXISTS users ("
    ++ codes "  id          UUID         PRIMARY KEY DEFAULT gen_random_uuid(),"
    ++ codes "  created_at  TIMESTAMP    NOT NULL DEFAULT NOW(),"
    ++ codes "  pwd_hash    VARCHAR(100) NOT NULL,"
    ++ codes "  first_name  VARCHAR(50)  NOT NULL,"
    ++ codes "  second_name VARCHAR(50)  NOT NULL,"
    ++ codes "  birthdate   DATE,"
    ++ codes "  biography   TEXT,"
    ++ codes "  city        VARCHAR(50)"
    ++ codes ")"

abbrev pub create_names_index : Bytes
create_names_index =
    codes "CREATE INDEX IF NOT EXISTS users_names_btree_idx "
    ++ codes "ON users(first_name text_pattern_ops, second_name text_pattern_ops)"

abbrev pub drop_names_index : Bytes
drop_names_index = codes "DROP INDEX IF EXISTS users_names_btree_idx"

module _ {C Db Row : Type 0} (sql : Sql C Db Row) where
  -- The `try` block of a statement, whose exception goes to the log alone.
  unfoldable pub with_master :
      App C Db → Bytes → ConnectionPool C × Option (TypeNumTagConnection C) → App C Db
  unfolding count_request_to_host release_connection
  with_master app query (p, none) = record app { db_pool = some p }
  with_master app query (p, some scoped_conn) = record app {
    db_pool = some (release_connection p scoped_conn);
    metrics = count_request_to_host scoped_conn.node_tag app.metrics;
    db = sql.execute app.db scoped_conn.conn query;
  }

  unfoldable pub run_statement : Bytes → ConnectionPool C → App C Db → App C Db
  unfolding with_master get_connection
  run_statement query p app = with_master app query (get_connection master p)

  unfoldable pub db_create_users_table : ConnectionPool C → App C Db → App C Db
  unfolding run_statement
  db_create_users_table p app = run_statement create_users_table p app

  unfoldable pub db_create_index_users_names_search : ConnectionPool C → App C Db → App C Db
  unfolding run_statement
  db_create_index_users_names_search p app = run_statement create_names_index p app

  unfoldable pub db_drop_index_users_names_search : ConnectionPool C → App C Db → App C Db
  unfolding run_statement
  db_drop_index_users_names_search p app = run_statement drop_names_index p app
