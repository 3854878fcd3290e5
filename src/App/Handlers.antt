-- ===== src/App/Handlers.antt =====
-- What the handlers of app.cpp share. `name` in a message is the name of the handler.
pub mod Login
pub mod Register
pub mod Users
pub mod Effects
pub mod Tokens
pub mod Registered
use social_network.Prelude.{
  ℕ, zero, suc, ◌+◌, Bool, true, false, not, ◌&&◌, ◌||◌, List, [], ◌∷◌, ◌++◌, Option, none, some,
  ltb, leb, if◌then◌else◌, Bytes, codes, equal, length, ℤ, pos, negsuc, Attempt, done,
  dns_exception, std_exception,
}
use social_network.ConnectionPool.{
  NodeType, master, replica, ConnectionPool, TypeNumTagConnection, get_connection,
  release_connection,
}
use social_network.App.{
  Json, null, array, object, string, Elements, no_elements, element, members, error_json, contains,
  is_string, get_string, Request, Response, set_status, set_content, count_request_to_host,
  Libraries, Sql, App, Handled, answered, threw, Tried, returned, ended, raised, ◌>>=◌,
  no_connections, is_given, or_nothing,
}
use social_network.App.Uuids.{is_valid_uuid}

-- `path_params.contains`, `has_param`, and the value.
unfoldable pub find_param : Bytes → List (Bytes × Bytes) → Option Bytes
unfolding equal
find_param key [] = none
find_param key ((name, value) ∷ params) =
    if equal name key then some value else find_param key params

abbrev pub application_json : Bytes
application_json = codes "application/json"

unfoldable pub with_status : Option ℕ → Response → Response
unfolding set_status
with_status none res = res
with_status (some code) res = set_status code res

module _ {C Db : Type 0} where
  -- `res.status = code; return false;`
  unfoldable pub refuse : ℕ → App C Db → Response → Handled C Db
  unfolding set_status
  refuse code app res = answered false app (set_status code res)

  -- The `ScopedConnection` of a `try` block: the request is counted for its node, the rest of the block
  -- runs with it, and its destructor gives it back however the block ends.
  unfoldable pub with_connection :
      App C Db
      → ConnectionPool C × Option (TypeNumTagConnection C)
      → (C → Db → Db × Tried)
      → App C Db × Tried
  unfolding count_request_to_host release_connection
  with_connection app (p, none) block = (record app { db_pool = some p }, raised no_connections)
  with_connection app (p, some scoped_conn) block =
      let (db, tried) = block scoped_conn.conn app.db in
      (
        record app {
          db_pool = some (release_connection p scoped_conn);
          metrics = count_request_to_host scoped_conn.node_tag app.metrics;
          db = db;
        },
        tried,
      )

  unfoldable pub scoped :
      NodeType → ConnectionPool C → App C Db → (C → Db → Db × Tried) → App C Db × Tried
  unfolding with_connection get_connection
  scoped preferred p app block = with_connection app (get_connection preferred p) block

  -- A body that is no JSON throws out of the handler.
  abbrev pub with_json :
      Attempt Json
      → App C Db
      → Response
      → (Json → App C Db → Response → Handled C Db)
      → Handled C Db
  with_json (done json) app res handler = handler json app res
  with_json (dns_exception what) app res handler = threw what app res
  with_json (std_exception what) app res handler = threw what app res

-- A `try` block that only reads.
abbrev pub reading :
    {C Db Row : Type 0}
    → Sql C Db Row
    → Bytes
    → List Bytes
    → (List Row → Tried)
    → C
    → Db
    → Db × Tried
reading sql query params rows conn db = (db, sql.select db conn query params >>= rows)

module _ {C Db : Type 0} (lib : Libraries) where
  -- `res.set_content(response.dump(), "application/json"); return ok;`
  unfoldable pub dumped : Bool → Attempt Bytes → App C Db → Response → Handled C Db
  unfolding set_content
  dumped ok (done body) app res = answered ok app (set_content body application_json res)
  dumped ok (dns_exception what) app res = threw what app res
  dumped ok (std_exception what) app res = threw what app res

  unfoldable pub finish : Bool → Json → App C Db → Response → Handled C Db
  finish ok response app res = dumped ok (lib.dump response) app res

  -- `if (!db_pool_)`.
  unfoldable pub unavailable : Bytes → App C Db → Response → Handled C Db
  unfolding finish set_status
  unavailable name app res =
      finish false
        (error_json (codes "503")
          (codes "Server Error: " ++ name ++ codes ": there is no connection to DB"))
        app (set_status 503 res)

  -- Behind the `try` block: its handler, and the content.
  unfoldable pub settle : Tried → App C Db → Response → Handled C Db
  unfolding refuse finish set_status
  settle (returned code) app res = refuse code app res
  settle (ended ok response status) app res = finish ok response app (with_status status res)
  settle (raised what) app res =
      finish false (error_json (codes "500") (codes "Error SQL: " ++ what)) app (set_status 500 res)

  unfoldable pub settled : App C Db × Tried → Response → Handled C Db
  unfolding settle
  settled (app, tried) res = settle tried app res
