-- ===== src/App/Tests.antt =====
-- Runs of the service over a small database, and its theorems there.
use social_network.App.Handlers.{dumped}
use social_network.Prelude.{
  ℕ, ◌≡◌, ◌↔◌, refl, Bool, true, false, List, [], ◌∷◌, ◌++◌, Option, none, some, Bytes, codes,
  equal, if◌then◌else◌, pos, Attempt, done, std_exception,
}
use social_network.ConnectionPool.{hand_out, ConnectionPool}
use social_network.App.{
  Json, string, object, no_members, member, members, Request, Response, login, user_register,
  user_get_id, user_search, new_metrics, Libraries, Sql, App, Handled, answered, threw,
}
use social_network.App.Uuids.{is_valid_uuid, IsUuid, is_valid_uuid_iff}
use social_network.App.Handlers.Login.{login_handler}
use social_network.App.Handlers.Register.{user_register_handler}
use social_network.App.Handlers.Effects.{app_of, Returns}
use social_network.App.Handlers.Tokens.{TokenOf, login_handler-TokenOf}
use social_network.App.Handlers.Registered.{RegisteredOf, user_register_handler-RegisteredOf}
use social_network.App.Endpoints.{exception_handler, serve}
use social_network.App.Endpoints.Keeping.{Balanced, serve-Returns, serve-db, serve-Balanced}

abbrev ann : Bytes
ann = codes "123e4567-e89b-12d3-A456-426614174000"

abbrev login_body : Json
login_body = object (members ((codes "id", ann) ∷ (codes "password", codes "secret") ∷ []))

abbrev register_body : Json
register_body = object (
    members (
      (codes "password", codes "long secret")
      ∷ (codes "first_name", codes "Bob")
      ∷ (codes "second_name", codes "Ray")
      ∷ (codes "birthdate", codes "1990-05-01")
      ∷ (codes "biography", codes "none")
      ∷ (codes "city", codes "Omsk")
      ∷ []))

-- Libraries that know two bodies; a hash is the password behind an `h`.
abbrev parse_body : Bytes → Attempt Json
unfolding equal
parse_body text =
    if equal text (codes "login")
    then done login_body
    else if equal text (codes "register")
    then done register_body
    else std_exception (codes "parse error")

abbrev dump : Json → Attempt Bytes
dump (object (member name (string text) no_members)) = done (name ++ b'=' ∷ text)
dump json = done (codes "json")

abbrev validate_password : Bytes → Bytes → Bool
unfolding equal
validate_password password hash = equal (b'h' ∷ password) hash

abbrev libraries : Libraries
unfolding parse_body validate_password
libraries = record {
  parse = parse_body;
  dump = dump;
  validate_password = validate_password;
  generate_hash = λ password cost. done (b'h' ∷ password);
  get_year = λ text. some (pos 90);
}

-- A database of one table, of rows of two texts, the id and the hash.
abbrev find_rows : Bytes → List (Bytes × Bytes) → List (Bytes × Bytes)
unfolding equal
find_rows id [] = []
find_rows id ((row_id, hash) ∷ db) =
    if equal row_id id then (row_id, hash) ∷ find_rows id db else find_rows id db

abbrev first_param : List Bytes → Bytes
first_param [] = []
first_param (id ∷ params) = id

abbrev last_param : List Bytes → Bytes
last_param [] = []
last_param (hash ∷ []) = hash
last_param (param ∷ other ∷ params) = last_param (other ∷ params)

abbrev commit :
    List (Bytes × Bytes)
    → ℕ
    → Bytes
    → List Bytes
    → List (Bytes × Bytes) × Attempt (List (Bytes × Bytes))
commit db conn query params =
    let row : Bytes × Bytes = (codes "new id", last_param params) in (row ∷ db, done (row ∷ []))

abbrev sql : Sql ℕ (List (Bytes × Bytes)) (Bytes × Bytes)
unfolding find_rows
sql = record {
  select = λ db conn query params. done (find_rows (first_param params) db);
  commit = commit;
  execute = λ db conn query. db;
  as_one = λ row. done row.0;
  as_two = λ row. done row;
  as_five = λ row. std_exception (codes "two columns");
  as_six = λ row. std_exception (codes "two columns");
}

abbrev users : List (Bytes × Bytes)
users = (ann, codes "hsecret") ∷ []

abbrev pool : ConnectionPool ℕ
pool = record {
  masters = (record { node_tag = codes "m:1"; conn_str = []; conn_pool = 1 ∷ 2 ∷ [] }) ∷ [];
  replicas = (record { node_tag = codes "r:1"; conn_str = []; conn_pool = 3 ∷ 4 ∷ [] }) ∷ [];
  last_used_master_num = 0;
  last_used_replica_num = 0;
}

abbrev service : App ℕ (List (Bytes × Bytes))
unfolding new_metrics
service = record {
  db_pool = some pool;
  metrics = new_metrics (codes "m:1" ∷ codes "r:1" ∷ []);
  db = users;
}

abbrev request : Bytes → Request
request body = record {
  method = codes "POST";
  path = codes "/login";
  body = body;
  params = [];
  path_params = [];
}

abbrev response : Response
response = record { status = none; content = none; headers = [] }

-- What is left of the content.
abbrev content_of : Handled ℕ (List (Bytes × Bytes)) → Bool × Option (Bytes × Bytes)
content_of (answered ok _ res) = (ok, res.content)
content_of (threw what _ res) = (false, none)

logged_in :
    content_of (login_handler libraries sql (request (codes "login")) service response)
    ≡ (true, some (codes "token=" ++ ann, codes "application/json"))
unfolding login_handler service hand_out dumped
logged_in = refl

registered :
    (app_of (user_register_handler libraries sql (request (codes "register")) service response)).db
    ≡ (codes "new id", codes "hlong secret") ∷ users
unfolding user_register_handler service hand_out dumped
registered = refl

-- A body that is no JSON ends in the handler of exceptions, which shows the status from before it.
malformed :
    login_handler libraries sql (request (codes "{")) service response
    ≡ threw (codes "parse error") service response
unfolding login_handler
malformed = refl

shown : exception_handler (codes "parse error") response ≡ record {
  status = some 500;
  content = some (codes "<h1>Error 500</h1><p>-1</p>", codes "text/html");
  headers = [];
}
unfolding exception_handler
shown = refl

is_valid_uuid_iff_example : (is_valid_uuid ann ≡ true) ↔ IsUuid ann
is_valid_uuid_iff_example = is_valid_uuid_iff ann

login_handler-TokenOf_example :
    TokenOf libraries sql
      (libraries.parse (codes "login"))
      service.db
      (login_handler libraries sql (request (codes "login")) service response)
login_handler-TokenOf_example =
    login_handler-TokenOf libraries sql (request (codes "login")) service response

user_register_handler-RegisteredOf_example :
    RegisteredOf libraries sql
      (libraries.parse (codes "register"))
      service.db
      (user_register_handler libraries sql (request (codes "register")) service response)
user_register_handler-RegisteredOf_example =
    user_register_handler-RegisteredOf libraries sql (request (codes "register")) service response

serve-Returns_example :
    Returns service.db_pool
      (app_of (serve libraries sql login (request (codes "login")) service response)).db_pool
serve-Returns_example = serve-Returns libraries sql login (request (codes "login")) service response

serve-db_example :
    (app_of (serve libraries sql login (request (codes "login")) service response)).db ≡ service.db
serve-db_example = serve-db libraries sql login (request (codes "login")) service response (λ e. cc)

service-Balanced : Balanced service.metrics
unfolding new_metrics
service-Balanced login = refl
service-Balanced user_register = refl
service-Balanced user_get_id = refl
service-Balanced user_search = refl

serve-Balanced_example :
    Balanced (app_of (serve libraries sql login (request (codes "login")) service response)).metrics
serve-Balanced_example =
    serve-Balanced libraries sql login (request (codes "login")) service response service-Balanced
