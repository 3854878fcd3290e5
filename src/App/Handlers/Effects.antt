-- ===== src/App/Handlers/Effects.antt =====
-- What a handler of app.cpp may change: the pool by scoped connections that are given back, the
-- counters of the nodes, and the database by what it commits.
use social_network.Prelude.{
  ℕ, ◌≡◌, refl, sym, Bool, true, false, not, List, [], ◌∷◌, Option, none, some, Bytes, codes,
  if◌then◌else◌, Attempt, done, dns_exception, std_exception, inl, inr, Bool-cases,
}
use mathlib.Core.Path.{subst}
use social_network.ConnectionPool.{
  NodeType, master, replica, ConnectionPool, TypeNumTagConnection, get_connection,
  release_connection, acquires, throws, releases, Reach, here, next,
}
use social_network.App.{
  Json, no_elements, Request, Response, Endpoint, login, user_register, user_get_id, user_search,
  counters, count_request_to_host, Metrics, Libraries, Sql, App, Handled, answered, threw, Tried,
  returned, ended, raised,
}
use social_network.App.Uuids.{is_valid_uuid}
use social_network.App.Handlers.{
  finish, refuse, dumped, unavailable, settle, settled, with_connection, scoped, reading, with_json,
}
use social_network.App.Handlers.Login.{
  query_login, lacks_login, mistypes_login, login_id, login_password, login_rows, login_query,
  login_json, login_handler,
}
use social_network.App.Handlers.Register.{
  lacks_register, mistypes_register, register_password, register_year, is_short, is_valid_year,
  with_hash, register_query, register_json, user_register_handler,
}
use social_network.App.Handlers.Users.{
  lacks_id, path_id, lacks_names, user_query, search_query, query_get, query_search, get_rows,
  search_rows, user_get_id_handler, user_search_handler,
}

-- A property of both branches.
pub if_both {ℓ κ} :
    {A : Type ℓ} (P : A → Type κ) (b : Bool) (x y : A) → P x → P y → P (if b then x else y)
if_both P true x y hx hy = hx
if_both P false x y hx hy = hy

host-counters :
    (tag : Bytes) (m : Metrics) (e : Endpoint)
    → counters e (count_request_to_host tag m) ≡ counters e m
unfolding count_request_to_host
host-counters tag m login = refl
host-counters tag m user_register = refl
host-counters tag m user_get_id = refl
host-counters tag m user_search = refl

module _ {C : Type 0} where
  -- The pool is the same but for scoped connections that were taken and given back, whatever other
  -- connections `ls` are held.
  abbrev pub Returns : Option (ConnectionPool C) → Option (ConnectionPool C) → Type 0
  Returns none none = Unit {0}
  Returns none (some q) = ⊥
  Returns (some p) none = ⊥
  Returns (some p) (some q) =
      (ls : List (TypeNumTagConnection C))
      → Reach (record { pool = p; scoped = ls }) (record { pool = q; scoped = ls })

  Returns-self : (o : Option (ConnectionPool C)) → Returns o o
  Returns-self none = tt
  Returns-self (some p) = λ ls. here

module _ {C Db : Type 0} where
  -- What is left of the service behind a handler.
  abbrev pub app_of : Handled C Db → App C Db
  app_of (answered ok app res) = app
  app_of (threw what app res) = app

  pub record Leaves (before after : App C Db) : Type 0 where
    pub pool : Returns before.db_pool after.db_pool
    pub same_counters : (e : Endpoint) → counters e after.metrics ≡ counters e before.metrics

  pub Leaves-self : (app : App C Db) → Leaves app app
  Leaves-self app = record { pool = Returns-self app.db_pool; same_counters = λ e. refl }

  with_connection-Leaves :
      (app : App C Db) (p q : ConnectionPool C) (preferred : NodeType)
      (given : Option (TypeNumTagConnection C)) (block : C → Db → Db × Tried)
      → app.db_pool ≡ some p
      → get_connection preferred p ≡ (q, given)
      → Leaves app (with_connection app (q, given) block).0
  unfolding with_connection
  with_connection-Leaves app p q preferred none block e taken = record {
    pool = subst (λ o. Returns o (some q)) (sym e) (λ ls. next here (throws preferred taken));
    same_counters = λ e. refl;
  }
  with_connection-Leaves app p q preferred (some l) block e taken = record {
    pool =
        subst (λ o. Returns o (some (release_connection q l))) (sym e)
          (λ ls. next (next here (acquires preferred taken)) (releases [] l ls refl));
    same_counters = host-counters l.node_tag app.metrics;
  }

  pub scoped-Leaves :
      (preferred : NodeType) (p : ConnectionPool C) (app : App C Db) (block : C → Db → Db × Tried)
      → app.db_pool ≡ some p
      → Leaves app (scoped preferred p app block).0
  unfolding scoped
  scoped-Leaves preferred p app block e =
      with_connection-Leaves app p (get_connection preferred p).0 preferred
        (get_connection preferred p).1 block e refl

  dumped-app :
      (ok : Bool) (text : Attempt Bytes) (app : App C Db) (res : Response) (lib : Libraries)
      → app_of (dumped lib ok text app res) ≡ app
  unfolding dumped
  dumped-app ok (done body) app res lib = refl
  dumped-app ok (dns_exception what) app res lib = refl
  dumped-app ok (std_exception what) app res lib = refl

  pub finish-app :
      (lib : Libraries) (ok : Bool) (json : Json) (app : App C Db) (res : Response)
      → app_of (finish lib ok json app res) ≡ app
  unfolding finish
  finish-app lib ok json app res = dumped-app ok (lib.dump json) app res lib

  pub refuse-app : (code : ℕ) (app : App C Db) (res : Response) → app_of (refuse code app res) ≡ app
  unfolding refuse
  refuse-app code app res = refl

  pub unavailable-app :
      (lib : Libraries) (name : Bytes) (app : App C Db) (res : Response)
      → app_of (unavailable lib name app res) ≡ app
  unfolding unavailable
  unavailable-app lib name app res = finish-app lib false _ app _

  pub settle-app :
      (lib : Libraries) (tried : Tried) (app : App C Db) (res : Response)
      → app_of (settle lib tried app res) ≡ app
  unfolding settle
  settle-app lib (returned code) app res = refuse-app code app res
  settle-app lib (ended ok json status) app res = finish-app lib ok json app _
  settle-app lib (raised what) app res = finish-app lib false _ app _

  pub settled-app :
      (lib : Libraries) (r : App C Db × Tried) (res : Response) → app_of (settled lib r res) ≡ r.0
  unfolding settled
  settled-app lib (app, tried) res = settle-app lib tried app res

  -- A handler that only reads.
  pub record Reads (before after : App C Db) : Type 0 where
    pub leaves : Leaves before after
    pub same_db : after.db ≡ before.db

  pub Reads-self : (app : App C Db) → Reads app app
  Reads-self app = record { leaves = Leaves-self app; same_db = refl }

  -- What holds of the service before, or of what the handler left, holds behind the content.
  pub Reads-unavailable :
      (lib : Libraries) (name : Bytes) (app : App C Db) (res : Response)
      → Reads app (app_of (unavailable lib name app res))
  Reads-unavailable lib name app res =
      subst (Reads app) (sym (unavailable-app lib name app res)) (Reads-self app)

  pub Reads-refuse :
      (code : ℕ) (app : App C Db) (res : Response) → Reads app (app_of (refuse code app res))
  Reads-refuse code app res = subst (Reads app) (sym (refuse-app code app res)) (Reads-self app)

  pub Leaves-unavailable :
      (lib : Libraries) (name : Bytes) (app : App C Db) (res : Response)
      → Leaves app (app_of (unavailable lib name app res))
  Leaves-unavailable lib name app res = (Reads-unavailable lib name app res).leaves

  pub Leaves-refuse :
      (code : ℕ) (app : App C Db) (res : Response) → Leaves app (app_of (refuse code app res))
  Leaves-refuse code app res = (Reads-refuse code app res).leaves

module _ {C Db Row : Type 0} (lib : Libraries) (sql : Sql C Db Row) where
  reading-db :
      (app : App C Db) (given : ConnectionPool C × Option (TypeNumTagConnection C)) (query : Bytes)
      (params : List Bytes) (rows : List Row → Tried)
      → (with_connection app given (reading sql query params rows)).0.db ≡ app.db
  unfolding with_connection
  reading-db app (q, none) query params rows = refl
  reading-db app (q, some l) query params rows = refl

  -- The `try` block of a reader.
  read-Reads :
      (p : ConnectionPool C) (app : App C Db) (res : Response) (query : Bytes) (params : List Bytes)
      (rows : List Row → Tried)
      → app.db_pool ≡ some p
      → Reads app (app_of (settled lib (scoped replica p app (reading sql query params rows)) res))
  unfolding scoped
  read-Reads p app res query params rows e =
      subst (Reads app)
        (sym (settled-app lib (scoped replica p app (reading sql query params rows)) res))
        (record {
          leaves = scoped-Leaves replica p app (reading sql query params rows) e;
          same_db = reading-db app (get_connection replica p) query params rows;
        })

  login_query-Reads :
      (pool : Option (ConnectionPool C)) (json : Json) (app : App C Db) (res : Response)
      → app.db_pool ≡ pool
      → Reads app (app_of (login_query lib sql pool json app res))
  unfolding login_query
  login_query-Reads none json app res e = Reads-unavailable lib (codes "login_handler") app res
  login_query-Reads (some p) json app res e =
      read-Reads p app res query_login (login_id json ∷ [])
        (login_rows lib sql (login_password json)) e

  login_json-Reads :
      (json : Json) (app : App C Db) (res : Response)
      → Reads app (app_of (login_json lib sql json app res))
  unfolding login_json
  login_json-Reads json app res = elim (Bool-cases (lacks_login json)) [
    | inl e ↦ rw (login_json, e) (Reads-refuse 400 app res)
    | inr e ↦ elim (Bool-cases (mistypes_login json)) [
      | inl f ↦ rw (login_json, e, f) (Reads-refuse 400 app res)
      | inr f ↦ elim (Bool-cases (not (is_valid_uuid (login_id json)))) [
        | inl g ↦ rw (login_json, e, f, g) (Reads-refuse 400 app res)
        | inr g ↦ rw (login_json, e, f, g) (login_query-Reads app.db_pool json app res refl)
      ]
    ]
  ]

  pub login_handler-Reads :
      (req : Request) (app : App C Db) (res : Response)
      → Reads app (app_of (login_handler lib sql req app res))
  unfolding login_handler
  login_handler-Reads req app res = parsed (lib.parse req.body)
    where
      parsed :
          (json : Attempt Json) → Reads app (app_of (with_json json app res (login_json lib sql)))
      parsed (done json) = login_json-Reads json app res
      parsed (dns_exception what) = Reads-self app
      parsed (std_exception what) = Reads-self app

  user_query-Reads :
      (pool : Option (ConnectionPool C)) (id : Bytes) (app : App C Db) (res : Response)
      → app.db_pool ≡ pool
      → Reads app (app_of (user_query lib sql pool id app res))
  unfolding user_query
  user_query-Reads none id app res e = Reads-unavailable lib (codes "user_get_id_handler") app res
  user_query-Reads (some p) id app res e =
      read-Reads p app res query_get (id ∷ []) (get_rows lib sql id) e

  pub user_get_id_handler-Reads :
      (req : Request) (app : App C Db) (res : Response)
      → Reads app (app_of (user_get_id_handler lib sql req app res))
  unfolding user_get_id_handler
  user_get_id_handler-Reads req app res = elim (Bool-cases (lacks_id req)) [
    | inl e ↦ rw (user_get_id_handler, e) (Reads-refuse 400 app res)
    | inr e ↦ elim (Bool-cases (not (is_valid_uuid (path_id req)))) [
      | inl f ↦ rw (user_get_id_handler, e, f) (Reads-refuse 400 app res)
      | inr f ↦
          rw (user_get_id_handler, e, f) (user_query-Reads app.db_pool (path_id req) app res refl)
    ]
  ]

  search_query-Reads :
      (pool : Option (ConnectionPool C)) (params : List Bytes) (app : App C Db) (res : Response)
      → app.db_pool ≡ pool
      → Reads app (app_of (search_query lib sql pool params app res))
  unfolding search_query
  search_query-Reads none params app res e =
      Reads-unavailable lib (codes "user_search_handler") app res
  search_query-Reads (some p) params app res e =
      read-Reads p app res query_search params (search_rows lib sql no_elements) e

  pub user_search_handler-Reads :
      (req : Request) (app : App C Db) (res : Response)
      → Reads app (app_of (user_search_handler lib sql req app res))
  unfolding user_search_handler
  user_search_handler-Reads req app res = elim (Bool-cases (lacks_names req)) [
    | inl e ↦ rw (user_search_handler, e) (Reads-refuse 400 app res)
    | inr e ↦ rw (user_search_handler, e) (search_query-Reads app.db_pool _ app res refl)
  ]

  with_hash-Leaves :
      (p : ConnectionPool C) (json : Json) (app : App C Db) (hash : Attempt Bytes)
      → app.db_pool ≡ some p
      → Leaves app (with_hash lib sql p json app hash).0
  unfolding with_hash
  with_hash-Leaves p json app (done hashed_pwd) e = scoped-Leaves master p app _ e
  with_hash-Leaves p json app (dns_exception what) e = Leaves-self app
  with_hash-Leaves p json app (std_exception what) e = Leaves-self app

  register_query-Leaves :
      (pool : Option (ConnectionPool C)) (json : Json) (app : App C Db) (res : Response)
      → app.db_pool ≡ pool
      → Leaves app (app_of (register_query lib sql pool json app res))
  unfolding register_query
  register_query-Leaves none json app res e =
      (Reads-unavailable lib (codes "user_register_handler") app res).leaves
  register_query-Leaves (some p) json app res e =
      let tried = with_hash lib sql p json app (lib.generate_hash (register_password json) 12) in
      subst (Leaves app) (sym (settled-app lib tried res))
        (with_hash-Leaves p json app (lib.generate_hash (register_password json) 12) e)

  register_json-Leaves :
      (json : Json) (app : App C Db) (res : Response)
      → Leaves app (app_of (register_json lib sql json app res))
  unfolding register_json
  register_json-Leaves json app res =
      let no = (Reads-refuse 400 app res).leaves in
      elim (Bool-cases (lacks_register json)) [
        | inl e ↦ rw (register_json, e) no
        | inr e ↦ elim (Bool-cases (mistypes_register json)) [
          | inl f ↦ rw (register_json, e, f) no
          | inr f ↦ elim (Bool-cases (is_short (register_password json))) [
            | inl g ↦ rw (register_json, e, f, g) no
            | inr g ↦ elim (Bool-cases (not (is_valid_year (register_year lib json)))) [
              | inl h ↦ rw (register_json, e, f, g, h) no
              | inr h ↦
                  rw (register_json, e, f, g, h)
                    (register_query-Leaves app.db_pool json app res refl)
            ]
          ]
        ]
      ]

  pub user_register_handler-Leaves :
      (req : Request) (app : App C Db) (res : Response)
      → Leaves app (app_of (user_register_handler lib sql req app res))
  unfolding user_register_handler
  user_register_handler-Leaves req app res = parsed (lib.parse req.body)
    where
      parsed :
          (json : Attempt Json)
          → Leaves app (app_of (with_json json app res (register_json lib sql)))
      parsed (done json) = register_json-Leaves json app res
      parsed (dns_exception what) = Leaves-self app
      parsed (std_exception what) = Leaves-self app
