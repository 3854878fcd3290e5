-- ===== src/App/Handlers/Tokens.antt =====
-- To whom `login_handler` of app.cpp gives a token.
use social_network.Prelude.{
  ℕ, ◌≡◌, refl, sym, ap, Bool, true, false, not, ◌||◌, List, [], ◌∷◌, Option, none, some, Bytes,
  codes, Attempt, done, dns_exception, std_exception, Bool-cases, inl, inr, arith,
}
use social_network.ConnectionPool.{replica, ConnectionPool, TypeNumTagConnection, get_connection}
use social_network.App.{
  Json, contains, is_string, object, members, Request, Response, Libraries, Sql, App, Handled,
  answered, threw, ◌>>=◌,
}
use social_network.App.Uuids.{is_valid_uuid, IsUuid, is_valid_uuid_iff}
use social_network.App.Handlers.{
  application_json, with_status, finish, refuse, dumped, unavailable, settle, settled,
  with_connection, scoped, reading, with_json,
}
use social_network.App.Handlers.Login.{
  query_login, lacks_login, mistypes_login, login_id, login_password, login_user, login_rows,
  login_query, login_json, login_handler,
}

both_true : (a b : Bool) → (not a || not b) ≡ false → (a ≡ true) × (b ≡ true)
both_true true true e = (refl, refl)
both_true true false e = ground arith
both_true false b e = ground arith

module _ {C Db Row : Type 0} (lib : Libraries) (sql : Sql C Db Row) where
  -- The body has an `id` that is a UUID and a `password`, the first row that the database has for that
  -- `id` is of a user `row_id` with a hash that the password fits, and the content is the token of
  -- that user.
  pub record HasToken (body : Attempt Json) (db : Db) (res : Response) : Type 0 where
    pub json : Json
    pub body_is : body ≡ done json
    pub has_fields : (contains (codes "id") json ≡ true) × (contains (codes "password") json ≡ true)
    pub has_texts :
        (is_string (codes "id") json ≡ true) × (is_string (codes "password") json ≡ true)
    pub id_is : IsUuid (login_id json)
    pub conn : C
    pub row : Row
    pub rows : List Row
    pub rows_are : sql.select db conn query_login (login_id json ∷ []) ≡ done (row ∷ rows)
    pub row_id : Bytes
    pub row_pwd_hash : Bytes
    pub row_is : sql.as_two row ≡ done (row_id, row_pwd_hash)
    pub password_fits : lib.validate_password (login_password json) row_pwd_hash ≡ true
    pub content : Bytes
    pub dump_is : lib.dump (object (members ((codes "token", row_id) ∷ []))) ≡ done content
    pub content_is : res.content ≡ some (content, application_json)

  -- What `true` means.
  abbrev pub TokenOf : Attempt Json → Db → Handled C Db → Type 0
  TokenOf body db (answered true app res) = HasToken body db res
  TokenOf body db (answered false app res) = Unit {0}
  TokenOf body db (threw what app res) = Unit {0}

  dumped-false :
      (body : Attempt Json) (db : Db) (text : Attempt Bytes) (app : App C Db) (res : Response)
      → TokenOf body db (dumped lib false text app res)
  unfolding dumped
  dumped-false body db (done t) app res = tt
  dumped-false body db (dns_exception what) app res = tt
  dumped-false body db (std_exception what) app res = tt

  refuse-TokenOf :
      (body : Attempt Json) (db : Db) (code : ℕ) (app : App C Db) (res : Response)
      → TokenOf body db (refuse code app res)
  unfolding refuse
  refuse-TokenOf body db code app res = tt

  module _ (json : Json) (db : Db) (has_fields : lacks_login json ≡ false)
      (has_texts : mistypes_login json ≡ false) (id_is : is_valid_uuid (login_id json) ≡ true) where
    -- Behind the password.
    validated :
        (app : App C Db) (res : Response) (conn : C) (row : Row) (rows : List Row)
        (row_id row_pwd_hash : Bytes)
        → sql.select db conn query_login (login_id json ∷ []) ≡ done (row ∷ rows)
        → sql.as_two row ≡ done (row_id, row_pwd_hash)
        → lib.validate_password (login_password json) row_pwd_hash ≡ true
        → (text : Attempt Bytes) → lib.dump (object (members ((codes "token", row_id) ∷ []))) ≡ text
        → TokenOf (done json) db (dumped lib true text app res)
    unfolding dumped lacks_login mistypes_login
    validated app res conn row rows row_id hash e f g (done content) d = record {
      json = json;
      body_is = refl;
      has_fields = both_true _ _ has_fields;
      has_texts = both_true _ _ has_texts;
      id_is = (is_valid_uuid_iff (login_id json)).0 id_is;
      conn = conn;
      row = row;
      rows = rows;
      rows_are = e;
      row_id = row_id;
      row_pwd_hash = hash;
      row_is = f;
      password_fits = g;
      content = content;
      dump_is = d;
      content_is = refl;
    }
    validated app res conn row rows row_id hash e f g (dns_exception what) d = tt
    validated app res conn row rows row_id hash e f g (std_exception what) d = tt

    -- The first row.
    first_row :
        (app : App C Db) (res : Response) (conn : C) (row : Row) (rows : List Row)
        → sql.select db conn query_login (login_id json ∷ []) ≡ done (row ∷ rows)
        → (texts : Attempt (Bytes × Bytes)) → sql.as_two row ≡ texts
        → TokenOf
            (done json)
            db
            (settle lib (texts >>= login_user lib sql (login_password json)) app res)
    unfolding settle finish with_status
    first_row app res conn row rows e (done (row_id, hash)) f =
        elim (Bool-cases (lib.validate_password (login_password json) hash)) [
          | inl g ↦ rw g (validated app res conn row rows row_id hash e f g _ refl)
          | inr g ↦ rw g (refuse-TokenOf (done json) db 400 app res)
        ]
    first_row app res conn row rows e (dns_exception what) f = dumped-false (done json) db _ app _
    first_row app res conn row rows e (std_exception what) f = dumped-false (done json) db _ app _

    selected :
        (app : App C Db) (res : Response) (conn : C) (result : Attempt (List Row))
        → sql.select db conn query_login (login_id json ∷ []) ≡ result
        → TokenOf
            (done json)
            db
            (settle lib (result >>= login_rows lib sql (login_password json)) app res)
    unfolding settle login_rows finish
    selected app res conn (done []) e = dumped-false (done json) db _ app _
    selected app res conn (done (row ∷ rows)) e =
        first_row app res conn row rows e (sql.as_two row) refl
    selected app res conn (dns_exception what) e = dumped-false (done json) db _ app _
    selected app res conn (std_exception what) e = dumped-false (done json) db _ app _

    connected :
        (app : App C Db) (res : Response)
        (given : ConnectionPool C × Option (TypeNumTagConnection C))
        → app.db ≡ db
        → TokenOf (done json) db (
            settled lib
              (with_connection app given (
                reading sql query_login
                  (login_id json ∷ [])
                  (login_rows lib sql (login_password json))))
              res)
    unfolding settled with_connection settle finish
    connected app res (q, none) e = dumped-false (done json) db _ _ _
    connected app res (q, some l) e =
        selected _ res l.conn _
          (ap (λ d. sql.select d l.conn query_login (login_id json ∷ [])) (sym e))

    queried :
        (pool : Option (ConnectionPool C)) (app : App C Db) (res : Response)
        → app.db ≡ db
        → TokenOf (done json) db (login_query lib sql pool json app res)
    unfolding login_query unavailable finish scoped
    queried none app res e = dumped-false (done json) db _ app _
    queried (some p) app res e = connected app res (get_connection replica p) e

  checked :
      (json : Json) (app : App C Db) (res : Response)
      → TokenOf (done json) app.db (login_json lib sql json app res)
  unfolding login_json
  checked json app res =
      let no = refuse-TokenOf (done json) app.db 400 app res in
      elim (Bool-cases (lacks_login json)) [
        | inl e ↦ rw (login_json, e) no
        | inr e ↦ elim (Bool-cases (mistypes_login json)) [
          | inl f ↦ rw (login_json, e, f) no
          | inr f ↦ elim (Bool-cases (is_valid_uuid (login_id json))) [
            | inl g ↦ rw (login_json, e, f, g) (queried json app.db e f g app.db_pool app res refl)
            | inr g ↦ rw (login_json, e, f, g) no
          ]
        ]
      ]

  -- `login_handler` answers true only with the token of a user whose password was given: the body has
  -- an `id` that is a UUID and a `password`, the database has a row for that `id`, the password fits
  -- the hash of the row, and the content is the token of the user in the row.
  pub login_handler-TokenOf :
      (req : Request) (app : App C Db) (res : Response)
      → TokenOf (lib.parse req.body) app.db (login_handler lib sql req app res)
  unfolding login_handler
  login_handler-TokenOf req app res = parsed (lib.parse req.body)
    where
      parsed :
          (json : Attempt Json) → TokenOf json app.db (with_json json app res (login_json lib sql))
      parsed (done json) = checked json app res
      parsed (dns_exception what) = tt
      parsed (std_exception what) = tt
