-- ===== src/App/Handlers/Registered.antt =====
-- What `user_register_handler` of app.cpp writes to the database.
use social_network.Prelude.{
  ℕ, ◌≤◌, ℤ, pos, negsuc, length, All, ◌≡◌, refl, sym, ap, ◌⊎◌, Bool, true, false, not, List, [],
  ◌∷◌, Option, none, some, Bytes, codes, Attempt, done, dns_exception, std_exception, Bool-cases,
  inl, inr, arith,
}
use social_network.ConnectionPool.{master, ConnectionPool, TypeNumTagConnection, get_connection}
use social_network.App.{
  Json, contains, is_string, object, members, Request, Response, Libraries, Sql, App, Handled,
  answered, threw, ◌>>=◌,
}
use social_network.App.Handlers.{
  application_json, with_status, finish, refuse, dumped, unavailable, settle, settled,
  with_connection, scoped, with_json,
}
use social_network.App.Handlers.Register.{
  register_keys, all_of, query_register, lacks_register, mistypes_register, register_password,
  register_year, is_short, is_valid_year, register_user, register_rows, committed, values,
  with_hash, register_query, register_json, user_register_handler,
}

-- The body has all fields, which are texts, a password of at least 8 bytes, and a date of birth in a
-- year from 1900 to 2007.
pub record IsRegistration (lib : Libraries) (json : Json) : Type 0 where
  pub has_fields : All (λ key. contains key json ≡ true) register_keys
  pub has_texts : All (λ key. is_string key json ≡ true) register_keys
  pub long_enough : 8 ≤ length (register_password json)
  pub year : ℕ
  pub year_is : register_year lib json ≡ some (pos year)
  pub old_enough : year ≤ 107

all_of-All :
    (p : Bytes → Bool) (keys : List Bytes)
    → not (all_of p keys) ≡ false
    → All (λ key. p key ≡ true) keys
all_of-All p [] e = tt
all_of-All p (key ∷ keys) e = (ground arith, all_of-All p keys (ground arith))

year_of :
    (year : Option ℤ) → is_valid_year year ≡ true → (n : ℕ) × (year ≡ some (pos n)) × (n ≤ 107)
unfolding is_valid_year
year_of none e = ground arith
year_of (some (pos n)) e = (n, refl, ground arith)
year_of (some (negsuc n)) e = ground arith

checks-IsRegistration :
    (lib : Libraries) (json : Json)
    → lacks_register json ≡ false
    → mistypes_register json ≡ false
    → is_short (register_password json) ≡ false
    → is_valid_year (register_year lib json) ≡ true
    → IsRegistration lib json
unfolding lacks_register mistypes_register is_short
checks-IsRegistration lib json e f g h =
    let (n, year_is, old_enough) = year_of (register_year lib json) h in
    record {
      has_fields = all_of-All (λ key. contains key json) register_keys e;
      has_texts = all_of-All (λ key. is_string key json) register_keys f;
      long_enough = ground arith;
      year = n;
      year_is = year_is;
      old_enough = old_enough;
    }

module _ {C Db Row : Type 0} (lib : Libraries) (sql : Sql C Db Row) where
  -- The database is what one statement leaves of it, with the values of a body that passes the checks
  -- and the hash of its password.
  pub record Inserted (body : Attempt Json) (db after : Db) : Type 0 where
    pub json : Json
    pub body_is : body ≡ done json
    pub is_registration : IsRegistration lib json
    pub hashed_pwd : Bytes
    pub hash_is : lib.generate_hash (register_password json) 12 ≡ done hashed_pwd
    pub conn : C
    pub after_is : after ≡ (sql.commit db conn query_register (values json hashed_pwd)).0

  -- The same, where the statement gave the row of a new user whose id is the content.
  pub record IsRegistered (body : Attempt Json) (db after : Db) (res : Response) : Type 0 where
    pub inserted : Inserted body db after
    pub row : Row
    pub rows : List Row
    pub rows_are :
        (sql.commit db inserted.conn query_register (values inserted.json inserted.hashed_pwd)).1
        ≡ done (row ∷ rows)
    pub row_id : Bytes
    pub row_is : sql.as_one row ≡ done row_id
    pub content : Bytes
    pub dump_is : lib.dump (object (members ((codes "user_id", row_id) ∷ []))) ≡ done content
    pub content_is : res.content ≡ some (content, application_json)

  abbrev pub Changes : Attempt Json → Db → Db → Type 0
  Changes body db after = (after ≡ db) ⊎ Inserted body db after

  abbrev pub RegisteredOf : Attempt Json → Db → Handled C Db → Type 0
  RegisteredOf body db (answered true app res) = IsRegistered body db app.db res
  RegisteredOf body db (answered false app res) = Changes body db app.db
  RegisteredOf body db (threw what app res) = Changes body db app.db

  dumped-Changes :
      (body : Attempt Json) (db : Db) (text : Attempt Bytes) (app : App C Db) (res : Response)
      → Changes body db app.db
      → RegisteredOf body db (dumped lib false text app res)
  unfolding dumped
  dumped-Changes body db (done t) app res h = h
  dumped-Changes body db (dns_exception what) app res h = h
  dumped-Changes body db (std_exception what) app res h = h

  refuse-RegisteredOf :
      (body : Attempt Json) (code : ℕ) (app : App C Db) (res : Response)
      → RegisteredOf body app.db (refuse code app res)
  unfolding refuse
  refuse-RegisteredOf body code app res = inl refl

  module _ (json : Json) (db : Db) (is_registration : IsRegistration lib json) (hashed_pwd : Bytes)
      (hash_is : lib.generate_hash (register_password json) 12 ≡ done hashed_pwd) where
    inserted_by :
        (conn : C) (after : Db)
        → after ≡ (sql.commit db conn query_register (values json hashed_pwd)).0
        → Inserted (done json) db after
    inserted_by conn after e = record {
      json = json;
      body_is = refl;
      is_registration = is_registration;
      hashed_pwd = hashed_pwd;
      hash_is = hash_is;
      conn = conn;
      after_is = e;
    }

    given_id :
        (app : App C Db) (res : Response) (conn : C) (row : Row) (rows : List Row) (row_id : Bytes)
        → app.db ≡ (sql.commit db conn query_register (values json hashed_pwd)).0
        → (sql.commit db conn query_register (values json hashed_pwd)).1 ≡ done (row ∷ rows)
        → sql.as_one row ≡ done row_id
        → (text : Attempt Bytes)
        → lib.dump (object (members ((codes "user_id", row_id) ∷ []))) ≡ text
        → RegisteredOf (done json) db (dumped lib true text app res)
    unfolding dumped inserted_by
    given_id app res conn row rows row_id e f g (done content) d = record {
      inserted = inserted_by conn app.db e;
      row = row;
      rows = rows;
      rows_are = f;
      row_id = row_id;
      row_is = g;
      content = content;
      dump_is = d;
      content_is = refl;
    }
    given_id app res conn row rows row_id e f g (dns_exception what) d =
        inr (inserted_by conn app.db e)
    given_id app res conn row rows row_id e f g (std_exception what) d =
        inr (inserted_by conn app.db e)

    new_row :
        (app : App C Db) (res : Response) (conn : C) (row : Row) (rows : List Row)
        → app.db ≡ (sql.commit db conn query_register (values json hashed_pwd)).0
        → (sql.commit db conn query_register (values json hashed_pwd)).1 ≡ done (row ∷ rows)
        → (text : Attempt Bytes) → sql.as_one row ≡ text
        → RegisteredOf (done json) db (settle lib (text >>= register_user lib sql) app res)
    unfolding settle finish with_status
    new_row app res conn row rows e f (done row_id) g =
        given_id app res conn row rows row_id e f g _ refl
    new_row app res conn row rows e f (dns_exception what) g =
        dumped-Changes (done json) db _ app _ (inr (inserted_by conn app.db e))
    new_row app res conn row rows e f (std_exception what) g =
        dumped-Changes (done json) db _ app _ (inr (inserted_by conn app.db e))

    executed :
        (app : App C Db) (res : Response) (conn : C) (fname sname : Bytes)
        (result : Attempt (List Row))
        → app.db ≡ (sql.commit db conn query_register (values json hashed_pwd)).0
        → (sql.commit db conn query_register (values json hashed_pwd)).1 ≡ result
        → RegisteredOf
            (done json)
            db
            (settle lib (result >>= register_rows lib sql fname sname) app res)
    unfolding settle register_rows finish
    executed app res conn fname sname (done []) e f =
        dumped-Changes (done json) db _ app _ (inr (inserted_by conn app.db e))
    executed app res conn fname sname (done (row ∷ rows)) e f =
        new_row app res conn row rows e f (sql.as_one row) refl
    executed app res conn fname sname (dns_exception what) e f =
        dumped-Changes (done json) db _ app _ (inr (inserted_by conn app.db e))
    executed app res conn fname sname (std_exception what) e f =
        dumped-Changes (done json) db _ app _ (inr (inserted_by conn app.db e))

    connected :
        (app : App C Db) (res : Response)
        (given : ConnectionPool C × Option (TypeNumTagConnection C)) (fname sname : Bytes)
        → app.db ≡ db
        → RegisteredOf (done json) db (
            settled lib
              (with_connection app given (λ conn d.
                committed lib sql fname sname
                  (sql.commit d conn query_register (values json hashed_pwd))))
              res)
    unfolding settled with_connection settle finish committed
    connected app res (q, none) fname sname e = dumped-Changes (done json) db _ _ _ (inl e)
    connected app res (q, some l) fname sname e =
        let same = ap (λ d. sql.commit d l.conn query_register (values json hashed_pwd)) e in
        executed _ res l.conn fname sname _ (ap (λ r. r.0) same) (sym (ap (λ r. r.1) same))

  hashed :
      (json : Json) (p : ConnectionPool C) (app : App C Db) (res : Response)
      → IsRegistration lib json
      → (hash : Attempt Bytes) → lib.generate_hash (register_password json) 12 ≡ hash
      → RegisteredOf (done json) app.db (settled lib (with_hash lib sql p json app hash) res)
  unfolding with_hash scoped settled settle finish
  hashed json p app res h (done hashed_pwd) e =
      connected json app.db h hashed_pwd e app res (get_connection master p) _ _ refl
  hashed json p app res h (dns_exception what) e =
      dumped-Changes (done json) app.db _ app _ (inl refl)
  hashed json p app res h (std_exception what) e =
      dumped-Changes (done json) app.db _ app _ (inl refl)

  queried :
      (json : Json) (pool : Option (ConnectionPool C)) (app : App C Db) (res : Response)
      → IsRegistration lib json
      → RegisteredOf (done json) app.db (register_query lib sql pool json app res)
  unfolding register_query unavailable finish
  queried json none app res h = dumped-Changes (done json) app.db _ app _ (inl refl)
  queried json (some p) app res h = hashed json p app res h _ refl

  checked :
      (json : Json) (app : App C Db) (res : Response)
      → RegisteredOf (done json) app.db (register_json lib sql json app res)
  unfolding register_json
  checked json app res =
      let no = refuse-RegisteredOf (done json) 400 app res in
      elim (Bool-cases (lacks_register json)) [
        | inl e ↦ rw (register_json, e) no
        | inr e ↦ elim (Bool-cases (mistypes_register json)) [
          | inl f ↦ rw (register_json, e, f) no
          | inr f ↦ elim (Bool-cases (is_short (register_password json))) [
            | inl g ↦ rw (register_json, e, f, g) no
            | inr g ↦ elim (Bool-cases (is_valid_year (register_year lib json))) [
              | inl h ↦
                  rw (register_json, e, f, g, h)
                    (queried json app.db_pool app res (checks-IsRegistration lib json e f g h))
              | inr h ↦ rw (register_json, e, f, g, h) no
            ]
          ]
        ]
      ]

  -- However `user_register_handler` ends, the database is as before or as one statement leaves it that
  -- inserts the fields of a body that passes the checks, with the hash of its password and not the
  -- password; if it answers true, then the statement gave the row of the new user, whose id is the
  -- content.
  pub user_register_handler-RegisteredOf :
      (req : Request) (app : App C Db) (res : Response)
      → RegisteredOf (lib.parse req.body) app.db (user_register_handler lib sql req app res)
  unfolding user_register_handler
  user_register_handler-RegisteredOf req app res = parsed (lib.parse req.body)
    where
      parsed :
          (json : Attempt Json)
          → RegisteredOf json app.db (with_json json app res (register_json lib sql))
      parsed (done json) = checked json app res
      parsed (dns_exception what) = inl refl
      parsed (std_exception what) = inl refl
