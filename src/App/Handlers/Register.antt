-- ===== src/App/Handlers/Register.antt =====
-- `user_register_handler` of app.cpp.
use social_network.Prelude.{
  Bool, true, false, not, ◌&&◌, List, [], ◌∷◌, ◌++◌, Option, none, some, ltb, leb, if◌then◌else◌,
  Bytes, codes, length, ℤ, pos, negsuc, Attempt, done, dns_exception, std_exception,
}
use social_network.ConnectionPool.{master, ConnectionPool}
use social_network.App.{
  Json, object, members, error_json, contains, is_string, get_string, Request, Response, Libraries,
  Sql, App, Handled, Tried, ended, raised, ◌>>=◌,
}
use social_network.App.Handlers.{refuse, unavailable, scoped, settled, with_json}

abbrev pub query_register : Bytes
query_register =
    codes "INSERT INTO users (first_name, second_name, birthdate, biography, city, pwd_hash) "
    ++ codes "     VALUES ($1, $2, $3, $4, $5, $6)   RETURNING id"

-- `length() < 8` of a password, and `tm_year < 0 || tm_year > 107` of a date.
unfoldable pub is_short : Bytes → Bool
is_short password = ltb (length password) 8

unfoldable pub is_valid_year : Option ℤ → Bool
is_valid_year none = false
is_valid_year (some (pos year)) = leb year 107
is_valid_year (some (negsuc n)) = false

abbrev pub all_of : (Bytes → Bool) → List Bytes → Bool
all_of p [] = true
all_of p (key ∷ keys) = p key && all_of p keys

abbrev pub register_keys : List Bytes
register_keys =
    codes "password"
    ∷ codes "first_name"
    ∷ codes "second_name"
    ∷ codes "birthdate"
    ∷ codes "biography"
    ∷ codes "city"
    ∷ []

-- The checks of the body.
unfoldable pub lacks_register : Json → Bool
unfolding contains
lacks_register json = not (all_of (λ key. contains key json) register_keys)

unfoldable pub mistypes_register : Json → Bool
unfolding is_string
mistypes_register json = not (all_of (λ key. is_string key json) register_keys)

unfoldable pub register_password : Json → Bytes
unfolding get_string
register_password json = get_string (codes "password") json

unfoldable pub register_year : Libraries → Json → Option ℤ
unfolding get_string
register_year lib json = lib.get_year (get_string (codes "birthdate") json)

-- The values of the statement.
unfoldable pub values : Json → Bytes → List Bytes
unfolding get_string
values json hashed_pwd =
    get_string (codes "first_name") json
    ∷ get_string (codes "second_name") json
    ∷ get_string (codes "birthdate") json
    ∷ get_string (codes "biography") json
    ∷ get_string (codes "city") json
    ∷ hashed_pwd
    ∷ []

module _ {C Db Row : Type 0} (lib : Libraries) (sql : Sql C Db Row) where
  -- `user_register_handler`.
  abbrev pub register_user : Bytes → Tried
  register_user row_id = ended true (object (members ((codes "user_id", row_id) ∷ []))) none

  unfoldable pub register_rows : Bytes → Bytes → List Row → Tried
  register_rows fname sname [] =
      ended false
        (error_json (codes "500")
          (codes "Can't register user '" ++ fname ++ b' ' ∷ sname ++ codes "'"))
        (some 500)
  register_rows fname sname (row ∷ result) = sql.as_one row >>= register_user

  unfoldable pub committed : Bytes → Bytes → Db × Attempt (List Row) → Db × Tried
  unfolding register_rows
  committed fname sname (db, result) = (db, result >>= register_rows fname sname)

  -- Behind `generateHash`, which runs before a connection is taken.
  unfoldable pub with_hash : ConnectionPool C → Json → App C Db → Attempt Bytes → App C Db × Tried
  unfolding scoped get_string committed values
  with_hash p json app (done hashed_pwd) = scoped master p app (λ conn db.
      committed (get_string (codes "first_name") json) (get_string (codes "second_name") json)
        (sql.commit db conn query_register (values json hashed_pwd)))
  with_hash p json app (dns_exception what) = (app, raised what)
  with_hash p json app (std_exception what) = (app, raised what)

  -- Behind the checks.
  unfoldable pub register_query :
      Option (ConnectionPool C) → Json → App C Db → Response → Handled C Db
  unfolding unavailable settled with_hash register_password
  register_query none json app res = unavailable lib (codes "user_register_handler") app res
  register_query (some p) json app res =
      settled lib (with_hash p json app (lib.generate_hash (register_password json) 12)) res

  unfoldable pub register_json : Json → App C Db → Response → Handled C Db
  unfolding lacks_register mistypes_register register_password register_year is_short is_valid_year
      refuse register_query
  register_json json app res =
      if lacks_register json
      then refuse 400 app res
      else if mistypes_register json
      then refuse 400 app res
      else if is_short (register_password json)
      then refuse 400 app res
      else if not (is_valid_year (register_year lib json))
      then refuse 400 app res
      else register_query app.db_pool json app res

  unfoldable pub user_register_handler : Request → App C Db → Response → Handled C Db
  unfolding register_json
  user_register_handler req app res = with_json (lib.parse req.body) app res register_json
