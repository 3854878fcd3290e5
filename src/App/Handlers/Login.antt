-- ===== src/App/Handlers/Login.antt =====
-- `login_handler` of app.cpp.
use social_network.Prelude.{
  Bool, true, false, not, ◌||◌, List, [], ◌∷◌, Option, none, some, if◌then◌else◌, Bytes, codes,
}
use social_network.ConnectionPool.{replica, ConnectionPool}
use social_network.App.{
  Json, null, object, members, contains, is_string, get_string, Request, Response, Libraries, Sql,
  App, Handled, Tried, returned, ended, ◌>>=◌,
}
use social_network.App.Uuids.{is_valid_uuid}
use social_network.App.Handlers.{refuse, unavailable, scoped, reading, settled, with_json}

abbrev pub query_login : Bytes
query_login = codes "SELECT id, pwd_hash   FROM users  WHERE id = $1"

-- The three checks of the body.
unfoldable pub lacks_login : Json → Bool
unfolding contains
lacks_login json = not (contains (codes "id") json) || not (contains (codes "password") json)

unfoldable pub mistypes_login : Json → Bool
unfolding is_string
mistypes_login json = not (is_string (codes "id") json) || not (is_string (codes "password") json)

unfoldable pub login_id : Json → Bytes
unfolding get_string
login_id json = get_string (codes "id") json

unfoldable pub login_password : Json → Bytes
unfolding get_string
login_password json = get_string (codes "password") json

module _ {C Db Row : Type 0} (lib : Libraries) (sql : Sql C Db Row) where
  -- `login_handler`: the rows, and behind the checks.
  abbrev pub login_user : Bytes → Bytes × Bytes → Tried
  login_user pwd (row_id, row_pwd_hash) =
      if not (lib.validate_password pwd row_pwd_hash)
      then returned 400
      else ended true (object (members ((codes "token", row_id) ∷ []))) none

  unfoldable pub login_rows : Bytes → List Row → Tried
  login_rows pwd [] = ended false null (some 404)
  login_rows pwd (row ∷ result) = sql.as_two row >>= login_user pwd

  -- Behind the checks.
  unfoldable pub login_query : Option (ConnectionPool C) → Json → App C Db → Response → Handled C Db
  unfolding unavailable settled scoped login_rows login_id login_password
  login_query none json app res = unavailable lib (codes "login_handler") app res
  login_query (some p) json app res =
      settled lib
        (scoped replica p app
          (reading sql query_login (login_id json ∷ []) (login_rows (login_password json))))
        res

  unfoldable pub login_json : Json → App C Db → Response → Handled C Db
  unfolding lacks_login mistypes_login login_id is_valid_uuid refuse login_query
  login_json json app res =
      if lacks_login json
      then refuse 400 app res
      else if mistypes_login json
      then refuse 400 app res
      else if not (is_valid_uuid (login_id json))
      then refuse 400 app res
      else login_query app.db_pool json app res

  unfoldable pub login_handler : Request → App C Db → Response → Handled C Db
  unfolding login_json
  login_handler req app res = with_json (lib.parse req.body) app res login_json
