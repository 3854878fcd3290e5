-- ===== src/App/Handlers/Users.antt =====
-- `user_get_id_handler` and `user_search_handler` of app.cpp.
use social_network.Prelude.{
  Bool, true, false, not, ◌||◌, List, [], ◌∷◌, ◌++◌, Option, none, some, if◌then◌else◌, Bytes,
  codes,
}
use social_network.ConnectionPool.{replica, ConnectionPool}
use social_network.App.{
  Json, null, array, object, Elements, no_elements, element, members, Request, Response, Libraries,
  Sql, App, Handled, Tried, ended, ◌>>=◌, is_given, or_nothing,
}
use social_network.App.Uuids.{is_valid_uuid}
use social_network.App.Handlers.{find_param, refuse, unavailable, scoped, reading, settled}

abbrev pub query_get : Bytes
query_get =
    codes "SELECT first_name, second_name, birthdate, biography, city   FROM users  WHERE id = $1"

abbrev pub query_search : Bytes
query_search =
    codes "SELECT id, first_name, second_name, birthdate, biography, city   FROM users "
    ++ codes " WHERE first_name LIKE $1 AND second_name LIKE $2  ORDER BY id  LIMIT 100"

-- The path parameter, and the parameters of a search.
unfoldable pub lacks_id : Request → Bool
unfolding find_param
lacks_id req = not (is_given (find_param (codes "id") req.path_params))

unfoldable pub path_id : Request → Bytes
unfolding find_param
path_id req = or_nothing (find_param (codes "id") req.path_params)

unfoldable pub lacks_names : Request → Bool
unfolding find_param
lacks_names req =
    not (is_given (find_param (codes "first_name") req.params))
    || not (is_given (find_param (codes "last_name") req.params))

unfoldable pub name_pattern : Bytes → Request → Bytes
unfolding find_param
name_pattern key req = or_nothing (find_param key req.params) ++ codes "%"

module _ {C Db Row : Type 0} (lib : Libraries) (sql : Sql C Db Row) where
  -- `user_get_id_handler`.
  abbrev pub profile : Bytes → Bytes × Bytes × Bytes × Bytes × Bytes → Json
  profile id (row_fname, row_sname, row_bdate, row_bio, row_city) = object (
      members (
        (codes "id", id)
        ∷ (codes "first_name", row_fname)
        ∷ (codes "second_name", row_sname)
        ∷ (codes "birthdate", row_bdate)
        ∷ (codes "biography", row_bio)
        ∷ (codes "city", row_city)
        ∷ []))

  unfoldable pub get_rows : Bytes → List Row → Tried
  get_rows id [] = ended false null (some 404)
  get_rows id (row ∷ result) = sql.as_five row >>= λ texts. ended true (profile id texts) none

  unfoldable pub user_query : Option (ConnectionPool C) → Bytes → App C Db → Response → Handled C Db
  unfolding unavailable settled scoped get_rows
  user_query none id app res = unavailable lib (codes "user_get_id_handler") app res
  user_query (some p) id app res =
      settled lib (scoped replica p app (reading sql query_get (id ∷ []) (get_rows id))) res

  unfoldable pub user_get_id_handler : Request → App C Db → Response → Handled C Db
  unfolding lacks_id path_id is_valid_uuid refuse user_query
  user_get_id_handler req app res =
      if lacks_id req
      then refuse 400 app res
      else if not (is_valid_uuid (path_id req))
      then refuse 400 app res
      else user_query app.db_pool (path_id req) app res

  -- `user_search_handler`.
  abbrev pub person : Bytes × Bytes × Bytes × Bytes × Bytes × Bytes → Json
  person (row_id, row_fname, row_sname, row_bdate, row_bio, row_city) =
      profile row_id (row_fname, row_sname, row_bdate, row_bio, row_city)

  abbrev pub push_element : Elements → Json → Elements
  push_element no_elements json = element json no_elements
  push_element (element first rest) json = element first (push_element rest json)

  unfoldable pub search_rows : Elements → List Row → Tried
  search_rows response [] = ended true (array response) none
  search_rows response (row ∷ result) =
      sql.as_six row >>= λ texts. search_rows (push_element response (person texts)) result

  unfoldable pub search_query :
      Option (ConnectionPool C) → List Bytes → App C Db → Response → Handled C Db
  unfolding unavailable settled scoped search_rows
  search_query none params app res = unavailable lib (codes "user_search_handler") app res
  search_query (some p) params app res =
      settled lib (scoped replica p app (reading sql query_search params (search_rows no_elements)))
        res

  unfoldable pub user_search_handler : Request → App C Db → Response → Handled C Db
  unfolding lacks_names refuse search_query name_pattern
  user_search_handler req app res =
      if lacks_names req
      then refuse 400 app res
      else search_query app.db_pool
          (name_pattern (codes "first_name") req ∷ name_pattern (codes "last_name") req ∷ []) app
          res
