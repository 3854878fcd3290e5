-- ===== src/App/Endpoints.antt =====
-- What the HTTP server of app.cpp calls: the routes with their metrics, and the other handlers.
pub mod Keeping
use social_network.Prelude.{
  ℕ, zero, suc, Bool, true, false, not, ◌&&◌, ◌||◌, List, [], ◌∷◌, ◌++◌, Option, none, some,
  if◌then◌else◌, Bytes, codes, equal,
}
use social_network.Format.{decimal}
use social_network.StringHelpers.{starts_with}
use social_network.App.{
  Request, Response, set_status, set_content, Endpoint, login, user_register, user_get_id,
  user_search, Metrics, count_request, count_failed_request, store_latency, Libraries, Sql, App,
  Handled, answered, threw,
}
use social_network.App.Handlers.Login.{login_handler}
use social_network.App.Handlers.Register.{user_register_handler}
use social_network.App.Handlers.Users.{user_get_id_handler, user_search_handler}

-- `true` leaves the request to the routes.
unfoldable pub pre_routing_handler : Request → Response → Bool × Response
unfolding equal starts_with set_status
pre_routing_handler req res =
    if equal req.path (codes "/livez")
      || equal req.path (codes "/readyz")
      || equal req.path (codes "/login")
      || equal req.path (codes "/user/register")
      || starts_with (codes "/user/get/") req.path
      || equal req.path (codes "/user/search")
    then (true, res)
    else (false, set_status 501 res)

-- The counters of a route behind its handler; the latency that is stored is a time, of which the
-- model keeps that it was.
unfoldable pub count_result : Endpoint → Bool → Metrics → Metrics
unfolding count_request count_failed_request store_latency
count_result e ok m =
    let counted = count_request e m in
    if not ok then count_failed_request e counted else store_latency e counted

module _ {C Db Row : Type 0} (lib : Libraries) (sql : Sql C Db Row) where
  unfoldable pub run_handler : Endpoint → Request → App C Db → Response → Handled C Db
  unfolding login_handler user_register_handler user_get_id_handler user_search_handler
  run_handler login req app res = login_handler lib sql req app res
  run_handler user_register req app res = user_register_handler lib sql req app res
  run_handler user_get_id req app res = user_get_id_handler lib sql req app res
  run_handler user_search req app res = user_search_handler lib sql req app res

  -- A handler that throws leaves the route before its counters.
  unfoldable pub counted : Endpoint → Handled C Db → Handled C Db
  unfolding count_result
  counted e (answered ok app res) =
      answered ok (record app { metrics = count_result e ok app.metrics }) res
  counted e (threw what app res) = threw what app res

  unfoldable pub serve : Endpoint → Request → App C Db → Response → Handled C Db
  unfolding run_handler
  serve e req app res = counted e (run_handler e req app res)

abbrev pub text_html : Bytes
text_html = codes "text/html"

-- An `int`, which is -1 before it is set.
abbrev pub status_text : Option ℕ → Bytes
status_text none = codes "-1"
status_text (some code) = decimal code

-- The text of the exception is read and not used.
unfoldable pub exception_handler : Bytes → Response → Response
unfolding set_status set_content decimal
exception_handler what res = set_status 500 (
    set_content (codes "<h1>Error 500</h1><p>" ++ status_text res.status ++ codes "</p>") text_html
      res)

-- `status_message` is that of the HTTP library.
unfoldable pub error_handler : (Option ℕ → Bytes) → Request → Response → Response
unfolding set_content decimal
error_handler status_message req res =
    set_content
      (codes "<html><head><title>"
        ++ status_text res.status
        ++ b' ' ∷ status_message res.status
        ++ codes "</title></head>\n<body><h1>Can't handle '"
        ++ req.method
        ++ b' ' ∷ req.path
        ++ codes "'</h1></body></html>\n")
      text_html res

abbrev pub set_header : Bytes → Bytes → Response → Response
set_header name value res = record res { headers = res.headers ++ (name, value) ∷ [] }

-- The time and the version of the HTTP library come from outside.
unfoldable pub post_routing_handler : Bytes → Bytes → Response → Response
post_routing_handler time_gmt_str version res =
    set_header (codes "Content-Security-Policy") (codes "default-src 'self'") (
      set_header (codes "X-Frame-Options") (codes "DENY") (
        set_header (codes "X-Content-Type-Options") (codes "nosniff") (
          set_header (codes "Server") (codes "social_network/1.0 (Linux) httplib/" ++ version)
            (set_header (codes "Date") time_gmt_str res))))

-- A callback that is not set is `none`.
abbrev pub is_true : Option Bool → Bool
is_true none = false
is_true (some b) = b

unfoldable pub liveness_handler : Option Bool → Response → Response
unfolding set_status set_content
liveness_handler liveness_check_cb res =
    if is_true liveness_check_cb
    then set_content (codes "ok\n") (codes "text/plain") res
    else set_status 500 (set_content (codes "fail\n") (codes "text/plain") res)

unfoldable pub readiness_handler : Option Bool → Response → Response
unfolding set_status set_content
readiness_handler readiness_check_cb res =
    if is_true readiness_check_cb
    then set_content (codes "ok\n") (codes "text/plain") res
    else set_status 500 (set_content (codes "fail\n") (codes "text/plain") res)
