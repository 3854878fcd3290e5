-- ===== src/App/Endpoints/Keeping.antt =====
-- What the routes of app.cpp keep: the connections, the counters, and the database where they read.
use social_network.Prelude.{
  suc, ◌+◌, ◌≡◌, ◌≢◌, refl, sym, ◌∙◌, Bool, true, false, not, if◌then◌else◌, arith,
}
use mathlib.Core.Path.{subst}
use social_network.App.{
  Request, Response, Endpoint, login, user_register, user_get_id, user_search, Counters, counters,
  set_counters, count_request, count_failed_request, store_latency, Metrics, Libraries, Sql, App,
  Handled, answered, threw,
}
use social_network.App.Handlers.Effects.{
  app_of, Returns, Leaves, login_handler-Reads, user_register_handler-Leaves,
  user_get_id_handler-Reads, user_search_handler-Reads,
}
use social_network.App.Endpoints.{count_result, run_handler, counted, serve}

-- Every request of an endpoint was counted as failed or has a latency.
abbrev pub Balanced : Metrics → Type 0
Balanced m =
    (e : Endpoint)
    → (counters e m).total_requests
      ≡ (counters e m).failed_requests + (counters e m).latency_requests

module _ {C Db Row : Type 0} (lib : Libraries) (sql : Sql C Db Row) where
  run_handler-Leaves :
      (e : Endpoint) (req : Request) (app : App C Db) (res : Response)
      → Leaves app (app_of (run_handler lib sql e req app res))
  unfolding run_handler
  run_handler-Leaves login req app res = (login_handler-Reads lib sql req app res).leaves
  run_handler-Leaves user_register req app res = user_register_handler-Leaves lib sql req app res
  run_handler-Leaves user_get_id req app res =
      (user_get_id_handler-Reads lib sql req app res).leaves
  run_handler-Leaves user_search req app res =
      (user_search_handler-Reads lib sql req app res).leaves

  run_handler-db :
      (e : Endpoint) (req : Request) (app : App C Db) (res : Response)
      → e ≢ user_register
      → (app_of (run_handler lib sql e req app res)).db ≡ app.db
  unfolding run_handler
  run_handler-db login req app res h = (login_handler-Reads lib sql req app res).same_db
  run_handler-db user_register req app res h = absurd (h refl)
  run_handler-db user_get_id req app res h = (user_get_id_handler-Reads lib sql req app res).same_db
  run_handler-db user_search req app res h = (user_search_handler-Reads lib sql req app res).same_db

  counted-pool :
      (e : Endpoint) (h : Handled C Db)
      → (app_of (counted lib sql e h)).db_pool ≡ (app_of h).db_pool
  unfolding counted
  counted-pool e (answered ok app res) = refl
  counted-pool e (threw what app res) = refl

  counted-db : (e : Endpoint) (h : Handled C Db) → (app_of (counted lib sql e h)).db ≡ (app_of h).db
  unfolding counted
  counted-db e (answered ok app res) = refl
  counted-db e (threw what app res) = refl

  -- Whatever the request is and whatever the libraries and the database answer, exceptions included, a
  -- route takes connections only by the steps of scoped connections and gives all of them back: it
  -- leads from a pool with what others hold of it to a pool with the same held.
  pub serve-Returns :
      (e : Endpoint) (req : Request) (app : App C Db) (res : Response)
      → Returns app.db_pool (app_of (serve lib sql e req app res)).db_pool
  unfolding serve
  serve-Returns e req app res =
      subst (Returns app.db_pool) (sym (counted-pool e (run_handler lib sql e req app res)))
        (run_handler-Leaves e req app res).pool

  -- No route but the registration changes the database.
  pub serve-db :
      (e : Endpoint) (req : Request) (app : App C Db) (res : Response)
      → e ≢ user_register
      → (app_of (serve lib sql e req app res)).db ≡ app.db
  unfolding serve
  serve-db e req app res h =
      counted-db e (run_handler lib sql e req app res) ∙ run_handler-db e req app res h

abbrev IsBalanced : Counters → Type 0
IsBalanced c = c.total_requests ≡ c.failed_requests + c.latency_requests

-- The counters of one request.
abbrev bump : Bool → Counters → Counters
bump ok c = record {
  total_requests = suc c.total_requests;
  failed_requests = if not ok then suc c.failed_requests else c.failed_requests;
  latency_requests = if not ok then c.latency_requests else suc c.latency_requests;
}

bump-IsBalanced : (ok : Bool) (c : Counters) → IsBalanced c → IsBalanced (bump ok c)
bump-IsBalanced true c h = omega arith
bump-IsBalanced false c h = omega arith

count_result-bump :
    (e : Endpoint) (ok : Bool) (m : Metrics)
    → count_result e ok m ≡ set_counters e (bump ok (counters e m)) m
unfolding count_result count_request count_failed_request store_latency
count_result-bump login true m = refl
count_result-bump login false m = refl
count_result-bump user_register true m = refl
count_result-bump user_register false m = refl
count_result-bump user_get_id true m = refl
count_result-bump user_get_id false m = refl
count_result-bump user_search true m = refl
count_result-bump user_search false m = refl

set_counters-Balanced :
    (e : Endpoint) (c : Counters) (m : Metrics)
    → IsBalanced c
    → Balanced m
    → Balanced (set_counters e c m)
set_counters-Balanced login c m hc h login = hc
set_counters-Balanced login c m hc h user_register = h user_register
set_counters-Balanced login c m hc h user_get_id = h user_get_id
set_counters-Balanced login c m hc h user_search = h user_search
set_counters-Balanced user_register c m hc h login = h login
set_counters-Balanced user_register c m hc h user_register = hc
set_counters-Balanced user_register c m hc h user_get_id = h user_get_id
set_counters-Balanced user_register c m hc h user_search = h user_search
set_counters-Balanced user_get_id c m hc h login = h login
set_counters-Balanced user_get_id c m hc h user_register = h user_register
set_counters-Balanced user_get_id c m hc h user_get_id = hc
set_counters-Balanced user_get_id c m hc h user_search = h user_search
set_counters-Balanced user_search c m hc h login = h login
set_counters-Balanced user_search c m hc h user_register = h user_register
set_counters-Balanced user_search c m hc h user_get_id = h user_get_id
set_counters-Balanced user_search c m hc h user_search = hc

count_result-Balanced :
    (e : Endpoint) (ok : Bool) (m : Metrics) → Balanced m → Balanced (count_result e ok m)
count_result-Balanced e ok m h =
    subst Balanced (sym (count_result-bump e ok m)) (
      set_counters-Balanced e (bump ok (counters e m)) m (bump-IsBalanced ok (counters e m) (h e))
        h)

module _ {C Db Row : Type 0} (lib : Libraries) (sql : Sql C Db Row) where
  counted-Balanced :
      (e : Endpoint) (h : Handled C Db)
      → Balanced (app_of h).metrics
      → Balanced (app_of (counted lib sql e h)).metrics
  unfolding counted
  counted-Balanced e (answered ok app res) h = count_result-Balanced e ok app.metrics h
  counted-Balanced e (threw what app res) h = h

  -- In the metrics every counted request of an endpoint either failed or has a latency, and a route
  -- keeps it so, also where its handler throws.
  pub serve-Balanced :
      (e : Endpoint) (req : Request) (app : App C Db) (res : Response)
      → Balanced app.metrics
      → Balanced (app_of (serve lib sql e req app res)).metrics
  unfolding serve
  serve-Balanced e req app res h =
      let same = (run_handler-Leaves lib sql e req app res).same_counters in
      counted-Balanced e (run_handler lib sql e req app res)
        (λ d. subst IsBalanced (sym (same d)) (h d))
