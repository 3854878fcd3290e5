-- ===== src/App.antt =====
-- service/sources/app.cpp and service/include/app.h, with the metrics of app_metrics.h: the data of
-- a request, a response and the service, and what the handlers share. The HTTP server, the JSON
-- library, bcrypt and the database are parameters.
pub mod Uuids
pub mod Handlers
pub mod Endpoints
pub mod Databases
mod Tests
use social_network.Prelude.{
  ℕ, zero, suc, ◌+◌, Bool, true, false, not, ◌&&◌, ◌||◌, List, [], ◌∷◌, ◌++◌, Option, none, some,
  ◌==◌, if◌then◌else◌, Bytes, codes, equal, ℤ, Attempt, done, dns_exception, std_exception,
}
use social_network.ConnectionPool.{
  NodeType, ConnectionPool, TypeNumTagConnection, get_connection, release_connection,
}

-- `nlohmann::json`; a number is the text of its digits.
mutual
  pub data Json : Type 0 where
    null : Json
    boolean : Bool → Json
    number : Bytes → Json
    string : Bytes → Json
    array : Elements → Json
    object : Members → Json

  pub data Elements : Type 0 where
    no_elements : Elements
    element : Json → Elements → Elements

  pub data Members : Type 0 where
    no_members : Members
    member : Bytes → Json → Members → Members

unfoldable pub find_member : Bytes → Members → Option Json
unfolding equal
find_member key no_members = none
find_member key (member name value members) =
    if equal name key then some value else find_member key members

-- `json.contains(key)` and `json[key]`.
abbrev pub field : Bytes → Json → Option Json
unfolding find_member
field key (object members) = find_member key members
field key json = none

abbrev pub is_given {ℓ} : {A : Type ℓ} → Option A → Bool
is_given none = false
is_given (some a) = true

unfoldable pub contains : Bytes → Json → Bool
unfolding field
contains key json = is_given (field key json)

-- `json[key].is_string()` and `json[key].get<std::string>()`, the latter of a string alone.
abbrev pub string_of : Option Json → Option Bytes
string_of (some (string s)) = some s
string_of json = none

unfoldable pub is_string : Bytes → Json → Bool
unfolding field
is_string key json = is_given (string_of (field key json))

abbrev pub or_nothing : Option Bytes → Bytes
or_nothing none = []
or_nothing (some s) = s

unfoldable pub get_string : Bytes → Json → Bytes
unfolding field
get_string key json = or_nothing (string_of (field key json))

-- An object of texts, and the object of an error.
abbrev pub members : List (Bytes × Bytes) → Members
members [] = no_members
members ((key, value) ∷ more) = member key (string value) (members more)

abbrev pub error_json : Bytes → Bytes → Json
error_json code message =
    object
      (member (codes "code") (number code) (member (codes "message") (string message) no_members))

-- What the handlers read of an `httplib::Request`.
pub record Request : Type 0 where
  pub method : Bytes
  pub path : Bytes
  pub body : Bytes
  pub params : List (Bytes × Bytes)
  pub path_params : List (Bytes × Bytes)

-- A `httplib::Response`: a status that is not set is `none`; the content has its type behind it.
pub record Response : Type 0 where
  pub status : Option ℕ
  pub content : Option (Bytes × Bytes)
  pub headers : List (Bytes × Bytes)

unfoldable pub set_status : ℕ → Response → Response
set_status code res = record res { status = some code }

unfoldable pub set_content : Bytes → Bytes → Response → Response
set_content body content_type res = record res { content = some (body, content_type) }

-- The four endpoints of the service, and their counters in the metrics: requests, failed requests,
-- and observed latencies.
pub data Endpoint : Type 0 where
  login user_register user_get_id user_search : Endpoint

pub record Counters : Type 0 where
  pub total_requests : ℕ
  pub failed_requests : ℕ
  pub latency_requests : ℕ

pub record Metrics : Type 0 where
  pub total_requests_to_host : List (Bytes × ℕ)
  pub login_counters : Counters
  pub user_register_counters : Counters
  pub user_get_id_counters : Counters
  pub user_search_counters : Counters

-- `Metrics(tags)`; the tags are those of a set.
abbrev pub zero_counters : Counters
zero_counters = record { total_requests = 0; failed_requests = 0; latency_requests = 0 }

unfoldable pub host_counters : List Bytes → List (Bytes × ℕ)
host_counters [] = []
host_counters (t ∷ tags) = (t, 0) ∷ host_counters tags

unfoldable pub new_metrics : List Bytes → Metrics
unfolding host_counters
new_metrics tags = record {
  total_requests_to_host = host_counters tags;
  login_counters = zero_counters;
  user_register_counters = zero_counters;
  user_get_id_counters = zero_counters;
  user_search_counters = zero_counters;
}

-- `find(tag)` and the increment; a tag that is not known is passed over.
unfoldable pub increment_host : Bytes → List (Bytes × ℕ) → List (Bytes × ℕ)
unfolding equal
increment_host tag [] = []
increment_host tag ((t, n) ∷ hosts) =
    if equal t tag then (t, suc n) ∷ hosts else (t, n) ∷ increment_host tag hosts

unfoldable pub count_request_to_host : Bytes → Metrics → Metrics
unfolding increment_host
count_request_to_host tag m = record m {
  total_requests_to_host = increment_host tag m.total_requests_to_host;
}

abbrev pub counters : Endpoint → Metrics → Counters
counters login m = m.login_counters
counters user_register m = m.user_register_counters
counters user_get_id m = m.user_get_id_counters
counters user_search m = m.user_search_counters

abbrev pub set_counters : Endpoint → Counters → Metrics → Metrics
set_counters login c m = record m { login_counters = c }
set_counters user_register c m = record m { user_register_counters = c }
set_counters user_get_id c m = record m { user_get_id_counters = c }
set_counters user_search c m = record m { user_search_counters = c }

unfoldable pub count_request : Endpoint → Metrics → Metrics
count_request e m =
    let c = counters e m in set_counters e (record c { total_requests = suc c.total_requests }) m

unfoldable pub count_failed_request : Endpoint → Metrics → Metrics
count_failed_request e m =
    let c = counters e m in set_counters e (record c { failed_requests = suc c.failed_requests }) m

unfoldable pub store_latency : Endpoint → Metrics → Metrics
store_latency e m =
    let c = counters e m in
    set_counters e (record c { latency_requests = suc c.latency_requests }) m

-- The libraries: `parse` and `dump` of JSON, `BCrypt::validatePassword` and `generateHash`, and
-- `tm_year` as `std::get_time` reads it with `"%Y-%m-%d"`, `none` for a stream that has failed.
pub record Libraries : Type 0 where
  pub parse : Bytes → Attempt Json
  pub dump : Json → Attempt Bytes
  pub validate_password : Bytes → Bytes → Bool
  pub generate_hash : Bytes → ℕ → Attempt Bytes
  pub get_year : Bytes → Option ℤ

-- The database `Db` over connections `C`: a transaction that is left without a commit, which
-- changes nothing, one that is committed, what is left of one without rows whether or not an
-- exception ended it, and the texts of a row.
pub record Sql (C Db Row : Type 0) : Type 0 where
  pub select : Db → C → Bytes → List Bytes → Attempt (List Row)
  pub commit : Db → C → Bytes → List Bytes → Db × Attempt (List Row)
  pub execute : Db → C → Bytes → Db
  pub as_one : Row → Attempt Bytes
  pub as_two : Row → Attempt (Bytes × Bytes)
  pub as_five : Row → Attempt (Bytes × Bytes × Bytes × Bytes × Bytes)
  pub as_six : Row → Attempt (Bytes × Bytes × Bytes × Bytes × Bytes × Bytes)

-- What the handlers use of the service, and the database.
pub record App (C Db : Type 0) : Type 0 where
  pub db_pool : Option (ConnectionPool C)
  pub metrics : Metrics
  pub db : Db

-- A handler returns or throws.
pub data Handled (C Db : Type 0) : Type 0 where
  answered : Bool → App C Db → Response → Handled C Db
  threw : Bytes → App C Db → Response → Handled C Db

-- How a `try` block ends: at `return false` behind a status, at its end with `ok`, the response and
-- the status if one was set, or with an exception.
pub data Tried : Type 0 where
  returned : ℕ → Tried
  ended : Bool → Json → Option ℕ → Tried
  raised : Bytes → Tried

-- A step of a `try` block.
infixl 5 ◌>>=◌
abbrev pub ◌>>=◌ {ℓ} : {A : Type ℓ} → Attempt A → (A → Tried) → Tried
done a >>= f = f a
dns_exception what >>= f = raised what
std_exception what >>= f = raised what

-- The exception of `get_connection`.
abbrev pub no_connections : Bytes
no_connections = codes "No connections available"
