-- ===== src/Http/Server.antt =====
-- The server: http_server.cpp of source/http, from the request that was read to the response that is
-- written, with route_item.cpp where it is called. Handlers and middlewares are functions; each run
-- keeps the list of the calls that were made, in their order.
pub mod Dispatch
pub mod Calls
pub mod Routing
pub mod Guarded
pub mod After
pub mod Connection
mod Tests
use obelisk_asio_coro.Base.{
  ℕ, List, ◌∷◌, [], if◌then◌else◌, some, none, true, false, Option, ◌++◌, Bytes, is_empty, Bool,
  codes, beq, ◌||◌, ◌==◌, pos,
}
use obelisk_asio_coro.Http.Request.{RequestLine, RequestData, request_data, target}
use obelisk_asio_coro.Http.Json.{
  emplace_param, string, Json, object, member, number_integer, no_members,
}
use obelisk_asio_coro.Http.Router.{RouteParam, Regex, address_text, extract}
use obelisk_asio_coro.Http.Response.{Response, json_response, empty_response, add_header}

-- Exceptions, as `handle_` tells them apart.
pub data Thrown : Type 0 where
  system_error : ℕ → Thrown
  http_exception : Bytes → ℕ → Thrown
  other_exception : Bytes → Thrown

-- How a step ends; `null_dereference` is undefined behaviour.
pub data Result {ℓ} (A : Type ℓ) : Type ℓ where
  returned : A → Result A
  thrown : Thrown → Result A
  null_dereference : Result A

-- `base_middleware`: what `pre_handle` makes of a request, and `after_handle` of request and response.
pub record Middleware : Type 0 where
  pub pre_handle : RequestLine → RequestData → RequestData × Result (Option Response)
  pub after_handle : RequestLine → RequestData → Response → RequestData × Result Response

-- `route_item`. The keys of `available_method_` stand in the order in which the map gives them.
pub record RouteItem : Type 0 where
  pub pattern : List RouteParam
  pub address : Regex
  pub middlewares : List Middleware
  pub available_method : List Bytes
  pub handler : Option (RequestLine → RequestData → RequestData × Result (Option Response))

pub record Server : Type 0 where
  pub routes : List RouteItem
  pub middlewares : List Middleware

-- `reg_middlewares` and `route`.
unfoldable reg_middlewares : List Middleware → Server → Server
reg_middlewares ms s = record { routes = s.routes; middlewares = s.middlewares ++ ms }

unfoldable pub route : RouteItem → Server → Server
route item s = record { routes = s.routes ++ (item ∷ []); middlewares = s.middlewares }

-- A new `route_item` allows OPTIONS and HEAD; `regex` is the constructor of `std::regex`, and `none` its
-- exception.
unfoldable pub route_item :
    (Bytes → Option Regex)
    → List RouteParam
    → Option (RequestLine → RequestData → RequestData × Result (Option Response))
    → Option RouteItem
unfolding address_text
route_item regex pattern handler = elim (regex (address_text pattern)) [
  | none ↦ none
  | some r ↦ some (record {
    pattern = pattern;
    address = r;
    middlewares = [];
    available_method = codes "OPTIONS" ∷ codes "HEAD" ∷ [];
    handler = handler;
  })
]

-- `method_allowed`
unfoldable contains_method : Bytes → List Bytes → Bool
contains_method m [] = false
contains_method m (k ∷ ks) = beq k m || contains_method m ks

unfoldable pub method_allowed : Bytes → RouteItem → Bool
unfolding contains_method
method_allowed m item = contains_method m item.available_method

-- `method`: `emplace` of each one.
unfoldable add_methods : List Bytes → List Bytes → List Bytes
unfolding contains_method
add_methods [] known = known
add_methods (m ∷ ms) known =
    if contains_method m known then add_methods ms known else add_methods ms (known ++ (m ∷ []))

unfoldable pub method : List Bytes → RouteItem → RouteItem
unfolding add_methods
method ms item = record {
  pattern = item.pattern;
  address = item.address;
  middlewares = item.middlewares;
  available_method = add_methods ms item.available_method;
  handler = item.handler;
}

-- `middleware`
unfoldable add_middleware : Middleware → RouteItem → RouteItem
add_middleware m item = record item { middlewares = item.middlewares ++ (m ∷ []) }

-- `allowed_methods`
unfoldable join_methods : Bytes → List Bytes → Bytes
join_methods allowed [] = allowed
join_methods allowed (m ∷ ms) =
    if is_empty allowed then join_methods m ms else join_methods (allowed ++ (codes ", " ++ m)) ms

unfoldable pub allowed_methods : RouteItem → Bytes
unfolding join_methods
allowed_methods item = join_methods [] item.available_method

-- The calls that are made.
pub data Call : Type 0 where
  before : Middleware → Call
  route_before : RouteItem → Middleware → Call
  handle : RouteItem → Call
  route_after : RouteItem → Middleware → Call
  after : Middleware → Call

-- What a run of steps has called, the request that it leaves, and how it ended.
pub record Run {ℓ} (A : Type ℓ) : Type ℓ where
  pub calls : List Call
  pub data_left : RequestData
  pub outcome : Result A

unfoldable pub ends {ℓ} : {A : Type ℓ} → Result A → RequestData → Run A
ends r d = record { calls = []; data_left = d; outcome = r }

unfoldable pub call {ℓ} : {A : Type ℓ} → Call → RequestData × Result A → Run A
call c r = record { calls = c ∷ []; data_left = r.0; outcome = r.1 }

unfoldable pub bind_run {ℓ κ} :
    {A : Type ℓ} {B : Type κ} → Run A → (A → RequestData → Run B) → Run B
bind_run x f = elim (x.outcome) [
  | returned a ↦ record {
    calls = x.calls ++ (f a x.data_left).calls;
    data_left = (f a x.data_left).data_left;
    outcome = (f a x.data_left).outcome;
  }
  | thrown e ↦ record { calls = x.calls; data_left = x.data_left; outcome = thrown e }
  | null_dereference ↦ record {
    calls = x.calls;
    data_left = x.data_left;
    outcome = null_dereference;
  }
]

-- `if (!response)`: what is done then, or the response.
unfoldable pub or_else :
    Option Response → RequestData → (RequestData → Run (Option Response)) → Run (Option Response)
unfolding ends
or_else none d next = next d
or_else (some x) d next = ends (returned (some x)) d

module _ (line : RequestLine) where
  -- The first loop of `handle_`: it stops at a response.
  unfoldable pub pre_all : List Middleware → RequestData → Run (Option Response)
  unfolding bind_run ends call or_else
  pre_all [] d = ends (returned none) d
  pre_all (m ∷ ms) d =
      bind_run (call (before m) (m.pre_handle line d))
        (λ response d1. or_else response d1 (λ d2. pre_all ms d2))

  -- The middlewares of a route: what they return is dropped.
  unfoldable pub route_pres : RouteItem → List Middleware → RequestData → Run (Unit {0})
  unfolding bind_run ends call
  route_pres item [] d = ends (returned tt) d
  route_pres item (m ∷ ms) d =
      bind_run (call (route_before item m) (m.pre_handle line d)) (λ _ d1. route_pres item ms d1)

  unfoldable pub route_afters : RouteItem → List Middleware → Response → RequestData → Run Response
  unfolding bind_run ends call
  route_afters item [] x d = ends (returned x) d
  route_afters item (m ∷ ms) x d =
      bind_run (call (route_after item m) (m.after_handle line d x))
        (λ x1 d1. route_afters item ms x1 d1)

  -- `route_item::handle`
  unfoldable pub handle_route : RouteItem → RequestData → Run (Option Response)
  unfolding ends call
  handle_route item d = elim (item.handler) [
    | none ↦ ends (returned none) d
    | some h ↦ call (handle item) (h line d)
  ]

  -- `*response` is read for each middleware of the route.
  unfoldable pub finish_route : RouteItem → Option Response → RequestData → Run (Option Response)
  unfolding route_afters bind_run ends
  finish_route item (some x) d =
      bind_run (route_afters item item.middlewares x d) (λ x1 d1. ends (returned (some x1)) d1)
  finish_route item none d = elim (item.middlewares) [
    | [] ↦ ends (returned none) d
    | _ ∷ _ ↦ ends null_dereference d
  ]

  unfoldable pub answer_route : RouteItem → RequestData → Run (Option Response)
  unfolding route_pres handle_route finish_route bind_run
  answer_route item d =
      bind_run (route_pres item item.middlewares d)
        (λ _ d1. bind_run (handle_route item d1) (λ response d2. finish_route item response d2))

  -- OPTIONS and HEAD do not reach a handler.
  unfoldable pub is_query : Bool
  is_query = beq line.method (codes "OPTIONS") || beq line.method (codes "HEAD")

-- The parameters of the route, as texts.
unfoldable pub emplace_all : List (Bytes × Bytes) → RequestData → RequestData
unfolding emplace_param
emplace_all [] d = d
emplace_all ((name, value) ∷ ps) d =
    emplace_all ps (record d { params = emplace_param name (string value) d.params })
