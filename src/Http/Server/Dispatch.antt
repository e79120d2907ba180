-- ===== src/Http/Server/Dispatch.antt =====
-- One round of the loop of `handle_` in source/http/http_server.cpp: the routes, the `catch` clauses
-- and the middlewares behind them.
use obelisk_asio_coro.Base.{
  List, ◌∷◌, [], if◌then◌else◌, some, none, Option, ◌++◌, Bytes, is_empty, Bool, codes, ◌||◌, ◌==◌,
  pos,
}
use obelisk_asio_coro.Http.Request.{RequestLine, RequestData, target}
use obelisk_asio_coro.Http.Json.{string, Json, object, member, number_integer, no_members}
use obelisk_asio_coro.Http.Router.{extract}
use obelisk_asio_coro.Http.Response.{Response, json_response, empty_response, add_header}
use obelisk_asio_coro.Http.Server.{
  or_else, returned, thrown, null_dereference, Result, Thrown, Server, pre_all, method_allowed, Run,
  bind_run, allowed_methods, RouteItem, is_query, http_exception, Call, system_error, ends,
  other_exception, answer_route, call, Middleware, emplace_all, after,
}

module _ (same_key : Bytes → Bytes → Bool) (dump : Json → Bytes) where
  unfoldable options_response : RouteItem → Response
  unfolding empty_response add_header allowed_methods
  options_response item =
      let plain = empty_response same_key in
      let allowed = allowed_methods item in
      if is_empty allowed then plain else record plain {
        header =
            add_header same_key (codes "Access-Control-Allow-Methods") allowed
              (add_header same_key (codes "Allow") allowed plain.header);
      }

  unfoldable pub not_allowed : Thrown
  not_allowed = http_exception (codes "Obelisk: Method Not Allowed!") 405

  -- A route that matches.
  unfoldable pub use_route :
      RequestLine → RouteItem → List (Bytes × Bytes) → RequestData → Run (Option Response)
  unfolding method_allowed is_query options_response answer_route ends emplace_all not_allowed
  use_route line item route_params d =
      if method_allowed line.method item
      then (if is_query line
          then ends (returned (some (options_response item))) (emplace_all route_params d)
          else answer_route line item (emplace_all route_params d))
      else ends (thrown not_allowed) d

  -- The loop over the routes: it goes on behind a handler without a response.
  unfoldable pub try_routes : RequestLine → List RouteItem → RequestData → Run (Option Response)
  unfolding extract target use_route bind_run or_else ends
  try_routes line [] d = ends (returned none) d
  try_routes line (item ∷ items) d =
      let found = extract item.address (target line) item.pattern [] in
      let used =
        bind_run (use_route line item found.1 d)
          (λ response d1. or_else response d1 (λ d2. try_routes line items d2)) in
      if found.0 then used else try_routes line items d

  -- What stands in the `try` block behind the reading of the message.
  unfoldable pub run_request : Server → RequestLine → RequestData → Run (Option Response)
  unfolding pre_all try_routes bind_run or_else
  run_request server line d =
      bind_run (pre_all line server.middlewares d)
        (λ response d1. or_else response d1 (λ d2. try_routes line server.routes d2))

  unfoldable pub message : Bytes → Json
  message text = object (member (codes "message") (string text) no_members)

  -- The `catch` clauses: `none` closes the connection.
  unfoldable error_response : Thrown → Option Response
  unfolding json_response message
  error_response (system_error code) =
      if (code == 2) || (code == 10053)
      then none
      else some (
          json_response same_key dump
            (object (
              member (codes "code") (number_integer (pos 500)) (
                member (codes "message") (string (codes "system.error.internal_server_error"))
                  no_members)))
            200)
  error_response (http_exception text code) = some (json_response same_key dump (message text) code)
  error_response (other_exception text) = some (json_response same_key dump (message text) 500)

  unfoldable not_found : Response
  unfolding json_response message
  not_found = json_response same_key dump (message (codes "null")) 404

  -- How one round of the loop of `handle_` ends: with a response to be written, with the connection
  -- closed, with an exception that leaves the loop, or undefined.
  pub data Served : Type 0 where
    sent : Response → Served
    closed : Served
    escaped : Thrown → Served
    undefined : Served

  -- The middlewares behind the `catch` clauses, and what is then written.
  unfoldable pub after_all : RequestLine → List Middleware → Response → RequestData → Run Response
  unfolding bind_run ends call
  after_all line [] x d = ends (returned x) d
  after_all line (m ∷ ms) x d =
      bind_run (call (after m) (m.after_handle line d x)) (λ x1 d1. after_all line ms x1 d1)

  unfoldable pub served_of : Run Response → Served
  served_of r = elim (r.outcome) [
    | returned x ↦ sent x
    | thrown e ↦ escaped e
    | null_dereference ↦ undefined
  ]

  -- What the `try` block and the `catch` clauses leave: a response, or the end of the round.
  unfoldable pub response_of : Result (Option Response) → Option Response
  unfolding error_response not_found
  response_of (returned none) = some not_found
  response_of (returned (some x)) = some x
  response_of (thrown e) = error_response e
  response_of null_dereference = none

  unfoldable pub stop_of : Result (Option Response) → Served
  stop_of null_dereference = undefined
  stop_of _ = closed

  -- A round for a request that was read: the calls that it makes, and its end.
  unfoldable pub serve : Server → RequestLine → RequestData → List Call × Served
  unfolding run_request response_of stop_of after_all served_of
  serve server line d =
      let ran = run_request server line d in
      elim (response_of ran.outcome) [
        | none ↦ (ran.calls, stop_of ran.outcome)
        | some x ↦ (
          ran.calls ++ (after_all line server.middlewares x ran.data_left).calls,
          served_of (after_all line server.middlewares x ran.data_left),
        )
      ]

  -- A round whose message cannot be read: there is no request, and `*request` is read for each
  -- middleware. Without middlewares the response to the exception is written.
  unfoldable pub serve_unreadable : Server → Thrown → Served
  unfolding error_response
  serve_unreadable server e = elim (error_response e) [
    | none ↦ closed
    | some x ↦ elim (server.middlewares) [ [] ↦ sent x | _ ∷ _ ↦ undefined ]
  ]
