-- ===== src/Http/Server/Guarded.antt =====
-- Which routes a request reaches.
use obelisk_asio_coro.Base.{
  ◌≡◌, List, ◌∷◌, [], inl, true, inr, Option-cases, Bytes, Bool, Bool-cases,
}
use obelisk_asio_coro.Http.Request.{RequestLine, RequestData, target}
use obelisk_asio_coro.Http.Server.{
  RouteItem, extract, pre_all, ends, call, method_allowed, Middleware, Response, is_query, after,
  or_else, Json, Server, emplace_all,
}
use obelisk_asio_coro.Http.Router.{extract}
use obelisk_asio_coro.Http.Response.{Response}
use obelisk_asio_coro.Http.Json.{Json}
use obelisk_asio_coro.Http.Server.Dispatch.{
  serve, use_route, after_all, try_routes, run_request, response_of,
}
use obelisk_asio_coro.Http.Server.Calls.{
  Fine, AllCalls, MayAnswer, bind-Fine, CallAllowed, IsRoute, answer_route-Fine, AllCalls-append,
  later_route, pre_all-Fine, first_route, or_else-Fine,
}

module _ (same_key : Bytes → Bytes → Bool) (dump : Json → Bytes) (line : RequestLine) where
  use_route-Fine :
      (routes : List RouteItem) (item : RouteItem) (params : List (Bytes × Bytes)) (d : RequestData)
      → IsRoute item routes
      → (extract item.address (target line) item.pattern []).0 ≡ true
      → Fine line routes (use_route same_key dump line item params d).calls
  unfolding use_route ends AllCalls MayAnswer
  use_route-Fine routes item params d here matches =
      elim (Bool-cases (method_allowed line.method item)) [
        | inr refused ↦ rw (refused, use_route) tt
        | inl allowed ↦ elim (Bool-cases (is_query line)) [
          | inl query ↦ rw (allowed, use_route) (rw (query, use_route) tt)
          | inr plain ↦
              rw (allowed, use_route)
                (rw (plain, use_route)
                  (answer_route-Fine line routes item (here, matches, allowed, plain)
                    (emplace_all params d)))
        ]
      ]

  try_routes-Fine :
      (routes items : List RouteItem) (d : RequestData)
      → ((item : RouteItem) → IsRoute item items → IsRoute item routes)
      → Fine line routes (try_routes same_key dump line items d).calls
  unfolding try_routes ends AllCalls
  try_routes-Fine routes [] d within = tt
  try_routes-Fine routes (item ∷ items) d within =
      let later = λ (d2 : RequestData).
        try_routes-Fine routes items d2
          (λ other h. within other (later_route other item items h)) in
      elim (Bool-cases (extract item.address (target line) item.pattern []).0) [
        | inr other ↦ rw (other, try_routes) (later d)
        | inl matches ↦
            let params = (extract item.address (target line) item.pattern []).1 in
            rw (matches, try_routes)
              (bind-Fine line routes (use_route same_key dump line item params d)
                (λ response d1. or_else response d1 (λ d2. try_routes same_key dump line items d2))
                (use_route-Fine routes item params d (within item (first_route item items)) matches)
                (λ response d1.
                  or_else-Fine line routes response d1
                    (λ d2. try_routes same_key dump line items d2) later))
      ]

  run_request-Fine :
      (server : Server) (d : RequestData)
      → Fine line server.routes (run_request same_key dump server line d).calls
  unfolding run_request
  run_request-Fine server d =
      bind-Fine line server.routes (pre_all line server.middlewares d)
        (λ response d1. or_else response d1 (λ d2. try_routes same_key dump line server.routes d2))
        (pre_all-Fine line server.routes server.middlewares d)
        (λ response d1.
          or_else-Fine line server.routes response d1
            (λ d2. try_routes same_key dump line server.routes d2)
            (λ d2. try_routes-Fine server.routes server.routes d2 (λ item h. h)))

  after_all-Fine :
      (routes : List RouteItem) (ms : List Middleware) (x : Response) (d : RequestData)
      → Fine line routes (after_all same_key dump line ms x d).calls
  unfolding after_all ends call AllCalls CallAllowed
  after_all-Fine routes [] x d = tt
  after_all-Fine routes (m ∷ ms) x d =
      bind-Fine line routes (call (after m) (m.after_handle line d x))
        (λ x1 d1. after_all same_key dump line ms x1 d1) (tt, tt)
        (λ x1 d1. after_all-Fine routes ms x1 d1)

  -- Whatever the middlewares and handlers do, a round of the server calls a handler, or a middleware
  -- of a route, only for a route of its own whose pattern matches the target of the request and that
  -- allows its method, and never for OPTIONS and HEAD.
  pub serve-CallAllowed :
      (server : Server) (d : RequestData)
      → AllCalls (CallAllowed line server.routes) (serve same_key dump server line d).0
  unfolding serve
  serve-CallAllowed server d =
      let ran = run_request same_key dump server line d in
      elim (Option-cases (response_of same_key dump ran.outcome)) [
        | inl over ↦ rw (over, serve) (run_request-Fine server d)
        | inr (x, answered) ↦
            rw (answered, serve)
              (AllCalls-append (CallAllowed line server.routes) ran.calls _
                (run_request-Fine server d)
                (after_all-Fine server.routes server.middlewares x ran.data_left))
      ]
