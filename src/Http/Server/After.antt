-- ===== src/Http/Server/After.antt =====
-- The middlewares behind a response.
use obelisk_asio_coro.Base.{
  Bytes, Bool, Option, ◌≡◌, ◌≢◌, List, map, ◌++◌, inl, ◌∙◌, Option-cases, ◌∷◌, ap, inr, [], refl,
}
use obelisk_asio_coro.Http.Json.{Json}
use obelisk_asio_coro.Http.Request.{RequestLine, RequestData}
use obelisk_asio_coro.Http.Server.Dispatch.{
  serve, after_all, served_of, stop_of, sent, run_request, response_of, escaped, undefined,
}
use obelisk_asio_coro.Http.Server.{
  bind_run, Run, Result, Server, ends, Response, call, Middleware, returned, thrown, after,
  null_dereference,
}
use obelisk_asio_coro.Http.Response.{Response}
use obelisk_asio_coro.Http.Server.Calls.{Result-cases}

module _ (same_key : Bytes → Bytes → Bool) (dump : Json → Bytes) (line : RequestLine) where
  after_all-calls :
      (ms : List Middleware) (x y : Response) (d : RequestData)
      → (after_all same_key dump line ms x d).outcome ≡ returned y
      → (after_all same_key dump line ms x d).calls ≡ map after ms
  unfolding after_all bind_run ends call
  after_all-calls [] x y d h = refl
  after_all-calls (m ∷ ms) x y d h = elim (Result-cases (m.after_handle line d x).1) [
    | inl (x1, e) ↦
        rw (e)
          (ap (◌∷◌ (after m)) (after_all-calls ms x1 y (m.after_handle line d x).0 (rw (e) at h)))
    | inr (inl (t, e)) ↦ absurd (let f : thrown t ≡ returned y = (rw (e) at h) in cc)
    | inr (inr e) ↦ absurd (let f : null_dereference ≡ returned y = (rw (e) at h) in cc)
  ]

  served_of-sent :
      (r : Run Response) (y : Response)
      → served_of same_key dump r ≡ sent y
      → r.outcome ≡ returned y
  unfolding served_of
  served_of-sent r y h = elim (Result-cases r.outcome) [
    | inl (x, e) ↦
        (let f : sent x ≡ sent y = (rw (e) at h) in let g : x ≡ y = cc in e ∙ ap returned g)
    | inr (inl (t, e)) ↦ absurd (let f : escaped t ≡ sent y = (rw (e) at h) in cc)
    | inr (inr e) ↦ absurd (let f : undefined ≡ sent y = (rw (e) at h) in cc)
  ]

  stop_of-sent : (r : Result (Option Response)) (y : Response) → stop_of same_key dump r ≢ sent y
  unfolding stop_of
  stop_of-sent (returned a) y h = cc
  stop_of-sent (thrown e) y h = cc
  stop_of-sent null_dereference y h = cc

  -- When a response is written, whether a handler gave it or an exception or no route led to it,
  -- every middleware of the server has seen it, each once and in the order of their registration,
  -- behind all calls that the request itself has led to.
  pub serve-after :
      (server : Server) (d : RequestData) (y : Response)
      → (serve same_key dump server line d).1 ≡ sent y
      → (serve same_key dump server line d).0
        ≡ (run_request same_key dump server line d).calls ++ map after server.middlewares
  unfolding serve
  serve-after server d y h =
      let ran = run_request same_key dump server line d in
      elim (Option-cases (response_of same_key dump ran.outcome)) [
        | inl over ↦ absurd (stop_of-sent ran.outcome y (rw (over, serve) at h))
        | inr (x, answered) ↦
            let e =
              served_of-sent (after_all same_key dump line server.middlewares x ran.data_left) y
                (rw (answered, serve) at h) in
            rw (answered, serve)
              (ap (◌++◌ ran.calls) (after_all-calls server.middlewares x y ran.data_left e))
      ]
