-- ===== src/Http/Server/Routing.antt =====
-- Which of the routes answers.
use obelisk_asio_coro.Base.{
  Bytes, Bool, List, ◌∷◌, ◌++◌, [], ◌≡◌, false, true, codes, ◌∙◌, some, none, Option, append-nil,
  refl, map, ap, sym, ◌⊎◌, inl, inr,
}
use obelisk_asio_coro.Http.Request.{RequestLine, RequestData, target}
use obelisk_asio_coro.Http.Server.{
  Result, RouteItem, extract, Response, bind_run, ends, method_allowed, thrown, is_query,
  answer_route, http_exception, emplace_all, returned, or_else, Run, Call, Middleware,
  null_dereference, route_before, route_after, handle, route_pres, route_afters, finish_route,
  handle_route, call,
}
use obelisk_asio_coro.Http.Json.{Json}
use obelisk_asio_coro.Http.Server.Dispatch.{try_routes, use_route, not_allowed}
use obelisk_asio_coro.Http.Router.{extract}
use obelisk_asio_coro.Http.Server.Calls.{Result-cases}
use obelisk_asio_coro.Http.Response.{Response}

-- None of the routes has a pattern for the target.
unfoldable pub NoMatch : RequestLine → List RouteItem → Type 0
NoMatch line [] = Unit
NoMatch line (item ∷ items) =
    ((extract item.address (target line) item.pattern []).0 ≡ false) × NoMatch line items

bind_run-answered :
    (ran : Run (Option Response)) (x : Response) (next : RequestData → Run (Option Response))
    → ran.outcome ≡ returned (some x)
    → bind_run ran (λ response d1. or_else response d1 next) ≡ ran
unfolding bind_run or_else ends
bind_run-answered ran x next h =
    rw (h, bind_run)
      (λ i. record {
        calls = append-nil ran.calls i;
        data_left = ran.data_left;
        outcome = returned (some x);
      })

List-cases {ℓ} : {A : Type ℓ} (xs : List A) → (xs ≡ []) ⊎ ((y : A) × (ys : List A) × (xs ≡ y ∷ ys))
List-cases [] = inl refl
List-cases (y ∷ ys) = inr (y, ys, refl)

-- A run of two steps that comes to its end is a run of the first and of the second.
bind_run-returned {ℓ κ} :
    {A : Type ℓ} {B : Type κ} (x : Run A) (f : A → RequestData → Run B) (b : B)
    → (bind_run x f).outcome ≡ returned b
    → (a : A) × (x.outcome ≡ returned a)
      × ((f a x.data_left).outcome ≡ returned b)
      × ((bind_run x f).calls ≡ x.calls ++ (f a x.data_left).calls)
unfolding bind_run
bind_run-returned {B = B} x f b h = elim (Result-cases x.outcome) [
  | inl (a, e) ↦ (a, e, (rw (e, bind_run) at h), rw (e, bind_run) refl)
  | inr (inl (t, e)) ↦
      absurd (let g : ◌≡◌ {A = Result B} (thrown t) (returned b) = (rw (e, bind_run) at h) in cc)
  | inr (inr e) ↦
      absurd
        (let g : ◌≡◌ {A = Result B} null_dereference (returned b) = (rw (e, bind_run) at h) in cc)
]

module _ (line : RequestLine) (item : RouteItem) where
  route_pres-calls :
      (ms : List Middleware) (d : RequestData)
      → (route_pres line item ms d).outcome ≡ returned tt
      → (route_pres line item ms d).calls ≡ map (route_before item) ms
  unfolding route_pres ends call
  route_pres-calls [] d h = refl
  route_pres-calls (m ∷ ms) d h =
      let (a, first, then_, calls) =
        bind_run-returned (call (route_before item m) (m.pre_handle line d))
          (λ _ d1. route_pres line item ms d1) tt h in
      calls ∙ ap (◌∷◌ (route_before item m)) (route_pres-calls ms _ then_)

  route_afters-calls :
      (ms : List Middleware) (x y : Response) (d : RequestData)
      → (route_afters line item ms x d).outcome ≡ returned y
      → (route_afters line item ms x d).calls ≡ map (route_after item) ms
  unfolding route_afters ends call
  route_afters-calls [] x y d h = refl
  route_afters-calls (m ∷ ms) x y d h =
      let (a, first, then_, calls) =
        bind_run-returned (call (route_after item m) (m.after_handle line d x))
          (λ x1 d1. route_afters line item ms x1 d1) y h in
      calls ∙ ap (◌∷◌ (route_after item m)) (route_afters-calls ms a y _ then_)

  finish_route-some :
      (o : Option Response) (y : Response) (d : RequestData)
      → (finish_route line item o d).outcome ≡ returned (some y)
      → (z : Response) × (o ≡ some z)
  unfolding finish_route ends
  finish_route-some (some x) y d h = (x, refl)
  finish_route-some none y d h = elim (List-cases item.middlewares) [
    | inl nothing ↦
        absurd (let g : returned none ≡ returned (some y) = (rw (nothing, finish_route) at h) in cc)
    | inr (m, ms, filled) ↦ absurd (
        let g : ◌≡◌ {A = Result (Option Response)} null_dereference (returned (some y)) =
          (rw (filled, finish_route) at h) in
        cc)
  ]

  finish_route-calls :
      (x y : Response) (d : RequestData)
      → (finish_route line item (some x) d).outcome ≡ returned (some y)
      → (finish_route line item (some x) d).calls ≡ map (route_after item) item.middlewares
  unfolding finish_route ends
  finish_route-calls x y d h =
      let (a, first, then_, calls) =
        bind_run-returned (route_afters line item item.middlewares x d)
          (λ x1 d1. ends (returned (some x1)) d1) (some y) h in
      calls
      ∙ (append-nil (route_afters line item item.middlewares x d).calls
          ∙ route_afters-calls item.middlewares x a d first)

  with_handler :
      Option (RequestLine → RequestData → RequestData × Result (Option Response))
      → RequestData
      → Run (Option Response)
  with_handler o d = elim o [
    | none ↦ ends (returned none) d
    | some h ↦ call (handle item) (h line d)
  ]

  with_handler-calls :
      (o : Option (RequestLine → RequestData → RequestData × Result (Option Response)))
      (z : Response) (d : RequestData)
      → (with_handler o d).outcome ≡ returned (some z)
      → (with_handler o d).calls ≡ handle item ∷ []
  unfolding with_handler ends call
  with_handler-calls none z d h = absurd cc
  with_handler-calls (some f) z d h = refl

  handle_route-calls :
      (z : Response) (d : RequestData)
      → (handle_route line item d).outcome ≡ returned (some z)
      → (handle_route line item d).calls ≡ handle item ∷ []
  unfolding handle_route with_handler
  handle_route-calls z d h = with_handler-calls item.handler z d h

  -- The calls of a route that gives a response.
  abbrev pub all_calls : List Call
  all_calls =
      map (route_before item) item.middlewares
      ++ (handle item ∷ map (route_after item) item.middlewares)

  answer_route-calls :
      (y : Response) (d : RequestData)
      → (answer_route line item d).outcome ≡ returned (some y)
      → (answer_route line item d).calls ≡ all_calls
  unfolding answer_route
  answer_route-calls y d h =
      let (a, before_, then_, calls) =
        bind_run-returned (route_pres line item item.middlewares d)
          (λ _ d1.
            bind_run (handle_route line item d1)
              (λ response d2. finish_route line item response d2))
          (some y) h in
      let d1 : RequestData = (route_pres line item item.middlewares d).data_left in
      let (o, handled, finished_, calls2) =
        bind_run-returned (handle_route line item d1)
          (λ response d2. finish_route line item response d2) (some y) then_ in
      let d2 : RequestData = (handle_route line item d1).data_left in
      let (z, e) = finish_route-some o y d2 finished_ in
      let finished2 : (finish_route line item (some z) d2).outcome ≡ returned (some y) =
        ap (λ r. (finish_route line item r d2).outcome) (sym e) ∙ finished_ in
      calls
      ∙ (ap
            (λ cs.
              cs
              ++ (bind_run (handle_route line item d1)
                  (λ response d2. finish_route line item response d2)).calls)
            (route_pres-calls item.middlewares d before_)
          ∙ ap (◌++◌ (map (route_before item) item.middlewares)) (
              calls2
              ∙ (ap (λ cs. cs ++ (finish_route line item o d2).calls)
                    (handle_route-calls z d1 (handled ∙ ap returned e))
                  ∙ ap (◌∷◌ (handle item)) (
                      ap (λ r. (finish_route line item r d2).calls) e
                      ∙ finish_route-calls z y d2 finished2))))

module _ (same_key : Bytes → Bytes → Bool) (dump : Json → Bytes) (line : RequestLine) where
  try_routes-NoMatch :
      (skipped rest : List RouteItem) (d : RequestData)
      → NoMatch line skipped
      → try_routes same_key dump line (skipped ++ rest) d ≡ try_routes same_key dump line rest d
  unfolding try_routes NoMatch
  try_routes-NoMatch [] rest d h = refl
  try_routes-NoMatch (item ∷ skipped) rest d (other, h) =
      rw (other, try_routes) (try_routes-NoMatch skipped rest d h)

  -- The first route whose pattern matches decides. When it does not allow the method, the request ends with the exception
  -- of code 405: nothing is called, the parameters stay as they were, and the routes behind it are not tried,
  -- even if one of them would allow the method.
  pub try_routes-refused :
      (skipped rest : List RouteItem) (item : RouteItem) (d : RequestData)
      → NoMatch line skipped
      → (extract item.address (target line) item.pattern []).0 ≡ true
      → method_allowed line.method item ≡ false
      → try_routes same_key dump line (skipped ++ item ∷ rest) d
        ≡ ends (thrown (http_exception (codes "Obelisk: Method Not Allowed!") 405)) d
  unfolding try_routes use_route not_allowed bind_run ends
  try_routes-refused skipped rest item d h matches refused =
      try_routes-NoMatch skipped (item ∷ rest) d h
      ∙ rw (matches, try_routes) (rw (refused, use_route) refl)

  -- When the first route that matches allows the method, which is not OPTIONS or HEAD, and it gives a
  -- response, this is the result, with the request as that route leaves it, and the calls are those of
  -- that route alone: its middlewares in their order, the handler once, and the middlewares behind it in
  -- the same order.
  pub try_routes-answered :
      (skipped rest : List RouteItem) (item : RouteItem) (d : RequestData) (x : Response)
      → NoMatch line skipped
      → (extract item.address (target line) item.pattern []).0 ≡ true
      → method_allowed line.method item ≡ true
      → is_query line ≡ false
      → (answer_route line item
          (emplace_all (extract item.address (target line) item.pattern []).1 d)).outcome
        ≡ returned (some x)
      → (try_routes same_key dump line (skipped ++ item ∷ rest) d
          ≡ answer_route line item
              (emplace_all (extract item.address (target line) item.pattern []).1 d))
        × ((try_routes same_key dump line (skipped ++ item ∷ rest) d).calls ≡ all_calls line item)
  unfolding try_routes use_route
  try_routes-answered skipped rest item d x h matches allowed plain answered =
      let same =
        try_routes-NoMatch skipped (item ∷ rest) d h
        ∙ rw (matches, try_routes)
            (rw (allowed, use_route) (rw (plain, use_route) (bind_run-answered _ x _ answered))) in
      (same, ap (λ r. r.calls) same ∙ answer_route-calls line item x _ answered)
