-- ===== src/Http/Server/Calls.antt =====
-- For which routes the steps of a round make calls.
use obelisk_asio_coro.Base.{
  ◌≡◌, List, ◌∷◌, ◌++◌, [], inl, ◌⊎◌, true, inr, Option, Option-cases, some, none, false,
  List-cases, refl,
}
use obelisk_asio_coro.Http.Request.{RequestLine, RequestData, target}
use obelisk_asio_coro.Http.Server.{
  Call, bind_run, RouteItem, Result, Run, extract, before, route_pres, finish_route, route_afters,
  answer_route, pre_all, handle_route, returned, ends, route_before, call, handle, Thrown,
  method_allowed, thrown, route_after, Middleware, Response, is_query, null_dereference, after,
  or_else,
}
use obelisk_asio_coro.Http.Router.{extract}
use obelisk_asio_coro.Http.Response.{Response}

-- A route of a list.
pub data IsRoute : RouteItem → List RouteItem → Type 0 where
  first_route : (item : RouteItem) (items : List RouteItem) → IsRoute item (item ∷ items)
  later_route :
      (item other : RouteItem) (items : List RouteItem)
      → IsRoute item items
      → IsRoute item (other ∷ items)

-- A route that may answer a request: it is one of the server's, its pattern matches the target, it
-- allows the method, and the method is neither OPTIONS nor HEAD.
unfoldable pub MayAnswer : RequestLine → List RouteItem → RouteItem → Type 0
MayAnswer line routes item =
    IsRoute item routes
    × ((extract item.address (target line) item.pattern []).0 ≡ true)
    × (method_allowed line.method item ≡ true)
    × (is_query line ≡ false)

-- Calls of a handler, or of the middlewares of a route, are calls for a route that may answer.
unfoldable pub CallAllowed : RequestLine → List RouteItem → Call → Type 0
CallAllowed line routes (before m) = Unit
CallAllowed line routes (route_before item m) = MayAnswer line routes item
CallAllowed line routes (handle item) = MayAnswer line routes item
CallAllowed line routes (route_after item m) = MayAnswer line routes item
CallAllowed line routes (after m) = Unit

unfoldable pub AllCalls : (Call → Type 0) → List Call → Type 0
AllCalls P [] = Unit
AllCalls P (c ∷ cs) = P c × AllCalls P cs

pub AllCalls-append :
    (P : Call → Type 0) (xs ys : List Call) → AllCalls P xs → AllCalls P ys → AllCalls P (xs ++ ys)
unfolding AllCalls
AllCalls-append P [] ys h k = k
AllCalls-append P (x ∷ xs) ys (p, h) k = (p, AllCalls-append P xs ys h k)

pub Result-cases {ℓ} :
    {A : Type ℓ} (r : Result A)
    → ((a : A) × (r ≡ returned a)) ⊎ (((e : Thrown) × (r ≡ thrown e)) ⊎ (r ≡ null_dereference))
Result-cases (returned a) = inl (a, refl)
Result-cases (thrown e) = inr (inl (e, refl))
Result-cases null_dereference = inr (inr refl)

-- The calls of two steps are those of the first and of the second.
AllCalls-bind_run {ℓ κ} :
    {A : Type ℓ} {B : Type κ} (P : Call → Type 0) (x : Run A) (f : A → RequestData → Run B)
    → AllCalls P x.calls
    → ((a : A) → AllCalls P (f a x.data_left).calls)
    → AllCalls P (bind_run x f).calls
unfolding bind_run
AllCalls-bind_run P x f h k = elim (Result-cases x.outcome) [
  | inl (a, e) ↦ rw (e, bind_run) (AllCalls-append P x.calls (f a x.data_left).calls h (k a))
  | inr (inl (t, e)) ↦ rw (e, bind_run) h
  | inr (inr e) ↦ rw (e, bind_run) h
]

module _ (line : RequestLine) (routes : List RouteItem) where
  abbrev pub Fine : List Call → Type 0
  Fine cs = AllCalls (CallAllowed line routes) cs

  pub or_else-Fine :
      (response : Option Response) (d : RequestData) (next : RequestData → Run (Option Response))
      → ((d1 : RequestData) → Fine (next d1).calls)
      → Fine (or_else response d next).calls
  unfolding or_else ends AllCalls
  or_else-Fine none d next h = h d
  or_else-Fine (some x) d next h = tt

  pub bind-Fine {ℓ κ} :
      {A : Type ℓ} {B : Type κ} (x : Run A) (f : A → RequestData → Run B)
      → Fine x.calls
      → ((a : A) (d : RequestData) → Fine (f a d).calls)
      → Fine (bind_run x f).calls
  bind-Fine x f h k = AllCalls-bind_run (CallAllowed line routes) x f h (λ a. k a x.data_left)

  pub pre_all-Fine : (ms : List Middleware) (d : RequestData) → Fine (pre_all line ms d).calls
  unfolding pre_all or_else ends call AllCalls CallAllowed
  pre_all-Fine [] d = tt
  pre_all-Fine (m ∷ ms) d =
      bind-Fine (call (before m) (m.pre_handle line d))
        (λ response d1. or_else response d1 (λ d2. pre_all line ms d2)) (tt, tt)
        (λ response d1.
          or_else-Fine response d1 (λ d2. pre_all line ms d2) (λ d2. pre_all-Fine ms d2))

  -- The steps of one route.
  module _ (item : RouteItem) (ok : MayAnswer line routes item) where
    route_pres-Fine :
        (ms : List Middleware) (d : RequestData) → Fine (route_pres line item ms d).calls
    unfolding route_pres ends call AllCalls CallAllowed
    route_pres-Fine [] d = tt
    route_pres-Fine (m ∷ ms) d =
        bind-Fine (call (route_before item m) (m.pre_handle line d))
          (λ _ d1. route_pres line item ms d1) (ok, tt) (λ _ d1. route_pres-Fine ms d1)

    route_afters-Fine :
        (ms : List Middleware) (x : Response) (d : RequestData)
        → Fine (route_afters line item ms x d).calls
    unfolding route_afters ends call AllCalls CallAllowed
    route_afters-Fine [] x d = tt
    route_afters-Fine (m ∷ ms) x d =
        bind-Fine (call (route_after item m) (m.after_handle line d x))
          (λ x1 d1. route_afters line item ms x1 d1) (ok, tt) (λ x1 d1. route_afters-Fine ms x1 d1)

    handle_route-Fine : (d : RequestData) → Fine (handle_route line item d).calls
    unfolding handle_route ends call AllCalls CallAllowed
    handle_route-Fine d = elim (Option-cases item.handler) [
      | inl missing ↦ rw (missing, handle_route) tt
      | inr (h, found) ↦ rw (found, handle_route) (ok, tt)
    ]

    finish_route-Fine :
        (response : Option Response) (d : RequestData)
        → Fine (finish_route line item response d).calls
    unfolding finish_route ends AllCalls
    finish_route-Fine (some x) d =
        bind-Fine (route_afters line item item.middlewares x d)
          (λ x1 d1. ends (returned (some x1)) d1) (route_afters-Fine item.middlewares x d)
          (λ x1 d1. tt)
    finish_route-Fine none d = elim (List-cases item.middlewares) [
      | inl e ↦ rw (e, finish_route) tt
      | inr (m, (ms, e)) ↦ rw (e, finish_route) tt
    ]

    pub answer_route-Fine : (d : RequestData) → Fine (answer_route line item d).calls
    unfolding answer_route
    answer_route-Fine d =
        bind-Fine (route_pres line item item.middlewares d)
          (λ _ d1.
            bind_run (handle_route line item d1)
              (λ response d2. finish_route line item response d2))
          (route_pres-Fine item.middlewares d)
          (λ _ d1.
            bind-Fine (handle_route line item d1)
              (λ response d2. finish_route line item response d2) (handle_route-Fine d1)
              (λ response d2. finish_route-Fine response d2))
