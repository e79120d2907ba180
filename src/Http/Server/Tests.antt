-- ===== src/Http/Server/Tests.antt =====
-- A server with one middleware and two routes, of which the second answers a GET of a user.
use obelisk_asio_coro.Base.{
  find_char, ◌∷◌, [], true, false, refl, some, none, codes, Bytes, beq, Option, starts_with, ◌≡◌,
  ◌++◌, map, ap,
}
use obelisk_asio_coro.Http.Server.{
  returned, Server, RouteItem, target, Json, RequestData, Response, Middleware, RequestLine,
  answer_route, method_allowed, is_query, emplace_all, Result, extract, other_exception, ends,
  thrown, after, http_exception, before, route_before, handle, route_after,
}
use obelisk_asio_coro.Http.Response.{Response}
use obelisk_asio_coro.Http.Server.Dispatch.{
  serve, try_routes, serve_unreadable, sent, run_request, undefined,
}
use obelisk_asio_coro.Http.Request.{RequestLine, RequestData, target}
use obelisk_asio_coro.Http.Server.Calls.{AllCalls, CallAllowed}
use obelisk_asio_coro.Http.Json.{Json}
use obelisk_asio_coro.Http.Server.Routing.{
  NoMatch, all_calls, try_routes-answered, try_routes-refused,
}
use obelisk_asio_coro.Http.Router.{extract}
use obelisk_asio_coro.Http.Router.Ecma.{regex_match, groups_of, no_slash, any_char}
use obelisk_asio_coro.Http.Server.Guarded.{serve-CallAllowed}
use obelisk_asio_coro.Http.Header.{emplace}
use obelisk_asio_coro.Http.Server.After.{serve-after}

abbrev quiet : Middleware
quiet = record {
  pre_handle = λ line d. (d, returned none);
  after_handle = λ line d x. (d, returned x);
}

abbrev plain_text : Response
plain_text = record {
  header = record {
    meta = record { p1 = codes "HTTP/1.1"; p2 = codes "200"; p3 = codes "OK" };
    headers = [];
  };
  body = some (codes "hello");
}

abbrev greet : RequestLine → RequestData → RequestData × Result (Option Response)
greet line d = (d, returned (some plain_text))

abbrev home_item : RouteItem
home_item = record {
  pattern = record { name = codes "/home"; is_static = true } ∷ [];
  address = regex_match (groups_of (record { name = codes "/home"; is_static = true } ∷ []));
  middlewares = [];
  available_method = codes "OPTIONS" ∷ codes "HEAD" ∷ codes "GET" ∷ [];
  handler = some greet;
}

abbrev user_item : RouteItem
user_item = record {
  pattern =
      record { name = codes "/user/"; is_static = true }
      ∷ record { name = codes "id"; is_static = false }
      ∷ [];
  address = regex_match (
      groups_of (
        record { name = codes "/user/"; is_static = true }
        ∷ record { name = codes "id"; is_static = false }
        ∷ []));
  middlewares = quiet ∷ [];
  available_method = codes "OPTIONS" ∷ codes "HEAD" ∷ codes "GET" ∷ [];
  handler = some greet;
}

abbrev site : Server
site = record { routes = home_item ∷ user_item ∷ []; middlewares = quiet ∷ [] }

abbrev get_user : RequestLine
get_user = record { method = codes "GET"; path = codes "/user/7?a=1" }

abbrev post_user : RequestLine
post_user = record { method = codes "POST"; path = codes "/user/7" }

abbrev empty_data : RequestData
empty_data = record {
  version = codes "HTTP/1.1";
  headers = [];
  raw_body = none;
  filebag = [];
  params = [];
}

abbrev no_dump : Json → Bytes
no_dump v = codes "{}"

serve_run : serve beq no_dump site get_user empty_data ≡ (
  before quiet
      ∷ route_before user_item quiet
      ∷ handle user_item
      ∷ route_after user_item quiet
      ∷ after quiet
      ∷ [],
  sent plain_text,
)
unfolding serve target find_char beq starts_with no_slash any_char regex_match groups_of extract
    emplace
serve_run = refl

unreadable_run :
    serve_unreadable beq no_dump site (other_exception (codes "Header Size Exceed, Shutting Down!"))
    ≡ undefined
unfolding serve_unreadable
unreadable_run = refl

home_item-NoMatch : NoMatch get_user (home_item ∷ [])
unfolding NoMatch target find_char beq starts_with regex_match groups_of extract
home_item-NoMatch = (refl, tt)

home_item-NoMatch_post : NoMatch post_user (home_item ∷ [])
unfolding NoMatch target find_char beq starts_with regex_match groups_of extract
home_item-NoMatch_post = (refl, tt)

user_item-matches : (extract user_item.address (target get_user) user_item.pattern []).0 ≡ true
unfolding target find_char beq starts_with no_slash regex_match groups_of extract
user_item-matches = refl

user_item-matches_post :
    (extract user_item.address (target post_user) user_item.pattern []).0 ≡ true
unfolding target find_char beq starts_with no_slash regex_match groups_of extract
user_item-matches_post = refl

post-refused : method_allowed post_user.method user_item ≡ false
unfolding method_allowed beq
post-refused = refl

get-allowed : method_allowed get_user.method user_item ≡ true
unfolding method_allowed beq
get-allowed = refl

get-plain : is_query get_user ≡ false
unfolding is_query beq
get-plain = refl

user_item-answers :
    (answer_route get_user user_item (
      emplace_all
        (extract user_item.address (target get_user) user_item.pattern []).1
        empty_data)).outcome
    ≡ returned (some plain_text)
unfolding answer_route
user_item-answers = refl

site-sent : (serve beq no_dump site get_user empty_data).1 ≡ sent plain_text
site-sent = ap (λ r. r.1) serve_run

serve-CallAllowed_example :
    AllCalls (CallAllowed get_user site.routes) (serve beq no_dump site get_user empty_data).0
serve-CallAllowed_example = serve-CallAllowed beq no_dump get_user site empty_data

serve-after_example :
    (serve beq no_dump site get_user empty_data).0
    ≡ (run_request beq no_dump site get_user empty_data).calls ++ map after (quiet ∷ [])
serve-after_example = serve-after beq no_dump get_user site empty_data plain_text site-sent

try_routes-refused_example :
    try_routes beq no_dump post_user ((home_item ∷ []) ++ user_item ∷ home_item ∷ []) empty_data
    ≡ ends (thrown (http_exception (codes "Obelisk: Method Not Allowed!") 405)) empty_data
try_routes-refused_example =
    try_routes-refused beq no_dump post_user (home_item ∷ []) (home_item ∷ []) user_item empty_data
      home_item-NoMatch_post user_item-matches_post post-refused

try_routes-answered_example :
    (try_routes beq no_dump get_user ((home_item ∷ []) ++ user_item ∷ home_item ∷ []) empty_data
      ≡ answer_route get_user user_item (
          emplace_all
            (extract user_item.address (target get_user) user_item.pattern []).1
            empty_data))
    × ((try_routes beq no_dump get_user
          ((home_item ∷ []) ++ user_item ∷ home_item ∷ [])
          empty_data).calls
        ≡ all_calls get_user user_item)
try_routes-answered_example =
    try_routes-answered beq no_dump get_user (home_item ∷ []) (home_item ∷ []) user_item empty_data
      plain_text home_item-NoMatch user_item-matches get-allowed get-plain user_item-answers
