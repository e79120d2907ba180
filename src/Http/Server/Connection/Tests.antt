-- ===== src/Http/Server/Connection/Tests.antt =====
-- Two requests behind each other on one connection, and the server that answers both.
use obelisk_asio_coro.Base.{
  Bytes, List, [], ◌∷◌, ◌++◌, some, none, codes, ◌<◌, ◌^◌, ◌+◌, All, length, find, beq, starts_with,
  show_ℕ, refl, arith,
}
use obelisk_asio_coro.Http.Header.{lookup, request_text, serialize_header}
use obelisk_asio_coro.Http.Header.RoundTrip.{IsWord}
use obelisk_asio_coro.Http.Header.Tests.{at_spaces, at_spaces-IsSplit}
use obelisk_asio_coro.Http.Io.{Connection, block}
use obelisk_asio_coro.Http.Io.Body.{everything}
use obelisk_asio_coro.Http.Io.Chunked.{plain}
use obelisk_asio_coro.Http.Io.Tests.{dripping, dripping-IsComplete, dripping-IsOpen}
use obelisk_asio_coro.Http.Json.{Json}
use obelisk_asio_coro.Http.Response.{Response, body_bytes}
use obelisk_asio_coro.Http.Server.{Server, Middleware, returned}
use obelisk_asio_coro.Http.Server.Dispatch.{serve}
use obelisk_asio_coro.Http.Server.Connection.Pipeline.{
  ClientRequest, IsClientRequest, Answers, Answered, wires, wire, handle-pipeline,
}
use obelisk_asio_coro.Http.Stream.Tests.{taking}

abbrev asked : ClientRequest
asked = record {
  method = codes "GET";
  path = codes "/a";
  protocol = codes "?";
  headers = (codes "Host", codes "x") ∷ [];
  body = none;
}

abbrev posted : ClientRequest
posted = record {
  method = codes "POST";
  path = codes "/b";
  protocol = codes "?";
  headers = (codes "Content-Length", codes "2") ∷ [];
  body = some (codes "hi");
}

abbrev hello : Response
hello = record {
  header = record {
    meta = record { p1 = codes "HTTP/1.1"; p2 = codes "200"; p3 = codes "OK" };
    headers = [];
  };
  body = some (codes "hello");
}

abbrev greeter : Middleware
greeter = record {
  pre_handle = λ line d. (d, returned (some hello));
  after_handle = λ line d x. (d, returned x);
}

abbrev site : Server
site = record { routes = []; middlewares = greeter ∷ [] }

abbrev no_dump : Json → Bytes
no_dump v = codes "{}"

abbrev pipeline : List (ClientRequest × Response)
pipeline = (asked, hello) ∷ (posted, hello) ∷ []

abbrev arrived : Connection dripping
arrived = record { buffer = []; socket = wires pipeline ++ codes "GET" }

get-IsWord : IsWord (codes "GET")
get-IsWord = ((λ e. cc), search tt, search tt)

post-IsWord : IsWord (codes "POST")
post-IsWord = ((λ e. cc), search tt, search tt)

a-IsWord : IsWord (codes "/a")
a-IsWord = ((λ e. cc), search tt, search tt)

b-IsWord : IsWord (codes "/b")
b-IsWord = ((λ e. cc), search tt, search tt)

asked-IsClientRequest : IsClientRequest beq asked
unfolding beq lookup find request_text serialize_header starts_with
asked-IsClientRequest = record {
  method_word = get-IsWord;
  path_word = a-IsWord;
  fields = ((search tt, search tt, search tt), tt);
  distinct = (refl, tt);
  no_zero = search tt;
  ends_blank = refl;
  small = omega arith;
  framed = (refl, refl);
}

posted-IsClientRequest : IsClientRequest beq posted
unfolding beq lookup find request_text serialize_header starts_with show_ℕ
posted-IsClientRequest = record {
  method_word = post-IsWord;
  path_word = b-IsWord;
  fields = ((search tt, search tt, search tt), tt);
  distinct = (refl, tt);
  no_zero = search tt;
  ends_blank = refl;
  small = omega arith;
  framed = (refl, refl, omega arith, omega arith);
}

pipeline-Answers :
    All
      (Answers dripping taking plain beq no_dump at_spaces [] [] [] 1
        (block + 1)
        at_spaces-IsSplit
        dripping-IsOpen
        dripping-IsComplete
        (omega arith)
        site)
      pipeline
unfolding serve
pipeline-Answers = (refl, (refl, tt))

arrived-small : length (arrived.socket) < 2 ^ 32
unfolding wires wire body_bytes request_text serialize_header
arrived-small = omega arith

handle-pipeline_example :
    Answered dripping taking plain beq no_dump at_spaces [] [] [] 1
      (block + 1)
      at_spaces-IsSplit
      dripping-IsOpen
      dripping-IsComplete
      (omega arith)
      pipeline
      (codes "GET")
      site
      arrived
      []
unfolding wires everything
handle-pipeline_example =
    handle-pipeline dripping taking plain beq no_dump at_spaces [] [] [] 1 (block + 1)
      at_spaces-IsSplit dripping-IsOpen dripping-IsComplete (omega arith) site pipeline
      (codes "GET") arrived [] (asked-IsClientRequest, (posted-IsClientRequest, tt))
      pipeline-Answers refl arrived-small
