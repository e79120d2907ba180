-- ===== src/Http/Client/Tests.antt =====
-- A response that a client reads from a socket.
use obelisk_asio_coro.Base.{
  ◌∷◌, [], some, true, false, refl, Bytes, ◌≡◌, codes, ◌<◌, length, ◌^◌, ◌++◌, ◌+◌, show_ℕ, arith,
  map, beq, find, starts_with, beq_refl,
}
use obelisk_asio_coro.Http.Client.{receive_response}
use obelisk_asio_coro.Http.Client.RoundTrip.{IsServerResponse, receive-serialize}
use obelisk_asio_coro.Http.Header.{Header, lookup, emplace, serialize_header}
use obelisk_asio_coro.Http.Header.RoundTrip.{received, header_of}
use obelisk_asio_coro.Http.Header.Tests.{at_spaces, at_spaces-IsSplit}
use obelisk_asio_coro.Http.Io.{Connection, block}
use obelisk_asio_coro.Http.Io.Body.{everything}
use obelisk_asio_coro.Http.Io.Chunked.{plain}
use obelisk_asio_coro.Http.Io.Tests.{dripping, dripping-IsComplete, dripping-IsOpen}
use obelisk_asio_coro.Http.Json.{Json}
use obelisk_asio_coro.Http.Response.{complete, serialize, body_bytes, add_header}
use obelisk_asio_coro.Http.Server.Connection
use obelisk_asio_coro.Http.Stream.Tests.{taking}

abbrev found_header : Header
found_header = header_of (codes "HTTP/1.1") (codes "200") (codes "OK") ((codes "A", codes "b") ∷ [])

abbrev no_dump : Json → Bytes
no_dump v = codes "{}"

abbrev arriving : Connection dripping
arriving = record {
  buffer = [];
  socket =
      serialize beq (record { header = found_header; body = some (codes "abcd") }) ++ codes "efg";
}

own_key : beq (codes "Content-Length") (codes "Content-Length") ≡ true
own_key = beq_refl (codes "Content-Length")

other_key : beq (codes "Content-Length") (codes "Transfer-Encoding") ≡ false
unfolding beq
other_key = refl

found_header-IsServerResponse : IsServerResponse beq found_header (codes "abcd")
unfolding beq lookup find serialize_header starts_with complete show_ℕ add_header
found_header-IsServerResponse = record {
  protocol_word = ((λ e. cc), search tt, search tt);
  code_word = ((λ e. cc), search tt, search tt);
  reason_word = ((λ e. cc), search tt, search tt);
  fields = ((search tt, search tt, search tt), ((search tt, search tt, search tt), tt));
  distinct = (refl, (refl, tt));
  no_zero = search tt;
  ends_blank = refl;
  small = omega arith;
  unsized = refl;
  whole = refl;
  filled = omega arith;
  short = omega arith;
}

not_head : beq (codes "GET") (codes "HEAD") ≡ false
unfolding beq
not_head = refl

arriving-small : length (everything dripping arriving) < 2 ^ 32
unfolding everything serialize serialize_header body_bytes complete show_ℕ add_header beq
arriving-small = omega arith

arriving-everything :
    everything dripping arriving
    ≡ serialize beq (record { header = found_header; body = some (codes "abcd") }) ++ codes "efg"
unfolding everything
arriving-everything = refl

receive-serialize_example :
    (next : Connection dripping) × (receive_response dripping taking plain beq no_dump at_spaces []
        [] [] 1
        (block + 1)
        (codes "GET")
        arriving
      ≡ Connection.received
          (header_of (codes "HTTP/1.1") (codes "200") (codes "OK") (
            map received
              (emplace beq (codes "Content-Length") (show_ℕ 4) ((codes "A", codes "b") ∷ []))))
          (some (codes "abcd"))
          next)
    × (everything dripping next ≡ codes "efg")
receive-serialize_example =
    receive-serialize dripping taking plain beq no_dump at_spaces [] [] [] 1 (block + 1)
      at_spaces-IsSplit dripping-IsOpen dripping-IsComplete (omega arith) (codes "GET") found_header
      (codes "abcd") (codes "efg") arriving not_head own_key other_key found_header-IsServerResponse
      arriving-small arriving-everything
