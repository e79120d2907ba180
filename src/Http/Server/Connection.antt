-- ===== src/Http/Server/Connection.antt =====
-- The loop of `handle_` in source/http/http_server.cpp over the messages of one connection, with
-- receive_header_ and write_data_ of include/obelisk/http/core/io.h where it calls them. The reading
-- and the writing side of the socket are interfaces.
pub mod Pipeline
mod Tests
use obelisk_asio_coro.Base.{
  ℕ, zero, suc, Bytes, Bool, List, [], ◌∷◌, ◌++◌, ◌+◌, Option, none, some, length, codes,
  if◌then◌else◌, false,
}
use obelisk_asio_coro.Http.Header.{
  Header, parsed, rejected, lookup, emplace, parse_http_header2, serialize_header,
}
use obelisk_asio_coro.Http.Header
use obelisk_asio_coro.Http.Io.{Socket, Connection, Outcome, done, protocol_error, receive_header}
use obelisk_asio_coro.Http.Io
use obelisk_asio_coro.Http.Io.Chunked.{FilteringStream}
use obelisk_asio_coro.Http.Io.Message.{receive_message_body, iequals}
use obelisk_asio_coro.Http.Json.{Json}
use obelisk_asio_coro.Http.Request.{request_line, request_data}
use obelisk_asio_coro.Http.Response.{Response, serialize, complete}
use obelisk_asio_coro.Http.Stream.{Stream, Multi}
use obelisk_asio_coro.Http.Stream.Write.{Sink, Sending, finished, write_error, no_fuel, write_data}
use obelisk_asio_coro.Http.Server.{Server, Thrown, other_exception}
use obelisk_asio_coro.Http.Server.Dispatch.{Served, sent, closed, escaped, serve, serve_unreadable}
use obelisk_asio_coro.Http.Server.Dispatch

-- The streams that `serialize` puts behind each other.
unfoldable pub stream_of : Bytes → Stream
stream_of text = record { rest = text; ended = false; failed = false; size = length text }

unfoldable pub body_streams : Option Bytes → List Stream
unfolding stream_of
body_streams none = []
body_streams (some b) = stream_of b ∷ []

unfoldable pub message_of : (Bytes → Bytes → Bool) → Response → Multi
unfolding stream_of body_streams
message_of same_key x = record {
  passed = [];
  datas = stream_of (serialize_header (complete same_key x)) ∷ body_streams x.body;
}

-- How the coroutine ends: with the socket closed, by an exception that leaves it, in undefined
-- behaviour, or not at all in the middle of a round.
pub data Ending : Type 0 where
  hung_up : Ending
  left_by : Thrown → Ending
  lost : Ending
  endless : Ending

-- `refusal` is the text of the exceptions that a body which cannot be read throws, `io_error` that
-- of a failed write, and `beyond` what stands in memory behind the stream buffer, which the parser
-- reads up to the first zero byte.
module _ (net : Socket) (sink : Sink) (gunzip : FilteringStream) (same_key : Bytes → Bytes → Bool)
    (dump : Json → Bytes) (split : Bytes → List Bytes) (refusal io_error beyond : Bytes)
    (steps fuel : ℕ) where
  open sink use {S}

  -- What the reading of a message leads to; a refusal has the text of its exception.
  pub data Message : Type 0 where
    received : Header → Option Bytes → Connection net → Message
    refused : Bytes → Connection net → Message
    undefined : Message
    unfinished : Message

  -- `headers_["Content-Encoding"]` adds the key to the header of a chunked message.
  unfoldable pub touched : Header → Header
  touched h = elim (lookup same_key (codes "Transfer-Encoding") h.headers) [
    | none ↦ h
    | some transfer ↦
        if iequals transfer (codes "chunked")
        then record h { headers = emplace same_key (codes "Content-Encoding") [] h.headers }
        else h
  ]

  unfoldable pub take_body : Header → Outcome net (Option Bytes) → Message
  take_body h (done body c) = received h body c
  take_body h (protocol_error c) = refused refusal c
  take_body h Io.out_of_fuel = unfinished

  -- A header that is rejected stays in the buffer.
  unfoldable pub take_header : Bytes → Connection net → Header.Parse → Message
  take_header text c (parsed h) =
      take_body (touched h) (receive_message_body net gunzip same_key steps fuel h.headers c)
  take_header text c rejected =
      refused (codes "Header Parse Failed, Shutting Down!")
        (record { buffer = text ++ c.buffer; socket = c.socket })
  take_header text c Header.undefined = undefined
  take_header text c Header.out_of_fuel = unfinished

  unfoldable pub receive_message : Connection net → Message
  receive_message c = elim (receive_header net fuel c) [
    | done text c1 ↦
        take_header text c1 (parse_http_header2 same_key split (text ++ (c1.buffer ++ beyond)))
    | protocol_error c1 ↦ refused (codes "Header Size Exceed, Shutting Down!") c1
    | Io.out_of_fuel ↦ unfinished
  ]

  -- What is left behind a round.
  pub data Round : Type 0 where
    goes_on : Connection net → S → Round
    stops : Ending → Connection net → S → Round

  unfoldable pub write_response : Response → S → Sending S
  write_response x s =
      write_data sink (suc (suc (length (serialize same_key x) + 1))) (message_of same_key x) s

  unfoldable pub answer : Served same_key dump → Connection net → S → Round
  answer (sent x) c s = elim (write_response x s) [
    | finished t ↦ goes_on c t
    | write_error t ↦ stops (left_by (other_exception io_error)) c t
    | no_fuel ↦ stops endless c s
  ]
  answer closed c s = stops hung_up c s
  answer (escaped e) c s = stops (left_by e) c s
  answer Dispatch.undefined c s = stops lost c s

  unfoldable pub round_of : Server → Message → Connection net → S → Round
  round_of server (received h body c1) c s =
      answer (serve same_key dump server (request_line h) (request_data h body)).1 c1 s
  round_of server (refused text c1) c s =
      answer (serve_unreadable same_key dump server (other_exception text)) c1 s
  round_of server undefined c s = stops lost c s
  round_of server unfinished c s = stops endless c s

  -- The loop, for a number of rounds.
  unfoldable pub handle : ℕ → Server → Connection net → S → Round
  handle zero server c s = goes_on c s
  handle (suc rounds) server c s = elim (round_of server (receive_message c) c s) [
    | goes_on c1 s1 ↦ handle rounds server c1 s1
    | stops e c1 s1 ↦ stops e c1 s1
  ]
