-- ===== src/Http/Client.antt =====
-- The client: what `perform_request_` of include/obelisk/http/core/base_client.h reads behind the request
-- that it has written.
pub mod RoundTrip
mod Tests
use obelisk_asio_coro.Base.{ℕ, Bytes, Bool, List, none, codes, beq, ◌++◌, if◌then◌else◌}
use obelisk_asio_coro.Http.Header.{parse_http_header2, parsed, rejected}
use obelisk_asio_coro.Http.Header
use obelisk_asio_coro.Http.Io.{Socket, Connection, done, protocol_error, receive_header}
use obelisk_asio_coro.Http.Io
use obelisk_asio_coro.Http.Io.Chunked.{FilteringStream}
use obelisk_asio_coro.Http.Json.{Json}
use obelisk_asio_coro.Http.Stream.Write.{Sink}
use obelisk_asio_coro.Http.Server.Connection

module _ (net : Socket) (sink : Sink) (gunzip : FilteringStream) (same_key : Bytes → Bytes → Bool)
    (dump : Json → Bytes) (split : Bytes → List Bytes) (refusal io_error beyond : Bytes)
    (steps fuel : ℕ) where
  abbrev pub Message : Type 0
  Message =
      Connection.Message net sink gunzip same_key dump split refusal io_error beyond steps fuel

  -- `receive_header_` alone, as for a response to HEAD.
  unfoldable pub without_body : Bytes → Connection net → Header.Parse → Message
  without_body text c (parsed h) = Connection.received h none c
  without_body text c rejected =
      Connection.refused (codes "Header Parse Failed, Shutting Down!")
        (record { buffer = text ++ c.buffer; socket = c.socket })
  without_body text c Header.undefined = Connection.undefined
  without_body text c Header.out_of_fuel = Connection.unfinished

  unfoldable pub receive_head : Connection net → Message
  unfolding without_body
  receive_head c = elim (receive_header net fuel c) [
    | done text c1 ↦
        without_body text c1 (parse_http_header2 same_key split (text ++ (c1.buffer ++ beyond)))
    | protocol_error c1 ↦ Connection.refused (codes "Header Size Exceed, Shutting Down!") c1
    | Io.out_of_fuel ↦ Connection.unfinished
  ]

  -- The header and, unless the method is HEAD, the body.
  unfoldable pub receive_response : Bytes → Connection net → Message
  unfolding receive_head Connection.receive_message
  receive_response method c =
      if beq method (codes "HEAD")
      then receive_head c
      else Connection.receive_message net sink gunzip same_key dump split refusal io_error beyond
          steps fuel c
