-- ===== src/Http/Server/Connection/Pipeline.antt =====
-- Requests of the client (source/core/http_client.cpp) that are sent one behind the other, read and
-- answered by the loop of `handle_` in source/http/http_server.cpp.
use obelisk_asio_coro.Base.{
  ℕ, suc, Bytes, Bool, List, [], ◌∷◌, ◌++◌, ◌+◌, ◌-◌, ◌<◌, ◌≤◌, ◌^◌, ◌≡◌, ◌⊎◌, Option, none, some,
  length, take, drop, codes, map, All, Lacks, find, find-append, find-shrink, find-within, show_ℕ,
  refl, ap, sym, ◌∙◌, arith, append_assoc, append-nil, length-append, length-take, take-append-drop,
  take-length-append, drop-length-append, inl, inr,
}
use obelisk_asio_coro.Http.Header.{
  Header, parsed, lookup, parse_http_header2, request_text, serialize_header,
}
use obelisk_asio_coro.Http.Header.RoundTrip.{
  IsWord, IsField, IsSplit, Distinct, received, header_of, parse-request_text,
}
use obelisk_asio_coro.Http.Io.{Socket, Connection, done, block, receive_header}
use obelisk_asio_coro.Http.Io.Body.{IsComplete, everything}
use obelisk_asio_coro.Http.Io.Head.{IsOpen, receive_header-framing}
use obelisk_asio_coro.Http.Io.Chunked.{FilteringStream}
use obelisk_asio_coro.Http.Io.Message.{
  receive_message_body, receive_message_body-numbered, receive_message_body-none,
}
use obelisk_asio_coro.Http.Json.{Json}
use obelisk_asio_coro.Http.Numeral.{strtoull-blank, strtoull-show_ℕ}
use obelisk_asio_coro.Http.Request.{request_line, request_data}
use obelisk_asio_coro.Http.Response.{Response, serialize, body_bytes, complete}
use obelisk_asio_coro.Http.Stream.Read.{contents, IsSound}
use obelisk_asio_coro.Http.Stream.Write.{Sink}
use obelisk_asio_coro.Http.Stream.Write.Sent.{write_data-contents}
use obelisk_asio_coro.Http.Server.{Server, other_exception}
use obelisk_asio_coro.Http.Server.Dispatch.{serve, sent}
use obelisk_asio_coro.Http.Server.Connection

-- A request as the client sends it.
pub record ClientRequest : Type 0 where
  pub method : Bytes
  pub path : Bytes
  pub protocol : Bytes
  pub headers : List (Bytes × Bytes)
  pub body : Option Bytes

abbrev pub head_text : ClientRequest → Bytes
head_text r = request_text (header_of r.method r.path r.protocol r.headers)

unfoldable pub wire : ClientRequest → Bytes
unfolding body_bytes
wire r = head_text r ++ body_bytes r.body

-- The header as the server has it.
abbrev pub head_received : ClientRequest → Header
head_received r = header_of r.method r.path (codes "HTTP/1.1") (map received r.headers)

module _ (same_key : Bytes → Bytes → Bool) where
  -- A body has its length among the fields, and no body has none; there is no transfer encoding.
  abbrev pub HasFraming : List (Bytes × Bytes) → Option Bytes → Type 0
  HasFraming hs none =
      (lookup same_key (codes "Transfer-Encoding") hs ≡ none)
      × (lookup same_key (codes "Content-Length") hs ≡ none)
  HasFraming hs (some b) =
      (lookup same_key (codes "Transfer-Encoding") hs ≡ none)
      × (lookup same_key (codes "Content-Length") hs ≡ some (32 ∷ show_ℕ (length b)))
      × (0 < length b)
      × (length b < 2 ^ 32)

  pub record IsClientRequest (r : ClientRequest) : Type 0 where
    pub method_word : IsWord r.method
    pub path_word : IsWord r.path
    pub fields : All IsField r.headers
    pub distinct : Distinct same_key [] r.headers
    pub no_zero : Lacks 0 (head_text r)
    pub ends_blank : find (head_text r) (codes "\r\n\r\n") ≡ some (length (head_text r) - 4)
    pub small : length (head_text r) ≤ block
    pub framed : HasFraming (map received r.headers) r.body

  framed-whole :
      (hs : List (Bytes × Bytes)) (body : Option Bytes)
      → HasFraming hs body
      → lookup same_key (codes "Transfer-Encoding") hs ≡ none
  framed-whole hs none h = h.0
  framed-whole hs (some b) h = h.0

body_streams-contents :
    (body : Option Bytes) → contents (Connection.body_streams body) ≡ body_bytes body
unfolding contents Connection.body_streams body_bytes Connection.stream_of
body_streams-contents none = refl
body_streams-contents (some b) = append-nil b

message_of-contents :
    (same_key : Bytes → Bytes → Bool) (x : Response)
    → contents (Connection.message_of same_key x).datas ≡ serialize same_key x
unfolding contents Connection.message_of serialize Connection.stream_of
message_of-contents same_key x =
    ap (◌++◌ (serialize_header (complete same_key x))) (body_streams-contents x.body)

body_streams-IsSound : (body : Option Bytes) → All IsSound (Connection.body_streams body)
unfolding Connection.body_streams Connection.stream_of
body_streams-IsSound none = tt
body_streams-IsSound (some b) = ((λ e. cc), tt)

message_of-IsSound :
    (same_key : Bytes → Bytes → Bool) (x : Response)
    → All IsSound (Connection.message_of same_key x).datas
unfolding Connection.message_of Connection.stream_of
message_of-IsSound same_key x = ((λ e. cc), body_streams-IsSound x.body)

-- Requests with what they are answered with: the bytes that come in, and those that go out.
unfoldable pub wires : List (ClientRequest × Response) → Bytes
wires [] = []
wires ((r, x) ∷ ps) = wire r ++ wires ps

unfoldable pub replies : (Bytes → Bytes → Bool) → List (ClientRequest × Response) → Bytes
replies same_key [] = []
replies same_key ((r, x) ∷ ps) = serialize same_key x ++ replies same_key ps

module _ (net : Socket) (sink : Sink) (gunzip : FilteringStream) (same_key : Bytes → Bytes → Bool)
    (dump : Json → Bytes) (split : Bytes → List Bytes) (refusal io_error beyond : Bytes)
    (steps fuel : ℕ) (law : IsSplit split) (open_ended : IsOpen net) (full : IsComplete net)
    (enough : block < fuel) where
  abbrev pub receive :
      Connection net
      → Connection.Message net sink gunzip same_key dump split refusal io_error beyond steps fuel
  receive =
      Connection.receive_message net sink gunzip same_key dump split refusal io_error beyond steps
        fuel

  buffer-small : (c : Connection net) → length c.buffer ≤ length (everything net c)
  unfolding everything
  buffer-small c = omega (arith, length-append c.buffer (net.pending c.socket))

  -- Where a header ends.
  head_found :
      (text rest : Bytes)
      → find text (codes "\r\n\r\n") ≡ some (length text - 4)
      → length text ≤ block
      → find (take block (text ++ rest)) (codes "\r\n\r\n") ≡ some (length text - 4)
  head_found text rest ends small =
      let whole = text ++ rest in
      let within = find-within text (codes "\r\n\r\n") (length text - 4) ends in
      let size = length-append text rest in
      let size2 = length-take block whole in
      find-shrink (take block whole) (drop block whole) (codes "\r\n\r\n") (length text - 4)
        (ap (λ z. find z (codes "\r\n\r\n")) (take-append-drop block whole)
          ∙ find-append text rest (codes "\r\n\r\n") (length text - 4) ends)
        (omega arith)

  receive-body :
      (headers : List (Bytes × Bytes)) (body : Option Bytes) (rest : Bytes) (c : Connection net)
      → HasFraming same_key headers body
      → length (everything net c) < 2 ^ 32
      → everything net c ≡ body_bytes body ++ rest
      → (next : Connection net) × (receive_message_body net gunzip same_key steps fuel headers c
          ≡ done body next)
        × (everything net next ≡ rest)
  unfolding body_bytes
  receive-body headers none rest c (whole, unsized) fits at =
      (c, receive_message_body-none net gunzip same_key steps fuel headers c whole unsized, at)
  receive-body headers (some b) rest c (whole, sized, positive, bounded) fits at =
      let size = ap length at in
      let size2 = length-append b rest in
      let (next, returned, left) =
        receive_message_body-numbered net gunzip same_key steps fuel (length b)
          (32 ∷ show_ℕ (length b)) headers c whole sized
          (strtoull-blank 10 (show_ℕ (length b)) ∙ strtoull-show_ℕ (length b) (omega arith)) bounded
          (omega (arith, buffer-small c)) positive full (omega arith) in
      (
        next,
        returned
            ∙ ap (λ z. done (some z) next) (ap (take (length b)) at ∙ take-length-append b rest),
        left ∙ (ap (drop (length b)) at ∙ drop-length-append b rest),
      )

  receive_message-parts :
      (c c1 c2 : Connection net) (text : Bytes) (h : Header) (body : Option Bytes)
      → receive_header net fuel c ≡ done text c1
      → parse_http_header2 same_key split (text ++ (c1.buffer ++ beyond)) ≡ parsed h
      → lookup same_key (codes "Transfer-Encoding") h.headers ≡ none
      → receive_message_body net gunzip same_key steps fuel h.headers c1 ≡ done body c2
      → receive c ≡ Connection.received h body c2
  unfolding Connection.receive_message Connection.take_header Connection.take_body
      Connection.touched
  receive_message-parts c c1 c2 text h body headed understood whole full =
      rw (headed, Connection.receive_message)
        (rw (understood, Connection.take_header)
          (rw (whole, Connection.touched) (rw (full, Connection.take_body) refl)))

  -- A message whose header the parser reads, whatever stands behind it, is received.
  pub receive-text :
      (text : Bytes) (h : Header) (body : Option Bytes) (rest : Bytes) (c : Connection net)
      → find text (codes "\r\n\r\n") ≡ some (length text - 4)
      → length text ≤ block
      → ((more : Bytes) → parse_http_header2 same_key split (text ++ more) ≡ parsed h)
      → HasFraming same_key h.headers body
      → length (everything net c) < 2 ^ 32
      → everything net c ≡ (text ++ body_bytes body) ++ rest
      → (next : Connection net) × (receive c ≡ Connection.received h body next)
        × (everything net next ≡ rest)
  receive-text text h body rest c ends small parse framed fits at =
      let behind : Bytes = body_bytes body ++ rest in
      let whole : everything net c ≡ text ++ behind =
        at ∙ append_assoc text (body_bytes body) rest in
      let within = find-within text (codes "\r\n\r\n") (length text - 4) ends in
      let end : length text - 4 + 4 ≡ length text = omega arith in
      let (c1, returned, left) =
        receive_header-framing net fuel c (length text - 4) enough open_ended (
          ap (λ z. find (take block z) (codes "\r\n\r\n")) whole
          ∙ head_found text behind ends small) in
      let cut : take (length text - 4 + 4) (everything net c) ≡ text =
        ap (λ n. take n (everything net c)) end
        ∙ (ap (take (length text)) whole ∙ take-length-append text behind) in
      let left1 : everything net c1 ≡ behind =
        left
        ∙ (ap (λ n. drop n (everything net c)) end
            ∙ (ap (drop (length text)) whole ∙ drop-length-append text behind)) in
      let size = ap length whole in
      let size2 = ap length left1 in
      let size3 = length-append text behind in
      let (c2, read, left2) = receive-body h.headers body rest c1 framed (omega arith) left1 in
      (
        c2,
        receive_message-parts c c1 c2 text h body (returned ∙ ap (λ t. done t c1) cut)
            (parse (c1.buffer ++ beyond)) (framed-whole same_key h.headers body framed) read,
        left2,
      )

  -- A request is received as it was sent, with a blank in front of each value.
  receive-request :
      (r : ClientRequest) (rest : Bytes) (c : Connection net)
      → IsClientRequest same_key r
      → length (everything net c) < 2 ^ 32
      → everything net c ≡ wire r ++ rest
      → (next : Connection net) × (receive c ≡ Connection.received (head_received r) r.body next)
        × (everything net next ≡ rest)
  unfolding wire
  receive-request r rest c good fits at =
      receive-text (head_text r) (head_received r) r.body rest c good.ends_blank good.small
        (λ more.
          parse-request_text same_key split law r.method r.path r.headers more good.method_word
            good.path_word r.protocol good.fields good.distinct good.no_zero)
        good.framed fits at

  open sink use {S, sent as taken}

  abbrev pub Round : Type 0
  Round = Connection.Round net sink gunzip same_key dump split refusal io_error beyond steps fuel

  abbrev pub handle : ℕ → Server → Connection net → S → Round
  handle = Connection.handle net sink gunzip same_key dump split refusal io_error beyond steps fuel

  -- The response to a request that was read.
  abbrev pub Answers : Server → ClientRequest × Response → Type 0
  Answers server (r, x) =
      (serve same_key dump server (request_line (head_received r))
        (request_data (head_received r) r.body)).1
      ≡ sent x

  answered :
      (server : Server) (r : ClientRequest) (x : Response) (c c1 : Connection net) (s : S)
      → receive c ≡ Connection.received (head_received r) r.body c1
      → Answers server (r, x)
      → Connection.round_of net sink gunzip same_key dump split refusal io_error beyond steps fuel
          server
          (receive c)
          c
          s
        ≡ Connection.answer net sink gunzip same_key dump split refusal io_error beyond steps fuel
            (sent x)
            c1
            s
  unfolding Connection.round_of
  answered server r x c c1 s got h = rw (got) (rw (h) refl)

  -- The response is written, or the write of a first part of it has been followed by an error.
  abbrev Writes : Response → Connection net → S → Type 0
  Writes x c s =
      ((t : S) × (Connection.answer net sink gunzip same_key dump split refusal io_error beyond
            steps fuel (sent x) c s
          ≡ Connection.goes_on c t)
        × (taken t ≡ taken s ++ serialize same_key x))
      ⊎ ((t : S) × (p : Bytes) × (q : Bytes) × (Connection.answer net sink gunzip same_key dump
              split refusal io_error beyond steps fuel (sent x) c s
            ≡ Connection.stops (Connection.left_by (other_exception io_error)) c t)
          × (serialize same_key x ≡ p ++ q)
          × (taken t ≡ taken s ++ p))

  writes : (x : Response) (c : Connection net) (s : S) → Writes x c s
  unfolding Connection.answer Connection.write_response
  writes x c s =
      let shape = message_of-contents same_key x in
      let size = ap length shape in
      elim (write_data-contents sink (suc (suc (length (serialize same_key x) + 1)))
        (Connection.message_of same_key x) s (omega arith) (message_of-IsSound same_key x)) [
          | inl (t, done_all, took) ↦ inl (
            t,
            rw (done_all, Connection.answer, Connection.write_response) refl,
            took ∙ ap (◌++◌ (taken s)) shape,
          )
          | inr (t, p, q, failed, cut, took) ↦ inr (
            t,
            p,
            q,
            rw (failed, Connection.answer, Connection.write_response) refl,
            sym shape ∙ cut,
            took,
          )
        ]

  -- What the loop has done to the requests of a pipeline, and the bytes behind them.
  abbrev pub Answered :
      List (ClientRequest × Response) → Bytes → Server → Connection net → S → Type 0
  Answered ps rest server c s =
      ((next : Connection net) × (t : S) × (handle (length ps) server c s
          ≡ Connection.goes_on next t)
        × (everything net next ≡ rest)
        × (taken t ≡ taken s ++ replies same_key ps))
      ⊎ ((next : Connection net) × (t : S) × (p : Bytes) × (q : Bytes) × (handle (length ps) server
              c s
            ≡ Connection.stops (Connection.left_by (other_exception io_error)) next t)
          × (replies same_key ps ≡ p ++ q)
          × (taken t ≡ taken s ++ p))

  handle-cons :
      (n : ℕ) (server : Server) (c c1 : Connection net) (s s1 : S)
      → Connection.round_of net sink gunzip same_key dump split refusal io_error beyond steps fuel
          server
          (receive c)
          c
          s
        ≡ Connection.goes_on c1 s1
      → handle (suc n) server c s ≡ handle n server c1 s1
  unfolding Connection.handle
  handle-cons n server c c1 s s1 e = rw (e, Connection.handle) refl

  handle-stop :
      (n : ℕ) (server : Server) (c c1 : Connection net) (s s1 : S) (e : Connection.Ending)
      → Connection.round_of net sink gunzip same_key dump split refusal io_error beyond steps fuel
          server
          (receive c)
          c
          s
        ≡ Connection.stops e c1 s1
      → handle (suc n) server c s ≡ Connection.stops e c1 s1
  unfolding Connection.handle
  handle-stop n server c c1 s s1 e h = rw (h, Connection.handle) refl

  -- Requests that stand one behind the other in what is left of a connection, each of them with a
  -- response that the server gives it, are answered by as many rounds of the loop, in their order:
  -- either every response is sent, byte by byte and nothing else, and what stands behind the requests
  -- is left; or a write fails, its exception leaves the loop, and a first part of the responses is
  -- sent. Asked for are requests that a block holds, with a word for the method and the path, fields
  -- that can be read back, no zero byte, no blank line in front of the last one, and a content length
  -- that is the length of the body; less than 2^32 bytes in all; reads that go on while bytes are
  -- left; and fuel for more than a block.
  pub handle-pipeline :
      (server : Server) (ps : List (ClientRequest × Response)) (rest : Bytes) (c : Connection net)
      (s : S)
      → All (λ e. IsClientRequest same_key e.0) ps
      → All (Answers server) ps
      → everything net c ≡ wires ps ++ rest
      → length (everything net c) < 2 ^ 32
      → Answered ps rest server c s
  unfolding wires replies Connection.handle
  handle-pipeline server [] rest c s good answers at fits =
      inl (c, s, refl, at, sym (append-nil (taken s)))
  handle-pipeline server ((r, x) ∷ ps) rest c s (good, goods) (a, answers) at fits =
      let behind : Bytes = wires ps ++ rest in
      let whole : everything net c ≡ wire r ++ behind =
        at ∙ append_assoc (wire r) (wires ps) rest in
      let (c1, got, left) = receive-request r behind c good fits whole in
      let turn = answered server r x c c1 s got a in
      let size = ap length whole in
      let size1 = ap length left in
      let size2 = length-append (wire r) behind in
      elim (writes x c1 s) [
        | inl (t, went, took) ↦
            elim (handle-pipeline server ps rest c1 t goods answers left (omega arith)) [
              | inl (next, u, ran, left2, took2) ↦ inl (
                next,
                u,
                handle-cons (length ps) server c c1 s t (turn ∙ went) ∙ ran,
                left2,
                took2
                    ∙ (ap (◌++ replies same_key ps) took
                        ∙ append_assoc (taken s) (serialize same_key x) (replies same_key ps)),
              )
              | inr (next, u, p, q, ran, cut, took2) ↦ inr (
                next,
                u,
                serialize same_key x ++ p,
                q,
                handle-cons (length ps) server c c1 s t (turn ∙ went) ∙ ran,
                ap (◌++◌ (serialize same_key x)) cut
                    ∙ sym (append_assoc (serialize same_key x) p q),
                took2 ∙ (ap (◌++ p) took ∙ append_assoc (taken s) (serialize same_key x) p),
              )
            ]
        | inr (t, p, q, failed, cut, took) ↦ inr (
          c1,
          t,
          p,
          q ++ replies same_key ps,
          handle-stop (length ps) server c c1 s t (Connection.left_by (other_exception io_error))
              (turn ∙ failed),
          ap (◌++ replies same_key ps) cut ∙ append_assoc p q (replies same_key ps),
          took,
        )
      ]
