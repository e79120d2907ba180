-- ===== src/Http/Io/Message.antt =====
-- receive_body_ of include/obelisk/http/core/io.h as a whole: which of the two framings the header of
-- a message asks for. The case-insensitive map of the headers is that of Http.Header.
use obelisk_asio_coro.Base.{
  beq, ℕ, Bytes, Bool, [], true, ◌∷◌, false, if◌then◌else◌, ◌==◌, List, ◌&&◌, leb, codes, ◌+◌, none,
  ◌≡◌, Option, some, show_ℕ, ◌<◌, length, ◌^◌, suc, ◌≤◌, take, drop, arith, refl,
}
use obelisk_asio_coro.Http.Io.{
  Socket, Connection, Outcome, done, protocol_error, block, receive_body,
}
use obelisk_asio_coro.Http.Io.Chunked.{FilteringStream, then_read, receive_chunked_body}
use obelisk_asio_coro.Http.Header.{lookup}
use obelisk_asio_coro.Http.Numeral.{strtoull-show_ℕ, strtoull, strtoull-show_ℕ}
use obelisk_asio_coro.Http.Io.Chunked.Sent.{Chunk, AllChunks, IsLast, chunked_text, chunked_data}
use obelisk_asio_coro.Http.Io.Chunked.Until.{IsOrderly}
use obelisk_asio_coro.Http.Io.Body.{IsComplete, everything, receive_body-framing}
use obelisk_asio_coro.Http.Io.Chunked.Framing.{receive_chunked_body-chunks}

-- `boost::algorithm::iequals` in the C locale.
unfoldable pub to_lower : ℕ → ℕ
to_lower c = if leb 65 c && leb c 90 then c + 32 else c

unfoldable pub iequals : Bytes → Bytes → Bool
unfolding to_lower
iequals [] [] = true
iequals [] (y ∷ ys) = false
iequals (x ∷ xs) [] = false
iequals (x ∷ xs) (y ∷ ys) = (to_lower x == to_lower y) && iequals xs ys

not_gzip : beq [] (codes "gzip") ≡ false
unfolding beq
not_gzip = refl

module _ (net : Socket) (gunzip : FilteringStream) (same_key : Bytes → Bytes → Bool) where
  -- The branch for a `Content-Length`, which `stoul` reads.
  unfoldable receive_by_length : List (Bytes × Bytes) → Connection net → Outcome net (Option Bytes)
  unfolding lookup strtoull
  receive_by_length headers c = elim (lookup same_key (codes "Content-Length") headers) [
    | none ↦ done none c
    | some text ↦ elim (strtoull 10 text) [
      | none ↦ protocol_error c
      | some content_length ↦ receive_body net (suc content_length) content_length c
    ]
  ]

  -- `headers_[...]` of a missing encoding is the empty text.
  unfoldable encoding_of : List (Bytes × Bytes) → Bytes
  unfolding lookup
  encoding_of headers = elim (lookup same_key (codes "Content-Encoding") headers) [
    | none ↦ []
    | some encoding ↦ encoding
  ]

  unfoldable pub receive_message_body :
      ℕ → ℕ → List (Bytes × Bytes) → Connection net → Outcome net (Option Bytes)
  unfolding lookup iequals receive_by_length encoding_of
  receive_message_body steps fuel headers c =
      let by_length = receive_by_length headers c in
      elim (lookup same_key (codes "Transfer-Encoding") headers) [
        | none ↦ by_length
        | some transfer ↦
            if iequals transfer (codes "chunked")
            then then_read net (receive_chunked_body net gunzip steps fuel (encoding_of headers) c)
                (λ body c'. done (some body) c')
            else by_length
      ]

  -- The same for every text that `stoul` reads as n.
  pub receive_message_body-numbered :
      (steps fuel n : ℕ) (text : Bytes) (headers : List (Bytes × Bytes)) (c : Connection net)
      → lookup same_key (codes "Transfer-Encoding") headers ≡ none
      → lookup same_key (codes "Content-Length") headers ≡ some text
      → strtoull 10 text ≡ some n
      → n < 2 ^ 32
      → length c.buffer < 2 ^ 32
      → 0 < n
      → IsComplete net
      → n ≤ length (everything net c)
      → (next : Connection net) × (receive_message_body steps fuel headers c
          ≡ done (some (take n (everything net c))) next)
        × (everything net next ≡ drop n (everything net c))
  unfolding receive_message_body receive_by_length
  receive_message_body-numbered steps fuel n text headers c whole sized read small fits positive
        complete enough =
      let (next, returned, rest) =
        receive_body-framing net (suc n) n c small fits positive (omega arith) complete enough in
      (
        next,
        rw (whole, receive_message_body, receive_by_length)
            (rw (sized, receive_by_length) (rw (read, receive_by_length) returned)),
        rest,
      )

  -- A message with the `Content-Length` n, written in decimal, more than 0 and below 2^32, and with no
  -- transfer encoding has the next n bytes of the connection as its body, and the rest stays for the
  -- next message, when reads fail only on a stream that is too short and the connection holds n bytes.
  pub receive_message_body-length :
      (steps fuel n : ℕ) (headers : List (Bytes × Bytes)) (c : Connection net)
      → lookup same_key (codes "Transfer-Encoding") headers ≡ none
      → lookup same_key (codes "Content-Length") headers ≡ some (show_ℕ n)
      → n < 2 ^ 32
      → length c.buffer < 2 ^ 32
      → 0 < n
      → IsComplete net
      → n ≤ length (everything net c)
      → (next : Connection net) × (receive_message_body steps fuel headers c
          ≡ done (some (take n (everything net c))) next)
        × (everything net next ≡ drop n (everything net c))
  receive_message_body-length steps fuel n headers c whole sized small fits positive complete
        enough =
      receive_message_body-numbered steps fuel n (show_ℕ n) headers c whole sized
        (strtoull-show_ℕ n (omega arith)) small fits positive complete enough

  -- A message that names neither a length nor an encoding has no body.
  pub receive_message_body-none :
      (steps fuel : ℕ) (headers : List (Bytes × Bytes)) (c : Connection net)
      → lookup same_key (codes "Transfer-Encoding") headers ≡ none
      → lookup same_key (codes "Content-Length") headers ≡ none
      → receive_message_body steps fuel headers c ≡ done none c
  unfolding receive_message_body receive_by_length
  receive_message_body-none steps fuel headers c whole unsized =
      rw (whole, receive_message_body, receive_by_length) (rw (unsized, receive_by_length) refl)

  -- A message whose transfer encoding is `chunked`, in any case of its letters, and that is not packed
  -- is read chunk by chunk whatever its `Content-Length` says: for chunks as receive_chunked_body_
  -- takes them its body is the bytes of the chunks.
  pub receive_message_body-chunks :
      (steps fuel : ℕ) (headers : List (Bytes × Bytes)) (transfer : Bytes) (c : Connection net)
      (xs : List Chunk) (last rest : Bytes)
      → lookup same_key (codes "Transfer-Encoding") headers ≡ some transfer
      → iequals transfer (codes "chunked") ≡ true
      → lookup same_key (codes "Content-Encoding") headers ≡ none
      → IsOrderly net
      → block < steps
      → length xs < fuel
      → AllChunks xs
      → IsLast last
      → everything net c ≡ chunked_text xs last rest
      → (next : Connection net) × (receive_message_body steps fuel headers c
          ≡ done (some (chunked_data xs)) next)
        × (everything net next ≡ rest)
  unfolding receive_message_body encoding_of then_read
  receive_message_body-chunks steps fuel headers transfer c xs last rest named cased bare orderly
        more enough good end h =
      let (next, returned, left) =
        receive_chunked_body-chunks net gunzip steps fuel [] c xs last rest orderly more enough good
          end h not_gzip in
      (
        next,
        rw (named, receive_message_body)
            (rw (cased, bare, receive_message_body, encoding_of) (rw (returned, then_read) refl)),
        left,
      )
