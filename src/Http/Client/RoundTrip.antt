-- ===== src/Http/Client/RoundTrip.antt =====
-- A response that source/http/core/http_response.cpp serialises, read by the client.
use obelisk_asio_coro.Base.{
  ℕ, List, ◌∷◌, [], some, none, true, false, refl, Bytes, Bool, ◌≡◌, Bool-cases, inl, inr, codes,
  ◌<◌, ◌≤◌, ◌-◌, length, ◌^◌, ◌++◌, show_ℕ, map, All, Lacks, beq, find,
}
use obelisk_asio_coro.Http.Client.{receive_response}
use obelisk_asio_coro.Http.Header.{Header, lookup, emplace, serialize_header}
use obelisk_asio_coro.Http.Header.RoundTrip.{
  IsWord, IsField, IsSplit, Distinct, received, header_of, parse-serialize_header,
}
use obelisk_asio_coro.Http.Io.{Socket, Connection, block}
use obelisk_asio_coro.Http.Io.Body.{IsComplete, everything}
use obelisk_asio_coro.Http.Io.Chunked.{FilteringStream}
use obelisk_asio_coro.Http.Io.Head.{IsOpen}
use obelisk_asio_coro.Http.Json.{Json}
use obelisk_asio_coro.Http.Response.{serialize, complete, add_header}
use obelisk_asio_coro.Http.Stream.Write.{Sink}
use obelisk_asio_coro.Http.Server.Connection
use obelisk_asio_coro.Http.Server.Connection.Pipeline.{receive-text}

module _ (same_key : Bytes → Bytes → Bool) where
  lookup-emplace :
      (k v : Bytes) (hs : List (Bytes × Bytes))
      → same_key k k ≡ true
      → lookup same_key k hs ≡ none
      → lookup same_key k (emplace same_key k v hs) ≡ some v
  unfolding lookup emplace
  lookup-emplace k v [] own h = rw (own) refl
  lookup-emplace k v ((key, w) ∷ hs) own h = elim (Bool-cases (same_key key k)) [
    | inl same ↦ absurd (let e : some w ≡ none = (rw (same) at h) in cc)
    | inr other ↦ rw (other) (rw (other) (lookup-emplace k v hs own (rw (other) at h)))
  ]

  lookup-emplace_other :
      (k m v : Bytes) (hs : List (Bytes × Bytes))
      → same_key k m ≡ false
      → lookup same_key m hs ≡ none
      → lookup same_key m (emplace same_key k v hs) ≡ none
  unfolding lookup emplace
  lookup-emplace_other k m v [] other h = rw (other) refl
  lookup-emplace_other k m v ((key, w) ∷ hs) other h = elim (Bool-cases (same_key key m)) [
    | inl here ↦ absurd (let e : some w ≡ none = (rw (here) at h) in cc)
    | inr there ↦ elim (Bool-cases (same_key key k)) [
      | inl same ↦ rw (same) (rw (there) (rw (there) at h))
      | inr apart ↦ rw (apart) (rw (there) (lookup-emplace_other k m v hs other (rw (there) at h)))
    ]
  ]

  -- The blank in front of the values.
  lookup-received :
      (k : Bytes) (hs : List (Bytes × Bytes))
      → (lookup same_key k hs ≡ none → lookup same_key k (map received hs) ≡ none)
        × ((v : Bytes)
            → lookup same_key k hs ≡ some v
            → lookup same_key k (map received hs) ≡ some (32 ∷ v))
  unfolding lookup
  lookup-received k [] = (λ h. refl, λ v h. absurd (let g : none ≡ some v = h in cc))
  lookup-received k ((key, w) ∷ hs) = elim (Bool-cases (same_key key k)) [
    | inl here ↦ (
      λ h. absurd (let g : some w ≡ none = (rw (here) at h) in cc),
      λ v h. rw (here) (let g : some w ≡ some v = (rw (here) at h) in cc),
    )
    | inr there ↦
        let (absent, found) = lookup-received k hs in
        (λ h. rw (there) (absent (rw (there) at h)), λ v h. rw (there) (found v (rw (there) at h)))
  ]

  -- The header that is sent with a body.
  abbrev pub sent_header : Header → Bytes → Header
  sent_header h b = complete same_key (record { header = h; body = some b })

  -- A response with one word for its reason, whose handler has set neither a length nor a transfer
  -- encoding.
  pub record IsServerResponse (h : Header) (b : Bytes) : Type 0 where
    pub protocol_word : IsWord h.meta.p1
    pub code_word : IsWord h.meta.p2
    pub reason_word : IsWord h.meta.p3
    pub fields : All IsField (sent_header h b).headers
    pub distinct : Distinct same_key [] (sent_header h b).headers
    pub no_zero : Lacks 0 (serialize_header (sent_header h b))
    pub ends_blank :
        find (serialize_header (sent_header h b)) (codes "\r\n\r\n")
        ≡ some (length (serialize_header (sent_header h b)) - 4)
    pub small : length (serialize_header (sent_header h b)) ≤ block
    pub unsized : lookup same_key (codes "Content-Length") h.headers ≡ none
    pub whole : lookup same_key (codes "Transfer-Encoding") h.headers ≡ none
    pub filled : 0 < length b
    pub short : length b < 2 ^ 32

module _ (net : Socket) (sink : Sink) (gunzip : FilteringStream) (same_key : Bytes → Bytes → Bool)
    (dump : Json → Bytes) (split : Bytes → List Bytes) (refusal io_error beyond : Bytes)
    (steps fuel : ℕ) (law : IsSplit split) (open_ended : IsOpen net) (full : IsComplete net)
    (enough : block < fuel) where
  -- What a server sends for a response with a body is what a client receives, whatever stands behind it:
  -- the header with the length of the body and a blank in front of each value, and the body, of 1 to
  -- 2^32 - 1 bytes. Asked for are a method other than HEAD; a reason of one word, fields that can be read
  -- back, no zero byte, no blank line in front of the last one, and a header that a block holds; neither
  -- a length nor a transfer encoding from the handler; keys that take Content-Length for itself and not
  -- for Transfer-Encoding; less than 2^32 bytes in all; reads that go on while bytes are left; and fuel
  -- for more than a block.
  pub receive-serialize :
      (method : Bytes) (h : Header) (b rest : Bytes) (c : Connection net)
      → beq method (codes "HEAD") ≡ false
      → same_key (codes "Content-Length") (codes "Content-Length") ≡ true
      → same_key (codes "Content-Length") (codes "Transfer-Encoding") ≡ false
      → IsServerResponse same_key h b
      → length (everything net c) < 2 ^ 32
      → everything net c ≡ serialize same_key (record { header = h; body = some b }) ++ rest
      → (next : Connection net) × (receive_response net sink gunzip same_key dump split refusal
            io_error beyond steps fuel method c
          ≡ Connection.received
              (header_of h.meta.p1 h.meta.p2 h.meta.p3 (
                map received
                  (emplace same_key (codes "Content-Length") (show_ℕ (length b)) h.headers)))
              (some b)
              next)
        × (everything net next ≡ rest)
  unfolding receive_response complete add_header serialize
  receive-serialize method h b rest c plain own apart good fits at =
      let hs = emplace same_key (codes "Content-Length") (show_ℕ (length b)) h.headers in
      let sized = (lookup-received same_key (codes "Content-Length") hs).1 (show_ℕ (length b)) (
        lookup-emplace same_key (codes "Content-Length") (show_ℕ (length b)) h.headers own
          good.unsized) in
      let whole = (lookup-received same_key (codes "Transfer-Encoding") hs).0 (
        lookup-emplace_other same_key (codes "Content-Length") (codes "Transfer-Encoding")
          (show_ℕ (length b)) h.headers apart good.whole) in
      let (next, got, left) =
        receive-text net sink gunzip same_key dump split refusal io_error beyond steps fuel law
          open_ended full enough (serialize_header (sent_header same_key h b))
          (header_of h.meta.p1 h.meta.p2 h.meta.p3 (map received hs)) (some b) rest c
          good.ends_blank good.small
          (λ more.
            parse-serialize_header same_key split law h.meta.p1 h.meta.p2 hs more good.protocol_word
              good.code_word h.meta.p3 good.reason_word good.fields good.distinct good.no_zero)
          (whole, sized, good.filled, good.short) fits at in
      (next, rw (plain, receive_response) got, left)
