-- ===== src/Http/Io.antt =====
-- Reading a message from a socket: include/obelisk/http/core/io.h. The socket is an interface: what a
-- read returns is up to it, within what Asio documents. `pending` stands for the bytes that it will
-- still deliver.
pub mod Body
pub mod Chunked
pub mod Message
pub mod Head
pub mod Tests
use obelisk_asio_coro.Base.{
  ℕ, zero, suc, ◌+◌, ◌-◌, ◌%◌, ◌^◌, ◌≤◌, ◌<◌, ◌≡◌, min, Bool, true, false, Bytes, codes, ◌++◌,
  Option, none, some, length, take, drop, find, ltb, if◌then◌else◌, ◌==◌,
}

-- A completed read: whether it reports an error, and the bytes that it transferred.
pub record Received (S : Type 0) : Type 0 where
  pub failed : Bool
  pub bytes : Bytes
  pub next : S

-- `async_read_some` and `async_read` into a buffer of a given size.
pub record Socket : Type 1 where
  pub S : Type 0
  pub pending : S → Bytes
  pub read_some : S → ℕ → Received S
  pub read : S → ℕ → Received S
  pub read_some_pending :
      (s : S) (n : ℕ) → pending s ≡ (read_some s n).bytes ++ pending (read_some s n).next
  pub read_some_limit : (s : S) (n : ℕ) → length (read_some s n).bytes ≤ n
  pub read_some_progress :
      (s : S) (n : ℕ) → 0 < n → (read_some s n).failed ≡ false → 0 < length (read_some s n).bytes
  pub read_pending : (s : S) (n : ℕ) → pending s ≡ (read s n).bytes ++ pending (read s n).next
  pub read_limit : (s : S) (n : ℕ) → length (read s n).bytes ≤ n
  pub read_full : (s : S) (n : ℕ) → (read s n).failed ≡ false → length (read s n).bytes ≡ n

abbrev pub block : ℕ
block = 10240

abbrev pub contains : Bytes → Bytes → Bool
contains s p = elim (find s p) [ none ↦ false | some _ ↦ true ]

module _ (net : Socket) where
  open net use {S, read_some, read}

  -- A state of the connection: the stream buffer, and the socket.
  pub record Connection : Type 0 where
    pub buffer : Bytes
    pub socket : S

  -- What a loop of reads returns.
  pub data Outcome {ℓ} (A : Type ℓ) : Type ℓ where
    done : A → Connection → Outcome A
    protocol_error : Connection → Outcome A
    out_of_fuel : Outcome A

  abbrev pub commit : Connection → Received S → Connection
  commit c r = record { buffer = c.buffer ++ r.bytes; socket = r.next }

  -- The loop of `receive_header_`, a `do`-`while`: it reads before it looks.
  unfoldable pub receive_until_header : ℕ → Connection → Outcome (Unit {0})
  receive_until_header zero c = out_of_fuel
  receive_until_header (suc fuel) c =
      let r = read_some c.socket block in
      let c' = commit c r in
      let again = receive_until_header fuel c' in
      if r.failed
      then done tt c'
      else if ltb (length c'.buffer) block
      then (if contains c'.buffer (codes "\r\n\r\n") then done tt c' else again)
      else done tt c'

  -- `receive_header_` up to the parser: the text of the header, with its blank line, is cut off the
  -- buffer.
  unfoldable pub receive_header : ℕ → Connection → Outcome Bytes
  unfolding receive_until_header
  receive_header fuel c = elim (receive_until_header fuel c) [
    | done _ c' ↦ elim (find c'.buffer (codes "\r\n\r\n")) [
      | none ↦ protocol_error c'
      | some pos ↦
          done (take (pos + 4) c'.buffer)
            (record { buffer = drop (pos + 4) c'.buffer; socket = c'.socket })
    ]
    | protocol_error c' ↦ protocol_error c'
    | out_of_fuel ↦ out_of_fuel
  ]

  -- The loop of `receive_body_`: `total` is the `uint32_t` counter, `body` the stream written so far.
  unfoldable pub receive_rest : ℕ → ℕ → ℕ → Bytes → Connection → Outcome Bytes
  receive_rest zero content_length total body c = out_of_fuel
  receive_rest (suc fuel) content_length total body c =
      let wanted = min ((content_length - total) % 2 ^ 32) block in
      let r = read c.socket wanted in
      let c' = commit c r in
      let body' = body ++ take (length r.bytes) c'.buffer in
      let c'' : Connection = record {
        buffer = drop (length r.bytes) c'.buffer;
        socket = c'.socket;
      } in
      let again = receive_rest fuel content_length ((total + length r.bytes) % 2 ^ 32) body' c'' in
      if ltb total content_length then (if r.failed then done body' c'' else again) else done body c

  -- `receive_body_` for a `Content-Length`: `none` for no body. What the buffer holds already is used
  -- first.
  unfoldable pub receive_body : ℕ → ℕ → Connection → Outcome (Option Bytes)
  unfolding receive_rest
  receive_body fuel content_length c =
      let first = min (length c.buffer % 2 ^ 32) (content_length % 2 ^ 32) in
      if content_length == 0
      then done none c
      else elim (receive_rest fuel content_length first (take first c.buffer)
          (record c { buffer = drop first c.buffer })) [
            | done body c' ↦ done (some body) c'
            | protocol_error c' ↦ protocol_error c'
            | out_of_fuel ↦ out_of_fuel
          ]
