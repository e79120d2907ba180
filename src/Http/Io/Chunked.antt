-- ===== src/Http/Io/Chunked.antt =====
-- A body in chunks: receive_chunked_body_ and the two receive_until_ of include/obelisk/http/core/io.h.
-- The stream that the body is written to is an interface, since Boost's decompressor stands in it when
-- the body is packed. An exception of `stoull` or of that stream counts as `protocol_error`: the caller
-- of both catches every std::exception alike.
pub mod Until
pub mod Sent
pub mod Pieces
pub mod Framing
use mathlib.Core.Option
use obelisk_asio_coro.Http.Io.{
  Socket, Connection, Outcome, block, commit, contains, done, out_of_fuel, protocol_error,
}
use obelisk_asio_coro.Base.{
  ◌==◌, if◌then◌else◌, none, some, ltb, append_assoc, ℕ, Bytes, [], Option, some, ◌≡◌, ◌++◌, ap,
  append-nil, sym, append_assoc, find, drop, suc, min, take, codes, beq, leb, length, ◌-◌, ◌+◌,
}
use obelisk_asio_coro.Http.Numeral.{strtoull}
use Prim.Native.Nat.{zero}

-- A filtering stream: `write` is none when it throws. It only sees the bytes, not how they are cut.
pub record FilteringStream : Type 1 where
  pub State : Type 0
  pub opened : State
  pub write : State → Bytes → Option State
  pub contents : State → Bytes
  pub write_nothing : (s : State) → write s [] ≡ some s
  pub write_append :
      (s : State) (a b : Bytes) → write s (a ++ b) ≡ Option.bind (write s a) (λ s'. write s' b)

pub write_append_plain :
    (s a b : Bytes) → some (s ++ (a ++ b)) ≡ Option.bind (some (s ++ a)) (λ s'. some (s' ++ b))
unfolding Option.bind
write_append_plain s a b = ap some (sym (append_assoc s a b))

-- Without a filter: the temporary file itself.
abbrev pub plain : FilteringStream
plain = record {
  State = Bytes;
  opened = [];
  write = λ s b. some (s ++ b);
  contents = λ s. s;
  write_nothing = λ s. ap some (append-nil s);
  write_append = write_append_plain;
}

module _ (net : Socket) where
  open net use {S, read_some}

  -- `co_await` of a step that may throw.
  unfoldable pub then_read {ℓ κ} :
      {A : Type ℓ} {B : Type κ}
      → Outcome net A
      → (A → Connection net → Outcome net B)
      → Outcome net B
  then_read (done a c) f = f a c
  then_read (protocol_error c) f = protocol_error c
  then_read out_of_fuel f = out_of_fuel

  -- `buffer.consume(n)`.
  unfoldable pub consume : ℕ → Connection net → Connection net
  consume n c = record { buffer = drop n c.buffer; socket = c.socket }

  -- The search behind the loop.
  unfoldable pub find_delimiter : Bytes → Connection net → Outcome net ℕ
  find_delimiter delimiter c = elim (find c.buffer delimiter) [
    | none ↦ protocol_error c
    | some pos ↦ done pos c
  ]

  -- `receive_until_` with a delimiter.
  unfoldable pub receive_until_text : ℕ → Bytes → Connection net → Outcome net ℕ
  unfolding find_delimiter
  receive_until_text zero delimiter c = out_of_fuel
  receive_until_text (suc fuel) delimiter c =
      let r = read_some c.socket block in
      let c' = commit net c r in
      let again = receive_until_text fuel delimiter c' in
      elim (find c.buffer delimiter) [
        | some pos ↦ done pos c
        | none ↦
            if r.failed
            then find_delimiter delimiter c'
            else if ltb (length c'.buffer) block
            then (if contains c'.buffer delimiter then find_delimiter delimiter c' else again)
            else find_delimiter delimiter c'
      ]

  -- The loop of `receive_until_` with a size.
  unfoldable pub receive_size : ℕ → ℕ → Connection net → Outcome net ℕ
  receive_size zero size c = out_of_fuel
  receive_size (suc fuel) size c =
      let r = read_some c.socket block in
      let c' = commit net c r in
      let again = receive_size fuel size c' in
      if r.failed
      then protocol_error c'
      else if ltb (length c'.buffer) (min size block)
      then again
      else done (min (length c'.buffer) size) c'

  -- `receive_until_` with a size.
  unfoldable pub receive_until_size : ℕ → ℕ → Connection net → Outcome net ℕ
  unfolding receive_size
  receive_until_size fuel size c =
      if leb size (length c.buffer)
      then done (min (length c.buffer) size) c
      else receive_size fuel size c

  -- Two bytes are skipped behind each chunk and behind the last line, whatever they are.
  unfoldable pub skip_two : ℕ → Connection net → Outcome net (Unit {0})
  unfolding receive_until_size then_read consume
  skip_two steps c =
      then_read (receive_until_size steps 2 c) (λ received c1. done tt (consume 2 c1))

  module _ (sink : FilteringStream) where
    open sink use {State, write}

    -- The inner loop, a `do`-`while`: `left` is `bytes_should_transferred`, `steps` the fuel of each
    -- read.
    unfoldable pub receive_chunk : ℕ → ℕ → ℕ → State → Connection net → Outcome net State
    unfolding receive_until_size then_read consume
    receive_chunk steps zero left s c = out_of_fuel
    receive_chunk steps (suc fuel) left s c =
        then_read (receive_until_size steps (min left block) c) (λ received c1.
          elim (write s (take received c1.buffer)) [
            | none ↦ protocol_error c1
            | some s1 ↦
                let again = receive_chunk steps fuel (left - received) s1 (consume received c1) in
                if ltb 0 (left - received) then again else done s1 (consume received c1)
          ])

    -- The outer loop. `content_length` is what `stoull` reads in base 16 from the line.
    unfoldable pub receive_chunks : ℕ → ℕ → State → Connection net → Outcome net State
    unfolding receive_chunk receive_until_text then_read consume skip_two strtoull
    receive_chunks steps zero s c = out_of_fuel
    receive_chunks steps (suc fuel) s c =
        then_read (receive_until_text steps (codes "\r\n") c) (λ size_pos c1.
          elim (strtoull 16 (take size_pos c1.buffer)) [
            | none ↦ protocol_error c1
            | some content_length ↦
                if content_length == 0
                then then_read (skip_two steps (consume (size_pos + 2) c1)) (λ _ c2. done s c2)
                else then_read
                    (receive_chunk steps (suc content_length) content_length s
                      (consume (size_pos + 2) c1))
                    (λ s2 c2.
                      then_read (skip_two steps c2) (λ _ c3. receive_chunks steps fuel s2 c3))
          ])

    -- The body as the caller gets it, with the stream closed.
    unfoldable pub receive_filtered : ℕ → ℕ → Connection net → Outcome net Bytes
    unfolding receive_chunks then_read
    receive_filtered steps fuel c =
        then_read (receive_chunks steps fuel sink.opened c) (λ s c'. done (sink.contents s) c')

  -- `receive_chunked_body_`, over what the decompressor does.
  unfoldable pub receive_chunked_body :
      FilteringStream → ℕ → ℕ → Bytes → Connection net → Outcome net Bytes
  unfolding receive_filtered
  receive_chunked_body gunzip steps fuel encoding c =
      if beq encoding (codes "gzip")
      then receive_filtered gunzip steps fuel c
      else receive_filtered plain steps fuel c
