-- ===== src/Http/Io/Chunked/Framing.antt =====
-- What receive_chunked_body_ returns for a body that the peer has cut into chunks.
use obelisk_asio_coro.Base.{
  ◌==◌, ℕ, Bytes, List, length, ◌∷◌, ◌≡◌, ◌++◌, ◌+◌, codes, sym, ◌∙◌, refl, ◌<◌, arith, ap, suc,
  some, beq, beq_refl, false, positive→nonzero,
}
use obelisk_asio_coro.Http.Io.{Socket, Connection, done, block}
use obelisk_asio_coro.Base.{[], take}
use obelisk_asio_coro.Http.Io.Body.{everything}
use obelisk_asio_coro.Http.Io.Chunked.{
  FilteringStream, then_read, consume, strtoull, receive_chunked_body, receive_chunks,
  receive_filtered, plain,
}
use obelisk_asio_coro.Http.Io.Chunked.Until.{IsOrderly}
use Prim.Native.Nat.{zero}
use obelisk_asio_coro.Http.Io.Chunked.Sent.{
  Chunk, AllChunks, IsLast, IsChunk, chunked_text, chunked_data,
}
use obelisk_asio_coro.Http.Io.Chunked.Pieces.{
  Left, line-reads, skip_two-Left, write-parts, receive_chunk-Left,
}

module _ (net : Socket) (sink : FilteringStream) (steps : ℕ) (orderly : IsOrderly net)
    (more : block < steps) where
  open sink use {State, write}

  receive_chunks-Left :
      (fuel : ℕ) (xs : List Chunk) (last rest : Bytes) (s s' : State) (c : Connection net)
      → length xs < fuel
      → AllChunks xs
      → IsLast last
      → everything net c ≡ chunked_text xs last rest
      → write s (chunked_data xs) ≡ some s'
      → Left net (receive_chunks net sink steps fuel s c) s' rest
  unfolding receive_chunks then_read AllChunks IsChunk IsLast chunked_text chunked_data
  receive_chunks-Left zero xs last rest s s' c enough good end h w = absurd (omega arith)
  receive_chunks-Left (suc fuel) [] last rest s s' c enough good (clean, near, zero_size) h w =
      let l = line-reads net steps orderly more last (13 ∷ 10 ∷ rest) c clean near h in
      let size : strtoull 16 (take (length last) l.next.buffer) ≡ some 0 =
        ap (strtoull 16) l.text ∙ zero_size in
      let two =
        skip_two-Left net steps 13 10 rest (consume net (length last + 2) l.next) orderly more
          l.behind in
      let same : some s ≡ some s' = sym (sink.write_nothing s) ∙ w in
      record {
        next = two.next;
        returned =
            rw (l.returned, receive_chunks, then_read)
              (rw (size, receive_chunks, then_read)
                (rw (two.returned, receive_chunks, then_read)
                  (ap (λ z. done z two.next) (let e = same in cc))));
        rest_kept = two.rest_kept;
      }
  receive_chunks-Left (suc fuel) (x ∷ xs) last rest s s' c enough
        ((clean, near, named, some_bytes), good) end h w =
      let t : Bytes = x.bytes ++ 13 ∷ 10 ∷ chunked_text xs last rest in
      let l = line-reads net steps orderly more x.line t c clean near h in
      let size : strtoull 16 (take (length x.line) l.next.buffer) ≡ some (length x.bytes) =
        ap (strtoull 16) l.text ∙ named in
      let positive : (length x.bytes == 0) ≡ false = positive→nonzero (length x.bytes) some_bytes in
      let (s1, first, second) = write-parts sink s s' x.bytes (chunked_data xs) w in
      let chunk =
        receive_chunk-Left net sink steps orderly more (suc (length x.bytes)) x.bytes
          (13 ∷ 10 ∷ chunked_text xs last rest) s s1 (consume net (length x.line + 2) l.next)
          (omega arith) some_bytes l.behind first in
      let two =
        skip_two-Left net steps 13 10 (chunked_text xs last rest) chunk.next orderly more
          chunk.rest_kept in
      let ih =
        receive_chunks-Left fuel xs last rest s1 s' two.next (omega arith) good end two.rest_kept
          second in
      record {
        next = ih.next;
        returned =
            rw (l.returned, receive_chunks, then_read)
              (rw (size, positive, receive_chunks, then_read)
                (rw (chunk.returned, receive_chunks, then_read)
                  (rw (two.returned, receive_chunks, then_read) ih.returned)));
        rest_kept = ih.rest_kept;
      }

-- A body that the peer sends in chunks of any sizes comes out whole: when every line in front of a
-- chunk names the number of its bytes in base 16, has no carriage return and fits in a block of
-- 10240 bytes with its line break, the last line reads as zero, and reads fail only at the end of the stream, `receive_chunked_body_`
-- without gzip returns the bytes of the chunks, in their order, and what stands behind the
-- message stays to be read. The fuel is more than a block for each read and more than the chunks.
pub receive_chunked_body-chunks :
    (net : Socket) (gunzip : FilteringStream) (steps fuel : ℕ) (encoding : Bytes)
    (c : Connection net) (xs : List Chunk) (last rest : Bytes)
    → IsOrderly net
    → block < steps
    → length xs < fuel
    → AllChunks xs
    → IsLast last
    → everything net c ≡ chunked_text xs last rest
    → beq encoding (codes "gzip") ≡ false
    → (next : Connection net) × (receive_chunked_body net gunzip steps fuel encoding c
        ≡ done (chunked_data xs) next)
      × (everything net next ≡ rest)
unfolding receive_chunked_body receive_filtered then_read
receive_chunked_body-chunks net gunzip steps fuel encoding c xs last rest orderly more enough good
      end h raw =
    let left =
      receive_chunks-Left net plain steps orderly more fuel xs last rest [] (chunked_data xs) c
        enough good end h refl in
    (left.next, rw (raw) (rw (left.returned) refl), left.rest_kept)

-- Under the same conditions a body with the content encoding gzip is what the decompressor makes of
-- all bytes of the chunks at once, however they were cut, provided it accepts them.
receive_chunked_body-gzip :
    (net : Socket) (gunzip : FilteringStream) (steps fuel : ℕ) (c : Connection net)
    (xs : List Chunk) (last rest : Bytes) (packed : gunzip.State)
    → IsOrderly net
    → block < steps
    → length xs < fuel
    → AllChunks xs
    → IsLast last
    → everything net c ≡ chunked_text xs last rest
    → gunzip.write gunzip.opened (chunked_data xs) ≡ some packed
    → (next : Connection net) × (receive_chunked_body net gunzip steps fuel (codes "gzip") c
        ≡ done (gunzip.contents packed) next)
      × (everything net next ≡ rest)
unfolding receive_chunked_body receive_filtered then_read
receive_chunked_body-gzip net gunzip steps fuel c xs last rest packed orderly more enough good end h
      w =
    let left =
      receive_chunks-Left net gunzip steps orderly more fuel xs last rest gunzip.opened packed c
        enough good end h w in
    (left.next, rw (beq_refl (codes "gzip")) (rw (left.returned) refl), left.rest_kept)
