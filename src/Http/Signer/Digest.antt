-- ===== src/Http/Signer/Digest.antt =====
-- The digest of a body: `sha_256_` of include/obelisk/http/client/signer/aliyun_openapi.h, with the
-- `seekg` of include/obelisk/http/core/http_iodata_stream_wrapper.h and the row of streams that
-- source/core/http_client.cpp sends afterwards. SHA-256 is a parameter.
pub mod Drained
mod Tests
use obelisk_asio_coro.Base.{
  ℕ, zero, suc, ◌-◌, List, [], ◌∷◌, ◌++◌, Option, none, some, Bytes, Bool, false, length, is_empty,
  not, ◌&&◌, ltb, if◌then◌else◌,
}
use obelisk_asio_coro.Http.Multipart.Stream.{InStream, read}

-- `seekg(0)`: it clears eof, and a stream that has failed stays where it is.
unfoldable pub seek_begin : InStream → InStream
seek_begin s = if s.fail then record s { eof = false } else record s { position = 0; eof = false }

-- The loop that feeds the digest, block by block, until a read gives nothing.
unfoldable pub feed : ℕ → ℕ → InStream → Bytes → Option (Bytes × InStream)
unfolding read
feed zero n s out = none
feed (suc fuel) n s out =
    let r = read n s in
    let rest = feed fuel n r.1 (out ++ r.0) in if is_empty r.0 then some (out, r.1) else rest

-- The digest of a body and what is left of it, for blocks of n bytes.
unfoldable pub sha_256_body :
    (Bytes → Bytes) → ℕ → ℕ → Option InStream → Option (Bytes × Option InStream)
unfolding feed seek_begin
sha_256_body sha256 n fuel none = some (sha256 [], none)
sha_256_body sha256 n fuel (some s) = elim (feed fuel n (seek_begin s) []) [
  | none ↦ none
  | some (out, s') ↦ some (sha256 out, some (seek_begin s'))
]

-- `if(datas_[offset_]->eof()) offset_ ++`
unfoldable pub next_of : InStream → List InStream → List InStream
next_of s ss = if s.eof then ss else s ∷ ss

-- The loop of `multi_stream_iodata::read` over streams with both of their bits: `left` is
-- `length - total_read` and `out` the buffer so far.
unfoldable pub read_row : ℕ → ℕ → Bytes → List InStream → Option (Bytes × List InStream)
unfolding read next_of
read_row zero left out ss = none
read_row (suc fuel) left out [] = some (out, [])
read_row (suc fuel) left out (s ∷ ss) =
    let r = read left s in
    let left' = left - length r.0 in
    let next = next_of r.1 ss in
    let again = read_row fuel left' (out ++ r.0) next in
    if not (is_empty next) && ltb 0 left' then again else some (out ++ r.0, next)
