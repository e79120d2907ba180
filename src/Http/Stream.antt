-- ===== src/Http/Stream.antt =====
-- The body of a message as a row of streams: include/obelisk/http/core/io_data.h,
-- source/core/http_iodata.cpp and http_iodata_stream_wrapper.cpp. A `std::iostream` is what it has
-- left, with its bits eof and fail: a read that comes short sets both, and a stream that has one of
-- them gives nothing.
pub mod Read
pub mod Write
pub mod Tests
use obelisk_asio_coro.Base.{
  ℕ, zero, suc, ◌+◌, ◌-◌, Bool, true, false, Bytes, List, [], ◌∷◌, ◌++◌, Option, none, some,
  is_empty, length, take, drop, ltb, not, ◌&&◌, ◌||◌, if◌then◌else◌,
}

-- `http_data_istream_wrapper`
pub record Stream : Type 0 where
  pub rest : Bytes
  pub ended : Bool
  pub failed : Bool
  pub size : ℕ

-- Its `read`; on a stream that is not good it sets fail alone.
unfoldable pub read_stream : ℕ → Stream → Bytes × Stream
read_stream n s =
    let short = ltb (length s.rest) n in
    if s.ended || s.failed
    then ([], record s { failed = true })
    else (take n s.rest, record s { rest = drop n s.rest; ended = short; failed = short })

-- `multi_stream_iodata`: `datas_` cut at `offset_`.
pub record Multi : Type 0 where
  pub passed : List Stream
  pub datas : List Stream

unfoldable pub append : Stream → Multi → Multi
append s m = record m { datas = m.datas ++ s ∷ [] }

unfoldable pub eof : Multi → Bool
eof m = is_empty m.datas

unfoldable pub size : Multi → ℕ
size m = sum m.passed + sum m.datas
  where
    sum : List Stream → ℕ
    sum [] = 0
    sum (s ∷ ss) = s.size + sum ss

-- What the loop of `read` does in one turn with the stream at `offset_`.
unfoldable pub advance : Stream → List Stream → List Stream → Multi
advance s passed ss =
    if s.ended
    then record { passed = passed ++ s ∷ []; datas = ss }
    else record { passed = passed; datas = s ∷ ss }

-- The loop of `read`, a `do`-`while`: `left` is `length - total_read`, `out` the buffer so far. It is
-- `none` when the fuel runs out, as it does at a stream that has failed without an end, where the loop
-- goes round forever.
unfoldable pub read_datas : ℕ → ℕ → Bytes → List Stream → List Stream → Option (Bytes × Multi)
unfolding read_stream advance
read_datas zero left out passed datas = none
read_datas (suc fuel) left out passed [] = some (out, record { passed = passed; datas = [] })
read_datas (suc fuel) left out passed (s ∷ ss) =
    let r = read_stream left s in
    let left' = left - length r.0 in
    let m = advance r.1 passed ss in
    let again = read_datas fuel left' (out ++ r.0) m.passed m.datas in
    if not (is_empty m.datas) && ltb 0 left' then again else some (out ++ r.0, m)

-- `read` into a buffer of a given size, with a turn for each stream: enough where no stream has failed
-- without an end.
unfoldable pub read : ℕ → Multi → Option (Bytes × Multi)
unfolding read_datas
read size m = read_datas (suc (length m.datas)) size [] m.passed m.datas
