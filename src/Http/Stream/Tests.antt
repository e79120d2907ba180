-- ===== src/Http/Stream/Tests.antt =====
-- A header and a body that are sent as one row of streams.
use obelisk_asio_coro.Base.{
  min, take, arith, ◌+◌, ◌<◌, ◌≡◌, ◌≤◌, ◌⊎◌, refl, true, false, Bytes, codes, [], ◌∷◌, ◌++◌, some,
  length, All,
}
use obelisk_asio_coro.Http.Stream.{Stream, Multi, eof, append, read, size}
use obelisk_asio_coro.Http.Stream.Read.{contents, IsSound, read-contents}
use obelisk_asio_coro.Http.Stream.Write.{Written, Sink, finished, write_error, write_data}
use obelisk_asio_coro.Http.Stream.Write.Sent.{write_data-contents}

abbrev stream : Bytes → Stream
stream s = record { rest = s; ended = false; failed = false; size = length s }

abbrev row : Multi
row = record { passed = []; datas = stream (codes "head") ∷ stream (codes "body") ∷ [] }

read_run :
    read 6 row
    ≡ some (
      codes "headbo",
      record {
        passed = record (stream (codes "head")) { rest = []; ended = true; failed = true } ∷ [];
        datas = record (stream (codes "body")) { rest = codes "dy" } ∷ [];
      },
    )
unfolding read
read_run = refl

size_run : size (append (stream (codes "!")) row) ≡ 9
unfolding size append
size_run = refl

row-IsSound : All IsSound row.datas
row-IsSound = ((λ e. cc), ((λ e. cc), tt))

read-contents_example :
    (out : Bytes) × (next : Multi) × (read 6 row ≡ some (out, next))
    × (out ++ contents next.datas ≡ contents row.datas)
    × (length out ≤ 6)
    × ((next.datas ≡ []) ⊎ (length out ≡ 6))
    × All IsSound next.datas
read-contents_example = read-contents 6 row row-IsSound

-- A socket that takes three bytes at a time.
abbrev taker : Bytes → Bytes → Written Bytes
taker s b = record {
  failed = false;
  count = min 3 (length b);
  next = s ++ take (min 3 (length b)) b;
}

abbrev pub taking : Sink
taking = record {
  S = Bytes;
  sent = λ s. s;
  write_some = taker;
  write_some_sent = λ s b. refl;
  write_some_limit = λ s b. omega arith;
  write_some_progress = λ s b h k. omega arith;
}

write_run : write_data taking 9 row [] ≡ finished (codes "headbody")
unfolding write_data read eof
write_run = refl

row-length : length (contents row.datas) + 1 < 10
unfolding contents
row-length = omega arith

write_data-contents_example :
    ((t : Bytes) × (write_data taking 10 row [] ≡ finished t) × (t ≡ [] ++ contents row.datas))
    ⊎ ((t : Bytes) × (p : Bytes) × (q : Bytes) × (write_data taking 10 row [] ≡ write_error t)
        × (contents row.datas ≡ p ++ q)
        × (t ≡ [] ++ p))
write_data-contents_example = write_data-contents taking 10 row [] row-length row-IsSound
