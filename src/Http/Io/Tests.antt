-- ===== src/Http/Io/Tests.antt =====
-- A socket over a text that hands out three bytes at a time, and a message read from it.
use obelisk_asio_coro.Base.{
  List, ℕ, zero, suc, ◌+◌, ◌≤◌, ◌<◌, ◌≡◌, refl, sym, min, ◌⊎◌, false, Bytes, codes, ◌++◌, [], ◌∷◌,
  length, take, drop, ltb, is_empty, arith, take-append-drop, length-take, some, find, beq,
  starts_with, true, none, show_ℕ,
}
use obelisk_asio_coro.Http.Io.{
  Received, Socket, Connection, done, protocol_error, receive_header, receive_body, block,
}
use obelisk_asio_coro.Http.Io.Body.{
  everything, IsComplete, receive_body-everything, receive_body-framing,
}
use obelisk_asio_coro.Http.Io.Head.{IsOpen, receive_header-everything, receive_header-framing}
use obelisk_asio_coro.Http.Io.Chunked.Sent.{
  Chunk, AllChunks, chunked_text, IsLast, IsChunk, chunked_data,
}
use obelisk_asio_coro.Http.Io.Chunked.Until.{IsOrderly}
use obelisk_asio_coro.Http.Io.Chunked.{receive_chunked_body, plain}
use obelisk_asio_coro.Http.Numeral.{strtoull}
use obelisk_asio_coro.Http.Header.{lookup}
use obelisk_asio_coro.Http.Io.Message.{iequals, receive_message_body, receive_message_body-chunks}

abbrev drip_some : Bytes → ℕ → Received Bytes
drip_some s n = record { failed = is_empty s; bytes = take (min n 3) s; next = drop (min n 3) s }

abbrev drip : Bytes → ℕ → Received Bytes
drip s n = record { failed = ltb (length s) n; bytes = take n s; next = drop n s }

drop-empty : (n : ℕ) → drop {A = ℕ} n [] ≡ []
drop-empty zero = refl
drop-empty (suc n) = refl

pub drip_full : (s : Bytes) (n : ℕ) → ltb (length s) n ≡ false → length (take n s) ≡ n
drip_full s n h = ground (arith, length-take n s)

pub drip_progress : (s : Bytes) (n : ℕ) → 0 < n → is_empty s ≡ false → 0 < length (take (min n 3) s)
drip_progress [] n h k = cc
drip_progress (x ∷ s) n h k = omega (arith, length-take (min n 3) (x ∷ s))

abbrev pub dripping : Socket
dripping = record {
  S = Bytes;
  pending = λ s. s;
  read_some = drip_some;
  read = drip;
  read_some_pending = λ s n. sym (take-append-drop (min n 3) s);
  read_some_limit = λ s n. omega (arith, length-take (min n 3) s);
  read_some_progress = drip_progress;
  read_pending = λ s n. sym (take-append-drop n s);
  read_limit = λ s n. omega (arith, length-take n s);
  read_full = drip_full;
}

abbrev begun : Connection dripping
begun = record { buffer = codes "ab"; socket = codes "cdefg" }

abbrev message : Connection dripping
message = record { buffer = codes "GET"; socket = codes " / HTTP/1.1\r\n\r\nbody" }

pub dripping-IsComplete : IsComplete dripping
unfolding IsComplete
dripping-IsComplete s n h = ground arith

pub dripping-IsOpen : IsOpen dripping
unfolding IsOpen
dripping-IsOpen [] n h = drop-empty (min n 3)
dripping-IsOpen (x ∷ s) n h = cc

begun-sent : 4 ≤ length (everything dripping begun)
unfolding everything
begun-sent = omega arith

message-find : find (take block (everything dripping message)) (codes "\r\n\r\n") ≡ some 14
unfolding everything find
message-find = refl

body_run :
    receive_body dripping 5 4 begun
    ≡ done (some (codes "abcd")) (record { buffer = []; socket = codes "efg" })
unfolding receive_body
body_run = refl

head_run :
    receive_header dripping 9 message
    ≡ done (codes "GET / HTTP/1.1\r\n\r\n") (record { buffer = []; socket = codes "body" })
unfolding receive_header find
head_run = refl

receive_body-everything_example :
    (body : Bytes) × (next : Connection dripping) × (receive_body dripping 5 4 begun
      ≡ done (some body) next)
    × (body ++ everything dripping next ≡ everything dripping begun)
    × (length body ≤ 4)
receive_body-everything_example =
    receive_body-everything dripping 5 4 begun (omega arith) (omega arith) (omega arith)
      (omega arith)

receive_body-framing_example :
    (next : Connection dripping) × (receive_body dripping 5 4 begun
      ≡ done (some (take 4 (everything dripping begun))) next)
    × (everything dripping next ≡ drop 4 (everything dripping begun))
receive_body-framing_example =
    receive_body-framing dripping 5 4 begun (omega arith) (omega arith) (omega arith) (omega arith)
      dripping-IsComplete begun-sent

receive_header-everything_example :
    ((next : Connection dripping) × (receive_header dripping 10241 message ≡ protocol_error next)
      × (everything dripping next ≡ everything dripping message))
    ⊎ ((p : ℕ) × (find (everything dripping message) (codes "\r\n\r\n") ≡ some p)
        × (next : Connection dripping) × (receive_header dripping 10241 message
            ≡ done (take (p + 4) (everything dripping message)) next)
        × (everything dripping next ≡ drop (p + 4) (everything dripping message)))
receive_header-everything_example = receive_header-everything dripping 10241 message (omega arith)

receive_header-framing_example :
    (next : Connection dripping) × (receive_header dripping 10241 message
      ≡ done (take (14 + 4) (everything dripping message)) next)
    × (everything dripping next ≡ drop (14 + 4) (everything dripping message))
receive_header-framing_example =
    receive_header-framing dripping 10241 message 14 (omega arith) dripping-IsOpen message-find

abbrev two_chunks : List Chunk
two_chunks =
    record { line = codes "3"; bytes = codes "abc" }
    ∷ record { line = codes "0A;x"; bytes = codes "0123456789" }
    ∷ []

abbrev chunked : Connection dripping
chunked = record {
  buffer = codes "3\r\nab";
  socket = codes "c\r\n0A;x\r\n0123456789\r\n0\r\n\r\nNEXT";
}

dripping-IsOrderly : IsOrderly dripping
unfolding IsOrderly
dripping-IsOrderly [] n h = refl
dripping-IsOrderly (x ∷ s) n h = cc

two_chunks-AllChunks : AllChunks two_chunks
unfolding AllChunks IsChunk strtoull starts_with
two_chunks-AllChunks =
    let three : IsChunk (record { line = codes "3"; bytes = codes "abc" }) =
      ((refl, tt), omega arith, refl, omega arith) in
    let ten : IsChunk (record { line = codes "0A;x"; bytes = codes "0123456789" }) =
      ((refl, (refl, (refl, (refl, tt)))), omega arith, refl, omega arith) in
    (three, (ten, tt))

zero-IsLast : IsLast (codes "0")
unfolding IsLast strtoull starts_with
zero-IsLast = ((refl, tt), omega arith, refl)

chunked-everything :
    everything dripping chunked ≡ chunked_text two_chunks (codes "0") (codes "NEXT")
unfolding everything chunked_text
chunked-everything = refl

chunked_run :
    receive_chunked_body dripping plain 20 3 [] chunked
    ≡ done (codes "abc0123456789") (record { buffer = codes "N"; socket = codes "EXT" })
unfolding receive_chunked_body find starts_with beq
chunked_run = refl

abbrev sized : List (Bytes × Bytes)
sized = (codes "Content-Length", codes "4") ∷ []

abbrev in_chunks : List (Bytes × Bytes)
in_chunks = (codes "Content-Length", codes "4") ∷ (codes "Transfer-Encoding", codes "Chunked") ∷ []

sized-whole : lookup beq (codes "Transfer-Encoding") sized ≡ none
unfolding lookup beq
sized-whole = refl

sized-length : lookup beq (codes "Content-Length") sized ≡ some (show_ℕ 4)
unfolding lookup beq show_ℕ
sized-length = refl

in_chunks-named : lookup beq (codes "Transfer-Encoding") in_chunks ≡ some (codes "Chunked")
unfolding lookup beq
in_chunks-named = refl

in_chunks-bare : lookup beq (codes "Content-Encoding") in_chunks ≡ none
unfolding lookup beq
in_chunks-bare = refl

in_chunks-cased : iequals (codes "Chunked") (codes "chunked") ≡ true
unfolding iequals
in_chunks-cased = refl

receive_message_body-chunks_example :
    (next : Connection dripping) × (receive_message_body dripping plain beq 10241 3 in_chunks
        chunked
      ≡ done (some (chunked_data two_chunks)) next)
    × (everything dripping next ≡ codes "NEXT")
receive_message_body-chunks_example =
    receive_message_body-chunks dripping plain beq 10241 3 in_chunks (codes "Chunked") chunked
      two_chunks (codes "0") (codes "NEXT") in_chunks-named in_chunks-cased in_chunks-bare
      dripping-IsOrderly (omega arith) (omega arith) two_chunks-AllChunks zero-IsLast
      chunked-everything
