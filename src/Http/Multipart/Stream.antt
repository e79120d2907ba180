-- ===== src/Http/Multipart/Stream.antt =====
-- The `std::iostream` that parse_multipart_body of source/http/parser_v2/http_parser_v3.cpp and the
-- signers of include/obelisk/http/client/signer read: a
-- text with a position and the bits eof and fail, as the C++ standard documents its operations.
use obelisk_asio_coro.Base.{ℕ, Bool, true, false, Bytes, length, take, drop, ltb, ◌+◌, ◌-◌, ◌||◌}
use obelisk_asio_coro.Base.{if◌then◌else◌, is_empty, find_char, none, some, []}
use obelisk_asio_coro.Http.Header.{line_of}

pub record InStream : Type 0 where
  pub text : Bytes
  pub position : ℕ
  pub eof : Bool
  pub fail : Bool

abbrev pub remaining : InStream → Bytes
remaining s = drop s.position s.text

abbrev pub opened : Bytes → ℕ → InStream
opened text position = record { text = text; position = position; eof = false; fail = false }

-- `std::getline(stream, line)`: a stream that is not good leaves the line as it was. A line that the
-- end of the text ends sets eof, and an empty one fail too.
unfoldable pub getline : Bytes → InStream → Bytes × InStream
unfolding line_of
getline line s =
    let rest = remaining s in
    if s.eof || s.fail then (line, record s { fail = true }) else elim (find_char 10 rest) [
      | none ↦
          (rest, record s { position = s.position + length rest; eof = true; fail = is_empty rest })
      | some n ↦ (line_of rest, record s { position = s.position + n + 1 })
    ]

-- `read(data, n)`, with the bytes that `gcount()` counts.
unfoldable pub read : ℕ → InStream → Bytes × InStream
read n s =
    let rest = remaining s in
    let short = ltb (length rest) n in
    if s.eof || s.fail then ([], record s { fail = true }) else (
      take n rest,
      record s { position = s.position + length (take n rest); eof = short; fail = short },
    )

-- `clear()` and `seekg(-n, std::ios::cur)`.
unfoldable pub seek_back : ℕ → InStream → InStream
seek_back n s = opened s.text (s.position - n)
