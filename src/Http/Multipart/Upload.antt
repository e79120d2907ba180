-- ===== src/Http/Multipart/Upload.antt =====
-- The loop of parse_multipart_body that copies a file part to the disk, block by block, up to the next
-- boundary: source/http/parser_v2/http_parser_v3.cpp. That it copies the part whole stands in Whole,
-- and what it makes of a body that ends early in Cut.
pub mod Whole
pub mod Cut
use obelisk_asio_coro.Base.{
  ℕ, zero, suc, Bytes, ◌++◌, ◌+◌, ◌-◌, length, take, drop, ltb, if◌then◌else◌, find, codes, none,
  some,
}
use obelisk_asio_coro.Http.Io.{block}
use obelisk_asio_coro.Http.Multipart.Stream.{InStream, read, seek_back}

-- How the loop ends: with the bytes that were written, or in undefined behaviour, since
-- `file_buffer.size() - boundary.size() - 5` is less than zero.
pub data Copied : Type 0 where
  copied : Bytes → InStream → Copied
  undefined : Copied
  out_of_fuel : Copied

-- `boundary_split_data`, and what `find_first` looks for.
abbrev pub split_data : Bytes → Bytes
split_data boundary = codes "--" ++ boundary

abbrev pub line_and_split : Bytes → Bytes
line_and_split boundary = codes "\r\n" ++ split_data boundary

-- `find_first`: the end of the text where there is no match.
unfoldable pub find_first : Bytes → Bytes → ℕ
find_first s p = elim (find s p) [ none ↦ length s | some pos ↦ pos ]

-- What a block without the boundary keeps in the buffer.
abbrev pub kept : Bytes → ℕ
kept boundary = length boundary + 5

-- What one block leads to.
pub data Block : Type 0 where
  ended : Bytes → InStream → Block
  again : Bytes → Bytes → InStream → Block
  underflow : Block

-- One turn of the loop behind its `read`: `out` is what has been written, `buffer` what `sbuf_` holds.
unfoldable pub copy_block : Bytes → Bytes → Bytes → InStream → Block
unfolding find_first
copy_block boundary out buffer s =
    let more = length buffer - kept boundary in
    let pos = find_first buffer (line_and_split boundary) in
    elim (find buffer (split_data boundary)) [
      | none ↦
          if ltb (length buffer) (kept boundary)
          then underflow
          else again (out ++ take more buffer) (drop more buffer) s
      | some _ ↦ ended (out ++ take pos buffer) (seek_back (length (drop (pos + 2) buffer)) s)
    ]

unfoldable pub copy_file : ℕ → Bytes → Bytes → Bytes → InStream → Copied
copy_file zero boundary out held s = out_of_fuel
copy_file (suc fuel) boundary out held s =
    elim (copy_block boundary out (held ++ (read block s).0) (read block s).1) [
      | ended out' s' ↦ copied out' s'
      | again out' held' s' ↦ copy_file fuel boundary out' held' s'
      | underflow ↦ undefined
    ]
