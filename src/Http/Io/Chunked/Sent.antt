-- ===== src/Http/Io/Chunked/Sent.antt =====
-- A body in chunks as a peer sends it.
use obelisk_asio_coro.Base.{
  Lacks, Bytes, find, List, starts_with, length, ◌∷◌, ◌≡◌, ◌++◌, ◌+◌, codes, ◌∙◌, refl, ◌≤◌, ◌<◌,
  arith, ap, suc, some,
}
use obelisk_asio_coro.Http.Io.{block}
use obelisk_asio_coro.Base.{[], drop}
use obelisk_asio_coro.Http.Io.Chunked.{strtoull}

-- A chunk as it is sent: the line in front of it, without its line break, and its bytes.
pub record Chunk : Type 0 where
  pub line : Bytes
  pub bytes : Bytes

-- The line names the number of the bytes, which are not none, and fits in a block of the reader.
unfoldable pub IsChunk : Chunk → Type 0
IsChunk x =
    Lacks 13 x.line
    × (length x.line + 2 ≤ block)
    × (strtoull 16 x.line ≡ some (length x.bytes))
    × (0 < length x.bytes)

unfoldable pub AllChunks : List Chunk → Type 0
AllChunks [] = Unit
AllChunks (x ∷ xs) = IsChunk x × AllChunks xs

-- The line that ends a body: it reads as zero.
unfoldable pub IsLast : Bytes → Type 0
IsLast line = Lacks 13 line × (length line + 2 ≤ block) × (strtoull 16 line ≡ some 0)

-- What the peer sends: the chunks, the last line, a blank line, and then what is not of this message.
unfoldable pub chunked_text : List Chunk → Bytes → Bytes → Bytes
chunked_text [] last rest = last ++ 13 ∷ 10 ∷ 13 ∷ 10 ∷ rest
chunked_text (x ∷ xs) last rest =
    x.line ++ 13 ∷ 10 ∷ (x.bytes ++ 13 ∷ 10 ∷ chunked_text xs last rest)

-- The body that it means.
unfoldable pub chunked_data : List Chunk → Bytes
chunked_data [] = []
chunked_data (x ∷ xs) = x.bytes ++ chunked_data xs

pub length-nil : (s : Bytes) → length s ≡ 0 → s ≡ []
length-nil [] h = refl
length-nil (x ∷ s) h = absurd (omega arith)

pub find-line :
    (line t : Bytes)
    → Lacks 13 line
    → find (line ++ 13 ∷ 10 ∷ t) (codes "\r\n") ≡ some (length line)
unfolding find starts_with
find-line [] t h = refl
find-line (x ∷ line) t (p, h) = rw (p, find-line line t h) refl

pub drop-line : (line t : Bytes) → drop (length line + 2) (line ++ 13 ∷ 10 ∷ t) ≡ t
drop-line [] t = refl
drop-line (x ∷ line) t =
    let one : suc (length line) + 2 ≡ suc (length line + 2) = omega arith in
    ap (λ k. drop k (x ∷ (line ++ 13 ∷ 10 ∷ t))) one ∙ drop-line line t
