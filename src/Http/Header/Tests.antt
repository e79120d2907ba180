-- ===== src/Http/Header/Tests.antt =====
-- The header parser on small texts, and its theorems at such texts.
use obelisk_asio_coro.Base.{text_until}
use obelisk_asio_coro.Base.{
  ℕ, ◌≡◌, refl, ap, ◌∙◌, Bytes, codes, beq, List, [], ◌∷◌, ◌++◌, All, Lacks, arith, find_char,
}
use obelisk_asio_coro.Sql.Separate.{split_at_char}
use obelisk_asio_coro.Http.Header.{
  lookup, parse_first, pop_back, line_of, rest_of, meta_of, parse_lines, getline, emplace, parsed,
  parse_http_header2, serialize_header, request_text,
}
use obelisk_asio_coro.Http.Header.RoundTrip.{
  IsWord, IsSplit, IsField, words, header_of, parse-serialize_header, parse-request_text,
}

split_at_char-append :
    (c : ℕ) (s t : Bytes) → Lacks c s → split_at_char c (s ++ c ∷ t) ≡ s ∷ split_at_char c t
split_at_char-append c [] t h = ground arith
split_at_char-append c (x ∷ s) t (p, h) = rw (p, split_at_char-append c s t h)

split_at_char-Lacks : (c : ℕ) (s : Bytes) → Lacks c s → split_at_char c s ≡ s ∷ []
split_at_char-Lacks c [] h = refl
split_at_char-Lacks c (x ∷ s) (p, h) = rw (p, split_at_char-Lacks c s h)

split_words :
    (w : Bytes) (ws : List Bytes)
    → IsWord w
    → All IsWord ws
    → split_at_char b' ' (words w ws) ≡ w ∷ ws
split_words w [] h hs = split_at_char-Lacks b' ' w h.1
split_words w (v ∷ vs) h (k, hs) =
    split_at_char-append b' ' w (words v vs) h.1 ∙ ap (◌∷◌ w) (split_words v vs k hs)

abbrev pub at_spaces : Bytes → List Bytes
at_spaces = split_at_char b' '

pub at_spaces-IsSplit : IsSplit at_spaces
at_spaces-IsSplit = record { split_words = split_words }

abbrev fields : List (Bytes × Bytes)
fields = (codes "Host", codes "a.b") ∷ (codes "Length", codes "0") ∷ []

abbrev stored : List (Bytes × Bytes)
stored = (codes "Host", codes " a.b") ∷ (codes "Length", codes " 0") ∷ []

get-IsWord : IsWord (codes "GET")
get-IsWord = ((λ e. cc), search tt, search tt)

slash-IsWord : IsWord (codes "/")
slash-IsWord = ((λ e. cc), search tt, search tt)

not-IsWord : IsWord (codes "Not")
not-IsWord = ((λ e. cc), search tt, search tt)

found-IsWord : IsWord (codes "Found")
found-IsWord = ((λ e. cc), search tt, search tt)

fields-IsField : All IsField fields
fields-IsField = ((search tt, search tt, search tt), ((search tt, search tt, search tt), tt))

a_request :
    parse_http_header2 beq at_spaces
      (codes "GET / HTTP/1.1\r\nHost: a.b\r\nbad\r\nHost: c\r\n\r\nbody")
    ≡ parsed
        (header_of (codes "GET") (codes "/") (codes "HTTP/1.1") ((codes "Host", codes " a.b") ∷ []))
unfolding parse_http_header2 text_until beq parse_first pop_back line_of rest_of meta_of parse_lines
    getline find_char emplace
a_request = refl

parse-serialize_header_example :
    parse_http_header2 beq at_spaces
      (serialize_header (header_of (codes "GET") (codes "/") (codes "GET") fields) ++ codes "x")
    ≡ parsed (header_of (codes "GET") (codes "/") (codes "GET") stored)
unfolding beq lookup serialize_header request_text
parse-serialize_header_example =
    parse-serialize_header beq at_spaces at_spaces-IsSplit (codes "GET") (codes "/") fields
      (codes "x") get-IsWord slash-IsWord (codes "GET") get-IsWord fields-IsField (refl, (refl, tt))
      (search tt)

parse-request_text_example :
    parse_http_header2 beq at_spaces
      (request_text (header_of (codes "GET") (codes "/") (codes "?") fields) ++ [])
    ≡ parsed (header_of (codes "GET") (codes "/") (codes "HTTP/1.1") stored)
unfolding beq lookup serialize_header request_text
parse-request_text_example =
    parse-request_text beq at_spaces at_spaces-IsSplit (codes "GET") (codes "/") fields []
      get-IsWord slash-IsWord (codes "?") fields-IsField (refl, (refl, tt)) (search tt)
