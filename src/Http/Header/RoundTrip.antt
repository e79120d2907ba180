-- ===== src/Http/Header/RoundTrip.antt =====
-- Parsing what the library itself serialises: requests of its client and responses of its server.
use obelisk_asio_coro.Base.{
  ℕ, zero, suc, ◌≤◌, ◌<◌, ◌≡◌, refl, ◌∙◌, Bool, Bytes, codes, List, [], ◌∷◌, ◌++◌, none, some,
  length, map, All, Lacks, Lacks-append, text_until, text_until-append, append_assoc, append-nil,
  arith, length-append, ◌≢◌,
}
use obelisk_asio_coro.Http.Header.{
  Meta, Header, parsed, rejected, lookup, parse_lines, meta_of, parse_first, parse_http_header2,
  serialize_headers, serialize_header, request_text,
}
use obelisk_asio_coro.Http.Header.Lines.{
  parse_lines-line, parse_lines-blank, emplace-new, line_of-append, rest_of-append, pop_back-append,
}

-- A word of the first line.
abbrev pub IsWord : Bytes → Type 0
IsWord s = (s ≢ []) × Lacks b' ' s × Lacks 10 s

abbrev pub words : Bytes → List Bytes → Bytes
words w [] = w
words w (v ∷ vs) = w ++ b' ' ∷ words v vs

-- What Boost documents of `split` at spaces: words with one space between them are given back.
pub record IsSplit (split : Bytes → List Bytes) : Type 0 where
  pub split_words :
      (w : Bytes) (ws : List Bytes) → IsWord w → All IsWord ws → split (words w ws) ≡ w ∷ ws

-- A header field that can be read back: no colon or line end in the key, no line end in the value.
abbrev pub IsField : Bytes × Bytes → Type 0
IsField (k, v) = Lacks b':' k × Lacks 10 k × Lacks 10 v

-- A field as the parser stores it: the blank behind the colon stays in the value.
abbrev pub received : Bytes × Bytes → Bytes × Bytes
received (k, v) = (k, b' ' ∷ v)

words-Lacks : (w : Bytes) (ws : List Bytes) → IsWord w → All IsWord ws → Lacks 10 (words w ws)
words-Lacks w [] h hs = h.2
words-Lacks w (v ∷ vs) h (k, hs) = Lacks-append 10 w _ h.2 (refl, words-Lacks v vs k hs)

module _ (same_key : Bytes → Bytes → Bool) where
  -- No key is the key of an earlier field.
  abbrev pub Distinct : List (Bytes × Bytes) → List (Bytes × Bytes) → Type 0
  Distinct seen [] = Unit
  Distinct seen ((k, v) ∷ hs) =
      (lookup same_key k seen ≡ none) × Distinct (seen ++ (k, b' ' ∷ v) ∷ []) hs

  parse_lines-serialize_headers :
      (fuel : ℕ) (m : Meta) (seen hs : List (Bytes × Bytes)) (rest : Bytes)
      → length hs < fuel
      → All IsField hs
      → Distinct seen hs
      → parse_lines same_key fuel m seen (serialize_headers hs ++ rest)
        ≡ parsed (record { meta = m; headers = seen ++ map received hs })
  unfolding serialize_headers
  parse_lines-serialize_headers zero m seen hs rest enough fields distinct = absurd (omega arith)
  parse_lines-serialize_headers (suc fuel) m seen [] rest enough fields distinct =
      rw append-nil (parse_lines-blank same_key fuel m seen rest)
  parse_lines-serialize_headers (suc fuel) m seen ((k, v) ∷ hs) rest enough (f, fs) (new, ds) =
      simp append_assoc (
        rw
          (
            parse_lines-line same_key fuel m seen k v (serialize_headers hs ++ rest) f.0 f.1 f.2,
            emplace-new same_key k (b' ' ∷ v) seen new,
            parse_lines-serialize_headers fuel m (seen ++ (k, b' ' ∷ v) ∷ []) hs rest (omega arith)
                fs ds,
          )
          (simp append_assoc))

abbrev pub header_of : Bytes → Bytes → Bytes → List (Bytes × Bytes) → Header
header_of a b c hs = record { meta = record { p1 = a; p2 = b; p3 = c }; headers = hs }

http_1_1-IsWord : IsWord (codes "HTTP/1.1")
http_1_1-IsWord = ((λ e. cc), search tt, search tt)

length-serialize_headers :
    (hs : List (Bytes × Bytes)) (rest : Bytes) → length hs ≤ length (serialize_headers hs ++ rest)
unfolding serialize_headers
length-serialize_headers [] rest = omega arith
length-serialize_headers ((k, v) ∷ hs) rest = simp append_assoc (
    omega (
      arith,
      length-append k (codes ": " ++ (v ++ (codes "\r\n" ++ (serialize_headers hs ++ rest)))),
      length-append v (codes "\r\n" ++ (serialize_headers hs ++ rest)),
      length-serialize_headers hs rest,
    ))

regroup_first :
    (a b w : Bytes) (ws : List Bytes) (hs : List (Bytes × Bytes)) (rest : Bytes)
    → serialize_header (header_of a b (words w ws) hs) ++ rest
      ≡ (words a (b ∷ w ∷ ws) ++ 13 ∷ []) ++ 10 ∷ (serialize_headers hs ++ rest)
unfolding serialize_header
regroup_first a b w ws hs rest = simp append_assoc

module _ (same_key : Bytes → Bytes → Bool) (split : Bytes → List Bytes) (law : IsSplit split)
    (a b w : Bytes) (ws : List Bytes) (hs : List (Bytes × Bytes)) (rest : Bytes) (first : IsWord a)
    (second : IsWord b) (third : IsWord w) (others : All IsWord ws) where
  parse_http_header2-first :
      Lacks 0 (serialize_header (header_of a b (words w ws) hs))
      → parse_http_header2 same_key split (serialize_header (header_of a b (words w ws) hs) ++ rest)
        ≡ parse_first same_key split
            (words a (b ∷ w ∷ ws) ++ 13 ∷ [])
            (serialize_headers hs ++ text_until 0 rest)
  unfolding parse_http_header2
  parse_http_header2-first no_zero =
      let lacks =
        Lacks-append 10 (words a (b ∷ w ∷ ws)) (13 ∷ [])
          (words-Lacks a (b ∷ w ∷ ws) first (second, (third, others))) (refl, tt) in
      rw (
        text_until-append 0 (serialize_header (header_of a b (words w ws) hs)) rest no_zero,
        regroup_first a b w ws hs (text_until 0 rest),
        line_of-append (words a (b ∷ w ∷ ws) ++ 13 ∷ []) (serialize_headers hs ++ text_until 0 rest)
            lacks,
        rest_of-append (words a (b ∷ w ∷ ws) ++ 13 ∷ []) (serialize_headers hs ++ text_until 0 rest)
            lacks,
      )

  parse_first-words :
      parse_first same_key split (words a (b ∷ w ∷ ws) ++ 13 ∷ []) (serialize_headers hs ++ rest)
      ≡ elim (meta_of (a ∷ b ∷ w ∷ ws)) [
        | none ↦ rejected
        | some m ↦
            parse_lines same_key
              (suc (length (serialize_headers hs ++ rest)))
              m
              []
              (serialize_headers hs ++ rest)
      ]
  unfolding parse_first
  parse_first-words =
      rw (pop_back-append (words a (b ∷ w ∷ ws)) 13, parse_first)
        (rw (law.split_words a (b ∷ w ∷ ws) first (second, (third, others)), parse_first))

module _ (same_key : Bytes → Bytes → Bool) (split : Bytes → List Bytes) (law : IsSplit split)
    (a b : Bytes) (hs : List (Bytes × Bytes)) (rest : Bytes) (first : IsWord a)
    (second : IsWord b) where
  -- The text of a header whose third part is one word, with anything behind it, is parsed to that
  -- header, with a blank in front of each value. The fields have distinct keys without a colon, and
  -- neither they nor the three words hold a line end or a zero byte; `split` splits at spaces.
  pub parse-serialize_header :
      (w : Bytes)
      → IsWord w
      → All IsField hs
      → Distinct same_key [] hs
      → Lacks 0 (serialize_header (header_of a b w hs))
      → parse_http_header2 same_key split (serialize_header (header_of a b w hs) ++ rest)
        ≡ parsed (header_of a b w (map received hs))
  unfolding meta_of
  parse-serialize_header w third fields distinct no_zero =
      parse_http_header2-first same_key split law a b w [] hs rest first second third tt no_zero
      ∙ parse_first-words same_key split law a b w [] hs (text_until 0 rest) first second third tt
      ∙ parse_lines-serialize_headers same_key _ _ [] hs (text_until 0 rest)
          (omega (arith, length-serialize_headers hs (text_until 0 rest))) fields distinct

  -- Where the third part is of two words or more, as in `404 Not Found`, the text is rejected.
  pub parse-serialize_phrase :
      (w v : Bytes) (ws : List Bytes)
      → IsWord w
      → IsWord v
      → All IsWord ws
      → Lacks 0 (serialize_header (header_of a b (words w (v ∷ ws)) hs))
      → parse_http_header2 same_key split
          (serialize_header (header_of a b (words w (v ∷ ws)) hs) ++ rest)
        ≡ rejected
  unfolding meta_of
  parse-serialize_phrase w v ws third fourth others no_zero =
      parse_http_header2-first same_key split law a b w (v ∷ ws) hs rest first second third
        (fourth, others) no_zero
      ∙ parse_first-words same_key split law a b w (v ∷ ws) hs (text_until 0 rest) first second
          third (fourth, others)

  -- A request of the client is read back by the server, under the same conditions.
  pub parse-request_text :
      (protocol : Bytes)
      → All IsField hs
      → Distinct same_key [] hs
      → Lacks 0 (request_text (header_of a b protocol hs))
      → parse_http_header2 same_key split (request_text (header_of a b protocol hs) ++ rest)
        ≡ parsed (header_of a b (codes "HTTP/1.1") (map received hs))
  unfolding request_text serialize_header
  parse-request_text protocol fields distinct no_zero =
      parse-serialize_header (codes "HTTP/1.1") http_1_1-IsWord fields distinct no_zero
