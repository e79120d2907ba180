-- ===== src/Http/Header.antt =====
-- The header of a message: include/obelisk/http/core/raw.h, `parser_v3::parse_http_header2` of
-- source/http/parser_v2/http_parser_v3.cpp, and the texts that http_response.cpp and http_client.cpp
-- write. The case-insensitive map of the headers is a list in the order of insertion; its equality of
-- keys, which the sahara library decides, is a parameter, and so is Boost's `split` at spaces.
pub mod Lines
pub mod RoundTrip
pub mod Tests
use obelisk_asio_coro.Base.{
  ℕ, zero, suc, ◌+◌, Bool, true, false, Bytes, codes, List, [], ◌∷◌, ◌++◌, Option, none, some,
  is_empty, find_char, text_until, take, drop, length, if◌then◌else◌, ◌==◌,
}

-- `http_meta_raw`
pub record Meta : Type 0 where
  pub p1 : Bytes
  pub p2 : Bytes
  pub p3 : Bytes

-- `http_header_raw`
pub record Header : Type 0 where
  pub meta : Meta
  pub headers : List (Bytes × Bytes)

-- What the parser makes of a text: a header, `false`, or undefined behaviour (`pop_back` on an empty
-- line). The last case says that the fuel was too small.
pub data Parse : Type 0 where
  parsed : Header → Parse
  rejected : Parse
  undefined : Parse
  out_of_fuel : Parse

-- `std::getline`: the characters up to the next newline, which is dropped, and the rest; `none` at the
-- end of the stream.
unfoldable pub line_of : Bytes → Bytes
line_of [] = []
line_of (x ∷ xs) = if x == 10 then [] else x ∷ line_of xs

unfoldable pub rest_of : Bytes → Bytes
rest_of [] = []
rest_of (x ∷ xs) = if x == 10 then xs else rest_of xs

unfoldable pub getline : Bytes → Option (Bytes × Bytes)
unfolding line_of rest_of
getline [] = none
getline (x ∷ xs) = some (line_of (x ∷ xs), rest_of (x ∷ xs))

-- `std::string::pop_back`; `none` where it is undefined.
unfoldable pub pop_back : Bytes → Option Bytes
pop_back [] = none
pop_back (x ∷ []) = some []
pop_back (x ∷ y ∷ xs) = elim (pop_back (y ∷ xs)) [ none ↦ none | some s ↦ some (x ∷ s) ]

-- The three words of the first line.
unfoldable pub meta_of : List Bytes → Option Meta
meta_of (a ∷ b ∷ c ∷ []) = some (record { p1 = a; p2 = b; p3 = c })
meta_of _ = none

module _ (same_key : Bytes → Bytes → Bool) where
  -- The value under a key: `contains` and `[]` of the map.
  unfoldable pub lookup : Bytes → List (Bytes × Bytes) → Option Bytes
  lookup key [] = none
  lookup key ((k, v) ∷ hs) = if same_key k key then some v else lookup key hs

  -- `emplace` keeps the value that a key has.
  unfoldable pub emplace : Bytes → Bytes → List (Bytes × Bytes) → List (Bytes × Bytes)
  emplace key value [] = (key, value) ∷ []
  emplace key value ((k, v) ∷ hs) =
      if same_key k key then (k, v) ∷ hs else (k, v) ∷ emplace key value hs

  -- The loop over the header lines.
  unfoldable pub parse_lines : ℕ → Meta → List (Bytes × Bytes) → Bytes → Parse
  parse_lines zero m hs text = out_of_fuel
  parse_lines (suc fuel) m hs text = elim (getline text) [
    | none ↦ parsed (record { meta = m; headers = hs })
    | some (line, rest) ↦ elim (pop_back line) [
      | none ↦ undefined
      | some l ↦ elim (is_empty l) [
        | true ↦ parsed (record { meta = m; headers = hs })
        | false ↦ elim (find_char b':' l) [
          | none ↦ parse_lines fuel m hs rest
          | some pos ↦ parse_lines fuel m (emplace (take pos l) (drop (pos + 1) l) hs) rest
        ]
      ]
    ]
  ]

  -- `text` is what stands in memory from the start of the view on. The stream is made from a C string,
  -- which ends at the first zero byte. The first `getline` is not tested: an empty text gives an empty
  -- line.
  module _ (split : Bytes → List Bytes) where
    unfoldable pub parse_first : Bytes → Bytes → Parse
    parse_first line rest = elim (pop_back line) [
      | none ↦ undefined
      | some l ↦ elim (meta_of (split l)) [
        | none ↦ rejected
        | some m ↦ parse_lines (suc (length rest)) m [] rest
      ]
    ]

    unfoldable pub parse_http_header2 : Bytes → Parse
    unfolding text_until
    parse_http_header2 text =
        let read = text_until 0 text in parse_first (line_of read) (rest_of read)

-- The lines that `http_response::serialize_header` and `base_client::make_iodata_` write.
unfoldable pub serialize_headers : List (Bytes × Bytes) → Bytes
serialize_headers [] = codes "\r\n"
serialize_headers ((k, v) ∷ hs) = k ++ (codes ": " ++ (v ++ (codes "\r\n" ++ serialize_headers hs)))

-- `http_response::serialize_header`
unfoldable pub serialize_header : Header → Bytes
unfolding serialize_headers
serialize_header h =
    h.meta.p1
    ++ (codes " "
        ++ (h.meta.p2
            ++ (codes " " ++ (h.meta.p3 ++ (codes "\r\n" ++ serialize_headers h.headers)))))

-- The request text of `base_client::make_iodata_`.
unfoldable pub request_text : Header → Bytes
unfolding serialize_headers
request_text h =
    h.meta.p1
    ++ (codes " " ++ (h.meta.p2 ++ (codes " HTTP/1.1\r\n" ++ serialize_headers h.headers)))
