-- ===== src/Http/Signer.antt =====
-- The signer of the OpenAPI requests: include/obelisk/http/client/signer/aliyun_openapi.h. The
-- digests of Crypto++, `hex_lower` and `replace_all` of Boost, the encoding of sahara, the clock and the uuid are
-- parameters.
pub mod Kept
pub mod Digest
pub mod Sorted
pub mod Headers
pub mod Oss
mod Tests
use obelisk_asio_coro.Base.{
  ℕ, List, ◌∷◌, [], if◌then◌else◌, some, none, true, false, Option, Bytes, ◌++◌, is_empty, Bool,
  find_char, map, codes, take, drop, starts_with, ◌==◌, ◌||◌, ltb, ◌+◌, beq,
}
use obelisk_asio_coro.Http.Io.Message.{to_lower}
use obelisk_asio_coro.Http.Json.{Json, param, Params, string}
use obelisk_asio_coro.Http.Params.{parse_urlencoded_param}
use obelisk_asio_coro.Http.Header.{Meta, emplace, lookup, Header}

-- What is taken from elsewhere. `date` is the text of the current time, and `nonce` a uuid without
-- its dashes.
pub record Outside : Type 0 where
  pub sha256 : Bytes → Bytes
  pub hmac : Bytes → Bytes → Bytes
  pub hex_lower : Bytes → Bytes
  pub url_encode : Bytes → Bytes
  pub replace_all : Bytes → Bytes → Bytes → Bytes
  pub date : Bytes
  pub nonce : Bytes

-- `a <= b` on strings, and `std::ranges::sort`.
unfoldable pub text_leb : Bytes → Bytes → Bool
text_leb [] b = true
text_leb (x ∷ a) [] = false
text_leb (x ∷ a) (y ∷ b) = if x == y then text_leb a b else ltb x y

unfoldable pub insert_text : Bytes → List Bytes → List Bytes
unfolding text_leb
insert_text a [] = a ∷ []
insert_text a (b ∷ bs) = if text_leb a b then a ∷ b ∷ bs else b ∷ insert_text a bs

unfoldable pub sort : List Bytes → List Bytes
unfolding insert_text
sort [] = []
sort (a ∷ rest) = insert_text a (sort rest)

-- The names that are signed, in lower case.
unfoldable is_signed : Bytes → Bool
is_signed name =
    starts_with name (codes "x-acs-")
    || (beq name (codes "host") || beq name (codes "content-type"))

unfoldable pub signed_names : List (Bytes × Bytes) → List Bytes
unfolding is_signed to_lower
signed_names [] = []
signed_names ((key, value) ∷ hs) =
    let name = map to_lower key in
    if is_signed name then name ∷ signed_names hs else signed_names hs

unfoldable pub join_names : List Bytes → Bytes
join_names [] = []
join_names (a ∷ []) = a
join_names (a ∷ b ∷ bs) = a ++ (codes ";" ++ join_names (b ∷ bs))

-- `canonical_query_string_`: `none` is the exception for a field that is an array.
unfoldable encode_value : Outside → Json → Option Bytes
encode_value o (string s) = some (
    o.replace_all
      (o.replace_all
        (o.replace_all (o.replace_all (o.url_encode s) (codes "{") (codes "%7B")) (codes "}")
          (codes "%7D"))
        (codes ":") (codes "%3A"))
      (codes "\"") (codes "%22"))
encode_value o _ = none

unfoldable query_from : Outside → Params → Bytes → List Bytes → Option Bytes
unfolding param encode_value
query_from o params result [] = some result
query_from o params result (key ∷ keys) = elim (param key params) [
  | none ↦ none
  | some v ↦ elim (encode_value o v) [
    | none ↦ none
    | some encoded ↦
        query_from o params
          ((if is_empty result then result else result ++ codes "&")
            ++ (key ++ (codes "=" ++ encoded)))
          keys
  ]
]

unfoldable pub canonical_query_string : Outside → Bytes → Option Bytes
unfolding query_from sort parse_urlencoded_param
canonical_query_string o query =
    let r = parse_urlencoded_param query [] in
    if is_empty query
    then some []
    else if r.0
    then query_from o r.1 [] (sort (map (λ p. p.0) r.1))
    else none

-- `query` is empty when there is no question mark, and has no zero byte behind it here.
unfoldable pub query_of : Bytes → Bytes
query_of path = elim (find_char b'?' path) [ none ↦ [] | some pos ↦ drop (pos + 1) path ]

unfoldable pub path_of : Bytes → Bytes
path_of path = elim (find_char b'?' path) [ none ↦ path | some pos ↦ take pos path ]

module _ (same_key : Bytes → Bytes → Bool) (o : Outside) where
  -- `headers_[key]`: a missing key is added with an empty value.
  unfoldable pub header_at : Bytes → List (Bytes × Bytes) → Bytes × List (Bytes × Bytes)
  unfolding lookup emplace
  header_at key hs = elim (lookup same_key key hs) [
    | none ↦ ([], emplace same_key key [] hs)
    | some v ↦ (v, hs)
  ]

  -- The lines of the signed headers.
  unfoldable pub header_lines : List Bytes → List (Bytes × Bytes) → Bytes × List (Bytes × Bytes)
  unfolding header_at
  header_lines [] hs = ([], hs)
  header_lines (name ∷ names) hs =
      let r = header_at name hs in
      let rest = header_lines names r.1 in
      (name ++ (codes ":" ++ (r.0 ++ (codes "\n" ++ rest.0))), rest.1)

  -- The digest of a body is stored as it is, that of no body in hexadecimal digits.
  unfoldable pub prepared : Option Bytes → List (Bytes × Bytes) → List (Bytes × Bytes)
  unfolding emplace
  prepared body hs =
      let digest : Bytes = elim body [
        | some b ↦ o.sha256 b
        | none ↦ codes "e3b0c44298fc1c149afbf4c8996fb92427ae41e4649b934ca495991b7852b855"
      ] in
      emplace same_key (codes "x-acs-signature-nonce") o.nonce (
        emplace same_key (codes "x-acs-date") o.date
          (emplace same_key (codes "x-acs-content-sha256") digest hs))

  -- The text that is signed, from the canonical query and the lines of the headers.
  unfoldable pub canonical_request : Meta → Bytes → Bytes → Bytes → Bytes → Bytes
  unfolding path_of
  canonical_request m query lines names digest =
      m.p1
      ++ (codes "\n"
          ++ (path_of m.p2
              ++ (codes "\n"
                  ++ (query
                      ++ (codes "\n"
                          ++ (lines ++ (codes "\n" ++ (names ++ (codes "\n" ++ digest)))))))))

  unfoldable pub authorization : Bytes → Bytes → Bytes → Bytes → Bytes
  authorization access_key_id ak_secret names request =
      codes "ACS3-HMAC-SHA256 Credential="
      ++ (access_key_id
          ++ (codes ",SignedHeaders="
              ++ (names
                  ++ (codes ",Signature="
                      ++ o.hex_lower (
                          o.hmac ak_secret
                            (codes "ACS3-HMAC-SHA256\n" ++ o.hex_lower (o.sha256 request)))))))

  -- `sign_request`
  unfoldable pub sign_request : Bytes → Bytes → Header → Option Bytes → Option Header
  unfolding prepared signed_names sort join_names header_lines header_at canonical_query_string
      query_of canonical_request authorization emplace
  sign_request access_key_id ak_secret h body =
      let hs = prepared body h.headers in
      let names = sort (signed_names hs) in
      let lines = header_lines names hs in
      let digest = header_at (codes "x-acs-content-sha256") lines.1 in
      elim (canonical_query_string o (query_of h.meta.p2)) [
        | none ↦ none
        | some query ↦ some (record {
          meta = h.meta;
          headers =
              emplace same_key (codes "Authorization")
                (authorization access_key_id ak_secret (join_names names)
                  (canonical_request h.meta query lines.0 (join_names names) digest.0))
                digest.1;
        })
      ]
