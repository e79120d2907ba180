-- ===== src/Http/Request.antt =====
-- A request as handlers see it: http_request_wrapper of source/http/core/http_request.cpp. What no
-- operation of the class can change stands in a record of its own.
use obelisk_asio_coro.Base.{
  ℕ, List, ◌∷◌, [], some, none, Bytes, drop, Option, find_char, Lacks, ◌+◌, length, ◌++◌, take, ◌≡◌,
  suc, find_char-append, arith, take-length-append, ap, ◌∙◌, refl,
}
use obelisk_asio_coro.Http.Header.{Header}
use obelisk_asio_coro.Http.Json.{Params}

-- `meta_.p1_` and `meta_.p2_`: the method and the path as it was sent.
pub record RequestLine : Type 0 where
  pub method : Bytes
  pub path : Bytes

-- `http_file`, without the file itself.
pub record File : Type 0 where
  pub temp_path : Bytes
  pub filename : Bytes
  pub mime_type : Bytes

pub record RequestData : Type 0 where
  pub version : Bytes
  pub headers : List (Bytes × Bytes)
  pub raw_body : Option Bytes
  pub filebag : List (Bytes × File)
  pub params : Params

-- The constructor, from the header of the message and its body.
unfoldable pub request_line : Header → RequestLine
request_line h = record { method = h.meta.p1; path = h.meta.p2 }

unfoldable pub request_data : Header → Option Bytes → RequestData
request_data h body = record {
  version = h.meta.p3;
  headers = h.headers;
  raw_body = body;
  filebag = [];
  params = [];
}

-- `target()`: the path in front of the first question mark.
unfoldable pub target : RequestLine → Bytes
target line = elim (find_char b'?' line.path) [ none ↦ line.path | some pos ↦ take pos line.path ]

-- `query_string()`: its length is one too many, so the view holds the zero byte behind the string too.
unfoldable pub query_string : RequestLine → Bytes
query_string line = elim (find_char b'?' line.path) [
  | none ↦ []
  | some pos ↦ drop (pos + 1) line.path ++ (0 ∷ [])
]

drop-behind : (t q : Bytes) (c : ℕ) → drop (length t + 1) (t ++ c ∷ q) ≡ q
drop-behind [] q c = refl
drop-behind (x ∷ t) q c =
    let one : suc (length t) + 1 ≡ suc (length t + 1) = omega arith in
    ap (λ k. drop k (x ∷ (t ++ c ∷ q))) one ∙ drop-behind t q c

-- A path that is cut at its first question mark is the target and the query, and the query string
-- that the class gives has a zero byte behind it.
pub target-query_string :
    (method t q : Bytes)
    → Lacks b'?' t
    → (target (record { method = method; path = t ++ b'?' ∷ q }) ≡ t)
      × (query_string (record { method = method; path = t ++ b'?' ∷ q }) ≡ q ++ (0 ∷ []))
unfolding target query_string
target-query_string method t q h =
    let found = find_char-append b'?' t q h in
    (
      rw (found, target) (take-length-append t (b'?' ∷ q)),
      rw (found, query_string) (ap (λ z. z ++ (0 ∷ [])) (drop-behind t q b'?')),
    )
