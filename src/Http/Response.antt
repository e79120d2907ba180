-- ===== src/Http/Response.antt =====
-- Responses: http_response.cpp of source/http/core, and the responses of source/http/response. What
-- `json.dump()` of nlohmann writes is a parameter.
use obelisk_asio_coro.Base.{
  ℕ, List, ◌∷◌, [], if◌then◌else◌, some, none, Bytes, Option, Bool, ◌==◌, codes, show_ℕ, length,
  ◌++◌,
}
use obelisk_asio_coro.Http.Header.{Header, emplace, serialize_header}
use obelisk_asio_coro.Http.Json.{Json}

-- `header_` and the bytes of `body_`.
pub record Response : Type 0 where
  pub header : Header
  pub body : Option Bytes

-- `resp_status_map_`
abbrev pub resp_status_map : List (ℕ × Bytes)
resp_status_map =
    (100, codes "Continue")
    ∷ (200, codes "OK")
    ∷ (201, codes "Created")
    ∷ (202, codes "Accepted")
    ∷ (204, codes "No Content")
    ∷ (301, codes "Moved Permanently")
    ∷ (302, codes "Found")
    ∷ (304, codes "Not Modified")
    ∷ (305, codes "Use Proxy")
    ∷ (307, codes "Temporary Redirect")
    ∷ (400, codes "Bad Request")
    ∷ (401, codes "Unauthorized")
    ∷ (403, codes "Forbidden")
    ∷ (404, codes "Not Found")
    ∷ (405, codes "Method Not Allowed")
    ∷ (406, codes "Not Acceptable")
    ∷ (407, codes "Proxy Authentication Required")
    ∷ (408, codes "Request Timeout")
    ∷ (409, codes "Conflict")
    ∷ (410, codes "Gone")
    ∷ (411, codes "Length Required")
    ∷ (412, codes "Precondition Failed")
    ∷ (413, codes "Request Entity Too Large")
    ∷ (414, codes "Request-URI Too Long")
    ∷ (415, codes "Unsupported Media Type")
    ∷ (416, codes "Requested Range Not Satisfiable")
    ∷ (417, codes "Expectation Failed")
    ∷ (422, codes "Unprocessable Content")
    ∷ (429, codes "Too Many Requests")
    ∷ (500, codes "Internal Server Error")
    ∷ (501, codes "Not Implemented")
    ∷ (502, codes "Bad Gateway")
    ∷ (503, codes "Service Unavailable")
    ∷ (504, codes "Gateway Timeout")
    ∷ (505, codes "HTTP Version Not Supported")
    ∷ []

-- `resp_status_map_[code]`: a code that is not in the map gets the empty text.
unfoldable reason_from : List (ℕ × Bytes) → ℕ → Bytes
reason_from [] code = []
reason_from ((k, text) ∷ rest) code = if k == code then text else reason_from rest code

unfoldable reason : ℕ → Bytes
unfolding reason_from
reason code = reason_from resp_status_map code

-- The constructor of http_response from a code.
unfoldable pub new_header : ℕ → Header
unfolding reason
new_header code = record {
  meta = record { p1 = codes "HTTP/1.1"; p2 = show_ℕ code; p3 = reason code };
  headers = [];
}

unfoldable pub body_bytes : Option Bytes → Bytes
body_bytes none = []
body_bytes (some b) = b

module _ (same_key : Bytes → Bytes → Bool) where
  unfoldable pub add_header : Bytes → Bytes → Header → Header
  unfolding emplace
  add_header key value h = record { meta = h.meta; headers = emplace same_key key value h.headers }

  unfoldable pub empty_response : Response
  unfolding new_header add_header
  empty_response = record {
    header = add_header (codes "Content-Type") (codes "application/json") (
        add_header (codes "Content-Length") (codes "0")
          (add_header (codes "Connection") (codes "keep-alive") (new_header 200)));
    body = none;
  }

  unfoldable pub json_response : (Json → Bytes) → Json → ℕ → Response
  unfolding new_header add_header
  json_response dump json code = record {
    header = add_header (codes "Content-Type") (codes "application/json") (new_header code);
    body = some (dump json);
  }

  -- `serialize`: the length of a body is added unless the handler gave one.
  unfoldable pub complete : Response → Header
  unfolding add_header
  complete r = elim (r.body) [
    | none ↦ r.header
    | some b ↦ add_header (codes "Content-Length") (show_ℕ (length b)) r.header
  ]

  unfoldable pub serialize : Response → Bytes
  unfolding complete serialize_header body_bytes
  serialize r = serialize_header (complete r) ++ body_bytes r.body
