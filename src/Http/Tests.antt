-- ===== src/Http/Tests.antt =====
-- A number, a path and a response of the other modules of the HTTP part.
use obelisk_asio_coro.Base.{beq, refl, some, Bytes, Lacks, starts_with, show_ℕ, codes, ◌≡◌, beq}
use obelisk_asio_coro.Http.Numeral.{strtoull}
use obelisk_asio_coro.Http.Response.{serialize, new_header}
use obelisk_asio_coro.Http.Header.{emplace}

abbrev digits : Bytes
digits = codes " 1f"

digits_run : strtoull 16 digits ≡ some 31
unfolding strtoull starts_with
digits_run = refl

home-Lacks : Lacks b'?' (codes "/a")
home-Lacks = (refl, (refl, tt))

response_run :
    serialize beq (record { header = new_header 404; body = some (codes "{}") })
    ≡ codes "HTTP/1.1 404 Not Found\r\nContent-Length: 2\r\n\r\n{}"
unfolding serialize show_ℕ emplace beq new_header
response_run = refl
