-- ===== src/Http/Signer/Tests.antt =====
-- A request that is signed twice, with digests that keep the text.
use obelisk_asio_coro.Base.{◌∷◌, [], some, none, refl, codes, beq, ◌≡◌, find_char, starts_with}
use obelisk_asio_coro.Http.Signer.{canonical_query_string, sign_request, Outside}
use obelisk_asio_coro.Http.Header.{Header, lookup}
use obelisk_asio_coro.Http.Signer.Kept.{sign_request-keeps}

abbrev outside : Outside
outside = record {
  sha256 = λ s. s;
  hmac = λ key s. key;
  hex_lower = λ s. s;
  url_encode = λ s. s;
  replace_all = λ s p q. s;
  date = codes "today";
  nonce = codes "0";
}

abbrev asked : Header
asked = record {
  meta = record { p1 = codes "GET"; p2 = codes "/?b=2&a=1"; p3 = codes "HTTP/1.1" };
  headers = (codes "host", codes "h") ∷ (codes "Authorization", codes "old") ∷ [];
}

query_run : canonical_query_string outside (codes "b=2&a=1") ≡ some (codes "a=1&b=2")
unfolding canonical_query_string beq
query_run = refl

asked-old : lookup beq (codes "Authorization") asked.headers ≡ some (codes "old")
unfolding lookup beq
asked-old = refl

asked-signed :
    (h' : Header) × (sign_request beq outside (codes "id") (codes "key") asked none ≡ some h')
unfolding sign_request beq find_char starts_with
asked-signed = (_, refl)

sign_request-keeps_example :
    lookup beq (codes "Authorization") asked-signed.0.headers ≡ some (codes "old")
sign_request-keeps_example =
    sign_request-keeps beq outside (codes "id") (codes "key") (codes "Authorization") (codes "old")
      asked asked-signed.0 none asked-signed.1 asked-old
