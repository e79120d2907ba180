-- ===== src/Http/Signer/Digest/Tests.antt =====
-- A body of a signed request.
use obelisk_asio_coro.Base.{[], ◌∷◌, some, none, codes, ◌++◌, ◌≡◌, refl, arith, true}
use obelisk_asio_coro.Http.Multipart.Stream.{InStream, opened}
use obelisk_asio_coro.Http.Signer.Digest.{sha_256_body, read_row, feed}
use obelisk_asio_coro.Http.Signer.Digest.Drained.{sha_256_body-drained}

feed_run :
    feed 4 2 (opened (codes "body") 0) []
    ≡ some (codes "body", record { text = codes "body"; position = 4; eof = true; fail = true })
unfolding feed
feed_run = refl

sha_256_body-drained_example :
    (body : InStream) × (sha_256_body
        (λ s. codes "digest" ++ s)
        10240
        10
        (some (opened (codes "{}") 0))
      ≡ some (codes "digest{}", some body))
    × (read_row 9 262144 [] (opened (codes "POST / HTTP/1.1") 0 ∷ body ∷ []) ≡ none)
sha_256_body-drained_example =
    sha_256_body-drained (λ s. codes "digest" ++ s) 10240 10 9 262144 (codes "{}")
      (codes "POST / HTTP/1.1") (omega arith) (omega arith) (omega arith)
