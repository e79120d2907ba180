-- ===== src/Http/Signer/Oss/Tests.antt =====
-- A request with two headers, in both orders, under keys that are compared in lower case.
use obelisk_asio_coro.Base.{
  ℕ, List, ◌∷◌, [], Bytes, Bool, ◌≡◌, refl, ap, ◌∙◌, codes, map, beq, beq→eq, beq_refl, arith,
}
use mathlib.Core.List.{Permᴰ}
use obelisk_asio_coro.Http.Header.{lookup, Meta}
use obelisk_asio_coro.Http.Io.Message.{to_lower}
use obelisk_asio_coro.Http.Signer.{Outside}
use obelisk_asio_coro.Http.Signer.Headers.{IsKeyEquality, Single}
use obelisk_asio_coro.Http.Signer.Oss.{AliyunOss, SendTime, sign_request}
use obelisk_asio_coro.Http.Signer.Oss.Order.{sign_request-Perm}

same_lowered : Bytes → Bytes → Bool
same_lowered a b = beq (map to_lower a) (map to_lower b)

to_lower-to_lower : (c : ℕ) → to_lower (to_lower c) ≡ to_lower c
unfolding to_lower
to_lower-to_lower c = ground arith

lower-lower : (s : Bytes) → map to_lower (map to_lower s) ≡ map to_lower s
unfolding to_lower
lower-lower [] = refl
lower-lower (x ∷ s) =
    ap (λ z. z ∷ map to_lower (map to_lower s)) (to_lower-to_lower x)
    ∙ ap (◌∷◌ (to_lower x)) (lower-lower s)

same_lowered-IsKeyEquality : IsKeyEquality same_lowered
unfolding same_lowered
same_lowered-IsKeyEquality = record {
  same_sym = λ a b h. rw (beq→eq (map to_lower a) (map to_lower b) h) (beq_refl (map to_lower b));
  same_trans = λ a b c h k. rw (beq→eq (map to_lower a) (map to_lower b) h) k;
  same_lower = λ a. rw (lower-lower a) (beq_refl (map to_lower a));
}

abbrev outside : Outside
outside = record {
  sha256 = λ s. s;
  hmac = λ key s. key;
  hex_lower = λ s. s;
  url_encode = λ s. s;
  replace_all = λ s p q. s;
  date = codes "Mon, 01 Jan 2024 00:00:00 GMT";
  nonce = codes "0";
}

abbrev time : SendTime
time = record { stamp = codes "20240101T000000Z"; day = codes "20240101" }

abbrev storage : AliyunOss
storage = record {
  bucket = codes "b";
  region = codes "cn";
  ak_id = codes "id";
  ak_secret = codes "key";
}

abbrev upload : Meta
upload = record { p1 = codes "PUT"; p2 = codes "/a?x=1"; p3 = codes "HTTP/1.1" }

abbrev fields : List (Bytes × Bytes)
fields = (codes "Host", codes "h") ∷ (codes "Content-Type", codes "t") ∷ []

abbrev turned : List (Bytes × Bytes)
turned = (codes "Content-Type", codes "t") ∷ (codes "Host", codes "h") ∷ []

fields-Single : Single same_lowered same_lowered-IsKeyEquality fields
unfolding lookup same_lowered to_lower beq
fields-Single = (refl, (refl, tt))

sign_request-Perm_example :
    Permᴰ
      (sign_request same_lowered outside time storage
        (record { meta = upload; headers = fields })).headers
      (sign_request same_lowered outside time storage
        (record { meta = upload; headers = turned })).headers
sign_request-Perm_example =
    sign_request-Perm same_lowered same_lowered-IsKeyEquality outside time storage upload fields
      turned (Permᴰ.swap refl refl) fields-Single
