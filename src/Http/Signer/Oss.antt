-- ===== src/Http/Signer/Oss.antt =====
-- The signer of the object storage: `sign_request` of include/obelisk/http/client/signer/aliyun_oss.h.
-- The digests of Crypto++, the texts of the time and `hex_lower` of Boost are parameters.
pub mod Order
mod Tests
use obelisk_asio_coro.Base.{
  List, ◌∷◌, [], if◌then◌else◌, some, none, Option, Bytes, ◌++◌, is_empty, Bool, map, codes,
  starts_with, ◌||◌, beq,
}
use obelisk_asio_coro.Http.Io.Message.{to_lower}
use obelisk_asio_coro.Http.Header.{Meta, Header, emplace, lookup}
use obelisk_asio_coro.Http.Signer.{Outside, sort, join_names, header_lines, query_of, path_of}

-- The members of `aliyun_oss`.
pub record AliyunOss : Type 0 where
  pub bucket : Bytes
  pub region : Bytes
  pub ak_id : Bytes
  pub ak_secret : Bytes

-- The time of the call, as `%Y%m%dT%H%M%OSZ` and as `%Y%m%d`. The text of the header Date is `date` of
-- `Outside`.
pub record SendTime : Type 0 where
  pub stamp : Bytes
  pub day : Bytes

-- The keys of all headers in lower case.
unfoldable pub canonical_headers : List (Bytes × Bytes) → List Bytes
unfolding to_lower
canonical_headers [] = []
canonical_headers ((key, value) ∷ hs) = map to_lower key ∷ canonical_headers hs

unfoldable pub is_default : Bytes → Bool
is_default name =
    beq name (codes "content-md5")
    || (beq name (codes "content-type") || starts_with name (codes "x-oss-"))

-- Those that the storage does not sign by default.
unfoldable pub additional_headers : List (Bytes × Bytes) → List Bytes
unfolding to_lower is_default
additional_headers [] = []
additional_headers ((key, value) ∷ hs) =
    let name = map to_lower key in
    if is_default name then additional_headers hs else name ∷ additional_headers hs

module _ (same_key : Bytes → Bytes → Bool) (o : Outside) (time : SendTime) where
  -- The headers that are signed with those of the request.
  unfoldable pub with_time : List (Bytes × Bytes) → List (Bytes × Bytes)
  unfolding emplace
  with_time hs =
      emplace same_key (codes "x-oss-date") time.stamp (emplace same_key (codes "Date") o.date hs)

  unfoldable pub with_payload : List (Bytes × Bytes) → List (Bytes × Bytes)
  unfolding emplace lookup
  with_payload hs = elim (lookup same_key (codes "x-oss-content-sha256") hs) [
    | none ↦ emplace same_key (codes "x-oss-content-sha256") (codes "UNSIGNED-PAYLOAD") hs
    | some v ↦ hs
  ]

  unfoldable pub canonical_request : Bytes → Meta → Bytes → Bytes → Bytes
  unfolding query_of path_of
  canonical_request bucket m lines additional =
      m.p1
      ++ (codes "\n/"
          ++ (bucket
              ++ (path_of m.p2
                  ++ (codes "\n"
                      ++ (query_of m.p2
                          ++ (codes "\n"
                              ++ (lines
                                  ++ (codes "\n"
                                      ++ (additional ++ codes "\nUNSIGNED-PAYLOAD")))))))))

  unfoldable pub scope : AliyunOss → Bytes
  scope a = time.day ++ (codes "/" ++ (a.region ++ codes "/oss/aliyun_v4_request"))

  unfoldable pub sign_key : AliyunOss → Bytes
  sign_key a =
      o.hmac
        (o.hmac (o.hmac (o.hmac (codes "aliyun_v4" ++ a.ak_secret) time.day) a.region)
          (codes "oss"))
        (codes "aliyun_v4_request")

  unfoldable pub string_to_sign : AliyunOss → Bytes → Bytes
  unfolding scope
  string_to_sign a request =
      codes "OSS4-HMAC-SHA256\n"
      ++ (time.stamp ++ (codes "\n" ++ (scope a ++ (codes "\n" ++ o.hex_lower (o.sha256 request)))))

  unfoldable pub authorization_header : AliyunOss → Bytes → Bytes → Bytes
  unfolding scope sign_key string_to_sign
  authorization_header a additional request =
      codes "OSS4-HMAC-SHA256 Credential="
      ++ (a.ak_id
          ++ (codes "/"
              ++ (scope a
                  ++ ((if is_empty additional
                        then []
                        else codes ",AdditionalHeaders=" ++ additional)
                      ++ (codes ",Signature="
                          ++ o.hex_lower (o.hmac (sign_key a) (string_to_sign a request)))))))

  -- `sign_request`
  unfoldable pub sign_request : AliyunOss → Header → Header
  unfolding with_time with_payload canonical_headers additional_headers sort join_names header_lines
      canonical_request authorization_header emplace
  sign_request a h =
      let hs = with_payload (with_time h.headers) in
      let lines = header_lines same_key o (sort (canonical_headers hs)) hs in
      let additional = join_names (sort (additional_headers hs)) in
      record {
        meta = h.meta;
        headers =
            emplace same_key (codes "Authorization")
              (authorization_header a additional
                (canonical_request a.bucket h.meta lines.0 additional))
              lines.1;
      }
