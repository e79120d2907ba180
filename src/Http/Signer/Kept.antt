-- ===== src/Http/Signer/Kept.antt =====
-- What signing leaves of the headers that a request has.
use obelisk_asio_coro.Base.{
  List, ◌∷◌, [], some, none, Option, Bytes, Bool, ◌≡◌, Bool-cases, Option-cases, codes, inl, inr,
  ap, sym, ◌∙◌,
}
use obelisk_asio_coro.Http.Signer.{
  header_at, sign_request, header_lines, prepared, Outside, sort, signed_names,
  canonical_query_string, query_of,
}
use obelisk_asio_coro.Http.Header.{lookup, Header, emplace}

headers_of : Option Header → List (Bytes × Bytes)
headers_of none = []
headers_of (some h) = h.headers

module _ (same_key : Bytes → Bytes → Bool) where
  -- A header that is there keeps its value when another one, or itself, is added.
  emplace-keeps :
      (k m v w : Bytes) (hs : List (Bytes × Bytes))
      → lookup same_key k hs ≡ some w
      → lookup same_key k (emplace same_key m v hs) ≡ some w
  unfolding lookup emplace
  emplace-keeps k m v w [] h = absurd cc
  emplace-keeps k m v w ((key, x) ∷ hs) h = elim (Bool-cases (same_key key m)) [
    | inl same ↦ rw (same, emplace) h
    | inr other ↦ elim (Bool-cases (same_key key k)) [
      | inl here ↦ rw (other, emplace) (rw (here, lookup) (rw (here) at h))
      | inr there ↦
          rw (other, emplace) (rw (there, lookup) (emplace-keeps k m v w hs (rw (there) at h)))
    ]
  ]

  header_at-keeps :
      (o : Outside) (k key w : Bytes) (hs : List (Bytes × Bytes))
      → lookup same_key k hs ≡ some w
      → lookup same_key k (header_at same_key o key hs).1 ≡ some w
  unfolding header_at
  header_at-keeps o k key w hs h = elim (Option-cases (lookup same_key key hs)) [
    | inl missing ↦ rw (missing, header_at) (emplace-keeps k key [] w hs h)
    | inr (v, found) ↦ rw (found, header_at) h
  ]

  header_lines-keeps :
      (o : Outside) (k w : Bytes) (names : List Bytes) (hs : List (Bytes × Bytes))
      → lookup same_key k hs ≡ some w
      → lookup same_key k (header_lines same_key o names hs).1 ≡ some w
  unfolding header_lines
  header_lines-keeps o k w [] hs h = h
  header_lines-keeps o k w (name ∷ names) hs h =
      header_lines-keeps o k w names (header_at same_key o name hs).1
        (header_at-keeps o k name w hs h)

  -- Signing never changes a header that a request has: neither one of the caller nor, when a request
  -- is signed for a second time, the date, the nonce and the signature of the first.
  pub sign_request-keeps :
      (o : Outside) (access_key_id ak_secret k w : Bytes) (h h' : Header) (body : Option Bytes)
      → sign_request same_key o access_key_id ak_secret h body ≡ some h'
      → lookup same_key k h.headers ≡ some w
      → lookup same_key k h'.headers ≡ some w
  unfolding sign_request prepared headers_of
  sign_request-keeps o access_key_id ak_secret k w h h' body e found =
      let hs = prepared same_key o body h.headers in
      let kept = emplace-keeps k (codes "x-acs-signature-nonce") o.nonce w _ (
        emplace-keeps k (codes "x-acs-date") o.date w _
          (emplace-keeps k (codes "x-acs-content-sha256") _ w h.headers found)) in
      let lines = header_lines same_key o (sort (signed_names hs)) hs in
      let digest =
        header_at-keeps o k (codes "x-acs-content-sha256") w lines.1
          (header_lines-keeps o k w (sort (signed_names hs)) hs kept) in
      elim (Option-cases (canonical_query_string o (query_of h.meta.p2))) [
        | inl thrown ↦ absurd (let f : none ≡ some h' = (rw (thrown, sign_request) at e) in cc)
        | inr (query, encoded) ↦
            let f = (rw (encoded, sign_request) at e) in
            ap (λ z. lookup same_key k (headers_of z)) (sym f)
            ∙ emplace-keeps k (codes "Authorization") _ w _ digest
      ]
