-- ===== src/Http/Signer/Oss/Order.antt =====
-- `sign_request` of include/obelisk/http/client/signer/aliyun_oss.h on a map of headers that is iterated
-- in another order.
use obelisk_asio_coro.Base.{
  List, ◌∷◌, [], Bytes, Bool, Bool-cases, Option-cases, inl, inr, sym, ◌∙◌, refl, All, map, codes,
}
use mathlib.Core.List.{Permᴰ}
use mathlib.Core.List.Permᴰ as Permᴰ
use obelisk_asio_coro.Http.Header.{Meta, lookup, emplace}
use obelisk_asio_coro.Http.Io.Message.{to_lower}
use obelisk_asio_coro.Http.Signer.{Outside, sort}
use obelisk_asio_coro.Http.Signer.Sorted.{sort-Perm, sort-All, Perm-rec}
use obelisk_asio_coro.Http.Signer.Headers.{
  IsKeyEquality, Single, Found, Perm-SameValues, emplace-Single, emplace-Perm, header_lines-same,
  All-Found-cons, Found-lower,
}
use obelisk_asio_coro.Http.Signer.Oss.{
  AliyunOss, SendTime, canonical_headers, additional_headers, is_default, with_time, with_payload,
  sign_request,
}

canonical_headers-Perm :
    {hs hs' : List (Bytes × Bytes)}
    → Permᴰ hs hs'
    → Permᴰ (canonical_headers hs) (canonical_headers hs')
unfolding canonical_headers
canonical_headers-Perm =
    Perm-rec (λ xs ys. Permᴰ (canonical_headers xs) (canonical_headers ys)) Permᴰ.nil
      (λ a xs ys p. Permᴰ.cons refl p) (λ a b xs. Permᴰ.swap refl refl)
      (λ xs ys zs p q. Permᴰ.trans p q)

additional-cons :
    (a : Bytes × Bytes) (xs ys : List (Bytes × Bytes))
    → Permᴰ (additional_headers xs) (additional_headers ys)
    → Permᴰ (additional_headers (a ∷ xs)) (additional_headers (a ∷ ys))
unfolding additional_headers
additional-cons (k, v) xs ys p = elim (Bool-cases (is_default (map to_lower k))) [
  | inl known ↦ rw (known, additional_headers) p
  | inr unknown ↦ rw (unknown, additional_headers) (Permᴰ.cons refl p)
]

additional-swap :
    (a b : Bytes × Bytes) (xs : List (Bytes × Bytes))
    → Permᴰ (additional_headers (a ∷ b ∷ xs)) (additional_headers (b ∷ a ∷ xs))
unfolding additional_headers
additional-swap (k, v) (l, w) xs = elim (Bool-cases (is_default (map to_lower k))) [
  | inl known ↦ elim (Bool-cases (is_default (map to_lower l))) [
    | inl also ↦ rw (known, also, additional_headers) (Permᴰ.refl (additional_headers xs))
    | inr unknown ↦
        rw (known, unknown, additional_headers)
          (Permᴰ.refl (map to_lower l ∷ additional_headers xs))
  ]
  | inr unknown ↦ elim (Bool-cases (is_default (map to_lower l))) [
    | inl known ↦
        rw (unknown, known, additional_headers)
          (Permᴰ.refl (map to_lower k ∷ additional_headers xs))
    | inr also ↦ rw (unknown, also, additional_headers) (Permᴰ.swap refl refl)
  ]
]

additional_headers-Perm :
    {hs hs' : List (Bytes × Bytes)}
    → Permᴰ hs hs'
    → Permᴰ (additional_headers hs) (additional_headers hs')
additional_headers-Perm =
    Perm-rec (λ xs ys. Permᴰ (additional_headers xs) (additional_headers ys))
      (Permᴰ.refl (additional_headers [])) additional-cons additional-swap
      (λ xs ys zs p q. Permᴰ.trans p q)

module _ (same_key : Bytes → Bytes → Bool) (law : IsKeyEquality same_key) where
  canonical_headers-Found :
      (hs : List (Bytes × Bytes)) → All (Found same_key law hs) (canonical_headers hs)
  unfolding canonical_headers
  canonical_headers-Found [] = tt
  canonical_headers-Found ((k, v) ∷ hs) = (
    Found-lower same_key law k v hs,
    All-Found-cons same_key law (k, v) hs (canonical_headers hs) (canonical_headers-Found hs),
  )

  -- Both stay permutations with one value for each key.
  abbrev Reordered : List (Bytes × Bytes) → List (Bytes × Bytes) → Type 0
  Reordered hs hs' = Permᴰ hs hs' × Single same_key law hs

  emplace-Reordered :
      (k v : Bytes) (hs hs' : List (Bytes × Bytes))
      → Reordered hs hs'
      → Reordered (emplace same_key k v hs) (emplace same_key k v hs')
  emplace-Reordered k v hs hs' (p, single) =
      (emplace-Perm same_key law k v p single, emplace-Single same_key law k v hs single)

  module _ (o : Outside) (time : SendTime) where
    with_payload-Reordered :
        (hs hs' : List (Bytes × Bytes))
        → Reordered hs hs'
        → Reordered (with_payload same_key o time hs) (with_payload same_key o time hs')
    unfolding with_payload
    with_payload-Reordered hs hs' (p, single) =
        let same = (Perm-SameValues same_key law p single).1 (codes "x-oss-content-sha256") in
        elim (Option-cases (lookup same_key (codes "x-oss-content-sha256") hs)) [
          | inl absent ↦
              rw (absent, sym same ∙ absent, with_payload)
                (emplace-Reordered (codes "x-oss-content-sha256") (codes "UNSIGNED-PAYLOAD") hs hs'
                  (p, single))
          | inr (v, found) ↦ rw (found, sym same ∙ found, with_payload) (p, single)
        ]

    prepared-Reordered :
        (hs hs' : List (Bytes × Bytes))
        → Reordered hs hs'
        → Reordered
            (with_payload same_key o time (with_time same_key o time hs))
            (with_payload same_key o time (with_time same_key o time hs'))
    unfolding with_time
    prepared-Reordered hs hs' r =
        with_payload-Reordered (with_time same_key o time hs) (with_time same_key o time hs') (
          emplace-Reordered (codes "x-oss-date") time.stamp
            (emplace same_key (codes "Date") o.date hs) (emplace same_key (codes "Date") o.date hs')
            (emplace-Reordered (codes "Date") o.date hs hs' r))

    -- The order in which the map of headers is iterated does not change what a request is signed with:
    -- of two headers with the same fields in another order, each key once, the signed headers have the
    -- same fields, the signature among them, when the keys are compared by an equivalence that does not
    -- see upper case.
    pub sign_request-Perm :
        (a : AliyunOss) (m : Meta) (hs hs' : List (Bytes × Bytes))
        → Permᴰ hs hs'
        → Single same_key law hs
        → Permᴰ
            (sign_request same_key o time a (record { meta = m; headers = hs })).headers
            (sign_request same_key o time a (record { meta = m; headers = hs' })).headers
    unfolding sign_request
    sign_request-Perm a m hs hs' p single =
        let (q, single') = prepared-Reordered hs hs' (p, single) in
        let full : List (Bytes × Bytes) =
          with_payload same_key o time (with_time same_key o time hs) in
        let full' : List (Bytes × Bytes) =
          with_payload same_key o time (with_time same_key o time hs') in
        let names = sort-Perm (canonical_headers-Perm q) in
        let more = sort-Perm (additional_headers-Perm q) in
        let (text, left, right) =
          header_lines-same same_key law o (sort (canonical_headers full)) full full'
            (sort-All (Found same_key law full) (canonical_headers full)
              (canonical_headers-Found full))
            (Perm-SameValues same_key law q single').1 in
        rw (sym names, sym more, sym text, left, right)
          (emplace-Perm same_key law (codes "Authorization") _ q single')
