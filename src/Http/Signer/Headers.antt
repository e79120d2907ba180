-- ===== src/Http/Signer/Headers.antt =====
-- The map of headers of a request in the signers, iterated in another order.
use obelisk_asio_coro.Base.{
  List, ◌∷◌, [], ◌++◌, some, none, true, false, Bytes, Bool, ◌≡◌, Bool-cases, Option-cases, inl,
  inr, ap, sym, ◌∙◌, refl, All, map, codes,
}
use mathlib.Core.List.{Permᴰ}
use mathlib.Core.List.Permᴰ as Permᴰ
use obelisk_asio_coro.Http.Header.{lookup, emplace}
use obelisk_asio_coro.Http.Io.Message.{to_lower}
use obelisk_asio_coro.Http.Signer.{Outside, header_at, header_lines}
use obelisk_asio_coro.Http.Signer.Sorted.{Perm-rec}

-- What the map of headers takes for the same key: an equivalence that does not see upper case.
pub record IsKeyEquality (same_key : Bytes → Bytes → Bool) : Type 0 where
  pub same_sym : (a b : Bytes) → same_key a b ≡ true → same_key b a ≡ true
  pub same_trans : (a b c : Bytes) → same_key a b ≡ true → same_key b c ≡ true → same_key a c ≡ true
  pub same_lower : (a : Bytes) → same_key a (map to_lower a) ≡ true

module _ (same_key : Bytes → Bytes → Bool) (law : IsKeyEquality same_key) where
  -- No two headers have the same key.
  abbrev pub Single : List (Bytes × Bytes) → Type 0
  Single [] = Unit
  Single ((k, v) ∷ hs) = (lookup same_key k hs ≡ none) × Single hs

  abbrev pub Found : List (Bytes × Bytes) → Bytes → Type 0
  Found hs name = (v : Bytes) × (lookup same_key name hs ≡ some v)

  same-false : (a b : Bytes) → same_key a b ≡ false → same_key b a ≡ false
  same-false a b h = elim (Bool-cases (same_key b a)) [
    | inl known ↦ absurd (let back = law.same_sym b a known in cc)
    | inr unknown ↦ unknown
  ]

  lookup-here :
      (k key v : Bytes) (hs : List (Bytes × Bytes))
      → same_key key k ≡ true
      → lookup same_key k ((key, v) ∷ hs) ≡ some v
  unfolding lookup
  lookup-here k key v hs h = rw (h) refl

  lookup-there :
      (k key v : Bytes) (hs : List (Bytes × Bytes))
      → same_key key k ≡ false
      → lookup same_key k ((key, v) ∷ hs) ≡ lookup same_key k hs
  unfolding lookup
  lookup-there k key v hs h = rw (h) refl

  lookup-none_cons :
      (k key v : Bytes) (hs : List (Bytes × Bytes))
      → lookup same_key k ((key, v) ∷ hs) ≡ none
      → (same_key key k ≡ false) × (lookup same_key k hs ≡ none)
  lookup-none_cons k key v hs h = elim (Bool-cases (same_key key k)) [
    | inl known ↦ absurd (let found = lookup-here k key v hs known in cc)
    | inr unknown ↦ (unknown, sym (lookup-there k key v hs unknown) ∙ h)
  ]

  -- A header stands for its key wherever it stands.
  lookup-swap :
      (k : Bytes) (a b : Bytes × Bytes) (hs : List (Bytes × Bytes))
      → same_key b.0 a.0 ≡ false
      → lookup same_key k (a ∷ b ∷ hs) ≡ lookup same_key k (b ∷ a ∷ hs)
  lookup-swap k (ka, va) (kb, vb) hs h = elim (Bool-cases (same_key ka k)) [
    | inl here ↦ elim (Bool-cases (same_key kb k)) [
      | inl also ↦ absurd (let joined = law.same_trans kb k ka also (law.same_sym ka k here) in cc)
      | inr other ↦
          lookup-here k ka va ((kb, vb) ∷ hs) here
          ∙ (sym (lookup-here k ka va hs here) ∙ sym (lookup-there k kb vb ((ka, va) ∷ hs) other))
    ]
    | inr there ↦ elim (Bool-cases (same_key kb k)) [
      | inl also ↦
          lookup-there k ka va ((kb, vb) ∷ hs) there
          ∙ (lookup-here k kb vb hs also ∙ sym (lookup-here k kb vb ((ka, va) ∷ hs) also))
      | inr other ↦
          lookup-there k ka va ((kb, vb) ∷ hs) there
          ∙ (lookup-there k kb vb hs other
              ∙ (sym (lookup-there k ka va hs there)
                  ∙ sym (lookup-there k kb vb ((ka, va) ∷ hs) other)))
    ]
  ]

  lookup-cons :
      (k : Bytes) (a : Bytes × Bytes) (xs ys : List (Bytes × Bytes))
      → lookup same_key k xs ≡ lookup same_key k ys
      → lookup same_key k (a ∷ xs) ≡ lookup same_key k (a ∷ ys)
  lookup-cons k (key, v) xs ys h = elim (Bool-cases (same_key key k)) [
    | inl here ↦ lookup-here k key v xs here ∙ sym (lookup-here k key v ys here)
    | inr there ↦ lookup-there k key v xs there ∙ (h ∙ sym (lookup-there k key v ys there))
  ]

  -- Headers with one value for each key, and the same values in another order.
  abbrev pub SameValues : List (Bytes × Bytes) → List (Bytes × Bytes) → Type 0
  SameValues xs ys =
      Single xs → Single ys × ((k : Bytes) → lookup same_key k xs ≡ lookup same_key k ys)

  SameValues-cons :
      (a : Bytes × Bytes) (xs ys : List (Bytes × Bytes))
      → SameValues xs ys
      → SameValues (a ∷ xs) (a ∷ ys)
  SameValues-cons (key, v) xs ys h (alone, single) =
      let (single', same) = h single in
      ((sym (same key) ∙ alone, single'), λ k. lookup-cons k (key, v) xs ys (same k))

  SameValues-swap :
      (a b : Bytes × Bytes) (xs : List (Bytes × Bytes)) → SameValues (a ∷ b ∷ xs) (b ∷ a ∷ xs)
  SameValues-swap (ka, va) (kb, vb) xs (alone, (alone', single)) =
      let (apart, absent) = lookup-none_cons ka kb vb xs alone in
      (
        (lookup-there kb ka va xs (same-false kb ka apart) ∙ alone', (absent, single)),
        λ k. lookup-swap k (ka, va) (kb, vb) xs apart,
      )

  pub Perm-SameValues : {hs hs' : List (Bytes × Bytes)} → Permᴰ hs hs' → SameValues hs hs'
  Perm-SameValues =
      Perm-rec SameValues (λ h. (h, λ k. refl)) SameValues-cons SameValues-swap
        (λ xs ys zs p q h.
          let (single, same) = p h in
          let (single', same') = q single in (single', λ k. same k ∙ same' k))

  emplace-present :
      (k v w : Bytes) (hs : List (Bytes × Bytes))
      → lookup same_key k hs ≡ some w
      → emplace same_key k v hs ≡ hs
  unfolding emplace lookup
  emplace-present k v w [] h = absurd (let g : none ≡ some w = h in cc)
  emplace-present k v w ((key, x) ∷ hs) h = elim (Bool-cases (same_key key k)) [
    | inl here ↦ rw (here, emplace) refl
    | inr there ↦
        rw (there, emplace)
          (ap (◌∷◌ (key, x)) (emplace-present k v w hs (sym (lookup-there k key x hs there) ∙ h)))
  ]

  emplace-absent :
      (k v : Bytes) (hs : List (Bytes × Bytes))
      → lookup same_key k hs ≡ none
      → emplace same_key k v hs ≡ hs ++ (k, v) ∷ []
  unfolding emplace
  emplace-absent k v [] h = refl
  emplace-absent k v ((key, x) ∷ hs) h =
      let (there, absent) = lookup-none_cons k key x hs h in
      rw (there, emplace) (ap (◌∷◌ (key, x)) (emplace-absent k v hs absent))

  emplace-absent_cons :
      (k v j : Bytes) (hs : List (Bytes × Bytes))
      → lookup same_key j hs ≡ none
      → same_key k j ≡ false
      → lookup same_key j (emplace same_key k v hs) ≡ none
  unfolding emplace
  emplace-absent_cons k v j [] h apart = lookup-there j k v [] apart ∙ h
  emplace-absent_cons k v j ((key, x) ∷ hs) h apart =
      let (there, absent) = lookup-none_cons j key x hs h in
      elim (Bool-cases (same_key key k)) [
        | inl here ↦ rw (here, emplace) h
        | inr other ↦
            rw (other, emplace)
              (lookup-there j key x (emplace same_key k v hs) there
                ∙ emplace-absent_cons k v j hs absent apart)
      ]

  pub emplace-Single :
      (k v : Bytes) (hs : List (Bytes × Bytes)) → Single hs → Single (emplace same_key k v hs)
  unfolding emplace lookup
  emplace-Single k v [] h = (refl, tt)
  emplace-Single k v ((key, x) ∷ hs) (alone, single) = elim (Bool-cases (same_key key k)) [
    | inl here ↦ rw (here, emplace) (alone, single)
    | inr other ↦
        rw (other, emplace)
          (
            emplace-absent_cons k v key hs alone (same-false key k other),
            emplace-Single k v hs single,
          )
  ]

  pub emplace-Perm :
      (k v : Bytes) {hs hs' : List (Bytes × Bytes)}
      → Permᴰ hs hs'
      → Single hs
      → Permᴰ (emplace same_key k v hs) (emplace same_key k v hs')
  emplace-Perm k v {hs} {hs'} p single =
      let same = (Perm-SameValues p single).1 k in
      elim (Option-cases (lookup same_key k hs)) [
        | inl absent ↦
            rw (emplace-absent k v hs absent, emplace-absent k v hs' (sym same ∙ absent))
              (Permᴰ.append_right ((k, v) ∷ []) p)
        | inr (w, found) ↦
            rw (emplace-present k v w hs found, emplace-present k v w hs' (sym same ∙ found)) p
      ]

  header_at-found :
      (o : Outside) (k v : Bytes) (hs : List (Bytes × Bytes))
      → lookup same_key k hs ≡ some v
      → header_at same_key o k hs ≡ (v, hs)
  unfolding header_at
  header_at-found o k v hs h = rw (h, header_at) refl

  -- The lines of headers that are there: the same in both orders, and nothing is added.
  pub header_lines-same :
      (o : Outside) (names : List Bytes) (hs hs' : List (Bytes × Bytes))
      → All (Found hs) names
      → ((k : Bytes) → lookup same_key k hs ≡ lookup same_key k hs')
      → ((header_lines same_key o names hs).0 ≡ (header_lines same_key o names hs').0)
        × ((header_lines same_key o names hs).1 ≡ hs)
        × ((header_lines same_key o names hs').1 ≡ hs')
  unfolding header_lines
  header_lines-same o [] hs hs' found same = (refl, refl, refl)
  header_lines-same o (name ∷ names) hs hs' ((v, here), found) same =
      let (text, left, right) = header_lines-same o names hs hs' found same in
      let one = header_at-found o name v hs here in
      let two = header_at-found o name v hs' (sym (same name) ∙ here) in
      (
        rw (one, two, header_lines)
            (ap (λ z. name ++ (codes ":" ++ (v ++ (codes "\n" ++ z)))) text),
        rw (one, header_lines) left,
        rw (two, header_lines) right,
      )

  Found-cons :
      (a : Bytes × Bytes) (hs : List (Bytes × Bytes)) (name : Bytes)
      → Found hs name
      → Found (a ∷ hs) name
  Found-cons (key, x) hs name (v, h) = elim (Bool-cases (same_key key name)) [
    | inl here ↦ (x, lookup-here name key x hs here)
    | inr there ↦ (v, lookup-there name key x hs there ∙ h)
  ]

  pub All-Found-cons :
      (a : Bytes × Bytes) (hs : List (Bytes × Bytes)) (names : List Bytes)
      → All (Found hs) names
      → All (Found (a ∷ hs)) names
  All-Found-cons a hs [] h = tt
  All-Found-cons a hs (name ∷ names) (h, rest) =
      (Found-cons a hs name h, All-Found-cons a hs names rest)

  pub Found-lower : (k v : Bytes) (hs : List (Bytes × Bytes)) → Found ((k, v) ∷ hs) (map to_lower k)
  Found-lower k v hs = (v, lookup-here (map to_lower k) k v hs (law.same_lower k))
