-- ===== src/Http/Signer/Sorted.antt =====
-- The sorting of names in the signers: it forgets the order in which a map is iterated.
use obelisk_asio_coro.Base.{
  List, ◌∷◌, [], true, false, Bytes, ◌≡◌, Bool-cases, inl, inr, ap, sym, ◌∙◌, refl, arith, All,
}
use mathlib.Core.List.{Permᴰ}
use mathlib.Core.Path.{subst}
use obelisk_asio_coro.Http.Signer.{text_leb, insert_text, sort}

text_leb-antisymmetric : (a b : Bytes) → text_leb a b ≡ true → text_leb b a ≡ true → a ≡ b
unfolding text_leb
text_leb-antisymmetric [] [] h k = refl
text_leb-antisymmetric [] (y ∷ b) h k = absurd cc
text_leb-antisymmetric (x ∷ a) [] h k = absurd cc
text_leb-antisymmetric (x ∷ a) (y ∷ b) h k =
    let head : x ≡ y = ground arith in
    let below : text_leb a b ≡ true = ground arith in
    let above : text_leb b a ≡ true = ground arith in
    ap (λ z. z ∷ a) head ∙ ap (◌∷◌ y) (text_leb-antisymmetric a b below above)

text_leb-total : (a b : Bytes) → text_leb a b ≡ false → text_leb b a ≡ true
unfolding text_leb
text_leb-total [] b h = absurd cc
text_leb-total (x ∷ a) [] h = refl
text_leb-total (x ∷ a) (y ∷ b) h = let rest = text_leb-total a b in ground arith

text_leb-transitive :
    (a b c : Bytes) → text_leb a b ≡ true → text_leb b c ≡ true → text_leb a c ≡ true
unfolding text_leb
text_leb-transitive [] b c h k = refl
text_leb-transitive (x ∷ a) [] c h k = absurd cc
text_leb-transitive (x ∷ a) (y ∷ b) [] h k = absurd cc
text_leb-transitive (x ∷ a) (y ∷ b) (z ∷ c) h k =
    let rest = text_leb-transitive a b c in ground arith

insert-ahead :
    (a b : Bytes) (bs : List Bytes) → text_leb a b ≡ true → insert_text a (b ∷ bs) ≡ a ∷ b ∷ bs
unfolding insert_text
insert-ahead a b bs h = rw (h) refl

insert-behind :
    (a b : Bytes) (bs : List Bytes)
    → text_leb a b ≡ false
    → insert_text a (b ∷ bs) ≡ b ∷ insert_text a bs
unfolding insert_text
insert-behind a b bs h = rw (h) refl

-- Two names that both belong in front of a list.
insert-two :
    (a b : Bytes) (ra rb : List Bytes)
    → insert_text a rb ≡ a ∷ rb
    → insert_text b ra ≡ b ∷ ra
    → ra ≡ rb
    → insert_text a (b ∷ rb) ≡ insert_text b (a ∷ ra)
insert-two a b ra rb ha hb e = elim (Bool-cases (text_leb a b)) [
  | inl below ↦ elim (Bool-cases (text_leb b a)) [
    | inl above ↦
        let same = text_leb-antisymmetric a b below above in
        insert-ahead a b rb below
        ∙ (ap (λ z. z ∷ b ∷ rb) same
            ∙ (ap (λ z. b ∷ z ∷ rb) (sym same)
                ∙ (ap (λ z. b ∷ a ∷ z) (sym e) ∙ sym (insert-ahead b a ra above))))
    | inr above ↦
        insert-ahead a b rb below
        ∙ (ap (λ z. a ∷ b ∷ z) (sym e) ∙ (ap (◌∷◌ a) (sym hb) ∙ sym (insert-behind b a ra above)))
  ]
  | inr below ↦
      let above = text_leb-total a b below in
      insert-behind a b rb below
      ∙ (ap (◌∷◌ b) ha ∙ (ap (λ z. b ∷ a ∷ z) (sym e) ∙ sym (insert-ahead b a ra above)))
]

insert-cross :
    (a b x : Bytes) (xs : List Bytes)
    → text_leb a x ≡ true
    → text_leb b x ≡ false
    → insert_text a (insert_text b (x ∷ xs)) ≡ insert_text b (insert_text a (x ∷ xs))
insert-cross a b x xs h k = elim (Bool-cases (text_leb b a)) [
  | inl below ↦ absurd (let t = text_leb-transitive b a x below h in cc)
  | inr above ↦
      ap (insert_text a) (insert-behind b x xs k)
      ∙ (insert-ahead a x (insert_text b xs) h
          ∙ (ap (◌∷◌ a) (sym (insert-behind b x xs k))
              ∙ (sym (insert-behind b a (x ∷ xs) above)
                  ∙ ap (insert_text b) (sym (insert-ahead a x xs h)))))
]

insert-swap :
    (a b : Bytes) (xs : List Bytes)
    → insert_text a (insert_text b xs) ≡ insert_text b (insert_text a xs)
unfolding insert_text
insert-swap a b [] = insert-two a b [] [] refl refl refl
insert-swap a b (x ∷ xs) = elim (Bool-cases (text_leb a x)) [
  | inl ax ↦ elim (Bool-cases (text_leb b x)) [
    | inl bx ↦
        ap (insert_text a) (insert-ahead b x xs bx)
        ∙ (insert-two a b (x ∷ xs) (x ∷ xs) (insert-ahead a x xs ax) (insert-ahead b x xs bx) refl
            ∙ ap (insert_text b) (sym (insert-ahead a x xs ax)))
    | inr bx ↦ insert-cross a b x xs ax bx
  ]
  | inr ax ↦ elim (Bool-cases (text_leb b x)) [
    | inl bx ↦ sym (insert-cross b a x xs bx ax)
    | inr bx ↦
        ap (insert_text a) (insert-behind b x xs bx)
        ∙ (insert-behind a x (insert_text b xs) ax
            ∙ (ap (◌∷◌ x) (insert-swap a b xs)
                ∙ (sym (insert-behind b x (insert_text a xs) bx)
                    ∙ ap (insert_text b) (sym (insert-behind a x xs ax)))))
  ]
]

pub sort-Perm : {xs ys : List Bytes} → Permᴰ xs ys → sort xs ≡ sort ys
unfolding sort
sort-Perm Permᴰ.nil = refl
sort-Perm (Permᴰ.cons {a = a} {l₂ = ys} e p) =
    ap (insert_text a) (sort-Perm p) ∙ ap (λ z. insert_text z (sort ys)) e
sort-Perm (Permᴰ.swap {a = a} {b = b} {a' = a'} {l = l} e k) =
    insert-swap a b (sort l)
    ∙ (ap (λ z. insert_text z (insert_text a (sort l))) k
        ∙ ap (λ z. insert_text a' (insert_text z (sort l))) e)
sort-Perm (Permᴰ.trans p q) = sort-Perm p ∙ sort-Perm q

-- Induction over a permutation, with the same element on both sides.
pub Perm-rec :
    {A : Type 0} (R : List A → List A → Type 0)
    → R [] []
    → ((a : A) (xs ys : List A) → R xs ys → R (a ∷ xs) (a ∷ ys))
    → ((a b : A) (xs : List A) → R (a ∷ b ∷ xs) (b ∷ a ∷ xs))
    → ((xs ys zs : List A) → R xs ys → R ys zs → R xs zs)
    → {xs ys : List A} → Permᴰ xs ys
    → R xs ys
Perm-rec R n c s t Permᴰ.nil = n
Perm-rec R n c s t (Permᴰ.cons {a = a} {l₁ = xs} {l₂ = ys} e p) =
    subst (λ z. R (a ∷ xs) (z ∷ ys)) e (c a xs ys (Perm-rec R n c s t p))
Perm-rec R n c s t (Permᴰ.swap {a = a} {b = b} {a' = a'} {l = l} e k) =
    subst (λ z. R (a ∷ b ∷ l) (a' ∷ z ∷ l)) e (subst (λ z. R (a ∷ b ∷ l) (z ∷ a ∷ l)) k (s a b l))
Perm-rec R n c s t (Permᴰ.trans {l₁ = xs} {l₂ = ys} {l₃ = zs} p q) =
    t xs ys zs (Perm-rec R n c s t p) (Perm-rec R n c s t q)

insert_text-All :
    (P : Bytes → Type 0) (a : Bytes) (bs : List Bytes) → P a → All P bs → All P (insert_text a bs)
unfolding insert_text
insert_text-All P a [] h hs = (h, tt)
insert_text-All P a (b ∷ bs) h (k, ks) = elim (Bool-cases (text_leb a b)) [
  | inl below ↦ rw (below, insert_text) (h, (k, ks))
  | inr above ↦ rw (above, insert_text) (k, insert_text-All P a bs h ks)
]

pub sort-All : (P : Bytes → Type 0) (bs : List Bytes) → All P bs → All P (sort bs)
unfolding sort
sort-All P [] hs = tt
sort-All P (b ∷ bs) (h, hs) = insert_text-All P b (sort bs) h (sort-All P bs hs)
