-- ===== src/Base/Find.antt =====
-- Where the first match of `find` stands, in parts of a text.
use Prim.Native.Nat.{ℕ, zero, suc, ◌+◌}
use mathlib.Core.Path.{◌≡◌, refl, ap, sym, ◌∙◌}
use mathlib.Core.Logic.{inl, inr}
use mathlib.Core.Bool.{true, false}
use mathlib.Core.List.{[], ◌∷◌, ◌++◌, append-nil}
use mathlib.Core.Option.{some, none}
use native.Mathlib.Omega.{arith}
use obelisk_asio_coro.Base.Tests.{Bool-cases, Option-cases}
use obelisk_asio_coro.Base.Lists.{length, drop}
use obelisk_asio_coro.Base.Text.{Bytes, find, starts_with, find-cases, find-append}

-- A match at the front is the first one.
pub find-starts_with : (s p : Bytes) → starts_with s p ≡ true → find s p ≡ some 0
unfolding find
find-starts_with [] p h = rw (h) refl
find-starts_with (x ∷ s) p h = rw (h) refl

pub starts_with_refl : (p s : Bytes) → starts_with (p ++ s) p ≡ true
unfolding starts_with
starts_with_refl [] s = refl
starts_with_refl (x ∷ p) s = ground (arith, starts_with_refl p s)

starts_with-drop :
    (a s p : Bytes) → starts_with s (a ++ p) ≡ true → starts_with (drop (length a) s) p ≡ true
unfolding starts_with
starts_with-drop [] s p h = h
starts_with-drop (x ∷ a) [] p h = cc
starts_with-drop (x ∷ a) (y ∷ s) p h = ground (arith, starts_with-drop a s p)

-- What stands in front of the first match can be taken off.
pub find-drop : (k : ℕ) (s p : Bytes) (i : ℕ) → find s p ≡ some (k + i) → find (drop k s) p ≡ some i
unfolding find starts_with
find-drop zero s p i h = h ∙ ap some (omega arith)
find-drop (suc k) [] [] i h = absurd (ground arith)
find-drop (suc k) [] (q ∷ p) i h = cc
find-drop (suc k) (x ∷ s) p i h = elim (find-cases x s p (suc k + i) h) [
  | inl (found, here) ↦ absurd (omega arith)
  | inr (missed, (j, (later, behind))) ↦ find-drop k s p i (later ∙ ap some (omega arith))
]

-- If the first `p` stands right behind `a`, so that there is no match before, `a ++ p` has its first
-- match there.
pub find-behind :
    (c a p : Bytes)
    → find (c ++ (a ++ p)) p ≡ some (length c + length a)
    → find (c ++ (a ++ p)) (a ++ p) ≡ some (length c)
unfolding find
find-behind [] a p h =
    find-starts_with (a ++ p) (a ++ p)
      (sym (ap (λ z. starts_with z (a ++ p)) (append-nil (a ++ p))) ∙ starts_with_refl (a ++ p) [])
find-behind (x ∷ c) a p h =
    let whole : Bytes = x ∷ (c ++ (a ++ p)) in
    elim (Bool-cases (starts_with whole (a ++ p))) [
      | inl found ↦
          let here =
            find-starts_with (drop (length a) whole) p (starts_with-drop a whole p found) in
          let there = find-drop (length a) whole p (suc (length c)) (h ∙ ap some (omega arith)) in
          absurd (let e : some 0 ≡ some (suc (length c)) = sym here ∙ there in ground arith)
      | inr missed ↦
          let later = find-drop 1 whole p (length c + length a) (h ∙ ap some (omega arith)) in
          rw (missed, find-behind c a p later) refl
    ]

-- A text without a match has none in its parts.
pub find-none_left : (s t p : Bytes) → find (s ++ t) p ≡ none → find s p ≡ none
find-none_left s t p h = elim (Option-cases (find s p)) [
  | inl missed ↦ missed
  | inr (i, found) ↦ absurd (let e = sym h ∙ find-append s t p i found in cc)
]

pub find-none_cons :
    (x : ℕ) (s p : Bytes)
    → find (x ∷ s) p ≡ none
    → (starts_with (x ∷ s) p ≡ false) × (find s p ≡ none)
unfolding find
find-none_cons x s p h = elim (Bool-cases (starts_with (x ∷ s) p)) [
  | inl here ↦ absurd (let e = (rw (here) at h) in cc)
  | inr other ↦ (
    other,
    elim (Option-cases (find s p)) [
      | inl missed ↦ missed
      | inr (i, found) ↦ absurd (let e = (rw (other, found) at h) in cc)
    ],
  )
]

pub find-none-drop : (k : ℕ) (s p : Bytes) → find s p ≡ none → find (drop k s) p ≡ none
find-none-drop zero s p h = h
find-none-drop (suc k) [] p h = h
find-none-drop (suc k) (x ∷ s) p h = find-none-drop k s p (find-none_cons x s p h).1
