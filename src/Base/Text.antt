-- ===== src/Base/Text.antt =====
-- Texts of the program as lists of bytes, with the library calls of `std::string` that it uses.
use Prim.Native.Char.{code}
use Prim.Native.String.{String}
use Prim.Native.Nat.{ℕ, suc, ◌+◌, ◌≤◌, zero}
use mathlib.Core.Path.{◌≡◌, refl, ap, sym, ◌∙◌}
use mathlib.Core.Logic.{◌↔◌, ◌⊎◌, inl, inr}
use mathlib.Core.Bool.{Bool, true, false, ◌&&◌}
use mathlib.Core.List.{List, [], ◌∷◌, ◌++◌}
use mathlib.Core.Option.{Option, none, some}
use mathlib.Core.Option
use native.Mathlib.Omega.{arith}
use obelisk_asio_coro.Base.Tests.{◌==◌, if◌then◌else◌, Bool-cases, Option-cases}
use obelisk_asio_coro.Base.Lists.{length}

abbrev pub Bytes : Type 0
Bytes = List ℕ

-- A literal of the source as its bytes.
abbrev pub codes : String → Bytes
codes String.[] = []
codes (String.◌∷◌ c s) = code c ∷ codes s

-- `a == b` on strings.
unfoldable pub beq : Bytes → Bytes → Bool
beq [] [] = true
beq [] (y ∷ ys) = false
beq (x ∷ xs) [] = false
beq (x ∷ xs) (y ∷ ys) = x == y && beq xs ys

pub beq_refl : (s : Bytes) → beq s s ≡ true
unfolding beq
beq_refl [] = refl
beq_refl (x ∷ xs) = ground (arith, beq_refl xs)

pub beq→eq : (s t : Bytes) → beq s t ≡ true → s ≡ t
unfolding beq
beq→eq [] [] h = refl
beq→eq [] (y ∷ ys) h = cc
beq→eq (x ∷ xs) [] h = cc
beq→eq (x ∷ xs) (y ∷ ys) h = ground (arith, beq→eq xs ys)

pub beq_iff : (s t : Bytes) → (beq s t ≡ true) ↔ (s ≡ t)
beq_iff s t = (beq→eq s t, λ e. rw e (beq_refl t))

-- `s.starts_with(p)`.
unfoldable pub starts_with : Bytes → Bytes → Bool
starts_with s [] = true
starts_with [] (p ∷ ps) = false
starts_with (x ∷ xs) (p ∷ ps) = x == p && starts_with xs ps

-- `s.find(p)`: the first position, `none` for `npos`.
unfoldable pub find : Bytes → Bytes → Option ℕ
unfolding starts_with
find [] p = if starts_with [] p then some 0 else none
find (x ∷ xs) p = if starts_with (x ∷ xs) p then some 0 else Option.map suc (find xs p)

-- `s.find_first_of(c)` for one character.
unfoldable pub find_char : ℕ → Bytes → Option ℕ
find_char c [] = none
find_char c (x ∷ xs) = if x == c then some 0 else Option.map suc (find_char c xs)

-- `c` does not stand in the text.
abbrev pub Lacks : ℕ → Bytes → Type 0
Lacks c [] = Unit
Lacks c (x ∷ xs) = ((x == c) ≡ false) × Lacks c xs

pub Lacks-append : (c : ℕ) (s t : Bytes) → Lacks c s → Lacks c t → Lacks c (s ++ t)
Lacks-append c [] t h k = k
Lacks-append c (x ∷ s) t (p, h) k = (p, Lacks-append c s t h k)

-- The first `c` behind a text without `c` stands right behind it.
pub find_char-append :
    (c : ℕ) (s t : Bytes) → Lacks c s → find_char c (s ++ c ∷ t) ≡ some (length s)
unfolding find_char
find_char-append c [] t h = ground arith
find_char-append c (x ∷ s) t (p, h) = rw (p, find_char-append c s t h)

pub find_char-Lacks : (c : ℕ) (s : Bytes) → Lacks c s → find_char c s ≡ none
unfolding find_char
find_char-Lacks c [] h = refl
find_char-Lacks c (x ∷ s) (p, h) = rw (p, find_char-Lacks c s h)

pub starts_with-append :
    (s t p : Bytes) → length p ≤ length s → starts_with (s ++ t) p ≡ starts_with s p
unfolding starts_with
starts_with-append s t [] h = refl
starts_with-append [] t (q ∷ p) h = absurd (omega arith)
starts_with-append (x ∷ s) t (q ∷ p) h =
    ap (λ b. x == q && b) (starts_with-append s t p (omega arith))

starts_with-length : (s p : Bytes) → starts_with s p ≡ true → length p ≤ length s
unfolding starts_with
starts_with-length s [] h = omega arith
starts_with-length [] (q ∷ p) h = cc
starts_with-length (x ∷ s) (q ∷ p) h = ground (arith, starts_with-length s p)

pub find-cases :
    (x : ℕ) (s p : Bytes) (i : ℕ)
    → find (x ∷ s) p ≡ some i
    → ((starts_with (x ∷ s) p ≡ true) × (i ≡ 0))
      ⊎ ((starts_with (x ∷ s) p ≡ false) × ((j : ℕ) × ((find s p ≡ some j) × (i ≡ suc j))))
unfolding find
find-cases x s p i h = elim (Bool-cases (starts_with (x ∷ s) p)) [
  | inl found ↦ inl (found, let e = (rw (found) at h) in cc)
  | inr missed ↦ elim (Option-cases (find s p)) [
    | inl none_left ↦ absurd (let e = (rw (missed, none_left) at h) in cc)
    | inr (j, later) ↦ inr (missed, (j, (later, let e = (rw (missed, later) at h) in cc)))
  ]
]

-- A match ends inside the text.
pub find-within : (s p : Bytes) (i : ℕ) → find s p ≡ some i → i + length p ≤ length s
unfolding find
find-within [] [] i h = ground arith
find-within [] (q ∷ p) i h = cc
find-within (x ∷ s) p i h = elim (find-cases x s p i h) [
  | inl (found, here) ↦ omega (arith, starts_with-length (x ∷ s) p found)
  | inr (missed, (j, (later, behind))) ↦ omega (arith, find-within s p j later)
]

-- The first match stays the first when the text grows.
pub find-append : (s t p : Bytes) (i : ℕ) → find s p ≡ some i → find (s ++ t) p ≡ some i
unfolding find
find-append [] [] [] i h = h
find-append [] (y ∷ t) [] i h = h
find-append [] t (q ∷ p) i h = cc
find-append (x ∷ s) t p i h = elim (find-cases x s p i h) [
  | inl (found, here) ↦
      let grown = starts_with-append (x ∷ s) t p (starts_with-length (x ∷ s) p found) in
      rw (grown, found, here) refl
  | inr (missed, (j, (later, behind))) ↦
      let grown = starts_with-append (x ∷ s) t p (let w = find-within s p j later in omega arith) in
      rw (grown, missed, find-append s t p j later, behind) refl
]

starts_with-shrink :
    (s t p : Bytes) → length p ≤ length s → starts_with (s ++ t) p ≡ false → starts_with s p ≡ false
starts_with-shrink s t p h k = sym (starts_with-append s t p h) ∙ k

-- A match that ends inside a first part of the text is found there.
pub find-shrink :
    (s t p : Bytes) (i : ℕ) → find (s ++ t) p ≡ some i → i + length p ≤ length s → find s p ≡ some i
unfolding find
find-shrink [] t [] zero h k = refl
find-shrink [] t [] (suc i) h k = absurd (omega arith)
find-shrink [] t (q ∷ p) i h k = absurd (omega arith)
find-shrink (x ∷ s) t p i h k = elim (find-cases x (s ++ t) p i h) [
  | inl (found, here) ↦ rw (sym (starts_with-append (x ∷ s) t p (omega arith)), found, here) refl
  | inr (missed, (j, (later, behind))) ↦
      rw
        (
          starts_with-shrink (x ∷ s) t p (omega arith) missed,
          find-shrink s t p j later (omega arith),
          behind,
        )
        refl
]

-- The text up to the first `c`.
unfoldable pub text_until : ℕ → Bytes → Bytes
text_until c [] = []
text_until c (x ∷ s) = if x == c then [] else x ∷ text_until c s

pub text_until-append :
    (c : ℕ) (s t : Bytes) → Lacks c s → text_until c (s ++ t) ≡ s ++ text_until c t
unfolding text_until
text_until-append c [] t h = refl
text_until-append c (x ∷ s) t (p, h) = rw (p) (ap (◌∷◌ x) (text_until-append c s t h))
