-- ===== src/Http/Header/Lines.antt =====
-- How the parser reads one line of a text that is built from pieces.
use mathlib.Core.Path.{ap₂}
use native.Mathlib.Numerals.{add-one}
use obelisk_asio_coro.Base.{
  ℕ, suc, ◌+◌, ◌≡◌, refl, ◌∙◌, Bool, false, Bytes, codes, List, [], ◌∷◌, ◌++◌, none, some,
  find_char, take, drop, length, Lacks, Lacks-append, find_char-append, append_assoc,
  take-length-append, is_empty, Bool-cases, inl, inr,
}
use obelisk_asio_coro.Http.Header.{
  Meta, parsed, line_of, rest_of, getline, pop_back, lookup, emplace, parse_lines,
}

pub line_of-append : (s t : Bytes) → Lacks 10 s → line_of (s ++ 10 ∷ t) ≡ s
unfolding line_of
line_of-append [] t h = refl
line_of-append (x ∷ s) t (p, h) = rw (p, line_of-append s t h)

pub rest_of-append : (s t : Bytes) → Lacks 10 s → rest_of (s ++ 10 ∷ t) ≡ t
unfolding rest_of
rest_of-append [] t h = refl
rest_of-append (x ∷ s) t (p, h) = rw (p, rest_of-append s t h)

pub getline-append : (s t : Bytes) → Lacks 10 s → getline (s ++ 10 ∷ t) ≡ some (s, t)
unfolding getline
getline-append [] t h = refl
getline-append (x ∷ s) t (p, h) = rw (p, line_of-append s t h, rest_of-append s t h)

pub pop_back-append : (s : Bytes) (c : ℕ) → pop_back (s ++ c ∷ []) ≡ some s
unfolding pop_back
pop_back-append [] c = refl
pop_back-append (x ∷ []) c = refl
pop_back-append (x ∷ y ∷ s) c = rw (pop_back-append (y ∷ s) c)

drop-behind {ℓ} :
    {A : Type ℓ} (xs : List A) (c : A) (ys : List A) → drop (length xs + 1) (xs ++ c ∷ ys) ≡ ys
drop-behind [] c ys = refl
drop-behind (x ∷ xs) c ys = rw add-one (let ih = drop-behind xs c ys in rw add-one at ih)

is_empty-behind {ℓ} :
    {A : Type ℓ} (xs : List A) (c : A) (ys : List A) → is_empty (xs ++ c ∷ ys) ≡ false
is_empty-behind [] c ys = refl
is_empty-behind (x ∷ xs) c ys = refl

pub regroup_line :
    (k v rest : Bytes)
    → k ++ (codes ": " ++ (v ++ (codes "\r\n" ++ rest)))
      ≡ ((k ++ b':' ∷ b' ' ∷ v) ++ 13 ∷ []) ++ 10 ∷ rest
regroup_line k v rest = simp append_assoc

module _ (same_key : Bytes → Bytes → Bool) where
  parse_lines-step :
      (fuel : ℕ) (m : Meta) (hs : List (Bytes × Bytes)) (text line rest l : Bytes) (pos : ℕ)
      → getline text ≡ some (line, rest)
      → pop_back line ≡ some l
      → is_empty l ≡ false
      → find_char b':' l ≡ some pos
      → parse_lines same_key (suc fuel) m hs text
        ≡ parse_lines same_key fuel m (emplace same_key (take pos l) (drop (pos + 1) l) hs) rest
  unfolding parse_lines
  parse_lines-step fuel m hs text line rest l pos got popped filled colon =
      rw (got, parse_lines)
        (rw (popped, parse_lines) (rw (filled, parse_lines) (rw (colon, parse_lines))))

  -- One header line: the key up to the first colon, and the value with what follows the colon.
  pub parse_lines-line :
      (fuel : ℕ) (m : Meta) (hs : List (Bytes × Bytes)) (k v rest : Bytes)
      → Lacks b':' k
      → Lacks 10 k
      → Lacks 10 v
      → parse_lines same_key (suc fuel) m hs (k ++ (codes ": " ++ (v ++ (codes "\r\n" ++ rest))))
        ≡ parse_lines same_key fuel m (emplace same_key k (b' ' ∷ v) hs) rest
  parse_lines-line fuel m hs k v rest colon key value = rw (regroup_line k v rest) (
      parse_lines-step fuel m hs _ _ rest (k ++ b':' ∷ b' ' ∷ v) (length k)
        (getline-append ((k ++ b':' ∷ b' ' ∷ v) ++ 13 ∷ []) rest (
          Lacks-append 10 (k ++ b':' ∷ b' ' ∷ v) (13 ∷ [])
            (Lacks-append 10 k (b':' ∷ b' ' ∷ v) key (refl, (refl, value))) (refl, tt)))
        (pop_back-append (k ++ b':' ∷ b' ' ∷ v) 13) (is_empty-behind k b':' (b' ' ∷ v))
        (find_char-append b':' k (b' ' ∷ v) colon)
      ∙ ap₂ (λ a b. parse_lines same_key fuel m (emplace same_key a b hs) rest)
          (take-length-append k (b':' ∷ b' ' ∷ v)) (drop-behind k b':' (b' ' ∷ v)))

  -- The blank line ends the header, whatever follows it.
  pub parse_lines-blank :
      (fuel : ℕ) (m : Meta) (hs : List (Bytes × Bytes)) (rest : Bytes)
      → parse_lines same_key (suc fuel) m hs (codes "\r\n" ++ rest)
        ≡ parsed (record { meta = m; headers = hs })
  unfolding parse_lines getline pop_back
  parse_lines-blank fuel m hs rest = refl

  -- A key that the map does not have yet is put at the end.
  pub emplace-new :
      (key value : Bytes) (hs : List (Bytes × Bytes))
      → lookup same_key key hs ≡ none
      → emplace same_key key value hs ≡ hs ++ (key, value) ∷ []
  unfolding lookup emplace
  emplace-new key value [] h = refl
  emplace-new key value ((k, v) ∷ hs) h = elim (Bool-cases (same_key k key)) [
    | inl same ↦ cc (rw (same, lookup) at h)
    | inr other ↦ rw (other, emplace-new key value hs (rw (other, lookup) at h))
  ]
