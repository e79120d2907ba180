-- ===== src/Sql/Separate.antt =====
-- `utils::separate_with` against plain joining, and the quoting of a column name.
use obelisk_asio_coro.Base.{
  ℕ, suc, ◌≡◌, refl, sym, false, inl, inr, Bool-cases, Bytes, codes, List, [], ◌∷◌, ◌++◌,
  append_assoc, append-nil, ◌==◌, if◌then◌else◌, ◌∙◌, Bool, ◌||◌,
}
use obelisk_asio_coro.Sql.Syntax.{Env}
use obelisk_asio_coro.Sql.Compile.{separate_from, separate_with, compile_col}

-- The members with the separator between neighbours.
abbrev pub join : Bytes → List Bytes → Bytes
join separator [] = []
join separator (x ∷ []) = x
join separator (x ∷ y ∷ xs) = x ++ (separator ++ join separator (y ∷ xs))

abbrev pub join_rest : Bytes → List Bytes → Bytes
join_rest separator [] = []
join_rest separator (x ∷ xs) = separator ++ (x ++ join_rest separator xs)

separate_from-join_rest :
    (i : ℕ) (separator result : Bytes) (xs : List Bytes)
    → separate_from (suc i) separator result xs ≡ result ++ join_rest separator xs
unfolding separate_from
separate_from-join_rest i separator result [] = rw append-nil
separate_from-join_rest i separator result (x ∷ xs) =
    rw (separate_from-join_rest (suc i) separator ((result ++ separator) ++ x) xs)
      (simp append_assoc)

pub join-join_rest :
    (separator x : Bytes) (xs : List Bytes) → join separator (x ∷ xs) ≡ x ++ join_rest separator xs
join-join_rest separator x [] = rw append-nil
join-join_rest separator x (y ∷ xs) = rw (join-join_rest separator y xs)

-- The index loop puts the separator between neighbours and nowhere else.
pub separate_with-join :
    (separator : Bytes) (xs : List Bytes) → separate_with separator xs ≡ join separator xs
unfolding separate_with
separate_with-join separator [] = refl
separate_with-join separator (x ∷ xs) =
    rw (separate_from-join_rest 0 separator x xs, join-join_rest separator x xs)

pub separate_with-one : (separator x : Bytes) → separate_with separator (x ∷ []) ≡ x
unfolding separate_with
separate_with-one separator x = refl

pub separate_with-rest :
    (separator x : Bytes) (xs : List Bytes)
    → separate_with separator (x ∷ xs) ≡ x ++ join_rest separator xs
separate_with-rest separator x xs =
    separate_with-join separator (x ∷ xs) ∙ join-join_rest separator x xs

-- `c` stands in the text.
unfoldable pub contains_char : ℕ → Bytes → Bool
contains_char c [] = false
contains_char c (x ∷ xs) = x == c || contains_char c xs

-- The text with `t` for each `c`.
unfoldable pub replace_char : ℕ → Bytes → Bytes → Bytes
replace_char c t [] = []
replace_char c t (x ∷ xs) = if x == c then t ++ replace_char c t xs else x ∷ replace_char c t xs

-- What Boost documents of its two algorithms, for a search text of one character.
pub record IsBoost (env : Env) : Type 0 where
  pub contains_one : (s : Bytes) (c : ℕ) → env.contains s (c ∷ []) ≡ contains_char c s
  pub replace_one :
      (s : Bytes) (c : ℕ) (t : Bytes) → env.replace_all s (c ∷ []) t ≡ replace_char c t s

-- `s` split at each `c`, with the empty parts.
abbrev add_front : ℕ → List Bytes → List Bytes
add_front x [] = (x ∷ []) ∷ []
add_front x (p ∷ ps) = (x ∷ p) ∷ ps

abbrev pub split_at_char : ℕ → Bytes → List Bytes
split_at_char c [] = [] ∷ []
split_at_char c (x ∷ xs) =
    if x == c then [] ∷ split_at_char c xs else add_front x (split_at_char c xs)

join-add_front :
    (separator : Bytes) (x : ℕ) (ps : List Bytes)
    → join separator (add_front x ps) ≡ x ∷ join separator ps
join-add_front separator x [] = refl
join-add_front separator x (p ∷ []) = refl
join-add_front separator x (p ∷ q ∷ ps) = refl

data IsSplit : List Bytes → Type 0 where
  cons : (p : Bytes) (ps : List Bytes) → IsSplit (p ∷ ps)

add_front-IsSplit : (x : ℕ) (ps : List Bytes) → IsSplit (add_front x ps)
add_front-IsSplit x [] = cons (x ∷ []) []
add_front-IsSplit x (p ∷ ps) = cons (x ∷ p) ps

split_at_char-IsSplit : (c : ℕ) (s : Bytes) → IsSplit (split_at_char c s)
split_at_char-IsSplit c [] = cons [] []
split_at_char-IsSplit c (x ∷ xs) = elim (Bool-cases (x == c)) [
  | inl hit ↦ rw hit (cons [] (split_at_char c xs))
  | inr miss ↦ rw miss (add_front-IsSplit x (split_at_char c xs))
]

join-nil_front :
    (separator : Bytes) {ps : List Bytes}
    → IsSplit ps
    → join separator ([] ∷ ps) ≡ separator ++ join separator ps
join-nil_front separator (cons p ps) = refl

pub replace_char-join : (c : ℕ) (t s : Bytes) → replace_char c t s ≡ join t (split_at_char c s)
unfolding replace_char
replace_char-join c t [] = refl
replace_char-join c t (x ∷ xs) = elim (Bool-cases (x == c)) [
  | inl hit ↦
      rw (hit, replace_char-join c t xs) (sym (join-nil_front t (split_at_char-IsSplit c xs)))
  | inr miss ↦ rw (miss, replace_char-join c t xs) (sym (join-add_front t x (split_at_char c xs)))
]

split_at_char-plain : (c : ℕ) (s : Bytes) → contains_char c s ≡ false → split_at_char c s ≡ s ∷ []
unfolding contains_char
split_at_char-plain c [] h = refl
split_at_char-plain c (x ∷ xs) h = elim (Bool-cases (x == c)) [
  | inl hit ↦ cc (rw (hit, contains_char) at h)
  | inr miss ↦ rw (miss, split_at_char-plain c xs (rw (miss, contains_char) at h)) refl
]

-- A qualified name is quoted part by part, each between backquotes, behind the table prefix; a plain
-- name is quoted whole, without the prefix. Boost's algorithms are taken to do what they document.
pub compile_col-join :
    (env : Env)
    → IsBoost env
    → (c : Bytes)
    → compile_col env c
      ≡ b'`'
        ∷ ((if contains_char b'.' c then env.prefix else [])
            ++ (join (codes "`.`") (split_at_char b'.' c) ++ b'`' ∷ []))
unfolding compile_col
compile_col-join env boost c = elim (Bool-cases (contains_char b'.' c)) [
  | inl qualified ↦ rw (
    boost.contains_one c b'.',
    qualified,
    boost.replace_one c b'.' (codes "`.`"),
    replace_char-join b'.' (codes "`.`") c,
  )
  | inr plain ↦ rw (boost.contains_one c b'.', plain, split_at_char-plain b'.' c plain)
]
