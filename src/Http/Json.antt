-- ===== src/Http/Json.antt =====
-- The values of nlohmann::json as the program uses them, and its `object_t`, a map from texts to
-- values: include/obelisk/http/core/http_request.h. The map is an association list without an order;
-- where two entries had one name, the first would count. A number with a point is m * 2 ^ e.
use obelisk_asio_coro.Base.{
  ℕ, List, ◌∷◌, [], if◌then◌else◌, some, none, false, Bool, Bytes, Option, ℤ, beq, ◌≡◌, beq_refl,
  Bool-cases, inl, inr, beq→eq, refl,
}

mutual
  pub data Json : Type 0 where
    null : Json
    boolean : Bool → Json
    string : Bytes → Json
    number_integer : ℤ → Json
    number_unsigned : ℕ → Json
    number_float : ℤ → ℤ → Json
    array : Elements → Json
    object : Members → Json

  pub data Elements : Type 0 where
    no_elements : Elements
    element : Json → Elements → Elements

  pub data Members : Type 0 where
    no_members : Members
    member : Bytes → Json → Members → Members

abbrev pub Params : Type 0
Params = List (Bytes × Json)

-- `params.contains(name)` and `params[name]`.
unfoldable pub param : Bytes → Params → Option Json
param name [] = none
param name ((k, v) ∷ ps) = if beq k name then some v else param name ps

-- `params.emplace(name, value)`: it keeps a value that is there.
unfoldable pub emplace_param : Bytes → Json → Params → Params
emplace_param name value [] = (name, value) ∷ []
emplace_param name value ((k, v) ∷ ps) =
    if beq k name then (k, v) ∷ ps else (k, v) ∷ emplace_param name value ps

-- `params[name] = value`.
unfoldable pub set_param : Bytes → Json → Params → Params
set_param name value [] = (name, value) ∷ []
set_param name value ((k, v) ∷ ps) =
    if beq k name then (k, value) ∷ ps else (k, v) ∷ set_param name value ps

pub param-set_param : (n : Bytes) (v : Json) (ps : Params) → param n (set_param n v ps) ≡ some v
unfolding param set_param
param-set_param n v [] = rw (beq_refl n) refl
param-set_param n v ((k, w) ∷ ps) = elim (Bool-cases (beq k n)) [
  | inl same ↦ rw (same) (rw (same) refl)
  | inr other ↦ rw (other) (rw (other) (param-set_param n v ps))
]

-- Names other than the one that is set keep their values.
pub param-set_param_other :
    (n m : Bytes) (v : Json) (ps : Params)
    → beq n m ≡ false
    → param m (set_param n v ps) ≡ param m ps
unfolding param set_param
param-set_param_other n m v [] h = rw (h) refl
param-set_param_other n m v ((k, w) ∷ ps) h = elim (Bool-cases (beq k n)) [
  | inl same ↦ let e : k ≡ n = beq→eq k n same in rw (same) (rw (e, h) refl)
  | inr other ↦ elim (Bool-cases (beq k m)) [
    | inl here ↦ rw (other) (rw (here) refl)
    | inr there ↦ rw (other) (rw (there) (param-set_param_other n m v ps h))
  ]
]
