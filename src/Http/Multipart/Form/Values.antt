-- ===== src/Http/Multipart/Form/Values.antt =====
-- The parameters behind a part with a value, parse_multipart_body of
-- source/http/parser_v2/http_parser_v3.cpp, when no parameter is an array.
use obelisk_asio_coro.Base.{
  Bytes, [], ◌∷◌, Option, none, some, codes, beq, beq_refl, find, find-none_cons, All, Bool-cases,
  inl, inr, false, ◌≡◌, refl, ap,
}
use obelisk_asio_coro.Http.Io.{contains}
use obelisk_asio_coro.Http.Json.{
  Json, null, boolean, string, number_integer, number_unsigned, number_float, array, object, param,
  set_param, Params,
}
use obelisk_asio_coro.Http.Multipart.Body.{without_brackets, is_array, wrapped, put_value}

without_brackets-plain : (n : Bytes) → find n (codes "[]") ≡ none → without_brackets n ≡ n
unfolding without_brackets
without_brackets-plain [] h = refl
without_brackets-plain (c ∷ s) h =
    let (other, missed) = find-none_cons c s (codes "[]") h in
    let absent : contains s (codes "[]") ≡ false = rw (missed, contains) refl in
    rw (absent, without_brackets) (rw (other) refl)

set_param-twice :
    (n : Bytes) (v x : Json) (ps : Params) → set_param n x (set_param n v ps) ≡ set_param n x ps
unfolding set_param
set_param-twice n v x [] = rw (beq_refl n) refl
set_param-twice n v x ((k, w) ∷ ps) = elim (Bool-cases (beq k n)) [
  | inl same ↦ rw (same) (rw (same) refl)
  | inr other ↦ rw (other) (rw (other) (ap (◌∷◌ (k, w)) (set_param-twice n v x ps)))
]

-- An array around a value is replaced at once.
set_param-wrapped :
    (n : Bytes) (x : Json) (ps : Params) (old : Option Json)
    → set_param n x (wrapped n old ps) ≡ set_param n x ps
unfolding wrapped
set_param-wrapped n x ps none = refl
set_param-wrapped n x ps (some (array es)) = refl
set_param-wrapped n x ps (some null) = set_param-twice n _ x ps
set_param-wrapped n x ps (some (boolean c)) = set_param-twice n _ x ps
set_param-wrapped n x ps (some (string s)) = set_param-twice n _ x ps
set_param-wrapped n x ps (some (number_integer i)) = set_param-twice n _ x ps
set_param-wrapped n x ps (some (number_unsigned i)) = set_param-twice n _ x ps
set_param-wrapped n x ps (some (number_float i e)) = set_param-twice n _ x ps
set_param-wrapped n x ps (some (object ms)) = set_param-twice n _ x ps

-- No parameter is an array.
abbrev pub NoArrays : Params → Type 0
NoArrays ps = All (λ e. is_array (some e.1) ≡ false) ps

param-NoArrays : (n : Bytes) (ps : Params) → NoArrays ps → is_array (param n ps) ≡ false
unfolding param is_array
param-NoArrays n [] h = refl
param-NoArrays n ((k, v) ∷ ps) (p, h) = elim (Bool-cases (beq k n)) [
  | inl same ↦ rw (same) p
  | inr other ↦ rw (other) (param-NoArrays n ps h)
]

pub set_param-NoArrays :
    (n t : Bytes) (ps : Params) → NoArrays ps → NoArrays (set_param n (string t) ps)
unfolding set_param is_array
set_param-NoArrays n t [] h = (refl, tt)
set_param-NoArrays n t ((k, v) ∷ ps) (p, h) = elim (Bool-cases (beq k n)) [
  | inl same ↦ rw (same) (refl, h)
  | inr other ↦ rw (other) (p, set_param-NoArrays n t ps h)
]

-- A part whose name has no brackets sets its parameter: a value that was there is lost.
pub put_value-plain :
    (n t : Bytes) (ps : Params)
    → find n (codes "[]") ≡ none
    → NoArrays ps
    → put_value n t ps ≡ some (set_param n (string t) ps)
unfolding put_value
put_value-plain n t ps plain h =
    let key = without_brackets-plain n plain in
    let single : is_array (param (without_brackets n) ps) ≡ false =
      rw (key) (param-NoArrays n ps h) in
    rw (single) (rw (key) (ap some (set_param-wrapped n (string t) ps (param n ps))))
