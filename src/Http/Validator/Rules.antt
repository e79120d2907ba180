-- ===== src/Http/Validator/Rules.antt =====
-- The validators other than the one for integers: source/http/validator, and file_validator.h,
-- image_validator.h and in_validator.h of include/obelisk/http/validator.
use obelisk_asio_coro.Base.{
  ℕ, List, ◌∷◌, [], if◌then◌else◌, some, none, true, false, Option, codes, ℤ, Bool, Bytes, ltb,
  is_empty, beq, ◌++◌, ◌&&◌, suc, ◌||◌, length,
}
use obelisk_asio_coro.Http.Json.{
  Json, param, Elements, element, array, boolean, number_integer, number_unsigned, string, object,
  no_elements, number_float, null,
}
use obelisk_asio_coro.Http.Request.{RequestData}
use obelisk_asio_coro.Http.Server.{other_exception}
use obelisk_asio_coro.Http.Validator.{
  valid, invalid, unprocessable, Validator, get_bits, contains_file, is_string, get_string,
  Validated,
}

unfoldable array_validator : Validator
unfolding param unprocessable
array_validator name d = elim (param name d.params) [
  | none ↦ valid d
  | some (array es) ↦ valid d
  | some _ ↦ unprocessable (codes "server.error." ++ (name ++ codes "_must_be_array"))
]

-- `what` is the text with which nlohmann refuses a value that is no string.
unfoldable compare_strings : Bytes → Bytes → Json → Json → RequestData → Validated
unfolding is_string get_string unprocessable
compare_strings what name a b d =
    if is_string a && is_string b
    then (if beq (get_string a) (get_string b)
        then valid d
        else unprocessable (codes "server.error.validation." ++ (name ++ codes "_not_match")))
    else invalid (other_exception what)

unfoldable confirmed_validator : Bytes → Validator
unfolding param compare_strings unprocessable
confirmed_validator what name d = elim (param name d.params) [
  | none ↦ valid d
  | some a ↦ elim (param (name ++ codes "_confirmation") d.params) [
    | none ↦
        unprocessable (codes "server.error.validation." ++ (name ++ codes "_confirmation_required"))
    | some b ↦ compare_strings what name a b d
  ]
]

unfoldable contains_mime : Bytes → List Bytes → Bool
contains_mime m [] = false
contains_mime m (k ∷ ks) = beq k m || contains_mime m ks

unfoldable file_validator : List Bytes → Validator
unfolding contains_file contains_mime unprocessable
file_validator acceptable_mimes name d = elim (contains_file name d.filebag) [
  | none ↦ valid d
  | some f ↦
      if is_empty acceptable_mimes
      then valid d
      else if contains_mime f.mime_type acceptable_mimes
      then valid d
      else unprocessable (codes "validator.error.unprocessable_extension")
]

-- `image()`: its list holds extensions, which are compared with the type of the file.
unfoldable pub image_validator : Validator
unfolding file_validator
image_validator name d = file_validator (codes ".jpg" ∷ codes ".png" ∷ []) name d

unfoldable pub required_validator : Validator
unfolding contains_file param is_string get_string unprocessable
required_validator name d =
    let missing = unprocessable (codes "validation.error." ++ (name ++ codes "_required")) in
    elim (contains_file name d.filebag) [
      | some f ↦ valid d
      | none ↦ elim (param name d.params) [
        | none ↦ missing
        | some v ↦
            if is_string v then (if is_empty (get_string v) then missing else valid d) else valid d
      ]
    ]

unfoldable count_elements : Elements → ℕ
count_elements no_elements = 0
count_elements (element v es) = suc (count_elements es)

-- `value < length`: a signed number is compared as its 64 bits without a sign. How a number with a point
-- compares is a parameter.
unfoldable is_short : (ℤ → ℤ → ℕ → Bool) → ℕ → Json → Bool
unfolding get_bits count_elements
is_short float_less n (string s) = ltb (length s) n
is_short float_less n (number_integer k) = ltb (get_bits (number_integer k)) n
is_short float_less n (number_unsigned k) = ltb (get_bits (number_unsigned k)) n
is_short float_less n (array es) = ltb (count_elements es) n
is_short float_less n (number_float m e) = float_less m e n
is_short float_less n _ = false

unfoldable has_no_length : Json → Bool
has_no_length (boolean b) = true
has_no_length (object ms) = true
has_no_length null = true
has_no_length _ = false

unfoldable min_length_validator : (ℤ → ℤ → ℕ → Bool) → ℕ → Validator
unfolding param is_short has_no_length unprocessable
min_length_validator float_less n name d = elim (param name d.params) [
  | none ↦ valid d
  | some v ↦
      if is_short float_less n v
      then unprocessable (codes "validation.error.validation_error[" ++ (name ++ codes "]"))
      else if has_no_length v
      then unprocessable (codes "validation.error.invalid_type[" ++ (name ++ codes "]"))
      else valid d
]

-- `in_validator<T>`: `get` is `get<T>()`, which may throw, and `member` the test of its map.
unfoldable in_validator {ℓ} : {T : Type ℓ} → (Json → Option T) → (T → Bool) → Bytes → Validator
unfolding param unprocessable
in_validator get member what name d = elim (param name d.params) [
  | none ↦ valid d
  | some v ↦ elim (get v) [
    | none ↦ invalid (other_exception what)
    | some t ↦ if member t then valid d else unprocessable (codes "server.error.value_not_in_set")
  ]
]
