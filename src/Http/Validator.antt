-- ===== src/Http/Validator.antt =====
-- Validators: include/obelisk/http/validator and source/http/validator, and the loops of
-- `http_request_wrapper::validate` in source/http/core/http_request.cpp. The exists validator, which
-- asks the database, is not among them.
pub mod Rules
pub mod Bounds
mod Tests
use obelisk_asio_coro.Base.{
  ℕ, List, ◌∷◌, [], if◌then◌else◌, some, none, true, false, Option, codes, ℤ, Bool, Bytes, ltb,
  is_empty, pos, beq, ◌++◌, leb, ◌&&◌, suc, ◌||◌, length, ◌^◌, ◌%◌, negsuc, ◌-◌,
}
use obelisk_asio_coro.Http.Json.{
  Json, param, Elements, set_param, element, array, boolean, number_integer, number_unsigned,
  string, object, no_elements, number_float, null,
}
use obelisk_asio_coro.Http.Numeral.{c_strtoll, c_strtoull}
use obelisk_asio_coro.Http.Request.{RequestData, File}
use obelisk_asio_coro.Http.Server.{Thrown, other_exception, http_exception}

-- What `validate` leaves of a request, or the exception.
pub data Validated : Type 0 where
  valid : RequestData → Validated
  invalid : Thrown → Validated

abbrev pub Validator : Type 0
Validator = Bytes → RequestData → Validated

-- EST_UNPROCESSABLE_CONTENT, also the default code of a validation_exception.
unfoldable pub unprocessable : Bytes → Validated
unprocessable text = invalid (http_exception text 422)

unfoldable pub contains_file : Bytes → List (Bytes × File) → Option File
contains_file name [] = none
contains_file name ((k, f) ∷ fs) = if beq k name then some f else contains_file name fs

-- `is_string`, `is_number_integer`, which holds for unsigned numbers too, and `is_number_unsigned`.
unfoldable pub is_string : Json → Bool
is_string (string s) = true
is_string _ = false

unfoldable pub is_number_integer : Json → Bool
is_number_integer (number_integer k) = true
is_number_integer (number_unsigned n) = true
is_number_integer _ = false

unfoldable is_number_unsigned : Json → Bool
is_number_unsigned (number_unsigned n) = true
is_number_unsigned _ = false

-- `get<std::string>()` of a string.
unfoldable pub get_string : Json → Bytes
get_string (string s) = s
get_string _ = []

-- A number as its 64 bits, and `get<std::int64_t>() < 0`.
unfoldable pub bits64 : ℤ → ℕ
bits64 (pos n) = n % 2 ^ 64
bits64 (negsuc n) = 2 ^ 64 - 1 - n % 2 ^ 64

unfoldable pub get_bits : Json → ℕ
unfolding bits64
get_bits (number_integer k) = bits64 k
get_bits (number_unsigned n) = n % 2 ^ 64
get_bits _ = 0

unfoldable pub is_negative64 : ℕ → Bool
is_negative64 bits = leb (2 ^ 63) bits

unfoldable signed_of : ℕ → ℤ
signed_of bits = if ltb bits (2 ^ 63) then pos bits else negsuc (2 ^ 64 - 1 - bits)

unfoldable pub set_data : Bytes → Json → RequestData → RequestData
unfolding set_param
set_data name value d = record d { params = set_param name value d.params }

-- The value that `params[name]` gets, or the exception. The catch clause around the conversion of a text never
-- runs, since the functions of C throw nothing.
unfoldable pub to_integer : Bool → Bytes → Json → RequestData → Validated
unfolding is_string is_number_integer is_number_unsigned get_string get_bits is_negative64 signed_of
    set_data unprocessable c_strtoll c_strtoull
to_integer is_signed name v d =
    if is_string v
    then (if is_signed
        then valid (set_data name (number_integer (c_strtoll (get_string v))) d)
        else valid (set_data name (number_unsigned (c_strtoull (get_string v))) d))
    else if is_number_integer v
    then (if is_signed
        then valid d
        else if is_negative64 (get_bits v)
        then unprocessable (codes "error.validator.unsigned_integer")
        else valid (set_data name (number_unsigned (get_bits v)) d))
    else if is_number_unsigned v
    then (if is_signed
        then (if ltb (2 ^ 63 - 1) (get_bits v)
            then unprocessable (codes "error.validator.integer")
            else valid (set_data name (number_integer (signed_of (get_bits v))) d))
        else valid d)
    else valid d

unfoldable pub integer_validator : Bool → Validator
unfolding param to_integer
integer_validator is_signed name d = elim (param name d.params) [
  | none ↦ valid d
  | some v ↦ to_integer is_signed name v d
]

-- `validate`: each group in its order, up to the first exception.
unfoldable validate_group : Bytes → List Validator → RequestData → Validated
validate_group name [] d = valid d
validate_group name (v ∷ vs) d = elim (v name d) [
  | valid d1 ↦ validate_group name vs d1
  | invalid e ↦ invalid e
]

unfoldable validate : List (Bytes × List Validator) → RequestData → Validated
unfolding validate_group
validate [] d = valid d
validate ((name, vs) ∷ groups) d = elim (validate_group name vs d) [
  | valid d1 ↦ validate groups d1
  | invalid e ↦ invalid e
]
