-- ===== src/Http/Validator/Tests.antt =====
-- A form with an age and an empty name.
use obelisk_asio_coro.Base.{
  ◌∷◌, [], true, false, refl, some, none, beq, codes, ◌≡◌, starts_with, ◌^◌, ◌⊎◌, negsuc, arith,
}
use obelisk_asio_coro.Http.Validator.{
  valid, param, integer_validator, RequestData, invalid, http_exception,
}
use obelisk_asio_coro.Http.Validator.Bounds.{Kept, Refused, signed_whole, integer_validator-Whole}
use obelisk_asio_coro.Http.Numeral.{fits_neg}
use obelisk_asio_coro.Http.Request.{RequestData}
use obelisk_asio_coro.Http.Validator.Rules.{image_validator}
use obelisk_asio_coro.Http.Json.{param, set_param, number_unsigned, number_integer, string}
use obelisk_asio_coro.Http.Server.{http_exception}

abbrev form : RequestData
form = record {
  version = codes "HTTP/1.1";
  headers = [];
  raw_body = none;
  filebag = [];
  params = (codes "age", string (codes " 42")) ∷ (codes "name", string []) ∷ [];
}

abbrev aged : RequestData
aged = record form { params = (codes "age", number_unsigned 42) ∷ (codes "name", string []) ∷ [] }

age_text : param (codes "age") form.params ≡ some (string (codes " 42"))
unfolding param beq
age_text = refl

age_valid : integer_validator false (codes "age") form ≡ valid aged
unfolding integer_validator param set_param beq starts_with
age_valid = refl

-- An unsigned number beyond the range of 64 bits with a sign passes the validator for those.
beyond_run :
    integer_validator true
      (codes "n")
      (record form { params = (codes "n", number_unsigned (2 ^ 63)) ∷ [] })
    ≡ valid (record form { params = (codes "n", number_unsigned (2 ^ 63)) ∷ [] })
unfolding integer_validator param beq
beyond_run = refl

-- And the validator for unsigned numbers refuses it.
refused_run :
    integer_validator false
      (codes "n")
      (record form { params = (codes "n", number_unsigned (2 ^ 63)) ∷ [] })
    ≡ invalid (http_exception (codes "error.validator.unsigned_integer") 422)
unfolding integer_validator param beq
refused_run = refl

-- An image is refused, since its type is no extension.
image_run :
    image_validator (codes "f") (record form {
      filebag =
          (
            codes "f",
            record { temp_path = []; filename = codes "a.png"; mime_type = codes "image/png" },
          )
          ∷ [];
    })
    ≡ invalid (http_exception (codes "validator.error.unprocessable_extension") 422)
unfolding image_validator beq
image_run = refl

abbrev minus_one : RequestData
minus_one = record form { params = (codes "age", number_integer (negsuc 0)) ∷ [] }

minus_one-param : param (codes "age") minus_one.params ≡ some (number_integer (negsuc 0))
unfolding param beq
minus_one-param = refl

integer_validator-Whole_example :
    Kept (codes "age") minus_one (negsuc 0) ⊎ Refused (codes "age") minus_one (negsuc 0)
integer_validator-Whole_example =
    integer_validator-Whole (codes "age") (number_integer (negsuc 0)) (negsuc 0) minus_one
      (signed_whole (negsuc 0) (fits_neg 0 (omega arith))) minus_one-param
