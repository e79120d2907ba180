-- ===== src/Http/Validator/Bounds.antt =====
-- What the validator of integers leaves of a parameter, and what the one for required fields asks for.
use obelisk_asio_coro.Base.{
  ℕ, Bytes, ℤ, ◌<◌, ◌≢◌, ◌≡◌, ◌^◌, some, none, pos, ◌⊎◌, arith, ◌↔◌, ap, sym, [], true, negsuc,
  codes, ◌++◌, ◌∙◌, false, Bool-cases, ◌∷◌, inl, inr, refl, ◌%◌, Option-cases, ltb, ltb→lt, ◌≤◌,
  ◌-◌,
}
use obelisk_asio_coro.Http.Validator.{
  valid, invalid, number_integer, bits64, unprocessable, integer_validator, set_data, to_integer,
  RequestData, is_string, param, http_exception, get_string, is_number_integer, contains_file,
  get_bits, is_negative64,
}
use obelisk_asio_coro.Http.Validator.Rules.{required_validator}
use obelisk_asio_coro.Http.Request.{RequestData, File}
use obelisk_asio_coro.Http.Json.{
  param, Json, number_unsigned, string, param-set_param, boolean, number_float, array, object, null,
}
use obelisk_asio_coro.Http.Server.{http_exception}
use obelisk_asio_coro.Http.Numeral.{Fits64, fits_pos, fits_neg, c_strtoll, c_strtoll-Fits64}

-- A whole number of a JSON value, signed or unsigned, and what it stands for.
pub data Whole : Json → ℤ → Type 0 where
  signed_whole : (k : ℤ) → Fits64 k → Whole (number_integer k) k
  unsigned_whole : (n : ℕ) → n < 2 ^ 64 → Whole (number_unsigned n) (pos n)

-- The validator keeps the number, as an unsigned one.
abbrev pub Kept : Bytes → RequestData → ℤ → Type 0
Kept name d k =
    (n : ℕ) × (k ≡ pos n)
    × (n < 2 ^ 63)
    × (integer_validator false name d ≡ valid (set_data name (number_unsigned n) d))

abbrev pub Refused : Bytes → RequestData → ℤ → Type 0
Refused name d k =
    ((n : ℕ) → k ≡ pos n → 2 ^ 63 ≤ n)
    × (integer_validator false name d
        ≡ invalid (http_exception (codes "error.validator.unsigned_integer") 422))

to_natural : ℤ → ℕ
to_natural (pos n) = n
to_natural (negsuc n) = 0

is_negative64-small : (n : ℕ) → n < 2 ^ 63 → is_negative64 (n % 2 ^ 64) ≡ false
unfolding is_negative64
is_negative64-small n h = ground arith

is_negative64-large : (n : ℕ) → 2 ^ 63 ≤ n → n < 2 ^ 64 → is_negative64 (n % 2 ^ 64) ≡ true
unfolding is_negative64
is_negative64-large n h k = ground arith

negative_bits : (n : ℕ) → n < 2 ^ 63 → is_negative64 (2 ^ 64 - 1 - n % 2 ^ 64) ≡ true
unfolding is_negative64
negative_bits n h = ground arith

-- The validator for unsigned integers keeps a whole number from 0 to 2^63 - 1, signed or unsigned, as the
-- unsigned number of the same value, and refuses every other whole number of 64 bits with the code
-- 422: those below zero, and the unsigned ones from 2^63 on.
pub integer_validator-Whole :
    (name : Bytes) (v : Json) (k : ℤ) (d : RequestData)
    → Whole v k
    → param name d.params ≡ some v
    → Kept name d k ⊎ Refused name d k
unfolding integer_validator to_integer is_string is_number_integer get_bits bits64 unprocessable
    to_natural
integer_validator-Whole name _ _ d (signed_whole _ (fits_pos n small)) here = inl (
  n,
  refl,
  small,
  rw (here, integer_validator, to_integer)
      (rw (is_negative64-small n small)
        (ap (λ z. valid (set_data name (number_unsigned z) d)) (omega arith))),
)
integer_validator-Whole name _ _ d (signed_whole _ (fits_neg n small)) here =
    inr
      (λ m e. absurd cc, rw (here, integer_validator, to_integer) (rw (negative_bits n small) refl))
integer_validator-Whole name _ _ d (unsigned_whole n small) here =
    elim (Bool-cases (ltb n (2 ^ 63))) [
      | inl low ↦ inl (
        n,
        refl,
        ltb→lt n (2 ^ 63) low,
        rw (here, integer_validator, to_integer)
            (rw (is_negative64-small n (ltb→lt n (2 ^ 63) low))
              (ap (λ z. valid (set_data name (number_unsigned z) d)) (omega arith))),
      )
      | inr high ↦
          let large : 2 ^ 63 ≤ n = ground arith in
          inr (
            λ m e. (let same : n ≡ m = ap to_natural e in omega arith),
            rw (here, integer_validator, to_integer) (rw (is_negative64-large n large small) refl),
          )
    ]

-- No text is ever refused as an integer: the validator passes with any text, digits or not, and the
-- parameter is then a number within 64 bits with a sign.
integer_validator-text :
    (name text : Bytes) (d : RequestData)
    → param name d.params ≡ some (string text)
    → (d' : RequestData) × (k : ℤ) × (integer_validator true name d ≡ valid d')
      × (param name d'.params ≡ some (number_integer k))
      × Fits64 k
unfolding integer_validator to_integer is_string get_string set_data
integer_validator-text name text d here = (
  set_data name (number_integer (c_strtoll text)) d,
  c_strtoll text,
  rw (here, integer_validator) refl,
  param-set_param name (number_integer (c_strtoll text)) d.params,
  c_strtoll-Fits64 text,
)

-- A file, or a parameter other than the empty text.
unfoldable pub IsPresent : Bytes → RequestData → Type 0
IsPresent name d =
    ((f : File) × (contains_file name d.filebag ≡ some f))
    ⊎ ((v : Json) × (param name d.params ≡ some v) × (v ≢ string []))

refuses : (name : Bytes) (d : RequestData) → invalid (http_exception name 422) ≢ valid d
refuses name d h = cc

required-value :
    (name : Bytes) (d : RequestData) (v : Json)
    → contains_file name d.filebag ≡ none
    → param name d.params ≡ some v
    → (required_validator name d ≡ valid d) ↔ (v ≢ string [])
unfolding required_validator is_string get_string unprocessable
required-value name d (string []) missing here = (
  λ h. absurd (
      refuses (codes "validation.error." ++ (name ++ codes "_required")) d
        (rw (missing, required_validator) (rw (here, required_validator) refl) ∙ h)),
  λ h. absurd (h refl),
)
required-value name d (string (c ∷ s)) missing here =
    (λ h e. cc, λ h. rw (missing, required_validator) (rw (here, required_validator) refl))
required-value name d null missing here =
    (λ h e. cc, λ h. rw (missing, required_validator) (rw (here, required_validator) refl))
required-value name d (boolean b) missing here =
    (λ h e. cc, λ h. rw (missing, required_validator) (rw (here, required_validator) refl))
required-value name d (number_integer k) missing here =
    (λ h e. cc, λ h. rw (missing, required_validator) (rw (here, required_validator) refl))
required-value name d (number_unsigned n) missing here =
    (λ h e. cc, λ h. rw (missing, required_validator) (rw (here, required_validator) refl))
required-value name d (number_float m x) missing here =
    (λ h e. cc, λ h. rw (missing, required_validator) (rw (here, required_validator) refl))
required-value name d (array es) missing here =
    (λ h e. cc, λ h. rw (missing, required_validator) (rw (here, required_validator) refl))
required-value name d (object ms) missing here =
    (λ h e. cc, λ h. rw (missing, required_validator) (rw (here, required_validator) refl))

-- The validator for required fields passes exactly when there is a file of that name or a parameter
-- that is not the empty text; a parameter that is no text, even null, counts as present.
required_validator_iff :
    (name : Bytes) (d : RequestData) → (required_validator name d ≡ valid d) ↔ IsPresent name d
unfolding required_validator unprocessable IsPresent
required_validator_iff name d = elim (Option-cases (contains_file name d.filebag)) [
  | inr (f, file) ↦ (λ h. inl (f, file), λ h. rw (file, required_validator) refl)
  | inl missing ↦ elim (Option-cases (param name d.params)) [
    | inl nothing ↦ (
      λ h. absurd (
          refuses (codes "validation.error." ++ (name ++ codes "_required")) d
            (rw (missing, required_validator) (rw (nothing, required_validator) refl) ∙ h)),
      λ h. absurd (elim h [ inl (f, file) ↦ cc | inr (v, here, filled) ↦ cc ]),
    )
    | inr (v, here) ↦
        let (to, back) = required-value name d v missing here in
        (
          λ h. inr (v, here, to h),
          λ h. elim h [
            | inl (f, file) ↦ absurd cc
            | inr (w, there, filled) ↦
                back (λ e. filled (let same : some v ≡ some w = sym here ∙ there in cc))
          ],
        )
  ]
]
