-- ===== src/Http/Numeral.antt =====
-- `std::stoull` with a base up to 16: C's strtoull and the two exceptions of its wrapper, as `none`.
use obelisk_asio_coro.Base.{
  refl, ℕ, Bool, Bytes, Option, starts_with, some, none, ◌≡◌, codes, ◌∷◌, ◌==◌, if◌then◌else◌, ◌^◌,
  ◌&&◌, leb, ◌<◌, true, ◌*◌, ltb, ◌||◌, ◌-◌, ◌+◌, false, arith, ◌%◌, Bool-cases, show_ℕ,
  digits_from, inl, suc, ap, inr, ◌/◌, sym, ◌∙◌, lt→ltb, ltb→lt, ℤ, pos, negsuc,
}
use mathlib.Core.List.{[], drop}
use Prim.Native.Nat.{zero}

-- `isspace` in the C locale.
unfoldable pub is_space : ℕ → Bool
is_space c = (c == 32) || (leb 9 c && leb c 13)

unfoldable pub skip_spaces : Bytes → Bytes
unfolding is_space
skip_spaces [] = []
skip_spaces (c ∷ s) = if is_space c then skip_spaces s else c ∷ s

-- What a letter or figure counts for, at most 15, or none.
unfoldable digit_value : ℕ → Option ℕ
digit_value c =
    if leb 48 c && leb c 57
    then some (c - 48)
    else if leb 97 c && leb c 102
    then some (c - 87)
    else if leb 65 c && leb c 70
    then some (c - 55)
    else none

unfoldable digit_of : ℕ → ℕ → Option ℕ
unfolding digit_value
digit_of base c = elim (digit_value c) [
  | none ↦ none
  | some d ↦ if ltb d base then some d else none
]

-- The digits at the front of a text, read behind `acc`.
unfoldable read_digits : ℕ → ℕ → Bytes → ℕ
unfolding digit_of
read_digits base acc [] = acc
read_digits base acc (c ∷ s) = elim (digit_of base c) [
  | none ↦ acc
  | some d ↦ read_digits base (acc * base + d) s
]

-- A digit must stand in front, else std::invalid_argument.
unfoldable read_number : ℕ → Bytes → Option ℕ
unfolding read_digits digit_of
read_number base [] = none
read_number base (c ∷ s) = elim (digit_of base c) [
  | none ↦ none
  | some d ↦ some (read_digits base d s)
]

-- "0x" is skipped in base 16 when a digit follows it.
unfoldable read_prefixed : ℕ → Bytes → Option ℕ
unfolding read_number
read_prefixed base s =
    if (base == 16) && (starts_with s (codes "0x") || starts_with s (codes "0X"))
    then elim (read_number base (drop 2 s)) [ none ↦ some 0 | some n ↦ some n ]
    else read_number base s

-- A number beyond 64 bits is std::out_of_range, a minus sign negates in 64 bits.
unfoldable in_range : Bool → Option ℕ → Option ℕ
in_range negative none = none
in_range negative (some n) =
    if ltb n (2 ^ 64) then some (if negative then (2 ^ 64 - n) % 2 ^ 64 else n) else none

unfoldable read_signed : ℕ → Bytes → Option ℕ
unfolding in_range read_prefixed
read_signed base [] = none
read_signed base (c ∷ s) =
    if c == b'-'
    then in_range true (read_prefixed base s)
    else if c == b'+'
    then in_range false (read_prefixed base s)
    else in_range false (read_prefixed base (c ∷ s))

unfoldable pub strtoull : ℕ → Bytes → Option ℕ
unfolding read_signed skip_spaces
strtoull base s = read_signed base (skip_spaces s)

-- C's `strtoull` and `strtoll` on a `c_str()`: the text up to the first zero byte; without digits the
-- result is 0, and a number that does not fit is replaced by the nearest bound.
unfoldable c_string : Bytes → Bytes
c_string [] = []
c_string (c ∷ s) = if c == 0 then [] else c ∷ c_string s

unfoldable clamp_unsigned : Bool → Option ℕ → ℕ
clamp_unsigned negative none = 0
clamp_unsigned negative (some n) =
    if ltb n (2 ^ 64) then (if negative then (2 ^ 64 - n) % 2 ^ 64 else n) else 2 ^ 64 - 1

unfoldable clamp_signed : Bool → Option ℕ → ℤ
clamp_signed negative none = pos 0
clamp_signed true (some zero) = pos 0
clamp_signed true (some (suc n)) = if ltb n (2 ^ 63) then negsuc n else negsuc (2 ^ 63 - 1)
clamp_signed false (some n) = if ltb n (2 ^ 63) then pos n else pos (2 ^ 63 - 1)

-- The sign and the digits of a text.
unfoldable sign_of : Bytes → Bool × Bytes
sign_of [] = (false, [])
sign_of (c ∷ s) = if c == b'-' then (true, s) else if c == b'+' then (false, s) else (false, c ∷ s)

unfoldable pub c_strtoull : Bytes → ℕ
unfolding clamp_unsigned sign_of skip_spaces c_string read_prefixed
c_strtoull s =
    let t = sign_of (skip_spaces (c_string s)) in clamp_unsigned t.0 (read_prefixed 10 t.1)

unfoldable pub c_strtoll : Bytes → ℤ
unfolding clamp_signed sign_of skip_spaces c_string read_prefixed
c_strtoll s = let t = sign_of (skip_spaces (c_string s)) in clamp_signed t.0 (read_prefixed 10 t.1)

clamp_unsigned-bounds : (b : Bool) (o : Option ℕ) → clamp_unsigned b o < 2 ^ 64
unfolding clamp_unsigned
clamp_unsigned-bounds b none = omega arith
clamp_unsigned-bounds true (some n) = ground arith
clamp_unsigned-bounds false (some n) = ground arith

pub c_strtoull-bounds : (s : Bytes) → c_strtoull s < 2 ^ 64
unfolding c_strtoull
c_strtoull-bounds s =
    let t = sign_of (skip_spaces (c_string s)) in clamp_unsigned-bounds t.0 (read_prefixed 10 t.1)

-- A number that 64 bits with a sign can hold.
pub data Fits64 : ℤ → Type 0 where
  fits_pos : (n : ℕ) → n < 2 ^ 63 → Fits64 (pos n)
  fits_neg : (n : ℕ) → n < 2 ^ 63 → Fits64 (negsuc n)

clamp_signed-Fits64 : (b : Bool) (o : Option ℕ) → Fits64 (clamp_signed b o)
unfolding clamp_signed
clamp_signed-Fits64 true none = fits_pos 0 (omega arith)
clamp_signed-Fits64 false none = fits_pos 0 (omega arith)
clamp_signed-Fits64 true (some zero) = fits_pos 0 (omega arith)
clamp_signed-Fits64 true (some (suc n)) = elim (Bool-cases (ltb n (2 ^ 63))) [
  | inl small ↦ rw (small) (fits_neg n (ltb→lt n (2 ^ 63) small))
  | inr large ↦ rw (large) (fits_neg (2 ^ 63 - 1) (omega arith))
]
clamp_signed-Fits64 false (some n) = elim (Bool-cases (ltb n (2 ^ 63))) [
  | inl small ↦ rw (small) (fits_pos n (ltb→lt n (2 ^ 63) small))
  | inr large ↦ rw (large) (fits_pos (2 ^ 63 - 1) (omega arith))
]

pub c_strtoll-Fits64 : (s : Bytes) → Fits64 (c_strtoll s)
unfolding c_strtoll
c_strtoll-Fits64 s =
    let t = sign_of (skip_spaces (c_string s)) in clamp_signed-Fits64 t.0 (read_prefixed 10 t.1)

in_range-bounds : (b : Bool) (o : Option ℕ) (n : ℕ) → in_range b o ≡ some n → n < 2 ^ 64
unfolding in_range
in_range-bounds b none n h = cc
in_range-bounds true (some m) n h = ground arith
in_range-bounds false (some m) n h = ground arith

read_signed-bounds : (base : ℕ) (s : Bytes) (n : ℕ) → read_signed base s ≡ some n → n < 2 ^ 64
unfolding read_signed
read_signed-bounds base [] n h = cc
read_signed-bounds base (c ∷ s) n h = elim (Bool-cases (c == b'-')) [
  | inl minus ↦ in_range-bounds true (read_prefixed base s) n (rw (minus) at h)
  | inr other ↦ elim (Bool-cases (c == b'+')) [
    | inl plus ↦ in_range-bounds false (read_prefixed base s) n (rw (other, plus) at h)
    | inr digit ↦ in_range-bounds false (read_prefixed base (c ∷ s)) n (rw (other, digit) at h)
  ]
]

-- What `stoull` returns fits in 64 bits, whatever the text and the base are: a longer number is
-- refused, and only a negative one is wrapped.
strtoull-bounds : (base : ℕ) (s : Bytes) (n : ℕ) → strtoull base s ≡ some n → n < 2 ^ 64
unfolding strtoull
strtoull-bounds base s n h = read_signed-bounds base (skip_spaces s) n h

digit_of-show : (d : ℕ) → d < 10 → digit_of 10 (48 + d) ≡ some d
unfolding digit_of digit_value
digit_of-show d h = ground arith

read_number-digits_from :
    (fuel n : ℕ) (acc : Bytes)
    → n < fuel
    → read_number 10 (digits_from fuel n acc) ≡ some (read_digits 10 n acc)
unfolding digits_from read_number read_digits
read_number-digits_from zero n acc h = absurd (omega arith)
read_number-digits_from (suc fuel) n acc h = elim (Bool-cases (ltb n 10)) [
  | inl small ↦ rw (small, read_number) (rw (digit_of-show n (ground arith)) refl)
  | inr large ↦ rw (large) (
      read_number-digits_from fuel (n / 10) ((48 + n % 10) ∷ acc) (ground arith)
      ∙ rw (digit_of-show (n % 10) (omega arith), read_digits)
          (ap (λ k. some (read_digits 10 k acc)) (omega arith)))
]

digits_from-head :
    (fuel n : ℕ) (acc : Bytes)
    → n < fuel
    → (d : ℕ) × (t : Bytes) × (digits_from fuel n acc ≡ (48 + d) ∷ t) × (d < 10)
unfolding digits_from
digits_from-head zero n acc h = absurd (omega arith)
digits_from-head (suc fuel) n acc h = elim (Bool-cases (ltb n 10)) [
  | inl small ↦ (n, acc, rw (small) refl, ground arith)
  | inr large ↦
      let (d, t, shown, bound) =
        digits_from-head fuel (n / 10) ((48 + n % 10) ∷ acc) (ground arith) in
      (d, t, rw (large) shown, bound)
]

strtoull-digit :
    (d : ℕ) (t : Bytes)
    → d < 10
    → strtoull 10 ((48 + d) ∷ t) ≡ in_range false (read_number 10 ((48 + d) ∷ t))
unfolding strtoull skip_spaces is_space read_signed read_prefixed
strtoull-digit d t h =
    let black : ((48 + d == 32) || (leb 9 (48 + d) && leb (48 + d) 13)) ≡ false = ground arith in
    let minus : (48 + d == b'-') ≡ false = ground arith in
    let plus : (48 + d == b'+') ≡ false = ground arith in rw (black, minus, plus) refl

-- The decimal text of a number below 2^64 is read back as that number.
pub strtoull-show_ℕ : (n : ℕ) → n < 2 ^ 64 → strtoull 10 (show_ℕ n) ≡ some n
unfolding show_ℕ in_range read_digits
strtoull-show_ℕ n h =
    let (d, t, shown, bound) = digits_from-head (suc n) n [] (omega arith) in
    let whole : read_number 10 ((48 + d) ∷ t) ≡ some n =
      ap (read_number 10) (sym shown) ∙ read_number-digits_from (suc n) n [] (omega arith) in
    ap (strtoull 10) shown ∙ (strtoull-digit d t bound ∙ rw (whole) (rw (lt→ltb n (2 ^ 64) h) refl))

-- White space in front of a number does not count.
pub strtoull-blank : (base : ℕ) (s : Bytes) → strtoull base (32 ∷ s) ≡ strtoull base s
unfolding strtoull skip_spaces is_space
strtoull-blank base s = refl

runs : strtoull 16 (codes " 0x1aF;q") ≡ some 431
unfolding strtoull starts_with
runs = refl

negative_runs : strtoull 10 (codes "-1") ≡ some (2 ^ 64 - 1)
unfolding strtoull starts_with
negative_runs = refl
