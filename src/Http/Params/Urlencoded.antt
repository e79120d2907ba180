-- ===== src/Http/Params/Urlencoded.antt =====
-- Fields as they are written in a query, and what parse_urlencoded_param makes of them.
use obelisk_asio_coro.Base.{text_until}
use obelisk_asio_coro.Base.{
  ℕ, List, Bytes, Lacks, length, Option, ◌≡◌, ◌++◌, map, ◌∷◌, [], ◌≤◌, arith, ap, [], ◌<◌, true,
  Lacks-append, refl, if◌then◌else◌, suc, length-append, codes, ◌∙◌, false, beq, some, Bool-cases,
  inl, beq→eq, sym, inr,
}
use obelisk_asio_coro.Http.Params.{
  parse_urlencoded_param, parse_field, split_fields, put_fields, parse_fields, Params, put_field,
  text_from, has_suffix, trim_zero,
}
use obelisk_asio_coro.Http.Json.{
  Params, Json, param, set_param, string, param-set_param, param-set_param_other,
}
use Prim.Native.Nat.{zero}

unfoldable print_field : Bytes × Bytes → Bytes
print_field f = f.0 ++ b'=' ∷ f.1

-- Fields with ampersands between them.
unfoldable pub print_fields : Bytes × Bytes → List (Bytes × Bytes) → Bytes
unfolding print_field
print_fields f [] = print_field f
print_fields f (g ∷ fs) = print_field f ++ b'&' ∷ print_fields g fs

-- A name without = and &, a value without &.
unfoldable pub IsField : Bytes × Bytes → Type 0
IsField f = Lacks b'=' f.0 × Lacks b'&' f.0 × Lacks b'&' f.1

unfoldable pub AllFields : List (Bytes × Bytes) → Type 0
AllFields [] = Unit
AllFields (f ∷ fs) = IsField f × AllFields fs

text_until-append : (c : ℕ) (s t : Bytes) → Lacks c s → text_until c (s ++ c ∷ t) ≡ s
unfolding text_until
text_until-append c [] t h = ground arith
text_until-append c (x ∷ s) t (p, h) = rw (p) (ap (◌∷◌ x) (text_until-append c s t h))

text_from-append : (c : ℕ) (s t : Bytes) → Lacks c s → text_from c (s ++ c ∷ t) ≡ c ∷ t
unfolding text_from
text_from-append c [] t h = ground arith
text_from-append c (x ∷ s) t (p, h) = rw (p) (text_from-append c s t h)

text_until-Lacks : (c : ℕ) (s : Bytes) → Lacks c s → text_until c s ≡ s
unfolding text_until
text_until-Lacks c [] h = refl
text_until-Lacks c (x ∷ s) (p, h) = rw (p) (ap (◌∷◌ x) (text_until-Lacks c s h))

text_from-Lacks : (c : ℕ) (s : Bytes) → Lacks c s → text_from c s ≡ []
unfolding text_from
text_from-Lacks c [] h = refl
text_from-Lacks c (x ∷ s) (p, h) = rw (p) (text_from-Lacks c s h)

print_field-Lacks : (f : Bytes × Bytes) → IsField f → Lacks b'&' (print_field f)
unfolding print_field IsField
print_field-Lacks f (p, q, r) = Lacks-append b'&' f.0 (b'=' ∷ f.1) q (refl, r)

parse_field-print_field : (f : Bytes × Bytes) → IsField f → parse_field (print_field f) ≡ f
unfolding parse_field print_field IsField
parse_field-print_field f (p, q, r) =
    rw (text_until-append b'=' f.0 f.1 p, text_from-append b'=' f.0 f.1 p) refl

split_printed :
    (fuel : ℕ) (f : Bytes × Bytes) (fs : List (Bytes × Bytes))
    → length fs < fuel
    → IsField f
    → AllFields fs
    → split_fields fuel (print_fields f fs) ≡ map print_field (f ∷ fs)
unfolding split_fields print_fields AllFields
split_printed zero f fs enough good rest = absurd (omega arith)
split_printed (suc fuel) f [] enough good rest =
    let clean = print_field-Lacks f good in
    rw (text_from-Lacks b'&' (print_field f) clean, split_fields)
      (ap (λ z. z ∷ []) (text_until-Lacks b'&' (print_field f) clean))
split_printed (suc fuel) f (g ∷ fs) enough good (next, rest) =
    let clean = print_field-Lacks f good in
    rw (text_from-append b'&' (print_field f) (print_fields g fs) clean, split_fields)
      (rw
        (
          text_until-append b'&' (print_field f) (print_fields g fs) clean,
          split_printed fuel g fs (omega arith) next rest,
        )
        refl)

map-parse_field :
    (fs : List (Bytes × Bytes)) → AllFields fs → map parse_field (map print_field fs) ≡ fs
unfolding AllFields
map-parse_field [] h = refl
map-parse_field (f ∷ fs) (p, h) = rw (parse_field-print_field f p, map-parse_field fs h) refl

length-print_fields :
    (f : Bytes × Bytes) (fs : List (Bytes × Bytes)) → length fs ≤ length (print_fields f fs)
unfolding print_fields
length-print_fields f [] = omega arith
length-print_fields f (g ∷ fs) =
    omega
      (arith, length-append (print_field f) (b'&' ∷ print_fields g fs), length-print_fields g fs)

-- Fields that are written as name=value with ampersands between them are read as these names and
-- values, when no name has = or & and no value has &.
parse_fields-print_fields :
    (f : Bytes × Bytes) (fs : List (Bytes × Bytes))
    → IsField f
    → AllFields fs
    → parse_fields (print_fields f fs) ≡ f ∷ fs
unfolding parse_fields AllFields
parse_fields-print_fields f fs good rest =
    ap (map parse_field) (
      split_printed (suc (length (print_fields f fs))) f fs
        (let e = length-print_fields f fs in omega arith) good rest)
    ∙ map-parse_field (f ∷ fs) (good, rest)

-- No name asks for an array.
unfoldable pub AllSingle : List (Bytes × Bytes) → Type 0
AllSingle [] = Unit
AllSingle ((key, val) ∷ fs) = (has_suffix key (codes "[]") ≡ false) × AllSingle fs

-- The value of the last field with a name, or what was there before.
unfoldable pub last_value : Bytes → List (Bytes × Bytes) → Option Json → Option Json
last_value name [] before = before
last_value name ((key, val) ∷ fs) before =
    last_value name fs (if beq key name then some (string (trim_zero val)) else before)

put_fields-last :
    (fs : List (Bytes × Bytes)) (params : Params) (name : Bytes)
    → AllSingle fs
    → ((put_fields fs params).0 ≡ true)
      × (param name (put_fields fs params).1 ≡ last_value name fs (param name params))
unfolding put_fields AllSingle last_value put_field
put_fields-last [] params name h = (refl, refl)
put_fields-last ((key, val) ∷ fs) params name (single, h) =
    let next = set_param key (string (trim_zero val)) params in
    let (done, found) = put_fields-last fs next name h in
    let here : param name next
        ≡ (if beq key name then some (string (trim_zero val)) else param name params) =
      elim (Bool-cases (beq key name)) [
        | inl same ↦
            (let e : key ≡ name = beq→eq key name same in
              rw (same) (rw (sym e) (param-set_param key (string (trim_zero val)) params)))
        | inr other ↦
            rw (other) (param-set_param_other key name (string (trim_zero val)) params other)
      ] in
    (
      rw (single, put_fields, put_field) done,
      rw (single, put_fields, put_field) (found ∙ ap (last_value name fs) here),
    )

-- A query whose names do not end in [] never fails, and every name has the value of its last field
-- with that name, without zero bytes at its end, or else the value that it had before.
pub parse_urlencoded_param-last :
    (f : Bytes × Bytes) (fs : List (Bytes × Bytes)) (params : Params) (name : Bytes)
    → IsField f
    → AllFields fs
    → AllSingle (f ∷ fs)
    → ((parse_urlencoded_param (print_fields f fs) params).0 ≡ true)
      × (param name (parse_urlencoded_param (print_fields f fs) params).1
          ≡ last_value name (f ∷ fs) (param name params))
unfolding parse_urlencoded_param
parse_urlencoded_param-last f fs params name good rest single =
    rw (parse_fields-print_fields f fs good rest) (put_fields-last (f ∷ fs) params name single)
