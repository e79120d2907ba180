-- ===== src/Http/Params/Tests.antt =====
-- Two fields with one name, and a field for an array.
use obelisk_asio_coro.Base.{List, ◌∷◌, [], true, refl, none, Bytes, beq, ◌≡◌, codes, ◌++◌}
use obelisk_asio_coro.Http.Params.{parse_urlencoded_param, has_suffix}
use obelisk_asio_coro.Http.Params.Urlencoded.{
  print_fields, AllFields, AllSingle, IsField, last_value, parse_urlencoded_param-last,
}
use obelisk_asio_coro.Http.Json.{param, array, string, element, no_elements}

abbrev first_field : Bytes × Bytes
first_field = (codes "a", codes "1")

abbrev other_fields : List (Bytes × Bytes)
other_fields = (codes "b", codes "x=y") ∷ (codes "a", codes "2") ∷ []

print_run : print_fields first_field other_fields ≡ codes "a=1&b=x=y&a=2"
unfolding print_fields
print_run = refl

-- The zero byte behind a query stays in the name of a field without a value.
flag_run :
    parse_urlencoded_param (codes "flag" ++ (0 ∷ [])) []
    ≡ (true, (codes "flag" ++ (0 ∷ []), string []) ∷ [])
unfolding parse_urlencoded_param beq
flag_run = refl

array_run : parse_urlencoded_param (codes "a[]=1&a[]=2") [] ≡ (
  true,
  (codes "a[]", array (element (string (codes "1")) (element (string (codes "2")) no_elements)))
      ∷ [],
)
unfolding parse_urlencoded_param beq
array_run = refl

first_field-IsField : IsField first_field
unfolding IsField
first_field-IsField = ((refl, tt), (refl, tt), (refl, tt))

other_fields-AllFields : AllFields other_fields
unfolding AllFields IsField
other_fields-AllFields =
    let b : IsField (codes "b", codes "x=y") =
      ((refl, tt), (refl, tt), (refl, (refl, (refl, tt)))) in
    let a : IsField (codes "a", codes "2") = ((refl, tt), (refl, tt), (refl, tt)) in (b, (a, tt))

fields-AllSingle : AllSingle (first_field ∷ other_fields)
unfolding AllSingle has_suffix beq
fields-AllSingle = (refl, (refl, (refl, tt)))

parse_urlencoded_param-last_example :
    ((parse_urlencoded_param (print_fields first_field other_fields) []).0 ≡ true)
    × (param (codes "a") (parse_urlencoded_param (print_fields first_field other_fields) []).1
        ≡ last_value (codes "a") (first_field ∷ other_fields) none)
unfolding param
parse_urlencoded_param-last_example =
    parse_urlencoded_param-last first_field other_fields [] (codes "a") first_field-IsField
      other_fields-AllFields fields-AllSingle
