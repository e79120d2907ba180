-- ===== src/Http/Params.antt =====
-- Parameters of a request: parse_urlencoded_param of source/http/parser_v2/http_parser_v3.cpp and the
-- middlewares url_params_extract.cpp and json_extract.cpp. The decoding of a query by sahara and the
-- JSON parser are parameters.
pub mod Urlencoded
mod Tests
use obelisk_asio_coro.Base.{text_until}
use obelisk_asio_coro.Base.{
  ℕ, List, ◌∷◌, [], if◌then◌else◌, some, none, true, false, Option, Bytes, suc, map, map, drop,
  ◌==◌, Bool, is_empty, leb, length, codes, ◌&&◌, beq, ◌-◌,
}
use mathlib.Core.Option
use obelisk_asio_coro.Http.Io.{contains}
use obelisk_asio_coro.Http.Json.{
  set_param, Json, array, Elements, param, Params, element, emplace_param, no_elements, string,
  null,
}
use obelisk_asio_coro.Http.Io.Message.{to_lower, iequals}
use obelisk_asio_coro.Http.Numeral.{skip_spaces, is_space}
use obelisk_asio_coro.Http.Request.{RequestData, query_string, RequestLine}
use Prim.Native.Nat.{zero}
use obelisk_asio_coro.Http.Server.{Result, returned, thrown, other_exception}
use obelisk_asio_coro.Http.Header.{lookup, emplace}
use obelisk_asio_coro.Http.Response.{Response}

-- The text from the first `c` on.
unfoldable pub text_from : ℕ → Bytes → Bytes
text_from c [] = []
text_from c (x ∷ s) = if x == c then x ∷ s else text_from c s

-- `UrlEncodedDataParser % '&'`: between ampersands, a name without `=`, an optional `=`, and a value.
-- Both may be empty, so there is always one pair at least and the parser takes the whole text.
unfoldable pub split_fields : ℕ → Bytes → List Bytes
unfolding text_until text_from
split_fields zero s = []
split_fields (suc fuel) s = elim (text_from b'&' s) [
  | [] ↦ text_until b'&' s ∷ []
  | _ ∷ rest ↦ text_until b'&' s ∷ split_fields fuel rest
]

unfoldable pub parse_field : Bytes → Bytes × Bytes
unfolding text_until text_from
parse_field s = (text_until b'=' s, drop 1 (text_from b'=' s))

unfoldable pub parse_fields : Bytes → List (Bytes × Bytes)
unfolding split_fields parse_field
parse_fields s = map parse_field (split_fields (suc (length s)) s)

-- `key.ends_with("[]")`
unfoldable pub has_suffix : Bytes → Bytes → Bool
has_suffix s p = leb (length p) (length s) && beq (drop (length s - length p) s) p

-- `val.erase(val.find_last_not_of('\0') + 1)`: zero bytes at the end go.
unfoldable pub trim_zero : Bytes → Bytes
trim_zero [] = []
trim_zero (x ∷ s) = elim (trim_zero s) [ [] ↦ if x == 0 then [] else x ∷ [] | y ∷ t ↦ x ∷ y ∷ t ]

-- `emplace_back` of a JSON value: null becomes an array, any other value that is no array throws.
unfoldable push_element : Json → Elements → Elements
push_element v no_elements = element v no_elements
push_element v (element w es) = element w (push_element v es)

unfoldable pub emplace_back : Json → Json → Option Json
unfolding push_element
emplace_back v null = some (array (element v no_elements))
emplace_back v (array es) = some (array (push_element v es))
emplace_back v _ = none

-- One field; `none` is an exception.
unfoldable pub put_field : Bytes → Bytes → Params → Option Params
unfolding has_suffix trim_zero emplace_back set_param param
put_field key val params =
    if has_suffix key (codes "[]")
    then (let old : Json = elim (param key params) [ none ↦ array no_elements | some v ↦ v ] in
        Option.map (λ v. set_param key v params) (emplace_back (string val) old))
    else some (set_param key (string (trim_zero val)) params)

-- All fields, in their order: whether no exception ended the loop, and the parameters then.
unfoldable pub put_fields : List (Bytes × Bytes) → Params → Bool × Params
unfolding put_field
put_fields [] params = (true, params)
put_fields ((key, val) ∷ fs) params = elim (put_field key val params) [
  | none ↦ (false, params)
  | some ps ↦ put_fields fs ps
]

unfoldable pub parse_urlencoded_param : Bytes → Params → Bool × Params
unfolding parse_fields put_fields
parse_urlencoded_param text params = put_fields (parse_fields text) params

-- `boost::algorithm::icontains` and `trim` in the C locale.
unfoldable pub icontains : Bytes → Bytes → Bool
unfolding to_lower
icontains s p = contains (map to_lower s) (map to_lower p)

unfoldable trim_right : Bytes → Bytes
unfolding is_space
trim_right [] = []
trim_right (x ∷ s) = elim (trim_right s) [
  | [] ↦ if is_space x then [] else x ∷ []
  | y ∷ t ↦ x ∷ y ∷ t
]

unfoldable trim : Bytes → Bytes
unfolding trim_right skip_spaces
trim s = trim_right (skip_spaces s)

-- What `std::istream_iterator` reads: the bytes that are no spaces.
unfoldable read_unspaced : Bytes → Bytes
unfolding is_space
read_unspaced [] = []
read_unspaced (x ∷ s) = if is_space x then read_unspaced s else x ∷ read_unspaced s

-- The exception of a library, with the text `what`.
unfoldable pub failure : Bytes → RequestData → RequestData × Result (Option Response)
failure what d = (d, thrown (other_exception what))

unfoldable put_urlencoded : Bytes → RequestData → Bool × RequestData
unfolding parse_urlencoded_param
put_urlencoded text d =
    let r = parse_urlencoded_param text d.params in
    if is_empty text then (true, d) else (r.0, record d { params = r.1 })

-- `what` is the text of the exceptions that nlohmann throws.
module _ (same_key : Bytes → Bytes → Bool) (what : Bytes) where
  -- `headers()[key]` for a key that may be missing: it adds an empty value.
  unfoldable pub header_or_add : Bytes → RequestData → Bytes × RequestData
  unfolding lookup emplace
  header_or_add key d = elim (lookup same_key key d.headers) [
    | some v ↦ (v, d)
    | none ↦ ([], record d { headers = emplace same_key key [] d.headers })
  ]

  -- `url_params_extract::pre_handle`: the query, and then a form body. The test is for a header named
  -- `content_type`, with an underscore. The form is read at spaces, which are dropped.
  unfoldable extract_form : RequestData → RequestData × Result (Option Response)
  unfolding lookup header_or_add trim iequals read_unspaced put_urlencoded failure
  extract_form d = elim (lookup same_key (codes "content_type") d.headers) [
    | none ↦ (d, returned none)
    | some _ ↦
        let (content_type, d1) = header_or_add (codes "content-type") d in
        elim (d1.raw_body) [
          | none ↦ (d1, returned none)
          | some body ↦
              let d2 = record d1 { raw_body = some [] } in
              let r = put_urlencoded (read_unspaced body) d2 in
              if iequals (trim content_type) (codes "application/x-www-form-urlencoded")
              then (if r.0 then (r.1, returned none) else failure what r.1)
              else (d1, returned none)
        ]
  ]

  unfoldable url_params_extract :
      (Bytes → Bytes) → RequestLine → RequestData → RequestData × Result (Option Response)
  unfolding query_string put_urlencoded extract_form failure
  url_params_extract url_decode line d =
      let r = put_urlencoded (url_decode (query_string line)) d in
      if r.0 then extract_form r.1 else failure what r.1

  -- `json_extract::pre_handle`: every entry of an object is added unless its name is there. The keys
  -- of other values are those that `items()` gives.
  unfoldable emplace_members : List (Bytes × Json) → Params → Params
  unfolding emplace_param
  emplace_members [] ps = ps
  emplace_members ((k, v) ∷ ms) ps = emplace_members ms (emplace_param k v ps)

  unfoldable json_extract :
      (Bytes → Option (List (Bytes × Json)))
      → RequestLine
      → RequestData
      → RequestData × Result (Option Response)
  unfolding lookup icontains emplace_members failure
  json_extract parse_items line d = elim (lookup same_key (codes "content-type") d.headers) [
    | none ↦ (d, returned none)
    | some content_type ↦
        if icontains content_type (codes "application/json")
        then elim (d.raw_body) [
          | none ↦ (d, returned none)
          | some body ↦ elim (parse_items body) [
            | none ↦ failure what (record d { raw_body = some [] })
            | some items ↦ (
              record d { raw_body = some []; params = emplace_members items d.params },
              returned none,
            )
          ]
        ]
        else (d, returned none)
  ]
