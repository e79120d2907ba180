-- ===== src/Http/Router.antt =====
-- Routes: route_item of source/http/router/route_item.cpp and route_param.cpp. The `std::regex` that is
-- made from a route is a parameter: a function from the text of the regex, with the names of static
-- parts as they are, to what `std::regex_match` gives for a path.
pub mod Ecma
pub mod Pattern
pub mod Matching
mod Tests
use obelisk_asio_coro.Base.{
  ℕ, ◌==◌, if◌then◌else◌, some, none, Option, false, true, List, ◌∷◌, beq, Bool, Bytes, [], length,
  not, ◌||◌, ◌++◌, codes, [], suc,
}
use obelisk_asio_coro.Http.Header.{emplace}
use Prim.Native.Nat.{zero}

-- `route_param`
pub record RouteParam : Type 0 where
  pub name : Bytes
  pub is_static : Bool

-- The characters of `+~char_("*{}")` and `+~char_("}")`.
unfoldable pub static_char : ℕ → Bool
static_char c = not ((c == b'*') || ((c == b'{') || (c == b'}')))

unfoldable pub name_char : ℕ → Bool
name_char c = not (c == b'}')

-- The longest first part of a text whose characters pass a test, and what is behind it.
unfoldable pub span_first : (ℕ → Bool) → Bytes → Bytes
span_first ok [] = []
span_first ok (c ∷ s) = if ok c then c ∷ span_first ok s else []

unfoldable pub span_rest : (ℕ → Bool) → Bytes → Bytes
span_rest ok [] = []
span_rest ok (c ∷ s) = if ok c then span_rest ok s else c ∷ s

-- What `parse` with `*route_param_parser` ends with: the parts up to where no alternative fits, or
-- the exception of a `>`.
pub data Parsed : Type 0 where
  parts : List RouteParam → Parsed
  expectation_failure : Parsed

unfoldable pub with_part : RouteParam → Parsed → Parsed
with_part p (parts ps) = parts (p ∷ ps)
with_part p expectation_failure = expectation_failure

-- The part behind an opening brace.
unfoldable pub parse_name : (Bytes → Parsed) → Bytes → Bytes → Parsed
unfolding with_part
parse_name again [] rest = expectation_failure
parse_name again (c ∷ name) [] = expectation_failure
parse_name again (c ∷ name) (closing ∷ rest) =
    with_part (record { name = c ∷ name; is_static = false }) (again rest)

unfoldable pub parse_route : ℕ → Bytes → Parsed
unfolding with_part span_first span_rest parse_name static_char name_char
parse_route zero s = parts []
parse_route (suc fuel) [] = parts []
parse_route (suc fuel) (c ∷ s) =
    if static_char c
    then with_part (record { name = c ∷ span_first static_char s; is_static = true })
        (parse_route fuel (span_rest static_char s))
    else if c == b'{'
    then parse_name (λ rest. parse_route fuel rest) (span_first name_char s) (span_rest name_char s)
    else if c == b'*'
    then with_part (record { name = codes "*"; is_static = false }) (parse_route fuel s)
    else parts []

-- `pattern_` of a new route: each part takes a character, so the fuel is enough.
unfoldable pub new_pattern : Bytes → Parsed
unfolding parse_route
new_pattern path = parse_route (suc (length path)) path

-- A `std::regex` as `std::regex_match` uses it: the texts of the groups when a path matches.
abbrev pub Regex : Type 0
Regex = Bytes → Option (List Bytes)

-- The text that the constructor of a route gives to `std::regex`: the name of a static part is not
-- escaped. The first write goes over the sign that the stream begins with.
unfoldable group_text : RouteParam → Bytes
group_text p =
    if p.is_static
    then codes "(" ++ (p.name ++ codes ")")
    else if beq p.name (codes "*")
    then codes "(.*)"
    else codes "([^/]*)"

unfoldable groups_text : List RouteParam → Bytes
unfolding group_text
groups_text [] = []
groups_text (p ∷ ps) = group_text p ++ groups_text ps

unfoldable pub address_text : List RouteParam → Bytes
unfolding groups_text
address_text [] = codes "^"
address_text (p ∷ ps) = groups_text (p ∷ ps)

-- The loop over the groups in `route_param::extract`; `emplace` keeps what is there.
unfoldable pub put_params :
    List RouteParam → List Bytes → List (Bytes × Bytes) → List (Bytes × Bytes)
unfolding emplace
put_params [] gs params = params
put_params (p ∷ ps) [] params = params
put_params (p ∷ ps) (g ∷ gs) params =
    if p.is_static || beq p.name (codes "*")
    then put_params ps gs params
    else put_params ps gs (emplace beq p.name g params)

-- `route_param::extract`
unfoldable pub extract :
    Regex → Bytes → List RouteParam → List (Bytes × Bytes) → Bool × List (Bytes × Bytes)
unfolding put_params
extract regex path pattern params = elim (regex path) [
  | none ↦ (false, params)
  | some groups ↦
      if length groups == length pattern
      then (true, put_params pattern groups params)
      else (false, params)
]
