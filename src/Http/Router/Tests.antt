-- ===== src/Http/Router/Tests.antt =====
-- A route with a named part and its matches.
use obelisk_asio_coro.Http.Router.Ecma.{no_slash, any_char, regex_match, groups_of}
use obelisk_asio_coro.Base.{
  List, ◌∷◌, [], Option, some, none, if◌then◌else◌, true, false, refl, codes, beq, starts_with, ◌≡◌,
  Bytes,
}
use obelisk_asio_coro.Http.Router.{
  extract, address_text, Regex, new_pattern, static_char, RouteParam, name_char, emplace, parts,
}
use obelisk_asio_coro.Http.Router.Pattern.{
  print_route, IsPattern, static_part, new_pattern-print_route, named_part, star_part, no_parts,
}
use obelisk_asio_coro.Http.Header.{emplace}

abbrev user_route : List RouteParam
user_route =
    record { name = codes "/user/"; is_static = true }
    ∷ record { name = codes "id"; is_static = false }
    ∷ record { name = codes "/files/"; is_static = true }
    ∷ record { name = codes "*"; is_static = false }
    ∷ []

parse_run : new_pattern (codes "/user/{id}/files/*") ≡ parts user_route
unfolding new_pattern beq
parse_run = refl

cut_short_run :
    new_pattern (codes "/a}b") ≡ parts (record { name = codes "/a"; is_static = true } ∷ [])
unfolding new_pattern
cut_short_run = refl

-- A `std::regex` that knows the text of this route alone.
user_regex : Bytes → Option Regex
user_regex text =
    if beq text (codes "(/user/)([^/]*)(/files/)(.*)")
    then some (λ path. regex_match (groups_of user_route) path)
    else none

user_text : address_text user_route ≡ codes "(/user/)([^/]*)(/files/)(.*)"
unfolding address_text beq
user_text = refl

extract_run :
    extract
      (λ path. regex_match (groups_of user_route) path)
      (codes "/user/7/files/a/b")
      user_route
      []
    ≡ (true, (codes "id", codes "7") ∷ [])
unfolding extract regex_match groups_of beq starts_with emplace no_slash any_char
extract_run = refl

missed_run :
    extract (λ path. regex_match (groups_of user_route) path) (codes "/user/7/9") user_route []
    ≡ (false, [])
unfolding extract regex_match groups_of beq starts_with no_slash any_char
missed_run = refl

user_route-IsPattern : IsPattern user_route
unfolding static_char name_char beq
user_route-IsPattern =
    static_part b'/' (codes "user/") _ (refl, (refl, (refl, (refl, (refl, (refl, tt)))))) refl
      (named_part b'i' (codes "d") _ (refl, (refl, tt)) refl
        (static_part b'/' (codes "files/") _
          (refl, (refl, (refl, (refl, (refl, (refl, (refl, tt))))))) refl (star_part [] no_parts)))

new_pattern-print_route_example : new_pattern (print_route user_route) ≡ parts user_route
new_pattern-print_route_example = new_pattern-print_route user_route user_route-IsPattern
