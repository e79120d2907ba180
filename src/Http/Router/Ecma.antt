-- ===== src/Http/Router/Ecma.antt =====
-- What ECMAScript, the grammar of `std::regex`, documents of the regexes that
-- source/http/router/route_item.cpp makes: groups of plain text, `(.*)` and `([^/]*)`, matched greedily
-- from the left with backtracking.
use obelisk_asio_coro.Base.{
  ℕ, ◌==◌, ◌≡◌, if◌then◌else◌, some, none, Option, true, List, ◌∷◌, beq, Bool, Bytes, [], length,
  not, ◌||◌, codes, drop, starts_with, All,
}
use mathlib.Core.Option
use obelisk_asio_coro.Http.Router.{RouteParam, Regex, address_text}

-- A group of the regex: plain text, `.*` or `[^/]*`.
pub data Group : Type 0 where
  text : Bytes → Group
  run : (ℕ → Bool) → Group

-- `.` takes no line break.
unfoldable pub any_char : ℕ → Bool
any_char c = not ((c == 10) || (c == 13))

unfoldable pub no_slash : ℕ → Bool
no_slash c = not (c == b'/')

unfoldable group_of : RouteParam → Group
group_of p =
    if p.is_static
    then text p.name
    else if beq p.name (codes "*")
    then run any_char
    else run no_slash

-- The groups of a route.
unfoldable pub groups_of : List RouteParam → List Group
unfolding group_of
groups_of [] = []
groups_of (p ∷ ps) = group_of p ∷ groups_of ps

unfoldable pub extend : ℕ → List Bytes → List Bytes
extend c [] = []
extend c (g ∷ gs) = (c ∷ g) ∷ gs

unfoldable pub first_of {ℓ} : {A : Type ℓ} → Option A → Option A → Option A
first_of (some a) b = some a
first_of none b = b

-- A greedy run in front of the rest of the regex: as many characters as possible first.
unfoldable pub match_run : (Bytes → Option (List Bytes)) → (ℕ → Bool) → Bytes → Option (List Bytes)
unfolding extend first_of
match_run rest ok [] = Option.map (λ gs. [] ∷ gs) (rest [])
match_run rest ok (c ∷ s) =
    let here = Option.map (λ gs. [] ∷ gs) (rest (c ∷ s)) in
    let more = Option.map (extend c) (match_run rest ok s) in
    if ok c then first_of more here else here

-- `std::regex_match`: the texts of the groups.
unfoldable pub regex_match : List Group → Bytes → Option (List Bytes)
unfolding match_run
regex_match [] [] = some []
regex_match [] (c ∷ s) = none
regex_match (text t ∷ gs) s =
    let rest = Option.map (λ m. t ∷ m) (regex_match gs (drop (length t) s)) in
    if starts_with s t then rest else none
regex_match (run ok ∷ gs) s = match_run (λ r. regex_match gs r) ok s

-- The signs that a regex reads: none of them stands in the name of a static part.
unfoldable pub is_sign : ℕ → Bool
is_sign c =
    (c == b'^')
    || ((c == b'$') || ((c == b'.') || ((c == b'*') || ((c == b'+') || (c == b'?')))))
    || ((c == 92)
        || ((c == b'|')
            || ((c == b'(')
                || ((c == b')')
                    || ((c == b'[') || ((c == b']') || ((c == b'{') || (c == b'}'))))))))

-- Every character of a text passes a test.
abbrev pub AllPass : (ℕ → Bool) → Bytes → Type 0
AllPass ok [] = Unit
AllPass ok (c ∷ s) = (ok c ≡ true) × AllPass ok s

abbrev pub IsPlain : RouteParam → Type 0
IsPlain p = p.is_static ≡ true → AllPass (λ c. not (is_sign c)) p.name

-- `std::regex` reads the text of a route without signs as those groups.
pub record IsEcmaScript (regex : Bytes → Option Regex) (pattern : List RouteParam) : Type 0 where
  pub reads_groups :
      All IsPlain pattern
      → (r : Regex) × (regex (address_text pattern) ≡ some r)
        × ((path : Bytes) → r path ≡ regex_match (groups_of pattern) path)
