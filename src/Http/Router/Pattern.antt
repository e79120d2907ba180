-- ===== src/Http/Router/Pattern.antt =====
-- The grammar of a route: what the parts that it is read as are written like.
use obelisk_asio_coro.Base.{
  ℕ, List, Bool, beq_refl, Bytes, ◌∷◌, [], if◌then◌else◌, true, length, ◌≡◌, ◌++◌, codes, beq, refl,
  false, ap, ◌<◌, arith, suc, ◌≤◌, length-append, sym, append_assoc, ◌∙◌,
}
use obelisk_asio_coro.Http.Router.Ecma.{AllPass}
use obelisk_asio_coro.Http.Router.{
  RouteParam, parse_name, parse_route, span_first, span_rest, static_char, with_part, Parsed,
  name_char, parts, new_pattern,
}
use Prim.Native.Nat.{zero}

-- A part as it is written in a route.
unfoldable print_part : RouteParam → Bytes
print_part p =
    if p.is_static
    then p.name
    else if beq p.name (codes "*")
    then codes "*"
    else b'{' ∷ (p.name ++ codes "}")

unfoldable pub print_route : List RouteParam → Bytes
unfolding print_part
print_route [] = []
print_route (p ∷ ps) = print_part p ++ print_route ps

abbrev NoStatic : List RouteParam → Type 0
NoStatic [] = Unit
NoStatic (p ∷ ps) = p.is_static ≡ false

-- Parts that can be told apart when they are written one behind the other.
pub data IsPattern : List RouteParam → Type 0 where
  no_parts : IsPattern []
  static_part :
      (c : ℕ) (s : Bytes) (ps : List RouteParam)
      → AllPass static_char (c ∷ s)
      → NoStatic ps
      → IsPattern ps
      → IsPattern (record { name = c ∷ s; is_static = true } ∷ ps)
  named_part :
      (c : ℕ) (s : Bytes) (ps : List RouteParam)
      → AllPass name_char (c ∷ s)
      → beq (c ∷ s) (codes "*") ≡ false
      → IsPattern ps
      → IsPattern (record { name = c ∷ s; is_static = false } ∷ ps)
  star_part :
      (ps : List RouteParam)
      → IsPattern ps
      → IsPattern (record { name = codes "*"; is_static = false } ∷ ps)

abbrev StopsAt : (ℕ → Bool) → Bytes → Type 0
StopsAt ok [] = Unit
StopsAt ok (c ∷ s) = ok c ≡ false

span_first-append :
    (ok : ℕ → Bool) (g r : Bytes) → AllPass ok g → StopsAt ok r → span_first ok (g ++ r) ≡ g
unfolding span_first
span_first-append ok [] [] h k = refl
span_first-append ok [] (c ∷ r) h k = rw (k) refl
span_first-append ok (c ∷ g) r (p, h) k = rw (p) (ap (◌∷◌ c) (span_first-append ok g r h k))

span_rest-append :
    (ok : ℕ → Bool) (g r : Bytes) → AllPass ok g → StopsAt ok r → span_rest ok (g ++ r) ≡ r
unfolding span_rest
span_rest-append ok [] [] h k = refl
span_rest-append ok [] (c ∷ r) h k = rw (k) refl
span_rest-append ok (c ∷ g) r (p, h) k = rw (p) (span_rest-append ok g r h k)

print_route-stops :
    (ps : List RouteParam) → IsPattern ps → NoStatic ps → StopsAt static_char (print_route ps)
unfolding print_route print_part static_char
print_route-stops _ no_parts h = tt
print_route-stops _ (static_part c s ps pass next good) h = absurd cc
print_route-stops _ (named_part c s ps pass other good) h = rw (other) refl
print_route-stops _ (star_part ps good) h = rw (beq_refl (codes "*")) refl

parse_named :
    (again : Bytes → Parsed) (c : ℕ) (s rest : Bytes)
    → parse_name again (c ∷ s) (b'}' ∷ rest)
      ≡ with_part (record { name = c ∷ s; is_static = false }) (again rest)
unfolding parse_name
parse_named again c s rest = refl

parse_printed :
    (fuel : ℕ) (ps : List RouteParam)
    → length ps < fuel
    → IsPattern ps
    → parse_route fuel (print_route ps) ≡ parts ps
unfolding parse_route print_route print_part with_part parse_name static_char name_char
parse_printed zero ps enough good = absurd (omega arith)
parse_printed (suc fuel) _ enough no_parts = refl
parse_printed (suc fuel) _ enough (static_part c s ps (p, pass) next good) =
    let stops = print_route-stops ps good next in
    rw (p) (
      rw
        (
          span_first-append static_char s (print_route ps) pass stops,
          span_rest-append static_char s (print_route ps) pass stops,
        )
        (rw (parse_printed fuel ps (omega arith) good) refl))
parse_printed (suc fuel) _ enough (named_part c s ps pass other good) =
    let rest : Bytes = print_route ps in
    let name : Bytes = c ∷ s in
    let tail : name ++ b'}' ∷ rest ≡ c ∷ ((s ++ codes "}") ++ rest) =
      ap (◌∷◌ c) (sym (append_assoc s (codes "}") rest)) in
    let first : span_first name_char (c ∷ ((s ++ codes "}") ++ rest)) ≡ name =
      ap (span_first name_char) (sym tail)
      ∙ span_first-append name_char name (b'}' ∷ rest) pass refl in
    let behind : span_rest name_char (c ∷ ((s ++ codes "}") ++ rest)) ≡ b'}' ∷ rest =
      ap (span_rest name_char) (sym tail)
      ∙ span_rest-append name_char name (b'}' ∷ rest) pass refl in
    rw (other) (
      ap
        (λ z.
          parse_name (λ r. parse_route fuel r) z
            (span_rest name_char (c ∷ ((s ++ codes "}") ++ rest))))
        first
      ∙ (ap (parse_name (λ r. parse_route fuel r) name) behind
          ∙ ap (with_part (record { name = name; is_static = false }))
              (parse_printed fuel ps (omega arith) good)))
parse_printed (suc fuel) _ enough (star_part ps good) =
    rw (beq_refl (codes "*")) (rw (parse_printed fuel ps (omega arith) good) refl)

print_part-some :
    (p : RouteParam) (ps : List RouteParam) → IsPattern (p ∷ ps) → 0 < length (print_part p)
unfolding print_part
print_part-some _ _ (static_part c s ps pass next good) = omega arith
print_part-some _ _ (named_part c s ps pass other good) = rw (other) (omega arith)
print_part-some _ _ (star_part ps good) = rw (beq_refl (codes "*")) (omega arith)

IsPattern-tail : (p : RouteParam) (ps : List RouteParam) → IsPattern (p ∷ ps) → IsPattern ps
IsPattern-tail _ _ (static_part c s ps pass next good) = good
IsPattern-tail _ _ (named_part c s ps pass other good) = good
IsPattern-tail _ _ (star_part ps good) = good

length-print_route : (ps : List RouteParam) → IsPattern ps → length ps ≤ length (print_route ps)
unfolding print_route
length-print_route [] good = omega arith
length-print_route (p ∷ ps) good = omega (
  arith,
  length-append (print_part p) (print_route ps),
  print_part-some p ps good,
  length-print_route ps (IsPattern-tail p ps good),
)

-- The route that is written from parts is read as these parts: static parts are not empty, have
-- none of the signs *, { and } and do not follow each other; the name between braces is not empty,
-- has no closing brace and is not *.
pub new_pattern-print_route :
    (ps : List RouteParam) → IsPattern ps → new_pattern (print_route ps) ≡ parts ps
unfolding new_pattern
new_pattern-print_route ps good =
    parse_printed (suc (length (print_route ps))) ps
      (let e = length-print_route ps good in omega arith) good
