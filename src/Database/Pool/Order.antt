-- ===== src/Database/Pool/Order.antt =====
-- Every connection is at one place of the pool, so no two clients hold the same one.
use obelisk_asio_coro.Base.{
  min, ℕ, ◌+◌, ◌≡◌, refl, Bool, true, false, List, [], ◌∷◌, ◌++◌, Option, none, some, ltb, length,
  if◌then◌else◌, ◌==◌, arith, Leaves, first, later, Bool-cases, inl, inr, ◌||◌, not,
}
use obelisk_asio_coro.Database.Pool.{
  World, start, take_front, begin_get, end_get, connection_reset, push_back, add_initial,
  initialize, Step, begins, ends, resets, pushes, Reachable, starts, steps,
}

-- How often a connection stands in a list.
unfoldable pub count : ℕ → List ℕ → ℕ
count x [] = 0
count x (y ∷ ys) = (if x == y then 1 else 0) + count x ys

unfoldable pub count_taken : ℕ → List (Option ℕ) → ℕ
count_taken x [] = 0
count_taken x (none ∷ os) = count_taken x os
count_taken x (some y ∷ os) = (if x == y then 1 else 0) + count_taken x os

-- How often the pool has it, at all places together.
unfoldable pub places : ℕ → World → ℕ
unfolding count count_taken
places x w =
    count x w.connections
    + (count_taken x w.getting + (count x w.held + (count x w.returning + count x w.deleted)))

-- Each connection that was made is at exactly one place, and no other is anywhere.
unfoldable IsSound : World → Type 0
IsSound w = (x : ℕ) → places x w ≡ (if ltb x w.made then 1 else 0)

count-append : (x : ℕ) (xs ys : List ℕ) → count x (xs ++ ys) ≡ count x xs + count x ys
unfolding count
count-append x [] ys = omega arith
count-append x (y ∷ xs) ys = omega (arith, count-append x xs ys)

count-Leaves :
    (x : ℕ) {c : ℕ} {cs left : List ℕ}
    → Leaves c cs left
    → count x cs ≡ (if x == c then 1 else 0) + count x left
unfolding count
count-Leaves x first = refl
count-Leaves x (later h) = omega (arith, count-Leaves x h)

count_taken-Leaves :
    (x : ℕ) {o : Option ℕ} {os left : List (Option ℕ)}
    → Leaves o os left
    → count_taken x os ≡ count_taken x (o ∷ []) + count_taken x left
unfolding count_taken
count_taken-Leaves x {o = none} first = omega arith
count_taken-Leaves x {o = some y} first = omega arith
count_taken-Leaves x (later {s = none} h) = omega (arith, count_taken-Leaves x h)
count_taken-Leaves x (later {s = some y} h) = omega (arith, count_taken-Leaves x h)

add_initial-IsSound : (b : Bool) (w : World) → IsSound w → IsSound (add_initial b w)
unfolding IsSound places count count_taken add_initial
add_initial-IsSound true w h x = ground (arith, h x, count-append x w.connections (w.made ∷ []))
add_initial-IsSound false w h x = h x

initialize-IsSound :
    (min : ℕ) (bs : List Bool) (w : World) → IsSound w → IsSound (initialize min bs w).1
unfolding initialize
initialize-IsSound min [] w h = h
initialize-IsSound min (b ∷ bs) w h = elim (Bool-cases (ltb (length w.connections) min)) [
  | inl more ↦ rw (more) (initialize-IsSound min bs (add_initial b w) (add_initial-IsSound b w h))
  | inr enough ↦ rw (enough) h
]

count-take_front :
    (x : ℕ) (cs : List ℕ) (os : List (Option ℕ))
    → count_taken x ((take_front cs).0 ∷ os) + count x (take_front cs).1
      ≡ count_taken x os + count x cs
unfolding count count_taken take_front
count-take_front x [] os = omega arith
count-take_front x (c ∷ cs) os = omega arith

begin_get-IsSound : (w : World) → IsSound w → IsSound (begin_get w)
unfolding IsSound places count count_taken begin_get
begin_get-IsSound w h x = omega (arith, h x, count-take_front x w.connections w.getting)

end_get-IsSound :
    (o : Option ℕ) (b : Bool) (rest : List (Option ℕ)) (w : World)
    → Leaves o w.getting rest
    → IsSound w
    → IsSound (end_get o b rest w)
unfolding IsSound places count count_taken end_get
end_get-IsSound (some c) b rest w out h x = omega (arith, h x, count_taken-Leaves x out)
end_get-IsSound none true rest w out h x = ground (arith, h x, count_taken-Leaves x out)
end_get-IsSound none false rest w out h x = omega (arith, h x, count_taken-Leaves x out)

connection_reset-IsSound :
    (c : ℕ) (stopped reuse : Bool) (left : List ℕ) (w : World)
    → Leaves c w.held left
    → IsSound w
    → IsSound (connection_reset c stopped reuse (record w { held = left }))
unfolding IsSound places count connection_reset
connection_reset-IsSound c stopped reuse left w out h x = elim (Bool-cases (stopped || not reuse)) [
  | inl gone ↦ rw (gone) (omega (arith, h x, count-Leaves x out))
  | inr back ↦ rw (back) (omega (arith, h x, count-Leaves x out))
]

Step-IsSound : {w v : World} → Step w v → IsSound w → IsSound v
unfolding IsSound places count push_back
Step-IsSound (begins w) h = begin_get-IsSound w h
Step-IsSound (ends o b rest w out) h = end_get-IsSound o b rest w out h
Step-IsSound (resets c stopped reuse left w out) h =
    connection_reset-IsSound c stopped reuse left w out h
Step-IsSound (pushes c left w out) h =
    λ x. omega (arith, h x, count-Leaves x out, count-append x w.connections (c ∷ []))

start-IsSound : IsSound start
unfolding IsSound places count count_taken
start-IsSound x = ground arith

Reachable-IsSound : {w : World} → Reachable w → IsSound w
Reachable-IsSound (starts bs ended) = initialize-IsSound 5 bs start start-IsSound
Reachable-IsSound (steps h s) = Step-IsSound s (Reachable-IsSound h)

-- In every reachable state of the pool, each connection that was made stands at exactly one of its
-- places: the queue, a pending get, a client, the way back or the deleted ones. So no connection is
-- held twice, and none is lost.
pub places_once : {w : World} (c : ℕ) → Reachable w → places c w ≡ (if ltb c w.made then 1 else 0)
unfolding IsSound
places_once c h = Reachable-IsSound h c
