-- ===== src/Database/Pool/Filling.antt =====
-- How `initialize` fills the queue, and that nothing bounds the connections behind it.
use obelisk_asio_coro.Base.{
  leb, min, length-append, ℕ, zero, suc, ◌+◌, ◌≤◌, ◌≡◌, refl, ap, ◌∙◌, Bool, true, false, List, [],
  ◌∷◌, Option, none, some, ltb, length, arith, first, Bool-cases, inl, inr,
}
use obelisk_asio_coro.Database.Pool.{
  World, start, take_front, begin_get, end_get, add_initial, initialize, begins, ends, Reachable,
  starts, steps,
}

unfoldable pub successes : List Bool → ℕ
successes [] = 0
successes (true ∷ bs) = suc (successes bs)
successes (false ∷ bs) = successes bs

IsFilled : ℕ → List Bool → World → Bool × World → Type 0
IsFilled n bs w (ended, v) =
    (ended ≡ leb n (length w.connections + successes bs))
    × (length v.connections ≡ min n (length w.connections + successes bs))

length-add_initial :
    (n : ℕ) (b : Bool) (w : World)
    → ltb (length w.connections) n ≡ true
    → length (add_initial b w).connections ≤ n
unfolding add_initial
length-add_initial n true w h = ground (arith, length-append w.connections (w.made ∷ []))
length-add_initial n false w h = ground arith

add_initial-IsFilled :
    (n : ℕ) (b : Bool) (bs : List Bool) (w : World) (r : Bool × World)
    → IsFilled n bs (add_initial b w) r
    → IsFilled n (b ∷ bs) w r
unfolding IsFilled successes add_initial
add_initial-IsFilled n true bs w (ended, v) (e, k) =
    let grown = length-append w.connections (w.made ∷ []) in (ground (arith), omega arith)
add_initial-IsFilled n false bs w (ended, v) h = h

initialize-IsFilled :
    (n : ℕ) (bs : List Bool) (w : World)
    → length w.connections ≤ n
    → IsFilled n bs w (initialize n bs w)
unfolding initialize IsFilled successes add_initial
initialize-IsFilled n [] w small = (ground arith, omega arith)
initialize-IsFilled n (b ∷ bs) w small = elim (Bool-cases (ltb (length w.connections) n)) [
  | inl more ↦ rw (more) (
      add_initial-IsFilled n b bs w (initialize n bs (add_initial b w))
        (initialize-IsFilled n bs (add_initial b w) (length-add_initial n b w more)))
  | inr enough ↦ rw (enough) (ground arith, ground arith)
]

-- The loop of `initialize` comes to its end exactly when as many results of the maker as the minimum
-- are connections, however many failures there are between them, and it then leaves that minimum in
-- the queue. As long as the results are fewer, it goes on, with each of them in the queue.
pub initialize-successes :
    (n : ℕ) (bs : List Bool)
    → ((initialize n bs start).0 ≡ leb n (successes bs))
      × (length (initialize n bs start).1.connections ≡ min n (successes bs))
unfolding IsFilled
initialize-successes n bs =
    let (ended, filled) = initialize-IsFilled n bs start (omega arith) in
    (ended ∙ ap (leb n) (omega arith), omega arith)

held_next :
    (o : Option ℕ) (rest : List (Option ℕ)) (w : World)
    → length (end_get o true rest w).held ≡ length w.held + 1
unfolding end_get
held_next (some c) rest w = omega arith
held_next none rest w = omega arith

one_more :
    (w : World) → Reachable w → (v : World) × Reachable v × (length v.held ≡ length w.held + 1)
unfolding begin_get
one_more w h =
    let o = (take_front w.connections).0 in
    (
      end_get o true w.getting (begin_get w),
      steps (steps h (begins w)) (ends o true w.getting (begin_get w) first),
      held_next o w.getting (begin_get w),
    )

-- The pool has no upper bound, since `max_` is never read: for every number there is a reachable state
-- in which clients hold that many connections.
pub held_unbounded : (n : ℕ) → (w : World) × Reachable w × (length w.held ≡ n)
unfolding initialize
held_unbounded zero = (
  (initialize 5 (true ∷ true ∷ true ∷ true ∷ true ∷ []) start).1,
  starts (true ∷ true ∷ true ∷ true ∷ true ∷ []) refl,
  refl,
)
held_unbounded (suc n) =
    let (w, reached, size) = held_unbounded n in
    let (v, reached', grown) = one_more w reached in (v, reached', omega arith)
