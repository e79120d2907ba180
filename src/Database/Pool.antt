-- ===== src/Database/Pool.antt =====
-- The connection pool: include/obelisk/database/connection_pool/connection_pool.h. A connection is
-- named by a number; a new one takes the next number. Each run of a coroutine or handler between two
-- suspensions is one step.
pub mod Order
pub mod Filling
mod Tests
use obelisk_asio_coro.Base.{
  ℕ, zero, suc, ◌+◌, Bool, true, false, List, [], ◌∷◌, ◌++◌, Option, none, some, ltb, length,
  if◌then◌else◌, ◌||◌, not, Leaves, ◌≡◌,
}

-- `connections_`, with the connections that are elsewhere: taken by a `get_connection_` that has not
-- returned yet, held by a client, on their way back to the queue, or deleted.
pub record World : Type 0 where
  pub connections : List ℕ
  pub made : ℕ
  pub getting : List (Option ℕ)
  pub held : List ℕ
  pub returning : List ℕ
  pub deleted : List ℕ

abbrev pub start : World
start = record { connections = []; made = 0; getting = []; held = []; returning = []; deleted = [] }

-- `get_connection_` on the strand: the front of the queue, if there is one.
unfoldable pub take_front : List ℕ → Option ℕ × List ℕ
take_front [] = (none, [])
take_front (c ∷ cs) = (some c, cs)

unfoldable pub begin_get : World → World
unfolding take_front
begin_get w = record w {
  connections = (take_front w.connections).1;
  getting = (take_front w.connections).0 ∷ w.getting;
}

-- Its second half: a connection is made where none was taken; `made_one` says whether that succeeds,
-- otherwise the exception goes to the caller.
unfoldable pub end_get : Option ℕ → Bool → List (Option ℕ) → World → World
end_get (some c) made_one rest w = record w { getting = rest; held = c ∷ w.held }
end_get none true rest w = record w { getting = rest; held = w.made ∷ w.held; made = w.made + 1 }
end_get none false rest w = record w { getting = rest }

-- `connection_reset_`, which runs when the last reference is dropped.
unfoldable pub connection_reset : ℕ → Bool → Bool → World → World
connection_reset c stopped reuse w =
    if stopped || not reuse
    then record w { deleted = c ∷ w.deleted }
    else record w { returning = c ∷ w.returning }

-- The handler that it posts.
unfoldable pub push_back : ℕ → World → World
push_back c w = record w { connections = w.connections ++ c ∷ [] }

-- One turn of the loop of `initialize`.
unfoldable pub add_initial : Bool → World → World
add_initial true w = record w { connections = w.connections ++ w.made ∷ []; made = w.made + 1 }
add_initial false w = w

-- The loop of `initialize`: one result of the maker for each turn, and whether it came to its end.
unfoldable pub initialize : ℕ → List Bool → World → Bool × World
unfolding add_initial
initialize min [] w = (not (ltb (length w.connections) min), w)
initialize min (b ∷ bs) w =
    let rest = initialize min bs (add_initial b w) in
    if ltb (length w.connections) min then rest else (true, w)

pub data Step : World → World → Type 0 where
  begins : (w : World) → Step w (begin_get w)
  ends :
      (o : Option ℕ) (made_one : Bool) (rest : List (Option ℕ)) (w : World)
      → Leaves o w.getting rest
      → Step w (end_get o made_one rest w)
  resets :
      (c : ℕ) (stopped reuse : Bool) (left : List ℕ) (w : World)
      → Leaves c w.held left
      → Step w (connection_reset c stopped reuse (record w { held = left }))
  pushes :
      (c : ℕ) (left : List ℕ) (w : World)
      → Leaves c w.returning left
      → Step w (push_back c (record w { returning = left }))

-- `min_`
abbrev pub min_connections : ℕ
min_connections = 5

-- What can happen to a pool that `initialize` has filled, whatever failed on the way.
pub data Reachable : World → Type 0 where
  starts :
      (results : List Bool)
      → (initialize min_connections results start).0 ≡ true
      → Reachable (initialize min_connections results start).1
  steps : {w v : World} → Reachable w → Step w v → Reachable v
