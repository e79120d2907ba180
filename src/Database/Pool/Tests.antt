-- ===== src/Database/Pool/Tests.antt =====
-- A pool from which a client takes a connection and gives it back.
use obelisk_asio_coro.Base.{
  ◌≡◌, refl, Bool, true, false, List, [], ◌∷◌, some, ltb, leb, min, length, if◌then◌else◌, first,
}
use obelisk_asio_coro.Database.Pool.{
  World, start, begin_get, end_get, connection_reset, push_back, initialize, begins, ends, resets,
  pushes, Reachable, starts, steps,
}
use obelisk_asio_coro.Database.Pool.Order.{places, places_once}
use obelisk_asio_coro.Database.Pool.Filling.{successes, initialize-successes}

abbrev results : List Bool
results = true ∷ false ∷ true ∷ true ∷ false ∷ true ∷ true ∷ true ∷ []

abbrev filled : World
filled = record {
  connections = 0 ∷ 1 ∷ 2 ∷ 3 ∷ 4 ∷ [];
  made = 5;
  getting = [];
  held = [];
  returning = [];
  deleted = [];
}

abbrev taken : World
taken = record {
  connections = 1 ∷ 2 ∷ 3 ∷ 4 ∷ [];
  made = 5;
  getting = [];
  held = 0 ∷ [];
  returning = [];
  deleted = [];
}

abbrev back : World
back = record {
  connections = 1 ∷ 2 ∷ 3 ∷ 4 ∷ 0 ∷ [];
  made = 5;
  getting = [];
  held = [];
  returning = [];
  deleted = [];
}

filled-Reachable : Reachable filled
unfolding initialize
filled-Reachable = starts results refl

taken-Reachable : Reachable taken
unfolding begin_get end_get
taken-Reachable =
    steps (steps filled-Reachable (begins filled)) (ends (some 0) true [] (begin_get filled) first)

back-Reachable : Reachable back
unfolding connection_reset push_back
back-Reachable =
    steps (steps taken-Reachable (resets 0 false true [] taken first))
      (pushes 0 [] (record back { connections = 1 ∷ 2 ∷ 3 ∷ 4 ∷ []; returning = 0 ∷ [] }) first)

places_once_example : places 0 back ≡ (if ltb 0 5 then 1 else 0)
places_once_example = places_once 0 back-Reachable

initialize-successes_example :
    ((initialize 5 results start).0 ≡ leb 5 (successes results))
    × (length (initialize 5 results start).1.connections ≡ min 5 (successes results))
initialize-successes_example = initialize-successes 5 results
