-- ===== src/Coroutine/Mutex/Tests.antt =====
-- Two coroutines at one mutex: the second waits until the first calls `unlock`.
use obelisk_asio_coro.Base.{first, ◌+◌, ◌≤◌, ◌≡◌, ◌++◌, refl, true, [], ◌∷◌, length}
use obelisk_asio_coro.Coroutine.Mutex.{
  World, Reachable, locks, posts, unlocks, starts, steps, lock, unlock, start,
}
use obelisk_asio_coro.Coroutine.Mutex.Order.{owners_exclusive, granted-waiters, waiters_woken}

abbrev one_in : World
one_in = record {
  mutex = record { locked = true; waiters = [] };
  owners = 7 ∷ [];
  posted = 0;
  asked = 7 ∷ [];
  granted = 7 ∷ [];
}

abbrev one_waits : World
one_waits = record {
  mutex = record { locked = true; waiters = 8 ∷ [] };
  owners = 7 ∷ [];
  posted = 0;
  asked = 7 ∷ 8 ∷ [];
  granted = 7 ∷ [];
}

abbrev handed_over : World
handed_over = record {
  mutex = record { locked = true; waiters = [] };
  owners = 8 ∷ [];
  posted = 0;
  asked = 7 ∷ 8 ∷ [];
  granted = 7 ∷ 8 ∷ [];
}

one_in-Reachable : Reachable one_in
unfolding lock
one_in-Reachable = steps starts (locks 7 start)

one_waits-Reachable : Reachable one_waits
unfolding lock
one_waits-Reachable = steps one_in-Reachable (locks 8 one_in)

handed_over-Reachable : Reachable handed_over
unfolding unlock
handed_over-Reachable =
    steps (steps one_waits-Reachable (posts 7 [] one_waits first))
      (unlocks 0 (record one_waits { owners = []; posted = 1 }) refl)

owners_exclusive_example : length handed_over.owners + handed_over.posted ≤ 1
owners_exclusive_example = owners_exclusive handed_over-Reachable

granted-waiters_example : one_waits.granted ++ one_waits.mutex.waiters ≡ one_waits.asked
granted-waiters_example = granted-waiters one_waits-Reachable

waiters_woken_example : length one_waits.owners + one_waits.posted ≡ 1
waiters_woken_example = waiters_woken 8 [] one_waits-Reachable refl
