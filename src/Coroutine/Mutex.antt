-- ===== src/Coroutine/Mutex.antt =====
-- `async_mutex`: include/obelisk/core/coroutine/async_mutex.h. Every run of a handler on the strand
-- up to its next suspension is one step. A waiter is named by the coroutine that waits.
pub mod Order
mod Tests
use obelisk_asio_coro.Base.{
  Leaves, ℕ, ◌+◌, Bool, true, false, List, [], ◌∷◌, ◌++◌, Option, none, some, not, ◌≡◌,
  if◌then◌else◌,
}

-- The fields of the class.
pub record Mutex : Type 0 where
  pub locked : Bool
  pub waiters : List ℕ

abbrev pub unlocked : Mutex
unlocked = record { locked = false; waiters = [] }

-- `lock` behind its dispatch: whether it returns at once. If not, the caller waits on its timer.
unfoldable pub lock : ℕ → Mutex → Bool × Mutex
lock t m =
    if m.locked
    then (false, record m { waiters = m.waiters ++ t ∷ [] })
    else (true, record m { locked = true })

-- The handler that `unlock` posts: the coroutine whose timer it cancels.
unfoldable pub unlock : Mutex → Option ℕ × Mutex
unlock m = if not m.locked then (none, m) else elim m.waiters [
  | [] ↦ (none, record m { locked = false })
  | w ∷ ws ↦ (some w, record m { waiters = ws })
]

-- The mutex and the coroutines that use it: who has returned from `lock` and not called `unlock`,
-- how many posted handlers have yet to run, and who asked and who was let in, in their order.
pub record World : Type 0 where
  pub mutex : Mutex
  pub owners : List ℕ
  pub posted : ℕ
  pub asked : List ℕ
  pub granted : List ℕ

abbrev pub start : World
start = record { mutex = unlocked; owners = []; posted = 0; asked = []; granted = [] }

abbrev pub enter : ℕ → World → World
enter t w = record w { owners = t ∷ w.owners; granted = w.granted ++ t ∷ [] }

abbrev pub wake : Option ℕ → World → World
wake none w = w
wake (some t) w = enter t w

abbrev pub locked_by : ℕ → World → Bool × Mutex → World
locked_by t w (true, m) = enter t (record w { mutex = m; asked = w.asked ++ t ∷ [] })
locked_by t w (false, m) = record w { mutex = m; asked = w.asked ++ t ∷ [] }

abbrev pub after_lock : ℕ → World → World
after_lock t w = locked_by t w (lock t w.mutex)

abbrev pub unlocked_by : ℕ → World → Option ℕ × Mutex → World
unlocked_by left w (woken, m) = wake woken (record w { mutex = m; posted = left })

abbrev pub after_unlock : ℕ → World → World
after_unlock left w = unlocked_by left w (unlock w.mutex)

-- A coroutine calls `lock`; an owner calls `unlock`, which posts a handler; a posted handler runs.
pub data Step : World → World → Type 0 where
  locks : (t : ℕ) (w : World) → Step w (after_lock t w)
  posts :
      (t : ℕ) (left : List ℕ) (w : World)
      → Leaves t w.owners left
      → Step w (record w { owners = left; posted = w.posted + 1 })
  unlocks : (left : ℕ) (w : World) → w.posted ≡ left + 1 → Step w (after_unlock left w)

pub data Reachable : World → Type 0 where
  starts : Reachable start
  steps : {w v : World} → Reachable w → Step w v → Reachable v
