-- ===== src/Coroutine/Mutex/Order.antt =====
-- The mutex lets one coroutine in at a time, in the order in which they asked.
use obelisk_asio_coro.Base.{
  length-Leaves, ℕ, ◌+◌, ◌≤◌, ◌≡◌, ◌⊎◌, refl, sym, ap, ◌∙◌, true, false, List, [], ◌∷◌, ◌++◌,
  length, append-nil, append_assoc, arith, inl, inr,
}
use obelisk_asio_coro.Coroutine.Mutex.{
  World, Step, Reachable, locks, posts, unlocks, starts, steps, lock, unlock, after_lock,
  after_unlock,
}

-- An open mutex has no owner, no posted handler and nobody waiting; a closed one has an owner or
-- a posted handler, and never both or two.
unfoldable IsConsistent : World → Type 0
IsConsistent w =
    ((w.mutex.locked ≡ false) × (w.mutex.waiters ≡ []) × (length w.owners + w.posted ≡ 0)
      ⊎ ((w.mutex.locked ≡ true) × (length w.owners + w.posted ≡ 1)))
    × (w.granted ++ w.mutex.waiters ≡ w.asked)

lock-IsConsistent : (t : ℕ) (w : World) → IsConsistent w → IsConsistent (after_lock t w)
unfolding IsConsistent lock
lock-IsConsistent t w (inl (opened, nobody, free), order) =
    rw (opened, lock)
      (
        inr (refl, omega arith),
        let order' = order in
            rw (nobody) (let o = (rw (nobody, append-nil) at order) in rw (append-nil, o)),
      )
lock-IsConsistent t w (inr (shut, one), order) =
    rw (shut, lock)
      (
        inr (refl, one),
        sym (append_assoc w.granted w.mutex.waiters (t ∷ [])) ∙ ap (λ z. z ++ t ∷ []) order,
      )

unlock-waiters :
    (left : ℕ) (w : World) (ws : List ℕ)
    → w.mutex.waiters ≡ ws
    → w.mutex.locked ≡ true
    → w.posted ≡ left + 1
    → length w.owners + w.posted ≡ 1
    → w.granted ++ w.mutex.waiters ≡ w.asked
    → IsConsistent (after_unlock left w)
unfolding IsConsistent unlock
unlock-waiters left w [] e closed h one order =
    rw (closed, unlock) (rw (e, unlock) (inl (refl, e, omega arith), order))
unlock-waiters left w (x ∷ ws) e closed h one order =
    let order' = (rw (e) at order) in
    rw (closed, unlock)
      (rw (e, unlock) (inr (closed, omega arith), append_assoc w.granted (x ∷ []) ws ∙ order'))

unlock-IsConsistent :
    (left : ℕ) (w : World)
    → w.posted ≡ left + 1
    → IsConsistent w
    → IsConsistent (after_unlock left w)
unfolding IsConsistent unlock
unlock-IsConsistent left w h (inl (opened, nobody, free), order) = absurd (omega arith)
unlock-IsConsistent left w h (inr (closed, one), order) =
    unlock-waiters left w w.mutex.waiters refl closed h one order

Step-IsConsistent : {w v : World} → Step w v → IsConsistent w → IsConsistent v
unfolding IsConsistent
Step-IsConsistent (locks t w) h = lock-IsConsistent t w h
Step-IsConsistent (posts t left w out) (inl (opened, nobody, free), order) =
    absurd (omega (arith, length-Leaves out))
Step-IsConsistent (posts t left w out) (inr (closed, one), order) =
    (inr (closed, omega (arith, length-Leaves out)), order)
Step-IsConsistent (unlocks left w h) k = unlock-IsConsistent left w h k

Reachable-IsConsistent : {w : World} → Reachable w → IsConsistent w
unfolding IsConsistent
Reachable-IsConsistent starts = (inl (refl, refl, refl), refl)
Reachable-IsConsistent (steps h s) = Step-IsConsistent s (Reachable-IsConsistent h)

-- In every reachable state at most one coroutine is between its `lock` and its `unlock`, and none is
-- while a posted `unlock` has yet to run.
pub owners_exclusive : {w : World} → Reachable w → length w.owners + w.posted ≤ 1
unfolding IsConsistent
owners_exclusive h = elim (Reachable-IsConsistent h).0 [
  | inl (opened, nobody, free) ↦ omega arith
  | inr (closed, one) ↦ omega arith
]

-- In every reachable state the coroutines that were let in, followed by those that wait, are those
-- that called `lock`, in the order of their calls: the mutex is fair and forgets nobody.
pub granted-waiters : {w : World} → Reachable w → w.granted ++ w.mutex.waiters ≡ w.asked
unfolding IsConsistent
granted-waiters h = (Reachable-IsConsistent h).1

-- In every reachable state in which a coroutine waits, exactly one owner or one posted handler is
-- there to let it in: no wake-up is lost.
pub waiters_woken :
    {w : World} (t : ℕ) (ts : List ℕ)
    → Reachable w
    → w.mutex.waiters ≡ t ∷ ts
    → length w.owners + w.posted ≡ 1
unfolding IsConsistent
waiters_woken t ts h waiting = elim (Reachable-IsConsistent h).0 [
  | inl (opened, nobody, free) ↦ absurd cc
  | inr (closed, one) ↦ one
]
