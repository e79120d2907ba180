-- ===== src/Database/Session/Commands.antt =====
-- The commands of a migration are run in order, up to the first that fails.
use obelisk_asio_coro.Base.{
  Bytes, List, [], ◌∷◌, Option, none, some, ◌≡◌, refl, ◌⊎◌, inl, inr, All, Option-cases,
}
use obelisk_asio_coro.Database.Blueprint.{Action}
use obelisk_asio_coro.Database.Blueprint.Table.Commands.{IsRequired}
use obelisk_asio_coro.Database.Session.{returned, thrown, co_query, run_commands}

module _ {ℓ} {S : Type ℓ} (execute : S → Bytes → Option Bytes × S) where
  -- The commands were executed one after the other, each with success.
  pub data Ran : List Action → S → S → Type ℓ where
    ran_none : {s : S} → Ran [] s s
    ran_next :
        {a : Action} {rest : List Action} {s t : S}
        → (co_query execute a.sql s).0 ≡ none
        → Ran rest (co_query execute a.sql s).1 t
        → Ran (a ∷ rest) s t

  -- The first command that fails, with those that ran before it.
  pub data Failed : List Action → Bytes → S → S → Type ℓ where
    failed_here :
        {a : Action} {rest : List Action} {s : S} {e : Bytes}
        → (co_query execute a.sql s).0 ≡ some e
        → Failed (a ∷ rest) e s (co_query execute a.sql s).1
    failed_later :
        {a : Action} {rest : List Action} {s t : S} {e : Bytes}
        → (co_query execute a.sql s).0 ≡ none
        → Failed rest e (co_query execute a.sql s).1 t
        → Failed (a ∷ rest) e s t

  -- Commands that are all required are run in their order: either all of them succeed and the run
  -- returns, or the run throws the message of the first that fails, and none behind it is executed.
  pub run_commands-Ran :
      (actions : List Action) (s : S)
      → All IsRequired actions
      → ((t : S) × (run_commands execute actions s ≡ returned t) × Ran actions s t)
        ⊎ ((e : Bytes) × (t : S) × (run_commands execute actions s ≡ thrown e t)
            × Failed actions e s t)
  unfolding run_commands
  run_commands-Ran [] s h = inl (s, refl, ran_none)
  run_commands-Ran (a ∷ rest) s (required, h) = elim (Option-cases (co_query execute a.sql s).0) [
    | inl fine ↦ elim (run_commands-Ran rest (co_query execute a.sql s).1 h) [
      | inl (t, back, ran) ↦ inl (t, rw (fine, run_commands) back, ran_next fine ran)
      | inr (e, t, out, broke) ↦ inr (e, t, rw (fine, run_commands) out, failed_later fine broke)
    ]
    | inr (e, broken) ↦ inr (
      e,
      (co_query execute a.sql s).1,
      rw (broken, run_commands) (rw (required) refl),
      failed_here broken,
    )
  ]
