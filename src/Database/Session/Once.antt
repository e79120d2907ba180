-- ===== src/Database/Session/Once.antt =====
-- What the table of migrations is for.
use obelisk_asio_coro.Base.{
  List, ◌∷◌, [], true, false, Option, refl, Bytes, ◌≡◌, ◌⊎◌, Bool, ℤ, inl, inr, Bool-cases, sym,
  ◌∙◌, ap, All, Lacks, length, ◌≤◌,
}
use obelisk_asio_coro.Database.Session.{returned, thrown, and_then, Ending, run}
use obelisk_asio_coro.Database.Session.Migrate.{
  Fetched, Migration, migrate_one, Field, insert_migration, fetch, select_migration, rows,
  migrate_all,
}
use obelisk_asio_coro.Sql.Syntax.{Env}

Ending-cases {ℓ} :
    {S : Type ℓ} (r : Ending S)
    → ((s : S) × (r ≡ returned s)) ⊎ ((e : Bytes) × ((s : S) × (r ≡ thrown e s)))
Ending-cases (returned s) = inl (s, refl)
Ending-cases (thrown e s) = inr (e, (s, refl))

-- A name that the statements of the loop, which do not escape it, hand to the server as it is: it has no
-- quote, backslash or zero byte, and fits in the column of 500 characters.
pub record IsPlainName (name : Bytes) : Type 0 where
  pub no_quote : Lacks b'\'' name
  pub no_backslash : Lacks 92 name
  pub no_zero : Lacks 0 name
  pub fits : length name ≤ 500

abbrev pub HasPlainName {ℓ} : {S : Type ℓ} → Migration S → Type 0
HasPlainName m = IsPlainName m.migration_name

module _ {ℓ} {S : Type ℓ} (execute : S → Bytes → Option Bytes × S) (query : S → Bytes → Fetched × S)
    (env : Env) (prefix : Bytes) where
  -- What MySQL documents of the two statements of the loop, for names without signs that a text of SQL
  -- reads: the query gives a row exactly when the table has the name and changes nothing; an insertion that
  -- succeeds adds the name and keeps the others.
  pub record Ledger : Type ℓ where
    pub applied : S → Bytes → Bool
    pub select_applied :
        (s : S) (name : Bytes)
        → IsPlainName name
        → applied s name ≡ true
        → (f : Field) × (fs : List Field) × (fetch query (select_migration prefix name) s
            ≡ (rows (f ∷ fs), s))
    pub select_missing :
        (s : S) (name : Bytes)
        → IsPlainName name
        → applied s name ≡ false
        → fetch query (select_migration prefix name) s ≡ (rows [], s)
    pub insert_adds :
        (s t : S) (name : Bytes) (batch : ℤ)
        → IsPlainName name
        → run execute (insert_migration env name batch) s ≡ returned t
        → applied t name ≡ true
    pub insert_keeps :
        (s t : S) (name other : Bytes) (batch : ℤ)
        → IsPlainName name
        → run execute (insert_migration env name batch) s ≡ returned t
        → applied s other ≡ true
        → applied t other ≡ true

  module _ (ledger : Ledger) where
    open ledger use {applied, select_applied, select_missing, insert_adds, insert_keeps}

    -- Migrations that do not take names out of the table.
    unfoldable pub KeepNames : List (Migration S) → Type ℓ
    KeepNames [] = Unit
    KeepNames (m ∷ ms) =
        ((s t : S) (n : Bytes) → m.up s ≡ returned t → applied s n ≡ true → applied t n ≡ true)
        × KeepNames ms

    -- Every turn of the loop ends without an exception.
    unfoldable pub AllRun : ℤ → List (Migration S) → S → Type ℓ
    AllRun batch [] s = Unit
    AllRun batch (m ∷ ms) s =
        (s1 : S) × (migrate_one execute query env prefix batch m s ≡ returned s1)
        × AllRun batch ms s1

    unfoldable pub AllApplied : List (Migration S) → S → Type 0
    AllApplied [] s = Unit
    AllApplied (m ∷ ms) s = (applied s m.migration_name ≡ true) × AllApplied ms s

    up-inserted :
        (batch : ℤ) (m : Migration S) (s t : S)
        → HasPlainName m
        → applied s m.migration_name ≡ false
        → migrate_one execute query env prefix batch m s ≡ returned t
        → (s1 : S) × (m.up s ≡ returned s1)
          × (run execute (insert_migration env m.migration_name batch) s1 ≡ returned t)
    unfolding migrate_one and_then
    up-inserted batch m s t plain missing h =
        let found = select_missing s m.migration_name plain missing in
        let none_found = ap (λ r. r.0) found in
        let same = ap (λ r. r.1) found in
        let tried : and_then (m.up s)
              (λ s1. run execute (insert_migration env m.migration_name batch) s1)
            ≡ returned t =
          ap
            (λ z.
              and_then (m.up z)
                (λ s1. run execute (insert_migration env m.migration_name batch) s1))
            (sym same)
          ∙ (rw (none_found, migrate_one) at h) in
        elim (Ending-cases (m.up s)) [
          | inl (s1, e) ↦ (s1, e, rw (e) at tried)
          | inr (x, (s1, e)) ↦ absurd (let f : thrown x s1 ≡ returned t = (rw (e) at tried) in cc)
        ]

    applied-skip :
        (batch : ℤ) (m : Migration S) (s : S)
        → HasPlainName m
        → applied s m.migration_name ≡ true
        → migrate_one execute query env prefix batch m s ≡ returned s
    unfolding migrate_one
    applied-skip batch m s plain h =
        let (f, fs, found) = select_applied s m.migration_name plain h in
        let there = ap (λ r. r.0) found in
        let same = ap (λ r. r.1) found in rw (there, migrate_one) (ap (λ z. returned z) same)

    one-adds :
        (batch : ℤ) (m : Migration S) (s t : S)
        → HasPlainName m
        → migrate_one execute query env prefix batch m s ≡ returned t
        → applied t m.migration_name ≡ true
    one-adds batch m s t plain h = elim (Bool-cases (applied s m.migration_name)) [
      | inl there ↦
          let e : returned s ≡ returned t = sym (applied-skip batch m s plain there) ∙ h in
          let same : s ≡ t = cc in rw (sym same) there
      | inr missing ↦
          let (s1, e, inserted) = up-inserted batch m s t plain missing h in
          insert_adds s1 t m.migration_name batch plain inserted
    ]

    one-keeps :
        (batch : ℤ) (m : Migration S) (s t : S) (n : Bytes)
        → HasPlainName m
        → ((s t : S) (n : Bytes) → m.up s ≡ returned t → applied s n ≡ true → applied t n ≡ true)
        → migrate_one execute query env prefix batch m s ≡ returned t
        → applied s n ≡ true
        → applied t n ≡ true
    one-keeps batch m s t n plain keeps h k = elim (Bool-cases (applied s m.migration_name)) [
      | inl there ↦
          let e : returned s ≡ returned t = sym (applied-skip batch m s plain there) ∙ h in
          let same : s ≡ t = cc in rw (sym same) k
      | inr missing ↦
          let (s1, e, inserted) = up-inserted batch m s t plain missing h in
          insert_keeps s1 t m.migration_name n batch plain inserted (keeps s s1 n e k)
    ]

    all-keeps :
        (batch : ℤ) (ms : List (Migration S)) (s : S) (n : Bytes)
        → All HasPlainName ms
        → KeepNames ms
        → AllRun batch ms s
        → applied s n ≡ true
        → applied (migrate_all execute query env prefix batch ms s) n ≡ true
    unfolding migrate_all KeepNames AllRun
    all-keeps batch [] s n plain keeps ran k = k
    all-keeps batch (m ∷ ms) s n (plain, plains) (keep, keeps) (s1, e, ran) k =
        rw (e, migrate_all)
          (all-keeps batch ms s1 n plains keeps ran (one-keeps batch m s s1 n plain keep e k))

    all-AllApplied :
        (batch : ℤ) (ms : List (Migration S)) (s : S)
        → All HasPlainName ms
        → KeepNames ms
        → AllRun batch ms s
        → AllApplied ms (migrate_all execute query env prefix batch ms s)
    unfolding migrate_all KeepNames AllRun AllApplied
    all-AllApplied batch [] s plain keeps ran = tt
    all-AllApplied batch (m ∷ ms) s (plain, plains) (keep, keeps) (s1, e, ran) =
        rw (e, migrate_all)
          ((
            all-keeps batch ms s1 m.migration_name plains keeps ran (one-adds batch m s s1 plain e),
            all-AllApplied batch ms s1 plains keeps ran,
          ))

    skip-AllApplied :
        (batch : ℤ) (ms : List (Migration S)) (s : S)
        → All HasPlainName ms
        → AllApplied ms s
        → migrate_all execute query env prefix batch ms s ≡ s
    unfolding migrate_all AllApplied
    skip-AllApplied batch [] s plain h = refl
    skip-AllApplied batch (m ∷ ms) s (plain, plains) (there, h) =
        rw (applied-skip batch m s plain there, migrate_all) (skip-AllApplied batch ms s plains h)

    -- Migrations are run once: behind a run of the loop in which no turn threw an exception, a second
    -- run of the same migrations, as any later batch, changes nothing on the server. The migrations
    -- do not take names out of the table; their names have no quote, backslash or zero byte and at most
    -- 500 bytes; and the server does for the two statements of the loop what MySQL documents.
    pub migrate_all-again :
        (batch later : ℤ) (ms : List (Migration S)) (s : S)
        → All HasPlainName ms
        → KeepNames ms
        → AllRun batch ms s
        → migrate_all execute query env prefix later ms
            (migrate_all execute query env prefix batch ms s)
          ≡ migrate_all execute query env prefix batch ms s
    migrate_all-again batch later ms s plains keeps ran =
        skip-AllApplied later ms (migrate_all execute query env prefix batch ms s) plains
          (all-AllApplied batch ms s plains keeps ran)
