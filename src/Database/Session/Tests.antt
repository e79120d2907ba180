-- ===== src/Database/Session/Tests.antt =====
-- A server that keeps one number, with a statement that adds one to it.
use obelisk_asio_coro.Base.{
  ℕ, ◌+◌, ◌≡◌, ◌⊎◌, refl, Bool, true, false, Bytes, codes, beq, [], ◌∷◌, Option, none, some,
  if◌then◌else◌, sym, pos, List, ℤ, ◌++◌, ◌||◌, ◌∙◌, ap, Lacks, drop, show_ℤ, show_ℕ, text_until,
  text_until-append, append-nil, append_assoc, All, Bool-cases, inl, inr, beq_refl, arith,
}
use obelisk_asio_coro.Database.Blueprint.{must}
use obelisk_asio_coro.Database.Session.{
  co_query, sql_text, ends_with, returned, thrown, run_commands, transaction, run,
}
use obelisk_asio_coro.Database.Session.Commands.{Ran, Failed, run_commands-Ran}
use obelisk_asio_coro.Database.Session.Transaction.{Server, begun, transaction-atomic}
use obelisk_asio_coro.Database.Session.Migrate.{
  Fetched, fetch, migrate_all, Migration, rows, number, migrate_one, insert_migration,
  select_migration,
}
use obelisk_asio_coro.Sql.Syntax.{Env}
use obelisk_asio_coro.Sql.Compile.{
  compile_col, compile_table, compile_values, compile_value, separate_with,
}
use obelisk_asio_coro.Database.Session.Once.{
  AllRun, KeepNames, Ledger, HasPlainName, migrate_all-again,
}

record Rows : Type 0 where
  seen : ℕ
  stored : ℕ
  autocommit : Bool

execute_rows : Rows → Bytes → Option Bytes × Rows
execute_rows s sql =
    if beq sql (codes "SET AUTOCOMMIT=0;")
    then (none, record s { autocommit = false })
    else if beq sql (codes "START TRANSACTION;")
    then (none, record s { stored = s.seen })
    else if beq sql (codes "COMMIT;")
    then (none, record s { stored = s.seen })
    else if beq sql (codes "ROLLBACK;")
    then (none, record s { seen = s.stored })
    else if beq sql (codes "SET AUTOCOMMIT=1;")
    then (none, record s { stored = s.seen; autocommit = true })
    else if beq sql (codes "ADD;")
    then (none, record s { seen = s.seen + 1 })
    else (some (codes "syntax"), s)

abbrev rows_server : Server ℕ
unfolding execute_rows beq
rows_server = record {
  S = Rows;
  execute = execute_rows;
  seen = λ s. s.seen;
  stored = λ s. s.stored;
  autocommit = λ s. s.autocommit;
  off_seen = λ s h. refl;
  begin_stored = λ s h. refl;
  commit_seen = λ s h. refl;
  rollback_seen = λ s h. refl;
  on_stored = λ s h. refl;
  on_autocommit = λ s h. refl;
}

abbrev three : Rows
three = record { seen = 3; stored = 3; autocommit = true }

-- A function that adds one, and one that then throws.
add_one : Rows → Option Bytes × Rows
add_one s = (none, record s { seen = s.seen + 1 })

add_and_throw : Rows → Option Bytes × Rows
add_and_throw s = (some (codes "no"), record s { seen = s.seen + 1 })

commit_run :
    transaction execute_rows add_one three
    ≡ returned (record { seen = 4; stored = 4; autocommit = true })
unfolding transaction execute_rows beq add_one
commit_run = refl

rollback_run :
    transaction execute_rows add_and_throw three
    ≡ thrown (codes "no") (record { seen = 3; stored = 3; autocommit = true })
unfolding transaction execute_rows beq add_and_throw
rollback_run = refl

transaction-atomic_example :
    (t : Rows) × (transaction execute_rows add_and_throw three ≡ thrown (codes "no") t)
    × (t.stored ≡ 3)
    × (t.autocommit ≡ true)
unfolding execute_rows beq add_and_throw begun
transaction-atomic_example =
    transaction-atomic rows_server add_and_throw three (λ s. refl) (λ s. refl) (λ s. refl)
      (λ s. refl) (λ s. refl) refl refl

run_commands-Ran_example :
    ((t : Rows) × (run_commands execute_rows (must (codes "ADD") ∷ must (codes "WRONG") ∷ []) three
        ≡ returned t)
      × Ran execute_rows (must (codes "ADD") ∷ must (codes "WRONG") ∷ []) three t)
    ⊎ ((e : Bytes) × (t : Rows) × (run_commands execute_rows
            (must (codes "ADD") ∷ must (codes "WRONG") ∷ [])
            three
          ≡ thrown e t)
        × Failed execute_rows (must (codes "ADD") ∷ must (codes "WRONG") ∷ []) e three t)
run_commands-Ran_example =
    run_commands-Ran execute_rows (must (codes "ADD") ∷ must (codes "WRONG") ∷ []) three
      (refl, (refl, tt))

-- A server that keeps the names in its table of migrations, newest first, and reads them off the two
-- statements: each is the text between the first quotes.
abbrev Names : Type 0
Names = List Bytes

has_name : Names → Bytes → Bool
has_name [] n = false
has_name (x ∷ s) n = beq x n || has_name s n

name_of : ℕ → Bytes → Bytes
name_of skipped text = text_until b'\'' (drop skipped text)

query_names : Names → Bytes → Fetched × Names
query_names s text =
    (if has_name s (name_of 65 text) then rows (number (pos 1) ∷ []) else rows [], s)

execute_names : Names → Bytes → Option Bytes × Names
execute_names s text = (none, name_of 57 text ∷ s)

abbrev no_env : Env
no_env = record {
  prefix = codes "t_";
  format_double = λ d. [];
  format_time = λ t. [];
  contains = λ s p. false;
  replace_all = λ s p q. s;
}

quoted : (name rest : Bytes) → Lacks b'\'' name → text_until b'\'' (name ++ 39 ∷ rest) ≡ name
unfolding text_until
quoted name rest h = text_until-append b'\'' name (39 ∷ rest) h ∙ append-nil name

selected :
    (name : Bytes)
    → Lacks b'\'' name
    → name_of 65 (sql_text (select_migration (codes "t_") name)) ≡ name
unfolding name_of sql_text select_migration
selected name h = elim (Bool-cases (ends_with (select_migration (codes "t_") name))) [
  | inl closed ↦ rw (closed, sql_text) (quoted name [] h)
  | inr open_text ↦
      rw (open_text, sql_text)
        (ap (text_until b'\'') (append_assoc name (39 ∷ []) (59 ∷ [])) ∙ quoted name (59 ∷ []) h)
]

inserted_text :
    (name : Bytes) (batch : ℤ)
    → (rest : Bytes) × (insert_migration no_env name batch
        ≡ codes "INSERT INTO `t_migrations`(`migration`,`batch`) VALUES ('" ++ (name ++ 39 ∷ rest))
unfolding insert_migration compile_table separate_with compile_values compile_col compile_value
inserted_text name batch = (44 ∷ (show_ℤ batch ++ 41 ∷ 32 ∷ 59 ∷ []), simp append_assoc refl)

inserted_name :
    (name : Bytes) (batch : ℤ)
    → Lacks b'\'' name
    → name_of 57 (sql_text (insert_migration no_env name batch)) ≡ name
unfolding name_of sql_text
inserted_name name batch h =
    let (rest, e) = inserted_text name batch in
    elim (Bool-cases (ends_with (insert_migration no_env name batch))) [
      | inl closed ↦ rw (closed, sql_text) (ap (name_of 57) e ∙ quoted name rest h)
      | inr open_text ↦
          rw (open_text, sql_text)
            (ap (λ z. name_of 57 (z ++ codes ";")) e
              ∙ (ap (text_until b'\'') (append_assoc name (39 ∷ rest) (codes ";"))
                  ∙ quoted name (rest ++ codes ";") h))
    ]

run-names :
    (s t : Names) (name : Bytes) (batch : ℤ)
    → Lacks b'\'' name
    → run execute_names (insert_migration no_env name batch) s ≡ returned t
    → t ≡ name ∷ s
unfolding run co_query execute_names
run-names s t name batch h e =
    let same : returned (name_of 57 (sql_text (insert_migration no_env name batch)) ∷ s)
        ≡ returned t =
      e in
    let made : name_of 57 (sql_text (insert_migration no_env name batch)) ∷ s ≡ t = cc in
    sym made ∙ ap (λ z. z ∷ s) (inserted_name name batch h)

added_name : (n : Bytes) (s : Names) → has_name (n ∷ s) n ≡ true
unfolding has_name
added_name n s = rw (beq_refl n) refl

kept_name : (x n : Bytes) (s : Names) → has_name s n ≡ true → has_name (x ∷ s) n ≡ true
unfolding has_name
kept_name x n s h = ground arith

ledger_names : Ledger execute_names query_names no_env (codes "t_")
unfolding fetch query_names
ledger_names = record {
  applied = has_name;
  select_applied =
      λ s n plain h. (number (pos 1), [], rw (selected n plain.no_quote) (rw (h) refl));
  select_missing = λ s n plain h. rw (selected n plain.no_quote) (rw (h) refl);
  insert_adds = λ s t n b plain h. rw (run-names s t n b plain.no_quote h) (added_name n s);
  insert_keeps = λ s t n m b plain h k. rw (run-names s t n b plain.no_quote h) (kept_name n m s k);
}

abbrev create_users : Migration Names
create_users = record { migration_name = codes "create_users.cpp"; up = λ s. returned s }

users-IsPlainName : All HasPlainName (create_users ∷ [])
users-IsPlainName = (
  record {
    no_quote = search tt;
    no_backslash = search tt;
    no_zero = search tt;
    fits = omega arith;
  },
  tt,
)

keep_users :
    KeepNames execute_names query_names no_env (codes "t_") ledger_names (create_users ∷ [])
unfolding KeepNames
keep_users = ((λ s t n h k. let e : s ≡ t = cc in rw (sym e) k), tt)

users_run :
    AllRun execute_names query_names no_env (codes "t_") ledger_names (pos 1) (create_users ∷ []) []
unfolding AllRun migrate_one query_names has_name name_of sql_text select_migration insert_migration
    compile_table separate_with compile_values compile_col text_until execute_names show_ℤ show_ℕ
users_run = (codes "create_users.cpp" ∷ [], refl, tt)

migrate_all-again_example :
    migrate_all execute_names query_names no_env
      (codes "t_")
      (pos 2)
      (create_users ∷ [])
      (migrate_all execute_names query_names no_env (codes "t_") (pos 1) (create_users ∷ []) [])
    ≡ migrate_all execute_names query_names no_env (codes "t_") (pos 1) (create_users ∷ []) []
migrate_all-again_example =
    migrate_all-again execute_names query_names no_env (codes "t_") ledger_names (pos 1) (pos 2)
      (create_users ∷ []) [] users-IsPlainName keep_users users_run
