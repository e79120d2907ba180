-- ===== src/Database/Session/Migrate.antt =====
-- Running migrations: `db::run_migration` of include/obelisk/database/db.h and `create_migration_table`
-- of include/obelisk/database/migration/migration.h. The connections of the pool see one server, so its
-- state is passed on from one to the next.
use obelisk_asio_coro.Base.{
  List, ◌∷◌, [], true, false, Option, ℤ, Bytes, codes, pos, ◌+◌, ◌++◌, negsuc, suc,
}
use obelisk_asio_coro.Database.Blueprint.{unique, comment}
use obelisk_asio_coro.Database.Session.{returned, thrown, and_then, Ending, sql_text, run, table_bp}
use obelisk_asio_coro.Sql.Statement.{insert, values_pack, compile_insert}
use obelisk_asio_coro.Database.Blueprint.Table.{id, string, integer, timestamps, Table}
use obelisk_asio_coro.Sql.Syntax.{Env, SqlValue, int64}
use Prim.Native.Nat.{zero}

-- The first field of a row: null or a number. Other fields are never read.
pub data Field : Type 0 where
  null_field : Field
  number : ℤ → Field

-- The rows of a query, or the exception that the connection throws.
pub data Fetched : Type 0 where
  rows : List Field → Fetched
  failed : Bytes → Fetched

-- `base_migration`
pub record Migration {ℓ} (S : Type ℓ) : Type ℓ where
  pub migration_name : Bytes
  pub up : S → Ending S

unfoldable successor : ℤ → ℤ
successor (pos n) = pos (n + 1)
successor (negsuc zero) = pos 0
successor (negsuc (suc n)) = negsuc n

-- The number of the new batch.
unfoldable batch_of : List Field → ℤ
unfolding successor
batch_of [] = pos 1
batch_of (null_field ∷ rest) = pos 1
batch_of (number k ∷ rest) = successor k

-- The comments of the columns, in UTF-8.
abbrev batch_text : Bytes
batch_text = 230 ∷ 137 ∷ 185 ∷ 230 ∷ 172 ∷ 161 ∷ []

abbrev name_text : Bytes
name_text = 232 ∷ 191 ∷ 129 ∷ 231 ∷ 167 ∷ 187 ∷ 229 ∷ 144 ∷ 141 ∷ 231 ∷ 167 ∷ 176 ∷ []

-- What `create_migration_table` does to its blueprint.
unfoldable migrations_table : Table → Table
unfolding id string integer timestamps unique comment
migrations_table t = timestamps (
    integer (codes "batch") (codes "int") false false (comment (batch_text))
      (string (codes "migration") 500 (λ c. comment (name_text) (unique [] c)) (id (λ c. c) t)))

unfoldable show_tables : Bytes → Bytes
show_tables prefix = codes "SHOW TABLES LIKE '" ++ (prefix ++ codes "migrations';")

unfoldable select_batch : Bytes → Bytes
select_batch prefix = codes "select MAX(batch) from `" ++ (prefix ++ codes "migrations`;")

unfoldable pub select_migration : Bytes → Bytes → Bytes
select_migration prefix name =
    codes "SELECT id, batch, migration FROM `"
    ++ (prefix ++ (codes "migrations` WHERE migration='" ++ (name ++ codes "'")))

-- The row that is inserted for a migration.
unfoldable pub insert_migration : Env → Bytes → ℤ → Bytes
unfolding insert values_pack compile_insert
insert_migration env name batch = compile_insert env (
    values_pack (insert (codes "migrations"))
      ((codes "migration", SqlValue.string name) ∷ (codes "batch", int64 batch) ∷ []))

-- `co_query` with results.
unfoldable pub fetch {ℓ} : {S : Type ℓ} → (S → Bytes → Fetched × S) → Bytes → S → Fetched × S
unfolding sql_text
fetch query text s = query s (sql_text text)

module _ {ℓ} {S : Type ℓ} (execute : S → Bytes → Option Bytes × S) (query : S → Bytes → Fetched × S)
    (env : Env) (prefix : Bytes) where
  -- One turn of the loop, up to an exception.
  unfoldable pub migrate_one : ℤ → Migration S → S → Ending S
  unfolding fetch and_then run
  migrate_one batch m s =
      let r = fetch query (select_migration prefix m.migration_name) s in
      elim r.0 [
        | failed e ↦ thrown e r.1
        | rows (_ ∷ _) ↦ returned r.1
        | rows [] ↦
            and_then (m.up r.1) (λ s1. run execute (insert_migration env m.migration_name batch) s1)
      ]

  -- The loop: an exception is logged, and ends it.
  unfoldable pub migrate_all : ℤ → List (Migration S) → S → S
  unfolding migrate_one
  migrate_all batch [] s = s
  migrate_all batch (m ∷ ms) s = elim (migrate_one batch m s) [
    | returned s1 ↦ migrate_all batch ms s1
    | thrown e s1 ↦ s1
  ]

  -- `up` of create_migration_table, when there is no table yet. `table_prefix` is the prefix that
  -- migrations read, `reference_prefix` the one of references.
  unfoldable prepare : Bytes → Bytes → S → Ending S
  unfolding fetch table_bp migrations_table
  prepare table_prefix reference_prefix s =
      let r = fetch query (show_tables prefix) s in
      elim r.0 [
        | failed e ↦ thrown e r.1
        | rows (_ ∷ _) ↦ returned r.1
        | rows [] ↦
            table_bp execute table_prefix reference_prefix (codes "migrations") true
              migrations_table r.1
      ]

  unfoldable run_migration : Bytes → Bytes → List (Migration S) → S → Ending S
  unfolding prepare fetch migrate_all and_then batch_of
  run_migration table_prefix reference_prefix migrations s =
      and_then (prepare table_prefix reference_prefix s) (λ s1.
        let r = fetch query (select_batch prefix) s1 in
        elim r.0 [
          | failed e ↦ thrown e r.1
          | rows fields ↦ returned (migrate_all (batch_of fields) migrations r.1)
        ])
