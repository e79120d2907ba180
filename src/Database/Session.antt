-- ===== src/Database/Session.antt =====
-- Statements on one connection: `co_query` of include/obelisk/database/mysql/mysql_connection.h,
-- `table_bp` of source/database/migration/migration.cpp and `db::transaction` of
-- include/obelisk/database/db.h. The server behind the connection is a parameter: its state, and what
-- the execution of a text gives, the message of an error or `none`.
pub mod Transaction
pub mod Commands
pub mod Migrate
pub mod Once
mod Tests
use obelisk_asio_coro.Base.{
  Bool, true, false, Bytes, codes, List, [], ◌∷◌, ◌++◌, Option, none, some, not, if◌then◌else◌,
  ◌==◌,
}
use obelisk_asio_coro.Database.Blueprint.{Action}
use obelisk_asio_coro.Database.Blueprint.Table.{Table, table_of, describe_table}

-- `query.ends_with(";")`
unfoldable pub ends_with : Bytes → Bool
ends_with [] = false
ends_with (x ∷ []) = x == b';'
ends_with (x ∷ y ∷ s) = ends_with (y ∷ s)

unfoldable pub sql_text : Bytes → Bytes
unfolding ends_with
sql_text query = if ends_with query then query else query ++ codes ";"

-- What a coroutine comes to: it returns, or throws an exception with its message.
pub data Ending {ℓ} (S : Type ℓ) : Type ℓ where
  returned : S → Ending S
  thrown : Bytes → S → Ending S

abbrev pub ending {ℓ} : {S : Type ℓ} → Option Bytes → S → Ending S
ending none s = returned s
ending (some e) s = thrown e s

unfoldable pub and_then {ℓ} : {S : Type ℓ} → Ending S → (S → Ending S) → Ending S
and_then (returned s) f = f s
and_then (thrown e s) f = thrown e s

module _ {ℓ} {S : Type ℓ} (execute : S → Bytes → Option Bytes × S) where
  -- `co_query<void>`
  unfoldable pub co_query : Bytes → S → Option Bytes × S
  unfolding sql_text
  co_query query s = execute s (sql_text query)

  -- The loop of `table_bp`: a failure of a command that is not required is passed over.
  unfoldable pub run_commands : List Action → S → Ending S
  unfolding co_query
  run_commands [] s = returned s
  run_commands (a ∷ rest) s =
      let r = co_query a.sql s in
      let next = run_commands rest r.1 in
      elim r.0 [ none ↦ next | some e ↦ if a.required then thrown e r.1 else next ]

  -- `table_bp`: the call on a new blueprint, and the commands that it then describes.
  unfoldable pub table_bp : Bytes → Bytes → Bytes → Bool → (Table → Table) → S → Ending S
  unfolding run_commands
  table_bp prefix reference_prefix table create call s =
      run_commands (describe_table reference_prefix (call (table_of table create prefix))) s

  unfoldable pub run : Bytes → S → Ending S
  unfolding co_query
  run query s = ending (co_query query s).0 (co_query query s).1

  -- The end of `transaction`, from what its function has thrown.
  unfoldable pub close : Option Bytes → S → Ending S
  unfolding run and_then
  close exceptional s =
      and_then (run (elim exceptional [ none ↦ codes "COMMIT;" | some e ↦ codes "ROLLBACK;" ]) s)
        (λ s'. and_then (run (codes "SET AUTOCOMMIT=1;") s') (λ t. ending exceptional t))

  -- `transaction`: the exception of its function, if there is one, is kept and thrown at the end.
  unfoldable pub transaction : (S → Option Bytes × S) → S → Ending S
  unfolding close
  transaction func s = and_then (run (codes "SET AUTOCOMMIT=0;") s) (λ off.
      and_then (run (codes "START TRANSACTION;") off)
        (λ begun. close (func begun).0 (func begun).1))
