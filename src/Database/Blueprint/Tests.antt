-- ===== src/Database/Blueprint/Tests.antt =====
-- The table of the migrations, and a column that is changed.
use obelisk_asio_coro.Base.{◌≡◌, refl, true, false, codes, [], ◌∷◌, ◌++◌, All, map, some}
use obelisk_asio_coro.Database.Blueprint.{Column, column_of, must, may, describe, single_describe}
use obelisk_asio_coro.Database.Blueprint.Table.{Index, Table, describe_table, describe_table_index}
use obelisk_asio_coro.Database.Blueprint.Table.Commands.{
  IsSettled, describe_table-create, describe_table-IsSettled, all_commands,
}
use obelisk_asio_coro.Sql.Separate.{join}

abbrev plain : Column
plain = record (column_of (codes "t") (codes "a") (codes "int")) { nullable = true }

abbrev counted : Column
counted = record (column_of (codes "t") (codes "b") (codes "int")) {
  index_name = some (codes "idx_b");
}

abbrev wide : Index
wide = record { name = codes "i"; unique = true; columns = codes "a" ∷ codes "b" ∷ [] }

create_run :
    describe_table [] (record {
      creation = true;
      table = codes "t";
      indexes = wide ∷ [];
      columns = plain ∷ counted ∷ [];
    })
    ≡ must (codes "CREATE TABLE t (\n\t`a` int,\n\t`b` int NOT NULL\n);")
      ∷ must (codes "ALTER TABLE t ADD INDEX idx_b(b);")
      ∷ must (codes "ALTER TABLE t ADD UNIQUE INDEX i(a, b);")
      ∷ []
unfolding describe_table describe single_describe column_of
create_run = refl

change_run :
    describe [] (record counted { update = true }) false
    ≡ must (codes "ALTER TABLE t MODIFY `b` int NOT NULL;")
      ∷ may (codes "ALTER TABLE t DROP INDEX idx_b;")
      ∷ must (codes "ALTER TABLE t ADD INDEX idx_b(b);")
      ∷ []
unfolding describe single_describe column_of
change_run = refl

describe_table-create_example :
    describe_table [] (record {
      creation = true;
      table = codes "t";
      indexes = wide ∷ [];
      columns = plain ∷ counted ∷ [];
    })
    ≡ must (
        codes "CREATE TABLE "
        ++ (codes "t"
            ++ (codes " ("
                ++ ((codes "\n\t"
                      ++ join (codes ",\n\t") (map single_describe (plain ∷ counted ∷ [])))
                    ++ codes "\n);"))))
      ∷ (all_commands [] true (plain ∷ counted ∷ [])
          ++ map (describe_table_index (codes "t")) (wide ∷ []))
describe_table-create_example =
    describe_table-create [] (codes "t") (wide ∷ []) plain (counted ∷ [])

abbrev changed_table : Table
changed_table = record {
  creation = false;
  table = codes "t";
  indexes = wide ∷ [];
  columns = record plain { update = true; index_name = some (codes "i") } ∷ counted ∷ [];
}

describe_table-IsSettled_example : All IsSettled (describe_table [] changed_table)
describe_table-IsSettled_example = describe_table-IsSettled [] changed_table
