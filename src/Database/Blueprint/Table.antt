-- ===== src/Database/Blueprint/Table.antt =====
-- A table of a migration: include/obelisk/database/migration/table_blueprint.h. A call that adds a
-- column gives back a reference to it; here it takes the function that the caller chains on it.
pub mod Commands
use obelisk_asio_coro.Base.{
  ℕ, ◌==◌, Bool, true, false, Bytes, codes, List, [], ◌∷◌, ◌++◌, Option, none, some, if◌then◌else◌,
  not, ◌&&◌, is_empty, pos, show_ℕ, map, ◌+◌,
}
use obelisk_asio_coro.Database.Blueprint.{
  Action, Column, column_of, must, flag, single_describe, describe, set_unsigned, auto_increment,
  primary, use_current, use_current_on_update, index, nullable,
}

-- A tuple of `indexes_`.
pub record Index : Type 0 where
  pub name : Bytes
  pub unique : Bool
  pub columns : List Bytes

pub record Table : Type 0 where
  pub creation : Bool
  pub table : Bytes
  pub indexes : List Index
  pub columns : List Column

unfoldable pub table_of : Bytes → Bool → Bytes → Table
table_of table is_create prefix = record {
  creation = is_create;
  table = prefix ++ table;
  indexes = [];
  columns = [];
}

-- `columns_.emplace_back`, with what is called on the new column.
unfoldable pub add_column : Bytes → Bytes → (Column → Column) → Table → Table
add_column column type calls t = record t {
  columns = t.columns ++ calls (column_of t.table column type) ∷ [];
}

unfoldable pub add_primary : Bytes → (Column → Column) → Table → Table
unfolding add_column
add_primary column calls =
    add_column column (codes "bigint")
      (λ c. calls (primary (auto_increment (pos 1) (set_unsigned true c))))

unfoldable pub id : (Column → Column) → Table → Table
unfolding add_primary
id = add_primary (codes "id")

unfoldable pub integer : Bytes → Bytes → Bool → Bool → (Column → Column) → Table → Table
unfolding add_column
integer column type is_unsigned counts calls = add_column column type (λ c. calls (
    if counts
    then auto_increment (pos 1) (set_unsigned is_unsigned c)
    else set_unsigned is_unsigned c))

unfoldable pub foreign_id : Bytes → (Column → Column) → Table → Table
unfolding integer
foreign_id column = integer column (codes "bigint") true false

unfoldable pub bigint : Bytes → Bool → Bool → (Column → Column) → Table → Table
unfolding integer
bigint column is_unsigned counts = integer column (codes "bigint") is_unsigned counts

unfoldable pub boolean : Bytes → Bytes → (Column → Column) → Table → Table
unfolding integer
boolean column type = integer column type false false

unfoldable pub date : Bytes → (Column → Column) → Table → Table
unfolding integer
date column = integer column (codes "DATE") false false

unfoldable pub datetime : Bytes → (Column → Column) → Table → Table
unfolding integer
datetime column = integer column (codes "DATETIME") false false

unfoldable pub text : Bytes → (Column → Column) → Table → Table
unfolding add_column
text column = add_column column (codes "TEXT")

unfoldable pub string : Bytes → ℕ → (Column → Column) → Table → Table
unfolding add_column
string column size = add_column column (codes "varchar(" ++ (show_ℕ size ++ codes ")"))

unfoldable pub float_col : Bytes → ℕ → ℕ → Bool → (Column → Column) → Table → Table
unfolding add_column
float_col column total places is_unsigned calls =
    add_column column
      (codes "float(" ++ (show_ℕ total ++ (codes ", " ++ (show_ℕ places ++ codes ")"))))
      (λ c. calls (set_unsigned is_unsigned c))

unfoldable pub timestamp : Bytes → (Column → Column) → Table → Table
unfolding add_column
timestamp column = add_column column (codes "timestamp")

unfoldable pub timestamps : Table → Table
unfolding timestamp
timestamps t =
    timestamp (codes "updated_at") (λ c. use_current_on_update (index [] false (use_current c)))
      (timestamp (codes "created_at") use_current t)

unfoldable pub soft_delete : Table → Table
unfolding timestamp
soft_delete = timestamp (codes "deleted_at") (λ c. index [] false (nullable true c))

-- The loop that appends the columns to the name of an index.
unfoldable pub index_name : Bytes → List Bytes → Bytes
index_name name [] = name
index_name name (c ∷ cs) = index_name (name ++ (codes "_" ++ c)) cs

unfoldable pub add_index : List Bytes → Bool → Bytes → Table → Table
unfolding index_name
add_index columns unique name t = record t {
  indexes =
      t.indexes
      ++ (record {
        name =
            if is_empty name
            then index_name
                ((if unique then codes "uniq" else codes "idx") ++ (codes "_" ++ t.table)) columns
            else name;
        unique = unique;
        columns = columns;
      })
        ∷ [];
}

-- The loop over the columns in `describe`: the text so far and the commands so far.
unfoldable pub describe_columns :
    Bytes → Bool → Bytes → List Action → List Column → Bytes × List Action
describe_columns prefix creation column_describe commands [] = (column_describe, commands)
describe_columns prefix creation column_describe commands (c ∷ cs) =
    describe_columns prefix creation
      ((column_describe ++ (if not (is_empty column_describe) then codes ",\n\t" else codes "\n\t"))
        ++ (if creation then single_describe c else []))
      (commands ++ describe prefix c creation) cs

-- The loop over the columns of an index.
unfoldable pub columns_str : ℕ → Bytes → List Bytes → Bytes
columns_str i result [] = result
columns_str i result (c ∷ cs) =
    columns_str (i + 1) ((result ++ (if not (i == 0) then codes ", " else [])) ++ c) cs

unfoldable pub describe_table_index : Bytes → Index → Action
unfolding columns_str
describe_table_index table i = must (
    codes "ALTER TABLE "
    ++ (table
        ++ (codes " ADD "
            ++ (flag i.unique (codes "UNIQUE ")
                ++ (codes "INDEX "
                    ++ (i.name ++ (codes "(" ++ (columns_str 0 [] i.columns ++ codes ");"))))))))

-- `table_blueprint::describe`
unfoldable pub describe_table : Bytes → Table → List Action
unfolding describe_columns describe_table_index
describe_table prefix t =
    let described = describe_columns prefix t.creation [] [] t.columns in
    (if t.creation
      then must
          (codes "CREATE TABLE " ++ (t.table ++ (codes " (" ++ (described.0 ++ codes "\n);"))))
        ∷ described.1
      else described.1)
    ++ map (describe_table_index t.table) t.indexes
