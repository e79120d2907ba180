-- ===== src/Database/Blueprint.antt =====
-- The columns of a migration: include/obelisk/database/migration/column_blueprint.h and
-- basic_action.h. `table_` is a reference to the name that the table blueprint keeps; it stands here
-- for that name. Nothing sets `new_column_name_`.
pub mod Table
mod Tests
use obelisk_asio_coro.Base.{
  ℕ, ◌==◌, Bool, true, false, Bytes, codes, List, [], ◌∷◌, ◌++◌, Option, none, some, if◌then◌else◌,
  not, ◌&&◌, is_empty, ℤ, pos, negsuc, show_ℤ,
}
use obelisk_asio_coro.Sql.Syntax.{SqlValue, Env}
use obelisk_asio_coro.Sql.Compile.{compile_value}

-- `basic_action`
pub record Action : Type 0 where
  pub sql : Bytes
  pub required : Bool

-- `column_reference`
pub record Reference : Type 0 where
  pub table : Bytes
  pub column : Bytes
  pub on_update : Bytes
  pub on_delete : Bytes
  pub index_name : Bytes

-- The fields of `column_blueprint`.
pub record Column : Type 0 where
  pub column : Bytes
  pub after : Option Bytes
  pub type : Bytes
  pub table : Bytes
  pub update : Bool
  pub is_unsigned : Bool
  pub nullable : Bool
  pub is_primary : Bool
  pub use_current_on_update : Bool
  pub reference : Option Reference
  pub auto_increment : Option ℤ
  pub index_unique : Bool
  pub index_name : Option Bytes
  pub comment : Option Bytes
  pub default_value : Option Bytes
  pub new_column_name : Option Bytes

-- The constructor.
unfoldable pub column_of : Bytes → Bytes → Bytes → Column
column_of table column type = record {
  column = column;
  after = none;
  type = type;
  table = table;
  update = false;
  is_unsigned = false;
  nullable = false;
  is_primary = false;
  use_current_on_update = false;
  reference = none;
  auto_increment = none;
  index_unique = false;
  index_name = none;
  comment = none;
  default_value = none;
  new_column_name = none;
}

unfoldable pub after : Bytes → Column → Column
after name c = record c { after = some (codes " after " ++ name) }

-- The argument is not used, and no blank stands in front of the word.
unfoldable pub put_first : Bytes → Column → Column
put_first name c = record c { after = some (codes "first") }

unfoldable pub auto_increment : ℤ → Column → Column
auto_increment start c = record c { auto_increment = some start }

unfoldable pub change : Column → Column
change c = record c { update = true }

unfoldable pub comment : Bytes → Column → Column
comment text c = record c { comment = some text }

unfoldable pub default_value : Env → SqlValue → Column → Column
default_value env value c = record c { default_value = some (compile_value env value) }

unfoldable pub index : Bytes → Bool → Column → Column
index name is_unique c = record c {
  index_name = some (
      if is_empty name
      then (if is_unique then codes "unique_" else codes "idx_") ++ c.column
      else name);
  index_unique = is_unique;
}

unfoldable pub unique : Bytes → Column → Column
unfolding index
unique name c = index name true c

unfoldable pub nullable : Bool → Column → Column
nullable value c = record c { nullable = value }

unfoldable pub primary : Column → Column
primary c = record c { is_primary = true }

unfoldable pub set_unsigned : Bool → Column → Column
set_unsigned value c = record c { is_unsigned = value }

unfoldable pub use_current : Column → Column
use_current c = record c { default_value = some (codes "CURRENT_TIMESTAMP") }

unfoldable pub use_current_on_update : Column → Column
use_current_on_update c = record c { use_current_on_update = true }

unfoldable pub references : Bytes → Bytes → Bytes → Bytes → Bytes → Column → Column
references reference_table reference_column name on_update on_delete c = record c {
  reference = some (record {
    table = reference_table;
    column = reference_column;
    on_update = on_update;
    on_delete = on_delete;
    index_name =
        if is_empty name
        then codes "fk_"
          ++ (c.table
              ++ (codes "_"
                  ++ (c.column
                      ++ (codes "_" ++ (reference_table ++ (codes "_" ++ reference_column))))))
        else name;
  });
}

-- A part that is written only if it is set.
abbrev pub optional : Option Bytes → (Bytes → Bytes) → Bytes
optional none f = []
optional (some s) f = f s

abbrev pub flag : Bool → Bytes → Bytes
flag b s = if b then s else []

abbrev pub is_set {ℓ} : {A : Type ℓ} → Option A → Bool
is_set none = false
is_set (some a) = true

-- `single_describe`
unfoldable pub single_describe : Column → Bytes
single_describe c =
    (codes "`"
      ++ (elim c.new_column_name [ none ↦ c.column | some n ↦ n ] ++ (codes "` " ++ c.type)))
    ++ (flag c.is_unsigned (codes " UNSIGNED")
        ++ (flag (not c.nullable) (codes " NOT NULL")
            ++ (flag c.is_primary (codes " PRIMARY KEY")
                ++ (flag (is_set c.auto_increment) (codes " AUTO_INCREMENT")
                    ++ (optional c.default_value (λ v. codes " DEFAULT (" ++ (v ++ codes ")"))
                        ++ (flag c.use_current_on_update (codes " ON UPDATE CURRENT_TIMESTAMP")
                            ++ (optional c.after (λ a. a)
                                ++ optional c.comment
                                    (λ t. codes " COMMENT '" ++ (t ++ codes "'")))))))))

abbrev pub must : Bytes → Action
must sql = record { sql = sql; required = true }

abbrev pub may : Bytes → Action
may sql = record { sql = sql; required = false }

abbrev pub is_one : ℤ → Bool
is_one (pos n) = n == 1
is_one (negsuc n) = false

-- The parts of `describe`, each appending to the commands: the column itself, the start of its
-- counter, its default, its index and its foreign key.
unfoldable pub describe_column : Column → Bool → List Action
describe_column c create_table =
    if create_table
    then []
    else if not c.update
    then must
        (codes "ALTER TABLE " ++ (c.table ++ (codes " ADD " ++ (single_describe c ++ codes ";"))))
      ∷ []
    else must (
        codes "ALTER TABLE "
        ++ (c.table
            ++ (codes " "
                ++ ((if is_set c.new_column_name then codes "CHANGE" else codes "MODIFY")
                    ++ (codes " "
                        ++ ((if is_set c.new_column_name then c.column ++ codes " " else [])
                            ++ (single_describe c ++ codes ";")))))))
      ∷ []

unfoldable pub describe_counter : Column → Option ℤ → List Action
describe_counter c none = []
describe_counter c (some start) =
    if not (is_one start) && not c.update
    then must (codes "ALTER TABLE " ++ (c.table ++ (codes " AUTO_INCREMENT=" ++ show_ℤ start))) ∷ []
    else []

unfoldable pub describe_default : Column → Option Bytes → List Action
describe_default c none = []
describe_default c (some v) =
    if c.update
    then must (
        codes "ALTER TABLE "
        ++ (c.table
            ++ (codes " ALTER COLUMN "
                ++ (c.column ++ (codes " set default (" ++ (v ++ codes ");"))))))
      ∷ []
    else []

unfoldable pub describe_index : Column → Option Bytes → List Action
describe_index c none = []
describe_index c (some name) =
    (if c.update
      then may (codes "ALTER TABLE " ++ (c.table ++ (codes " DROP INDEX " ++ (name ++ codes ";"))))
        ∷ []
      else [])
    ++ must (
        codes "ALTER TABLE "
        ++ (c.table
            ++ (codes " ADD "
                ++ (flag c.index_unique (codes "UNIQUE ")
                    ++ (codes "INDEX " ++ (name ++ (codes "(" ++ (c.column ++ codes ");"))))))))
      ∷ []

unfoldable pub describe_reference : Bytes → Column → Option Reference → List Action
describe_reference prefix c none = []
describe_reference prefix c (some r) =
    (if c.update
      then may (
          codes "ALTER TABLE "
          ++ (c.table ++ (codes " DROP FOREIGN KEY " ++ (r.index_name ++ codes ";"))))
        ∷ []
      else [])
    ++ must (
        codes "ALTER TABLE "
        ++ (c.table
            ++ (codes " ADD CONSTRAINT "
                ++ (r.index_name
                    ++ (codes " FOREIGN KEY ("
                        ++ (c.column
                            ++ (codes ") REFERENCES `"
                                ++ (prefix
                                    ++ (r.table
                                        ++ (codes "`(`"
                                            ++ (r.column
                                                ++ (codes "`) ON UPDATE "
                                                    ++ (r.on_update
                                                        ++ (codes " ON DELETE "
                                                            ++ (r.on_delete
                                                            ++ codes ";")))))))))))))))
      ∷ []

unfoldable pub describe : Bytes → Column → Bool → List Action
unfolding describe_column describe_counter describe_default describe_index describe_reference
describe prefix c create_table =
    describe_column c create_table
    ++ (describe_counter c c.auto_increment
        ++ (describe_default c c.default_value
            ++ (describe_index c c.index_name ++ describe_reference prefix c c.reference)))
