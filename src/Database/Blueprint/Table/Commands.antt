-- ===== src/Database/Blueprint/Table/Commands.antt =====
-- The commands of a table against lists: no command is lost, and their order is that of the calls.
use obelisk_asio_coro.Base.{
  ◌&&◌, ℕ, ◌≡◌, refl, sym, ap, ◌∙◌, Bool, true, false, Bytes, codes, List, [], ◌∷◌, ◌++◌,
  if◌then◌else◌, not, map, append_assoc, append-nil, Option, none, some, All, All-append,
  Bool-cases, inl, ℤ, inr, ◌⊎◌,
}
use obelisk_asio_coro.Database.Blueprint.{
  Action, Column, must, single_describe, describe, describe_column, describe_index,
  describe_reference, Reference, describe_default, describe_counter, is_one,
}
use obelisk_asio_coro.Database.Blueprint.Table.{
  Table, Index, describe_columns, describe_table_index, describe_table,
}
use obelisk_asio_coro.Sql.Separate.{join, join_rest, join-join_rest}

-- The commands of the columns, one after the other.
unfoldable pub all_commands : Bytes → Bool → List Column → List Action
all_commands prefix creation [] = []
all_commands prefix creation (c ∷ cs) =
    describe prefix c creation ++ all_commands prefix creation cs

describe_columns-commands :
    (prefix : Bytes) (creation : Bool) (cs : List Column) (text : Bytes) (commands : List Action)
    → (describe_columns prefix creation text commands cs).1
      ≡ commands ++ all_commands prefix creation cs
unfolding describe_columns all_commands
describe_columns-commands prefix creation [] text commands = sym (append-nil commands)
describe_columns-commands prefix creation (c ∷ cs) text commands =
    describe_columns-commands prefix creation cs _ _
    ∙ append_assoc commands (describe prefix c creation) (all_commands prefix creation cs)

describe_columns-text :
    (prefix : Bytes) (cs : List Column) (x : ℕ) (text : Bytes) (commands : List Action)
    → (describe_columns prefix true (x ∷ text) commands cs).0
      ≡ (x ∷ text) ++ join_rest (codes ",\n\t") (map single_describe cs)
unfolding describe_columns
describe_columns-text prefix [] x text commands = sym (append-nil (x ∷ text))
describe_columns-text prefix (c ∷ cs) x text commands =
    describe_columns-text prefix cs x _ _ ∙ simp append_assoc

-- A new table with at least one column is one CREATE TABLE with the descriptions of its columns in
-- their order, a comma between them, then the further commands of each column in the order of the
-- columns, then one command for each index.
pub describe_table-create :
    (prefix : Bytes) (table : Bytes) (indexes : List Index) (c : Column) (cs : List Column)
    → describe_table prefix
        (record { creation = true; table = table; indexes = indexes; columns = c ∷ cs })
      ≡ must (
          codes "CREATE TABLE "
          ++ (table
              ++ (codes " ("
                  ++ ((codes "\n\t" ++ join (codes ",\n\t") (map single_describe (c ∷ cs)))
                      ++ codes "\n);"))))
        ∷ (all_commands prefix true (c ∷ cs) ++ map (describe_table_index table) indexes)
unfolding describe_table describe_columns all_commands
describe_table-create prefix table indexes c cs =
    rw
      (
        describe_columns-commands prefix true cs _ _,
        describe_columns-text prefix cs 10 _ _,
        join-join_rest (codes ",\n\t") (single_describe c) (map single_describe cs),
      )
      refl

-- An altered table has no CREATE TABLE: only the commands of its columns, each of which adds or changes
-- its column, and those of its indexes.
describe_table-alter :
    (prefix : Bytes) (table : Bytes) (indexes : List Index) (cs : List Column)
    → describe_table prefix
        (record { creation = false; table = table; indexes = indexes; columns = cs })
      ≡ all_commands prefix false cs ++ map (describe_table_index table) indexes
unfolding describe_table
describe_table-alter prefix table indexes cs =
    ap (λ z. z ++ map (describe_table_index table) indexes)
      (describe_columns-commands prefix false cs [] [])

abbrev pub IsRequired : Action → Type 0
IsRequired a = a.required ≡ true

-- The drop of an index or of a foreign key.
abbrev pub IsDrop : Action → Type 0
IsDrop a =
    ((table : Bytes) × (name : Bytes) × (a.sql
        ≡ codes "ALTER TABLE " ++ (table ++ (codes " DROP INDEX " ++ (name ++ codes ";")))))
    ⊎ ((table : Bytes) × (name : Bytes) × (a.sql
          ≡ codes "ALTER TABLE " ++ (table ++ (codes " DROP FOREIGN KEY " ++ (name ++ codes ";")))))

abbrev pub IsSettled : Action → Type 0
IsSettled a = (a.required ≡ true) ⊎ IsDrop a

describe_column-IsSettled :
    (c : Column) (creation : Bool) → All IsSettled (describe_column c creation)
unfolding describe_column
describe_column-IsSettled c true = tt
describe_column-IsSettled c false = elim (Bool-cases c.update) [
  | inl changed ↦ rw (changed) (inl refl, tt)
  | inr added ↦ rw (added) (inl refl, tt)
]

counter-IsSettled : (c : Column) (o : Option ℤ) → All IsSettled (describe_counter c o)
unfolding describe_counter
counter-IsSettled c none = tt
counter-IsSettled c (some start) = elim (Bool-cases (not (is_one start) && not c.update)) [
  | inl starts ↦ rw (starts) (inl refl, tt)
  | inr same ↦ rw (same) tt
]

default-IsSettled : (c : Column) (o : Option Bytes) → All IsSettled (describe_default c o)
unfolding describe_default
default-IsSettled c none = tt
default-IsSettled c (some v) = elim (Bool-cases c.update) [
  | inl changed ↦ rw (changed) (inl refl, tt)
  | inr added ↦ rw (added) tt
]

index-IsSettled : (c : Column) (o : Option Bytes) → All IsSettled (describe_index c o)
unfolding describe_index
index-IsSettled c none = tt
index-IsSettled c (some name) = elim (Bool-cases c.update) [
  | inl changed ↦ rw (changed) (inr (inl (c.table, name, refl)), (inl refl, tt))
  | inr added ↦ rw (added) (inl refl, tt)
]

reference-IsSettled :
    (prefix : Bytes) (c : Column) (o : Option Reference)
    → All IsSettled (describe_reference prefix c o)
unfolding describe_reference
reference-IsSettled prefix c none = tt
reference-IsSettled prefix c (some r) = elim (Bool-cases c.update) [
  | inl changed ↦ rw (changed) (inr (inr (c.table, r.index_name, refl)), (inl refl, tt))
  | inr added ↦ rw (added) (inl refl, tt)
]

describe-IsSettled :
    (prefix : Bytes) (creation : Bool) (c : Column) → All IsSettled (describe prefix c creation)
unfolding describe
describe-IsSettled prefix creation c =
    All-append IsSettled (describe_column c creation) _ (describe_column-IsSettled c creation) (
      All-append IsSettled (describe_counter c c.auto_increment) _
        (counter-IsSettled c c.auto_increment)
        (All-append IsSettled (describe_default c c.default_value) _
          (default-IsSettled c c.default_value)
          (All-append IsSettled (describe_index c c.index_name) _ (index-IsSettled c c.index_name)
            (reference-IsSettled prefix c c.reference))))

all_commands-IsSettled :
    (prefix : Bytes) (creation : Bool) (cs : List Column)
    → All IsSettled (all_commands prefix creation cs)
unfolding all_commands
all_commands-IsSettled prefix creation [] = tt
all_commands-IsSettled prefix creation (c ∷ cs) =
    All-append IsSettled (describe prefix c creation) _ (describe-IsSettled prefix creation c)
      (all_commands-IsSettled prefix creation cs)

indexes-IsSettled :
    (table : Bytes) (is : List Index) → All IsSettled (map (describe_table_index table) is)
unfolding describe_table_index
indexes-IsSettled table [] = tt
indexes-IsSettled table (i ∷ is) = (inl refl, indexes-IsSettled table is)

created-IsSettled :
    (creation : Bool) (sql : Bytes) (commands : List Action)
    → All IsSettled commands
    → All IsSettled (if creation then must sql ∷ commands else commands)
created-IsSettled true sql commands h = (inl refl, h)
created-IsSettled false sql commands h = h

-- Of the commands that a table gives, whatever its columns are, each is required or is the drop of an
-- index or of a foreign key: nothing else may fail.
pub describe_table-IsSettled :
    (prefix : Bytes) (t : Table) → All IsSettled (describe_table prefix t)
unfolding describe_table
describe_table-IsSettled prefix t =
    All-append IsSettled _ _
      (created-IsSettled t.creation _ _ (
        rw (describe_columns-commands prefix t.creation t.columns [] [])
          (all_commands-IsSettled prefix t.creation t.columns)))
      (indexes-IsSettled t.table t.indexes)
