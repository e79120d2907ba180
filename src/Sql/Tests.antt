-- ===== src/Sql/Tests.antt =====
-- Runs of the SQL builder on small statements, and the theorems at such statements.
use obelisk_asio_coro.Base.{
  ◌≡◌, refl, Bytes, codes, [], ◌∷◌, ◌++◌, none, Bool, true, false, ◌&&◌, ◌||◌, ◌↔◌, length, All, ℕ,
  show_ℕ, show_ℤ,
}
use obelisk_asio_coro.Sql.Syntax.{
  SqlValue, Env, Condition, Conditions, WhereClause, Query, query, clause, condition, col_operand,
  value_operand, no_conditions, next_condition, no_groups, next_group, no_selections,
  next_selection, no_sources, next_source, no_joins, no_unions, col_item, table_source,
}
use obelisk_asio_coro.Sql.Compile.{
  compile_values, compile_col, compile_alias, compile_value, separate_with, compile_where,
  compile_group, compile_part, compile_table,
}
use obelisk_asio_coro.Sql.Query.{compile_query, compile_clause}
use obelisk_asio_coro.Sql.Where.{and_where, or_where, global_where}
use obelisk_asio_coro.Sql.Where.Expr.{Disjunction, render, eval, meaning, all_hold, some_group}
use obelisk_asio_coro.Sql.Where.Meaning.{compile_clause-meaning}
use obelisk_asio_coro.Sql.Where.Calls.{meaning-calls}
use obelisk_asio_coro.Sql.Separate.{compile_col-join, contains_char, replace_char, IsBoost}
use obelisk_asio_coro.Sql.Guards.{compile-global_where}
use obelisk_asio_coro.Sql.Insert.{IsAligned, values_pack-IsAligned_iff}
use obelisk_asio_coro.Sql.Statement.{
  InsertStatement, DeleteStatement, UpdateStatement, compile_delete, compile_update, insert,
  values_pack, compile_select, compile_insert, empty_clause,
}

-- Boost's algorithms for a search text of one character, which is what the builder calls them with.
abbrev contains_first : Bytes → Bytes → Bool
contains_first s [] = true
contains_first s (c ∷ _) = contains_char c s

abbrev replace_first : Bytes → Bytes → Bytes → Bytes
replace_first s [] t = s
replace_first s (c ∷ _) t = replace_char c t s

abbrev env : Env
env = record {
  prefix = codes "t_";
  format_double = show_ℕ;
  format_time = show_ℤ;
  contains = contains_first;
  replace_all = replace_first;
}

env-IsBoost : IsBoost env
env-IsBoost = record { contains_one = λ s c. refl; replace_one = λ s c t. refl }

abbrev is_id : ℕ → Condition
is_id n = condition (col_operand (codes "u.id")) (codes "=") (value_operand (SqlValue.uint64 n))

abbrev not_deleted : Condition
not_deleted =
    condition (col_operand (codes "deleted_at")) (codes "=") (value_operand SqlValue.nullptr)

abbrev one : Condition → Conditions
one c = next_condition c no_conditions

abbrev two_groups : WhereClause
two_groups =
    clause (next_group (one (is_id 1)) (next_group (one (is_id 2)) no_groups)) (one not_deleted)

abbrev users : Query
users =
    query false false (next_selection (col_item (codes "id")) none no_selections)
      (next_source (table_source (codes "users")) none no_sources) no_joins two_groups [] none
      no_unions none

two_groups_text :
    compile_clause env true two_groups
    ≡ codes "WHERE ((`t_u`.`id` = 1) OR (`t_u`.`id` = 2)) AND (`deleted_at` IS NULL) "
unfolding compile_clause compile_where compile_group separate_with compile_col contains_char
    replace_char compile_value show_ℕ
two_groups_text = refl

users_text :
    compile_select env users
    ≡ codes
        "SELECT \n\t`id` FROM `t_users`\nWHERE ((`t_u`.`id` = 1) OR (`t_u`.`id` = 2)) AND (`deleted_at` IS NULL) ;"
unfolding compile_select compile_query compile_part compile_where compile_group separate_with
    compile_col compile_value compile_table compile_alias show_ℕ contains_char replace_char
users_text = refl

insert_text :
    compile_insert env (
      values_pack
        (insert (codes "m"))
        ((codes "a", SqlValue.string (codes "x")) ∷ (codes "b", SqlValue.bool true) ∷ []))
    ≡ codes "INSERT INTO `t_m`(`a`,`b`) VALUES ('x',true) ;"
unfolding compile_insert values_pack insert separate_with compile_col contains_char replace_char
    compile_value compile_values compile_table
insert_text = refl

compile_clause-meaning_example :
    (d : Disjunction) × (compile_clause env true two_groups
      ≡ codes "WHERE " ++ (render env d ++ codes " "))
    × ((holds : Condition → Bool) → eval holds d ≡ meaning holds two_groups)
compile_clause-meaning_example = compile_clause-meaning env two_groups tt

abbrev only_null : Condition → Bool
only_null (condition a o (value_operand SqlValue.nullptr)) = true
only_null _ = false

meaning-calls_example :
    (meaning only_null (or_where two_groups (one not_deleted))
      ≡ (some_group only_null (next_group (one (is_id 1)) (next_group (one (is_id 2)) no_groups))
          || all_hold only_null (one not_deleted))
        && all_hold only_null (one not_deleted))
    × (meaning only_null (and_where (or_where two_groups (one not_deleted)) (one (is_id 3)))
        ≡ (some_group only_null (next_group (one (is_id 1)) (next_group (one (is_id 2)) no_groups))
            || (all_hold only_null (one not_deleted) && all_hold only_null (one (is_id 3))))
          && all_hold only_null (one not_deleted))
    × (meaning only_null (global_where two_groups (one not_deleted))
        ≡ meaning only_null two_groups && all_hold only_null (one not_deleted))
meaning-calls_example =
    meaning-calls only_null (next_group (one (is_id 1)) (next_group (one (is_id 2)) no_groups))
      (one not_deleted) (one not_deleted) (one (is_id 3))

compile_col-join_example : compile_col env (codes "u.id") ≡ codes "`t_u`.`id`"
unfolding contains_char
compile_col-join_example = compile_col-join env env-IsBoost (codes "u.id")

abbrev remove : DeleteStatement
remove = record { tables = codes "users" ∷ []; conditions = empty_clause }

abbrev rename : UpdateStatement
rename = record {
  tables = codes "users" ∷ [];
  assignments = (codes "name", SqlValue.string (codes "x")) ∷ [];
  conditions = empty_clause;
}

compile-global_where_example :
    (compile_delete env
        (record remove { conditions = global_where remove.conditions (one (is_id 1)) })
      ≡ compile_delete env remove)
    × (compile_update env
          (record rename { conditions = global_where rename.conditions (one (is_id 1)) })
        ≡ compile_update env rename)
compile-global_where_example = compile-global_where env remove rename (one (is_id 1))

abbrev one_row : InsertStatement
one_row = record {
  table = codes "m";
  ignore = false;
  sub_query = none;
  insert_columns = codes "a" ∷ [];
  insert_values = (SqlValue.nullptr ∷ []) ∷ [];
}

values_pack-IsAligned_iff_example :
    IsAligned (values_pack one_row ((codes "a", SqlValue.nullptr) ∷ []))
    ↔ All (λ row. length row ≡ 1) one_row.insert_values
values_pack-IsAligned_iff_example =
    values_pack-IsAligned_iff one_row ((codes "a", SqlValue.nullptr) ∷ [])
