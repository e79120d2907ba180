-- ===== src/Sql/Statement.antt =====
-- The statements: insert_statement, update_statement, delete_statement, select_statement, and the
-- calls of `query` that fill one, with `db::select`, `insert`, `update` and `delete_from`.
use obelisk_asio_coro.Base.{
  ℕ, Bool, true, false, Bytes, codes, pos, List, [], ◌∷◌, ◌++◌, map, Option, none, some,
  if◌then◌else◌,
}
use obelisk_asio_coro.Sql.Syntax.{
  SqlValue, Env, Countable, OrderBy, Conditions, Selections, Source, Sources, Joins, Union, Unions,
  WhereClause, Query, query, clause, no_groups, no_conditions, no_selections, next_selection,
  no_sources, next_source, query_source, no_joins, next_join, no_unions, next_union, count_item,
  empty_query,
}
use obelisk_asio_coro.Sql.Compile.{
  separate_with, compile_value, compile_values, compile_col, compile_table, compile_part,
}
use obelisk_asio_coro.Sql.Query.{compile_query, compile_groups}
use obelisk_asio_coro.Sql.Where.{and_where}

pub record InsertStatement : Type 0 where
  pub table : Bytes
  pub ignore : Bool
  pub sub_query : Option Query
  pub insert_columns : List Bytes
  pub insert_values : List (List SqlValue)

pub record UpdateStatement : Type 0 where
  pub tables : List Bytes
  pub assignments : List (Bytes × SqlValue)
  pub conditions : WhereClause

pub record DeleteStatement : Type 0 where
  pub tables : List Bytes
  pub conditions : WhereClause

abbrev pub empty_clause : WhereClause
empty_clause = clause no_groups no_conditions

-- `db::insert`, without and with columns
unfoldable pub insert : Bytes → InsertStatement
insert table = record {
  table = table;
  ignore = false;
  sub_query = none;
  insert_columns = [];
  insert_values = [];
}

unfoldable pub insert_with : Bytes → List Bytes → InsertStatement
unfolding insert
insert_with table columns = record (insert table) { insert_columns = columns }

unfoldable pub into : InsertStatement → Bytes → InsertStatement
into s table = record s { table = table }

unfoldable pub cols : InsertStatement → List Bytes → InsertStatement
cols s columns = record s { insert_columns = columns }

unfoldable pub ignore : InsertStatement → Bool → InsertStatement
ignore s val = record s { ignore = val }

-- One row from pairs: the columns are replaced by those of this row, and the row is appended.
unfoldable pub values_pack : InsertStatement → List (Bytes × SqlValue) → InsertStatement
values_pack s pack = record s {
  insert_columns = map (λ p. p.0) pack;
  insert_values = s.insert_values ++ map (λ p. p.1) pack ∷ [];
}

unfoldable pub values_rows : InsertStatement → List Bytes → List (List SqlValue) → InsertStatement
values_rows s columns rows = record s { insert_columns = columns; insert_values = rows }

unfoldable pub values_query : InsertStatement → Query → InsertStatement
values_query s q = record s { sub_query = some q }

-- `db::update`, and its `set`
unfoldable pub update : List Bytes → UpdateStatement
update tables = record { tables = tables; assignments = []; conditions = empty_clause }

unfoldable pub set : UpdateStatement → List (Bytes × SqlValue) → UpdateStatement
set s values = record s { assignments = s.assignments ++ values }

-- `db::delete_from`
unfoldable pub delete_from : List Bytes → DeleteStatement
delete_from tables = record { tables = tables; conditions = empty_clause }

module _ (env : Env) where
  unfoldable pub compile_insert : InsertStatement → Bytes
  compile_insert s =
      codes "INSERT "
      ++ ((if s.ignore then codes "IGNORE " else [])
          ++ (codes "INTO "
              ++ (compile_table env s.table
                  ++ (codes "("
                      ++ (separate_with (codes ",") (map (compile_col env) s.insert_columns)
                          ++ (codes ") "
                              ++ (elim s.insert_values [
                                | row ∷ rows ↦
                                    codes "VALUES "
                                    ++ (separate_with (codes ",")
                                          (map (compile_values env) (row ∷ rows))
                                        ++ codes " ")
                                | [] ↦ elim s.sub_query [ none ↦ [] | some q ↦ compile_query env q ]
                              ]
                                  ++ codes ";")))))))

  -- The `WHERE` of an update and of a delete, which read `where_groups_` alone.
  unfoldable pub compile_groups_only : WhereClause → Bytes
  unfolding compile_part
  compile_groups_only (clause groups global) =
      compile_part (codes "WHERE ") (codes " OR ") (codes " ") (compile_groups env groups)

  unfoldable pub compile_assignment : Bytes × SqlValue → Bytes
  compile_assignment (c, v) = compile_col env c ++ (codes " = " ++ compile_value env v)

  unfoldable pub compile_update : UpdateStatement → Bytes
  unfolding compile_groups_only compile_assignment
  compile_update s =
      codes "UPDATE "
      ++ (separate_with (codes ",") (map (compile_table env) s.tables)
          ++ (codes " SET "
              ++ (separate_with (codes ",") (map compile_assignment s.assignments)
                  ++ (codes " " ++ (compile_groups_only s.conditions ++ codes ";")))))

  unfoldable pub compile_delete : DeleteStatement → Bytes
  unfolding compile_groups_only
  compile_delete s =
      codes "DELETE FROM "
      ++ (separate_with (codes ",") (map (compile_table env) s.tables)
          ++ (codes " " ++ (compile_groups_only s.conditions ++ codes ";")))

  -- `select_statement::compile`
  unfoldable pub compile_select : Query → Bytes
  compile_select q = compile_query env q ++ codes ";"

append_selections : Selections → Selections → Selections
append_selections no_selections ss = ss
append_selections (next_selection s a rest) ss = next_selection s a (append_selections rest ss)

append_sources : Sources → Sources → Sources
append_sources no_sources ss = ss
append_sources (next_source s a rest) ss = next_source s a (append_sources rest ss)

append_joins : Joins → Joins → Joins
append_joins no_joins js = js
append_joins (next_join s a t c rest) js = next_join s a t c (append_joins rest js)

append_unions : Unions → Unions → Unions
append_unions no_unions us = us
append_unions (next_union u rest) us = next_union u (append_unions rest us)

unfoldable pub as_sub_query : Query → Query
as_sub_query (query s d se fr jo w g o u l) = query true d se fr jo w g o u l

unfoldable pub distinct : Query → Query
distinct (query s d se fr jo w g o u l) = query s true se fr jo w g o u l

-- The selections are replaced; tables, joins, groupings and unions are appended.
unfoldable pub select : Query → Selections → Query
select (query s d se fr jo w g o u l) selections = query s d selections fr jo w g o u l

unfoldable pub from : Query → Sources → Query
unfolding append_sources
from (query s d se fr jo w g o u l) tables = query s d se (append_sources fr tables) jo w g o u l

unfoldable pub join_as : Bytes → Query → Source → Option Bytes → Conditions → Query
unfolding append_joins
join_as type (query s d se fr jo w g o u l) source alias conditions =
    query s d se fr (append_joins jo (next_join source alias type conditions no_joins)) w g o u l

abbrev pub join : Query → Source → Option Bytes → Conditions → Query
join = join_as (codes "INNER")

abbrev pub left_join : Query → Source → Option Bytes → Conditions → Query
left_join = join_as (codes "LEFT")

abbrev pub right_join : Query → Source → Option Bytes → Conditions → Query
right_join = join_as (codes "RIGHT")

unfoldable pub filter_by : Query → Conditions → Query
filter_by (query s d se fr jo w g o u l) cs = query s d se fr jo (and_where w cs) g o u l

unfoldable pub group_by : Query → List Bytes → Query
group_by (query s d se fr jo w g o u l) cl = query s d se fr jo w (g ++ cl) o u l

unfoldable pub order_by : Query → OrderBy → Query
order_by (query s d se fr jo w g o u l) order = query s d se fr jo w g (some order) u l

unfoldable pub reset_order : Query → Query
reset_order (query s d se fr jo w g o u l) = query s d se fr jo w g none u l

unfoldable pub union_with : Query → Union → Query
unfolding append_unions
union_with (query s d se fr jo w g o u l) target =
    query s d se fr jo w g o (append_unions u (next_union target no_unions)) l

unfoldable pub limit : Query → ℕ → ℕ → Query
limit (query s d se fr jo w g o u l) lm offset =
    query s d se fr jo w g o u (some (record { limit = lm; offset = offset }))

-- The query that `count` runs: the copy loses its order and becomes the source of the new one.
unfoldable pub count_query : Query → Query
unfolding select from reset_order as_sub_query append_sources
count_query q =
    from
      (select empty_query (
        next_selection (count_item false (Countable.value (SqlValue.int64 (pos 1)))) none
          no_selections))
      (next_source (query_source (as_sub_query (reset_order q))) (some (codes "count")) no_sources)
