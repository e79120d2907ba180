-- ===== src/Sql/Query.antt =====
-- `compile()` of conditions, joins, unions and queries: condition.h, enable_where_condition.h,
-- alia.h, count.h, group_concat.h, if_format.h, join.h, union.cpp and query.cpp of the builder.
use obelisk_asio_coro.Base.{
  Bool, true, false, Bytes, codes, List, [], ◌∷◌, ◌++◌, map, Option, none, some, if◌then◌else◌,
}
use obelisk_asio_coro.Sql.Syntax.{
  Env, Operand, Condition, Conditions, Groups, WhereClause, Selectable, Selections, Source, Sources,
  Joins, Union, Unions, Query, col_operand, value_operand, values_operand, sub_operand, condition,
  no_conditions, next_condition, no_groups, next_group, clause, col_item, value_item, raw_item,
  count_item, concat_item, if_item, no_selections, next_selection, table_source, raw_source,
  query_source, no_sources, next_source, no_joins, next_join, values_union, query_union, no_unions,
  next_union, query,
}
use obelisk_asio_coro.Sql.Compile.{
  separate_with, compile_value, compile_values, compile_col, compile_table, compile_countable,
  compile_groupable, compile_order_by, compile_alias, compile_limit, compile_where, compile_group,
  compile_part, is_null,
}

-- The text that `query::compile` puts around its parts.
unfoldable pub compile_shape :
    Bool
    → Bool
    → List Bytes
    → List Bytes
    → List Bytes
    → Bytes
    → List Bytes
    → Option Bytes
    → List Bytes
    → Option Bytes
    → Bytes
unfolding compile_part
compile_shape sub_query distinct selects from joins where_text group_by order_by unions limit =
    (if sub_query then codes "(" else [])
    ++ (codes "SELECT "
        ++ ((if distinct then codes "DISTINCT " else [])
            ++ (codes "\n\t"
                ++ (separate_with (codes ",\n\t") selects
                    ++ (codes " "
                        ++ (compile_part (codes "FROM ") (codes ",") (codes "\n") from
                            ++ (compile_part (codes "\t ") (codes "\n\t") (codes " ") joins
                                ++ (where_text
                                    ++ (compile_part (codes "GROUP BY ") (codes ",") (codes " ")
                                          group_by
                                        ++ (elim order_by [
                                          | none ↦ []
                                          | some o ↦ codes "ORDER BY " ++ (o ++ codes " ")
                                        ]
                                            ++ (compile_part (codes "UNION ") (codes "\nUNION ")
                                                  (codes " ") unions
                                                ++ (elim limit [
                                                  | none ↦ []
                                                  | some l ↦ l ++ codes " "
                                                ]
                                                    ++ (if sub_query
                                                        then codes ")"
                                                        else [])))))))))))))

module _ (env : Env) where
  unfoldable mutual
    unfolding compile_shape

    pub compile_operand : Operand → Bytes
    compile_operand (col_operand c) = compile_col env c
    compile_operand (value_operand v) = compile_value env v
    compile_operand (values_operand vs) = compile_values env vs
    compile_operand (sub_operand q) = compile_query q

    pub compile_condition : Condition → Bytes
    compile_condition (condition first operator second) =
        compile_operand first
        ++ (codes " "
            ++ ((if is_null second then codes "IS" else operator)
                ++ (codes " " ++ compile_operand second)))

    pub compile_conditions : Conditions → List Bytes
    compile_conditions no_conditions = []
    compile_conditions (next_condition c cs) = compile_condition c ∷ compile_conditions cs

    pub compile_groups : Groups → List Bytes
    compile_groups no_groups = []
    compile_groups (next_group g gs) = compile_group (compile_conditions g) ∷ compile_groups gs

    pub compile_clause : Bool → WhereClause → Bytes
    compile_clause keyword (clause groups global) =
        compile_where keyword (compile_groups groups) (compile_conditions global)

    -- The visitor of `alia` takes its first template for a `raw` too, since that one is not const:
    -- no parentheses are put around it.
    pub compile_selectable : Selectable → Bytes
    compile_selectable (col_item c) = compile_col env c
    compile_selectable (value_item v) = compile_value env v
    compile_selectable (raw_item r) = r
    compile_selectable (count_item distinct source) =
        codes "COUNT("
        ++ ((if distinct then codes "DISTINCT " else [])
            ++ (compile_countable env source ++ codes ")"))
    compile_selectable (concat_item source distinct separator) =
        codes "GROUP_CONCAT("
        ++ ((if distinct then codes "DISTINCT " else [])
            ++ (compile_groupable env source
                ++ (elim separator [ none ↦ [] | some s ↦ codes "SEPARATOR " ++ s ] ++ codes ") ")))
    compile_selectable (if_item w true_val false_val) =
        codes "IF("
        ++ (compile_clause false w
            ++ (codes " , "
                ++ (compile_value env true_val
                    ++ (codes ", " ++ (compile_value env false_val ++ codes ") ")))))

    pub compile_selections : Selections → List Bytes
    compile_selections no_selections = []
    compile_selections (next_selection s a ss) =
        (compile_selectable s ++ compile_alias env [] a) ∷ compile_selections ss

    pub compile_source : Source → Bytes
    compile_source (table_source t) = compile_table env t
    compile_source (raw_source r) = r
    compile_source (query_source q) = compile_query q

    pub compile_sources : Sources → List Bytes
    compile_sources no_sources = []
    compile_sources (next_source s a ss) =
        (compile_source s ++ compile_alias env env.prefix a) ∷ compile_sources ss

    pub compile_joins : Joins → List Bytes
    compile_joins no_joins = []
    compile_joins (next_join s a join_type conditions js) =
        (join_type
          ++ (codes " JOIN "
              ++ ((compile_source s ++ compile_alias env env.prefix a)
                  ++ (codes " ON "
                      ++ separate_with (codes " AND ") (compile_conditions conditions)))))
        ∷ compile_joins js

    pub compile_union : Union → Bytes
    compile_union (values_union vs) =
        codes "(SELECT " ++ (separate_with (codes ",") (map (compile_value env) vs) ++ codes ")")
    compile_union (query_union q) = codes "(" ++ (compile_query q ++ codes ")")

    pub compile_unions : Unions → List Bytes
    compile_unions no_unions = []
    compile_unions (next_union u us) = compile_union u ∷ compile_unions us

    -- `query::compile`
    pub compile_query : Query → Bytes
    compile_query (query sub_query distinct selects from joins w group_by order_by unions limit) =
        compile_shape sub_query distinct (compile_selections selects) (compile_sources from)
          (compile_joins joins) (compile_clause true w) (map (compile_col env) group_by)
          (elim order_by [ none ↦ none | some o ↦ some (compile_order_by env o) ])
          (compile_unions unions) (elim limit [ none ↦ none | some l ↦ some (compile_limit l) ])
