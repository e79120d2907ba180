-- ===== src/Sql/Guards.antt =====
-- What an update, a delete and a count keep of the conditions that they were given.
use obelisk_asio_coro.Base.{
  ◌≡◌, refl, Bytes, codes, ◌++◌, ◌∷◌, [], Bool, false, List, append_assoc, Option, append-nil,
  show_ℤ, show_ℕ,
}
use obelisk_asio_coro.Sql.Syntax.{
  SqlValue, Env, Conditions, WhereClause, Query, query, clause, Selections, Sources, Joins, Unions,
  OrderBy, Limit,
}
use obelisk_asio_coro.Sql.Compile.{
  compile_values, compile_value, compile_part, compile_alias, compile_countable, compile_where,
}
use obelisk_asio_coro.Sql.Query.{compile_query, compile_shape}
use obelisk_asio_coro.Sql.Where.{global_where}
use obelisk_asio_coro.Sql.Statement.{
  DeleteStatement, UpdateStatement, compile_delete, compile_update, compile_groups_only,
  count_query, as_sub_query, reset_order,
}
use obelisk_asio_coro.Sql.Separate.{separate_with-one, separate_with-rest}

compile_groups_only-global_where :
    (env : Env) (w : WhereClause) (cs : Conditions)
    → compile_groups_only env (global_where w cs) ≡ compile_groups_only env w
unfolding compile_groups_only global_where
compile_groups_only-global_where env (clause _ global) cs = refl

-- A delete and an update ignore `global_where`: whatever conditions it is given, the text of the
-- statement is the one without them.
pub compile-global_where :
    (env : Env) (d : DeleteStatement) (u : UpdateStatement) (cs : Conditions)
    → (compile_delete env (record d { conditions = global_where d.conditions cs })
        ≡ compile_delete env d)
      × (compile_update env (record u { conditions = global_where u.conditions cs })
          ≡ compile_update env u)
unfolding compile_delete compile_update
compile-global_where env d u cs = (
  rw (compile_groups_only-global_where env d.conditions cs),
  rw (compile_groups_only-global_where env u.conditions cs),
)

-- A text value is not escaped: one text that holds `','` compiles to the same list of values as the
-- two texts around it.
pub compile_values-quote :
    (env : Env) (a b : Bytes) (vs : List SqlValue)
    → compile_values env (SqlValue.string (a ++ (codes "','" ++ b)) ∷ vs)
      ≡ compile_values env (SqlValue.string a ∷ SqlValue.string b ∷ vs)
unfolding compile_values compile_value
compile_values-quote env a b vs =
    rw
      (
        separate_with-rest (codes ",") (b'\'' ∷ ((a ++ (codes "','" ++ b)) ++ b'\'' ∷ [])) _,
        separate_with-rest (codes ",") (b'\'' ∷ (a ++ b'\'' ∷ [])) _,
      )
      (simp append_assoc)

-- A sub-query is the same text in parentheses.
compile_query-as_sub_query :
    (env : Env) (distinct : Bool) (selects : Selections) (from : Sources) (joins : Joins)
    (w : WhereClause) (group_by : List Bytes) (order_by : Option OrderBy) (unions : Unions)
    (limit : Option Limit)
    → let q = query false distinct selects from joins w group_by order_by unions limit in
      compile_query env (as_sub_query q) ≡ b'(' ∷ (compile_query env q ++ b')' ∷ [])
unfolding compile_query compile_shape as_sub_query
compile_query-as_sub_query env distinct selects from joins w group_by order_by us limit =
    simp (append_assoc, append-nil)

-- `count` runs one query: it counts the rows of the given query, in parentheses and under the
-- prefixed name `count`, without its order and with everything else of it.
pub compile_query-count_query :
    (env : Env) (q : Query)
    → compile_query env (count_query q)
      ≡ codes "SELECT \n\tCOUNT(1) FROM "
        ++ (compile_query env (as_sub_query (reset_order q))
            ++ (codes " AS `" ++ (env.prefix ++ codes "count` \n")))
unfolding compile_query compile_part compile_alias compile_countable show_ℤ show_ℕ compile_where
    count_query
compile_query-count_query env q = simp (separate_with-one, append_assoc, append-nil)
