-- ===== src/Sql/Compile.antt =====
-- `compile()` of the values, columns, tables, conditions and queries: the headers of
-- include/obelisk/database/builder/detail and source/database/builder/detail.
use obelisk_asio_coro.Base.{
  ℕ, zero, suc, Bool, true, false, Bytes, codes, show_ℕ, show_ℤ, List, [], ◌∷◌, ◌++◌, map, Option,
  none, some, is_empty, ◌&&◌, ◌||◌, not, if◌then◌else◌,
}
use obelisk_asio_coro.Sql.Syntax.{
  SqlValue, Env, Countable, Groupable, OrderBy, Limit, Operand, value_operand,
}

-- `utils::separate_with` on the compiled members: the separator goes in front of every member but
-- the one at index 0.
unfoldable pub separate_from : ℕ → Bytes → Bytes → List Bytes → Bytes
separate_from i separator result [] = result
separate_from zero separator result (x ∷ xs) = separate_from 1 separator (result ++ x) xs
separate_from (suc i) separator result (x ∷ xs) =
    separate_from (suc (suc i)) separator ((result ++ separator) ++ x) xs

unfoldable pub separate_with : Bytes → List Bytes → Bytes
unfolding separate_from
separate_with separator xs = separate_from 0 separator [] xs

-- `limit_t::compile`
unfoldable pub compile_limit : Limit → Bytes
compile_limit l = codes "LIMIT " ++ (show_ℕ l.limit ++ (codes " OFFSET " ++ show_ℕ l.offset))

module _ (env : Env) where
  -- `general_visitor` on the alternatives of a value, so `sql_value::compile`. A text is put between
  -- quotes as it is.
  unfoldable pub compile_value : SqlValue → Bytes
  compile_value SqlValue.nullptr = codes "NULL"
  compile_value (SqlValue.double d) = env.format_double d
  compile_value (SqlValue.bool b) = if b then codes "true" else codes "false"
  compile_value (SqlValue.int64 i) = show_ℤ i
  compile_value (SqlValue.string s) = b'\'' ∷ (s ++ b'\'' ∷ [])
  compile_value (SqlValue.uint64 n) = show_ℕ n
  compile_value (SqlValue.time_point t) = b'\'' ∷ (env.format_time t ++ b'\'' ∷ [])

  -- `values_t::compile`, and `general_visitor` on a vector of values.
  unfoldable pub compile_values : List SqlValue → Bytes
  unfolding compile_value
  compile_values vs = b'(' ∷ (separate_with (codes ",") (map compile_value vs) ++ b')' ∷ [])

  -- `col::compile`: the table prefix only in front of a qualified name.
  unfoldable pub compile_col : Bytes → Bytes
  compile_col c =
      let contains_table_name = env.contains c (codes ".") in
      let column_name =
        if contains_table_name then env.replace_all c (codes ".") (codes "`.`") else c in
      b'`' ∷ ((if contains_table_name then env.prefix else []) ++ (column_name ++ b'`' ∷ []))

  -- `table::compile`
  unfoldable pub compile_table : Bytes → Bytes
  compile_table t = b'`' ∷ (env.prefix ++ (t ++ b'`' ∷ []))

  unfoldable pub compile_countable : Countable → Bytes
  unfolding compile_col compile_value
  compile_countable (Countable.col c) = compile_col c
  compile_countable (Countable.raw r) = r
  compile_countable (Countable.value v) = compile_value v

  unfoldable pub compile_groupable : Groupable → Bytes
  unfolding compile_col
  compile_groupable (Groupable.col c) = compile_col c
  compile_groupable (Groupable.raw r) = r

  -- `order_by_::compile`
  unfoldable pub compile_order_by : OrderBy → Bytes
  unfolding compile_col
  compile_order_by o =
      (separate_with (codes ",") (map compile_col o.columns) ++ codes " ")
      ++ elim o.order [ none ↦ [] | some order ↦ order ++ codes " " ]

  -- The suffix that `alia::compile` appends; `prefix` is empty for a selected item.
  unfoldable pub compile_alias : Bytes → Option Bytes → Bytes
  compile_alias prefix none = []
  compile_alias prefix (some a) = codes " AS `" ++ (prefix ++ (a ++ codes "` "))

-- `condition_operands::is_null`
abbrev pub is_null : Operand → Bool
is_null (value_operand SqlValue.nullptr) = true
is_null _ = false

-- `enable_where_condition::compile_where` on the compiled groups and the compiled global conditions.
unfoldable pub compile_where : Bool → List Bytes → List Bytes → Bytes
compile_where append_where_keyword groups global =
    (if (not (is_empty groups) || not (is_empty global)) && append_where_keyword
      then codes "WHERE "
      else [])
    ++ ((elim groups [
      | [] ↦ []
      | g ∷ gs ↦
          if is_empty global || is_empty gs
          then separate_with (codes " OR ") (g ∷ gs) ++ codes " "
          else b'(' ∷ (separate_with (codes " OR ") (g ∷ gs) ++ codes ") ")
    ])
        ++ (elim global [
          | [] ↦ []
          | c ∷ cs ↦
              (if not (is_empty groups) then codes "AND " else [])
              ++ b'(' ∷ (separate_with (codes " AND ") (c ∷ cs) ++ codes ") ")
        ]))

-- `condition_group::compile` on its compiled conditions.
unfoldable pub compile_group : List Bytes → Bytes
compile_group cs = b'(' ∷ (separate_with (codes " AND ") cs ++ b')' ∷ [])

-- A keyword with its list, left out where the list is empty.
unfoldable pub compile_part : Bytes → Bytes → Bytes → List Bytes → Bytes
compile_part keyword separator ending [] = []
compile_part keyword separator ending (x ∷ xs) =
    keyword ++ (separate_with separator (x ∷ xs) ++ ending)
