-- ===== src/Sql/Syntax.antt =====
-- The statement parts of include/obelisk/database/builder/detail as data.
-- A `sub_query` holds a builder that is run on a fresh query: it stands here for the query that the
-- builder leaves. A double is its bit pattern, a time point its tick count.
use obelisk_asio_coro.Base.{ℕ, Bool, false, Bytes, ℤ, List, [], Option, none}

-- The variant of `sql_value`, in its order.
pub data SqlValue : Type 0 where
  nullptr : SqlValue
  double : ℕ → SqlValue
  bool : Bool → SqlValue
  int64 : ℤ → SqlValue
  string : Bytes → SqlValue
  uint64 : ℕ → SqlValue
  time_point : ℤ → SqlValue

-- What the compilation reads from elsewhere: the configured table prefix, the standard library's text
-- of a double and of a time point (`{:%F %T}`), and Boost's `contains` and `replace_all`.
pub record Env : Type 0 where
  pub prefix : Bytes
  pub format_double : ℕ → Bytes
  pub format_time : ℤ → Bytes
  pub contains : Bytes → Bytes → Bool
  pub replace_all : Bytes → Bytes → Bytes → Bytes

-- `countable_t`; `group_concat_t` has no value.
pub data Countable : Type 0 where
  col : Bytes → Countable
  raw : Bytes → Countable
  value : SqlValue → Countable

pub data Groupable : Type 0 where
  col : Bytes → Groupable
  raw : Bytes → Groupable

pub record OrderBy : Type 0 where
  pub columns : List Bytes
  pub order : Option Bytes

pub record Limit : Type 0 where
  pub limit : ℕ
  pub offset : ℕ

mutual
  -- `condition_operands`
  pub data Operand : Type 0 where
    col_operand : Bytes → Operand
    value_operand : SqlValue → Operand
    values_operand : List SqlValue → Operand
    sub_operand : Query → Operand

  pub data Condition : Type 0 where
    condition : Operand → Bytes → Operand → Condition

  pub data Conditions : Type 0 where
    no_conditions : Conditions
    next_condition : Condition → Conditions → Conditions

  -- the vector of `condition_group`
  pub data Groups : Type 0 where
    no_groups : Groups
    next_group : Conditions → Groups → Groups

  -- the fields of `enable_where_condition`: `where_groups_` and `global_where_`
  pub data WhereClause : Type 0 where
    clause : Groups → Conditions → WhereClause

  -- the sources of `selectable_t`
  pub data Selectable : Type 0 where
    col_item : Bytes → Selectable
    value_item : SqlValue → Selectable
    raw_item : Bytes → Selectable
    count_item : Bool → Countable → Selectable
    concat_item : Groupable → Bool → Option Bytes → Selectable
    if_item : WhereClause → SqlValue → SqlValue → Selectable

  -- with the alias of `alia`
  pub data Selections : Type 0 where
    no_selections : Selections
    next_selection : Selectable → Option Bytes → Selections → Selections

  pub data Source : Type 0 where
    table_source : Bytes → Source
    raw_source : Bytes → Source
    query_source : Query → Source

  -- `from_t`
  pub data Sources : Type 0 where
    no_sources : Sources
    next_source : Source → Option Bytes → Sources → Sources

  -- `join_`: its `join_t` with the alias, its type and its conditions
  pub data Joins : Type 0 where
    no_joins : Joins
    next_join : Source → Option Bytes → Bytes → Conditions → Joins → Joins

  pub data Union : Type 0 where
    values_union : List SqlValue → Union
    query_union : Query → Union

  pub data Unions : Type 0 where
    no_unions : Unions
    next_union : Union → Unions → Unions

  -- the fields of `query`: sub_query_, distinct_, selects_, from_, joins_, the where clause,
  -- group_by_, order_by_, unions_, limit_
  pub data Query : Type 0 where
    query :
        Bool
        → Bool
        → Selections
        → Sources
        → Joins
        → WhereClause
        → List Bytes
        → Option OrderBy
        → Unions
        → Option Limit
        → Query

-- A query as its constructor leaves it.
abbrev pub empty_query : Query
empty_query =
    query false false no_selections no_sources no_joins (clause no_groups no_conditions) [] none
      no_unions none
