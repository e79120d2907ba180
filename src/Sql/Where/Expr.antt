-- ===== src/Sql/Where/Expr.antt =====
-- Boolean expressions of SQL with their precedence, and what a where clause is meant to say.
use obelisk_asio_coro.Base.{Bool, true, false, ◌&&◌, ◌||◌, ◌++◌, ◌∷◌, [], Bytes, codes}
use obelisk_asio_coro.Sql.Syntax.{
  Env, Condition, Conditions, Groups, WhereClause, no_conditions, next_condition, no_groups,
  next_group, clause,
}
use obelisk_asio_coro.Sql.Query.{compile_condition}

-- A disjunction of conjunctions of terms; a term is a condition or a disjunction in parentheses.
-- A text is read in one way only as such an expression: `AND` binds closer than `OR`.
mutual
  pub data Term : Type 0 where
    atom : Condition → Term
    paren : Disjunction → Term

  pub data Conjunction : Type 0 where
    term : Term → Conjunction
    and : Term → Conjunction → Conjunction

  pub data Disjunction : Type 0 where
    conjunction : Conjunction → Disjunction
    or : Conjunction → Disjunction → Disjunction

module _ (env : Env) where
  unfoldable mutual
    pub render_term : Term → Bytes
    render_term (atom c) = compile_condition env c
    render_term (paren d) = b'(' ∷ (render d ++ b')' ∷ [])

    pub render_conjunction : Conjunction → Bytes
    render_conjunction (term t) = render_term t
    render_conjunction (and t c) = render_term t ++ (codes " AND " ++ render_conjunction c)

    pub render : Disjunction → Bytes
    render (conjunction c) = render_conjunction c
    render (or c d) = render_conjunction c ++ (codes " OR " ++ render d)

-- `holds` says which conditions are true of a row.
module _ (holds : Condition → Bool) where
  unfoldable mutual
    pub eval_term : Term → Bool
    eval_term (atom c) = holds c
    eval_term (paren d) = eval d

    pub eval_conjunction : Conjunction → Bool
    eval_conjunction (term t) = eval_term t
    eval_conjunction (and t c) = eval_term t && eval_conjunction c

    pub eval : Disjunction → Bool
    eval (conjunction c) = eval_conjunction c
    eval (or c d) = eval_conjunction c || eval d

  -- What a clause is meant to select: all conditions of some group, if there is a group, and all
  -- global conditions.
  unfoldable pub all_hold : Conditions → Bool
  all_hold no_conditions = true
  all_hold (next_condition c cs) = holds c && all_hold cs

  unfoldable pub some_group : Groups → Bool
  unfolding all_hold
  some_group no_groups = false
  some_group (next_group g gs) = all_hold g || some_group gs

  unfoldable pub meaning : WhereClause → Bool
  unfolding some_group all_hold
  meaning (clause no_groups global) = all_hold global
  meaning (clause (next_group g gs) global) = some_group (next_group g gs) && all_hold global

-- Every group has a condition.
abbrev pub AllFilled : Groups → Type 0
AllFilled no_groups = Unit
AllFilled (next_group no_conditions gs) = ⊥
AllFilled (next_group (next_condition c cs) gs) = AllFilled gs

-- The clause has a condition.
abbrev pub IsFilled : WhereClause → Type 0
IsFilled (clause no_groups no_conditions) = ⊥
IsFilled (clause no_groups (next_condition c cs)) = Unit
IsFilled (clause (next_group g gs) global) = AllFilled (next_group g gs)
