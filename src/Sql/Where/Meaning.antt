-- ===== src/Sql/Where/Meaning.antt =====
-- What a compiled where clause means, and what each call adds to it.
use obelisk_asio_coro.Base.{
  ◌≡◌, refl, ◌∷◌, ◌++◌, codes, Bool, arith, true, append_assoc, append-nil, ◌∙◌, sym,
}
use obelisk_asio_coro.Sql.Syntax.{
  Env, Condition, Conditions, no_conditions, next_condition, WhereClause, Groups, next_group,
  no_groups, clause,
}
use obelisk_asio_coro.Sql.Compile.{separate_with, compile_where, compile_group}
use obelisk_asio_coro.Sql.Query.{
  compile_condition, compile_conditions, compile_clause, compile_groups,
}
use obelisk_asio_coro.Sql.Separate.{separate_with-one, join, separate_with-join}
use obelisk_asio_coro.Sql.Where.Expr.{
  Term, Conjunction, atom, paren, term, and, conjunction, render_term, render_conjunction, meaning,
  render, Disjunction, eval, eval_conjunction, eval_term, IsFilled, some_group, all_hold, AllFilled,
  or,
}

conjunction_of : Condition → Conditions → Conjunction
conjunction_of c no_conditions = term (atom c)
conjunction_of c (next_condition d cs) = and (atom c) (conjunction_of d cs)

-- The term of a group, or of the global conditions; `()` has no term, so the conditions are two.
term_of : Condition → Conditions → Term
unfolding conjunction_of
term_of c cs = paren (conjunction (conjunction_of c cs))

group_term : Conditions → Term → Term
unfolding term_of
group_term no_conditions t = t
group_term (next_condition c cs) t = term_of c cs

module _ (env : Env) where
  render-conjunction_of :
      (c : Condition) (cs : Conditions)
      → render_conjunction env (conjunction_of c cs)
        ≡ join (codes " AND ") (compile_condition env c ∷ compile_conditions env cs)
  unfolding conjunction_of render_conjunction compile_conditions
  render-conjunction_of c no_conditions = refl
  render-conjunction_of c (next_condition d cs) = rw (render-conjunction_of d cs)

  render-term_of :
      (c : Condition) (cs : Conditions)
      → render_term env (term_of c cs)
        ≡ compile_group (compile_conditions env (next_condition c cs))
  unfolding term_of render_term compile_conditions compile_group
  render-term_of c cs = rw (
    render-conjunction_of c cs,
    separate_with-join (codes " AND ") (compile_condition env c ∷ compile_conditions env cs),
  )

-- The groups, each in its parentheses, with `OR` between them.
disjunction_of : Condition → Conditions → Groups → Disjunction
disjunction_of c cs no_groups = conjunction (term (term_of c cs))
disjunction_of c cs (next_group no_conditions gs) = conjunction (term (term_of c cs))
disjunction_of c cs (next_group (next_condition d ds) gs) =
    or (term (term_of c cs)) (disjunction_of d ds gs)

module _ (env : Env) where
  render-disjunction_of :
      (c : Condition) (cs : Conditions) (gs : Groups)
      → AllFilled gs
      → render env (disjunction_of c cs gs)
        ≡ join (codes " OR ") (compile_groups env (next_group (next_condition c cs) gs))
  unfolding disjunction_of render compile_groups
  render-disjunction_of c cs no_groups h = render-term_of env c cs
  render-disjunction_of c cs (next_group no_conditions gs) h = absurd h
  render-disjunction_of c cs (next_group (next_condition d ds) gs) h =
      rw (render-term_of env c cs, render-disjunction_of d ds gs h)

  render-separate_with :
      (c : Condition) (cs : Conditions) (gs : Groups)
      → AllFilled gs
      → render env (disjunction_of c cs gs)
        ≡ separate_with (codes " OR ") (compile_groups env (next_group (next_condition c cs) gs))
  render-separate_with c cs gs h =
      render-disjunction_of c cs gs h ∙ sym (separate_with-join (codes " OR ") _)

module _ (holds : Condition → Bool) where
  eval-conjunction_of :
      (c : Condition) (cs : Conditions)
      → eval_conjunction holds (conjunction_of c cs) ≡ all_hold holds (next_condition c cs)
  unfolding conjunction_of eval_conjunction all_hold
  eval-conjunction_of c no_conditions = ground arith
  eval-conjunction_of c (next_condition d cs) = rw (eval-conjunction_of d cs)

  eval-term_of :
      (c : Condition) (cs : Conditions)
      → eval_term holds (term_of c cs) ≡ all_hold holds (next_condition c cs)
  unfolding term_of eval_term
  eval-term_of c cs = eval-conjunction_of c cs

  eval-disjunction_of :
      (c : Condition) (cs : Conditions) (gs : Groups)
      → AllFilled gs
      → eval holds (disjunction_of c cs gs) ≡ some_group holds (next_group (next_condition c cs) gs)
  unfolding disjunction_of eval some_group
  eval-disjunction_of c cs no_groups h = ground (arith, eval-term_of c cs)
  eval-disjunction_of c cs (next_group no_conditions gs) h = absurd h
  eval-disjunction_of c cs (next_group (next_condition d ds) gs) h =
      rw (eval-term_of c cs, eval-disjunction_of d ds gs h)

-- The expression that the compiled clause is the text of.
clause_expr : WhereClause → Disjunction → Disjunction
unfolding disjunction_of
clause_expr (clause no_groups no_conditions) d = d
clause_expr (clause no_groups (next_condition c cs)) d = conjunction (term (term_of c cs))
clause_expr (clause (next_group no_conditions gs) global) d = d
clause_expr (clause (next_group (next_condition c cs) gs) no_conditions) d = disjunction_of c cs gs
clause_expr (clause (next_group (next_condition c cs) no_groups) (next_condition e es)) d =
    conjunction (and (term_of c cs) (term (term_of e es)))
clause_expr (clause (next_group (next_condition c cs) (next_group g gs)) (next_condition e es)) d =
    conjunction (and (paren (disjunction_of c cs (next_group g gs))) (term (term_of e es)))

module _ (env : Env) where
  clause_expr-text :
      (w : WhereClause) (d : Disjunction)
      → IsFilled w
      → compile_clause env true w ≡ codes "WHERE " ++ (render env (clause_expr w d) ++ codes " ")
  unfolding clause_expr compile_clause compile_where compile_group render
  clause_expr-text (clause no_groups no_conditions) d h = absurd h
  clause_expr-text (clause no_groups (next_condition c cs)) d h =
      rw (render-term_of env c cs) (simp append_assoc)
  clause_expr-text (clause (next_group no_conditions gs) global) d h = absurd h
  clause_expr-text (clause (next_group (next_condition c cs) gs) no_conditions) d h =
      rw (render-separate_with env c cs gs h) (simp append-nil)
  clause_expr-text (clause (next_group (next_condition c cs) no_groups) (next_condition e es)) d h =
      rw (render-term_of env c cs, render-term_of env e es) (simp (separate_with-one, append_assoc))
  clause_expr-text
        (clause (next_group (next_condition c cs) (next_group g gs)) (next_condition e es)) d h =
      rw (render-separate_with env c cs (next_group g gs) h, render-term_of env e es)
        (simp append_assoc)

clause_expr-meaning :
    (holds : Condition → Bool) (w : WhereClause) (d : Disjunction)
    → IsFilled w
    → eval holds (clause_expr w d) ≡ meaning holds w
unfolding clause_expr meaning eval
clause_expr-meaning holds (clause no_groups no_conditions) d h = absurd h
clause_expr-meaning holds (clause no_groups (next_condition c cs)) d h = eval-term_of holds c cs
clause_expr-meaning holds (clause (next_group no_conditions gs) global) d h = absurd h
clause_expr-meaning holds (clause (next_group (next_condition c cs) gs) no_conditions) d h =
    rw (eval-disjunction_of holds c cs gs h) (ground arith)
clause_expr-meaning holds
      (clause (next_group (next_condition c cs) no_groups) (next_condition e es)) d h =
    rw (eval-term_of holds c cs, eval-term_of holds e es) (ground arith)
clause_expr-meaning holds
      (clause (next_group (next_condition c cs) (next_group g gs)) (next_condition e es)) d h =
    rw (eval-disjunction_of holds c cs (next_group g gs) h, eval-term_of holds e es)

-- For a clause that has a condition, and none of whose groups is empty: the compiled text is the word
-- WHERE before the text of an expression, read with AND closer than OR, that is true exactly when
-- all conditions of some group (if there are groups) and all global conditions are true.
pub compile_clause-meaning :
    (env : Env) (w : WhereClause)
    → IsFilled w
    → (d : Disjunction) × (compile_clause env true w
        ≡ codes "WHERE " ++ (render env d ++ codes " "))
      × ((holds : Condition → Bool) → eval holds d ≡ meaning holds w)
compile_clause-meaning env (clause no_groups no_conditions) h = absurd h
compile_clause-meaning env (clause no_groups (next_condition c cs)) h =
    let w = clause no_groups (next_condition c cs) in
    let d = conjunction (term (atom c)) in
    (clause_expr w d, clause_expr-text env w d h, λ holds. clause_expr-meaning holds w d h)
compile_clause-meaning env (clause (next_group no_conditions gs) global) h = absurd h
compile_clause-meaning env (clause (next_group (next_condition c cs) gs) global) h =
    let w = clause (next_group (next_condition c cs) gs) global in
    let d = conjunction (term (atom c)) in
    (clause_expr w d, clause_expr-text env w d h, λ holds. clause_expr-meaning holds w d h)
