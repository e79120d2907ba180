-- ===== src/Sql/Where/Calls.antt =====
-- What `where`, `or_where` and `global_where` add to the meaning of a clause.
use obelisk_asio_coro.Base.{◌≡◌, refl, Bool, ◌&&◌, ◌||◌, arith}
use obelisk_asio_coro.Sql.Syntax.{
  Condition, Conditions, Groups, WhereClause, no_conditions, next_condition, no_groups, next_group,
  clause,
}
use obelisk_asio_coro.Sql.Where.{
  copy_conditions, copy_last, copy_new, global_where, or_where, and_where,
}
use obelisk_asio_coro.Sql.Where.Expr.{all_hold, some_group, meaning}

module _ (holds : Condition → Bool) where
  all_hold-copy_conditions :
      (cs ds : Conditions)
      → all_hold holds (copy_conditions cs ds) ≡ all_hold holds cs && all_hold holds ds
  unfolding all_hold copy_conditions
  all_hold-copy_conditions no_conditions ds = refl
  all_hold-copy_conditions (next_condition c cs) ds = ground (arith, all_hold-copy_conditions cs ds)

  some_group-copy_new :
      (gs : Groups) (cs : Conditions)
      → some_group holds (copy_new gs cs) ≡ some_group holds gs || all_hold holds cs
  unfolding some_group copy_new
  some_group-copy_new no_groups cs = ground arith
  some_group-copy_new (next_group g gs) cs = ground (arith, some_group-copy_new gs cs)

  -- The groups in front of the last one stay as they are.
  some_group-copy_last :
      (gs : Groups) (cs ds : Conditions)
      → some_group holds (copy_last (copy_new gs cs) ds)
        ≡ some_group holds gs || (all_hold holds cs && all_hold holds ds)
  unfolding some_group copy_last copy_new
  some_group-copy_last no_groups cs ds = ground (arith, all_hold-copy_conditions cs ds)
  some_group-copy_last (next_group g no_groups) cs ds =
      ground (arith, all_hold-copy_conditions cs ds)
  some_group-copy_last (next_group g (next_group h gs)) cs ds =
      rw (some_group-copy_last (next_group h gs) cs ds) (ground arith)

  -- Global conditions are required besides everything else.
  pub meaning-global_where :
      (w : WhereClause) (cs : Conditions)
      → meaning holds (global_where w cs) ≡ meaning holds w && all_hold holds cs
  unfolding meaning global_where
  meaning-global_where (clause no_groups global) cs = all_hold-copy_conditions global cs
  meaning-global_where (clause (next_group g gs) global) cs =
      ground (arith, all_hold-copy_conditions global cs)

  meaning-copy_new :
      (gs : Groups) (global cs : Conditions)
      → meaning holds (clause (copy_new gs cs) global)
        ≡ (some_group holds gs || all_hold holds cs) && all_hold holds global
  unfolding meaning copy_new
  meaning-copy_new no_groups global cs = ground (arith, some_group-copy_new no_groups cs)
  meaning-copy_new (next_group g gs) global cs = ground (arith, some_group-copy_new gs cs)

  meaning-copy_last :
      (gs : Groups) (global cs ds : Conditions)
      → meaning holds (clause (copy_last (copy_new gs cs) ds) global)
        ≡ (some_group holds gs || (all_hold holds cs && all_hold holds ds)) && all_hold holds global
  unfolding meaning copy_new copy_last
  meaning-copy_last no_groups global cs ds = ground (arith, some_group-copy_last no_groups cs ds)
  meaning-copy_last (next_group g no_groups) global cs ds =
      ground (arith, some_group-copy_last (next_group g no_groups) cs ds)
  meaning-copy_last (next_group g (next_group h gs)) global cs ds =
      ground (arith, some_group-copy_last (next_group g (next_group h gs)) cs ds)

  -- From any clause with groups `gs` and global conditions `global`: `or_where` adds an alternative,
  -- a `where` after it narrows that last alternative alone, and `global_where` narrows the whole.
  pub meaning-calls :
      (gs : Groups) (global cs ds : Conditions)
      → (meaning holds (or_where (clause gs global) cs)
          ≡ (some_group holds gs || all_hold holds cs) && all_hold holds global)
        × (meaning holds (and_where (or_where (clause gs global) cs) ds)
            ≡ (some_group holds gs || (all_hold holds cs && all_hold holds ds))
              && all_hold holds global)
        × (meaning holds (global_where (clause gs global) cs)
            ≡ meaning holds (clause gs global) && all_hold holds cs)
  unfolding or_where and_where
  meaning-calls gs global cs ds = (
    meaning-copy_new gs global cs,
    meaning-copy_last gs global cs ds,
    meaning-global_where (clause gs global) cs,
  )
