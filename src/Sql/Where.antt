-- ===== src/Sql/Where.antt =====
-- Adding conditions to a clause: `where`, `or_where` and `global_where` of
-- include/obelisk/database/builder/detail/enable_where_condition.h.
pub mod Expr
pub mod Meaning
pub mod Calls
use obelisk_asio_coro.Sql.Syntax.{
  Conditions, Groups, WhereClause, no_conditions, next_condition, no_groups, next_group, clause,
}

-- `std::ranges::copy(conditions, std::back_inserter(target))`
unfoldable pub copy_conditions : Conditions → Conditions → Conditions
copy_conditions no_conditions cs = cs
copy_conditions (next_condition c target) cs = next_condition c (copy_conditions target cs)

-- The same into the last group, which is made if there is none.
unfoldable pub copy_last : Groups → Conditions → Groups
unfolding copy_conditions
copy_last no_groups cs = next_group cs no_groups
copy_last (next_group g no_groups) cs = next_group (copy_conditions g cs) no_groups
copy_last (next_group g (next_group h gs)) cs = next_group g (copy_last (next_group h gs) cs)

-- `emplace_back()`, and the copy into the new group.
unfoldable pub copy_new : Groups → Conditions → Groups
copy_new no_groups cs = next_group cs no_groups
copy_new (next_group g gs) cs = next_group g (copy_new gs cs)

unfoldable pub and_where : WhereClause → Conditions → WhereClause
unfolding copy_last
and_where (clause groups global) cs = clause (copy_last groups cs) global

unfoldable pub or_where : WhereClause → Conditions → WhereClause
unfolding copy_new
or_where (clause groups global) cs = clause (copy_new groups cs) global

unfoldable pub global_where : WhereClause → Conditions → WhereClause
unfolding copy_conditions
global_where (clause groups global) cs = clause groups (copy_conditions global cs)
