-- ===== src/Planning/Goals/Missing.antt =====
-- The update of a goal that is not there.
use noorix_fin.Common.{◌≡◌, false, none, List, any, filter-none}
use noorix_fin.Common.Outcome.{ok, err}
use noorix_fin.Ledger.{Uuid}
use noorix_fin.Planning.{write_failed}
use noorix_fin.Planning.Goals.{
  Goal, UpdateGoal, GoalPatch, GoalCall, patch_of, is_empty_patch, is_goal, update_goal,
}

-- A patch that can be read and is not empty, for a goal that the workspace has not, is answered with
-- PLANNING_WRITE_FAILED and changes nothing.
pub update_goal_missing :
    (q : GoalCall) (id : Uuid) (dto : UpdateGoal) (p : GoalPatch) (goals : List Goal)
    → patch_of dto ≡ ok p
    → is_empty_patch p ≡ false
    → any (is_goal q id) goals ≡ false
    → q.fault ≡ none
    → update_goal q id dto goals ≡ (err write_failed, goals)
unfolding update_goal
update_goal_missing q id dto p goals read_patch some_change missing works =
    rw (read_patch, some_change, works, filter-none (is_goal q id) goals missing)
