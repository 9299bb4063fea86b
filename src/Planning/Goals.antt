-- ===== src/Planning/Goals.antt =====
-- createGoal, updateGoal and deleteGoal of apps/api/src/planning/planning.service.ts.
pub mod Missing
use noorix_fin.Common.{
  ℕ, ◌≡◌, Bool, true, false, not, ◌&&◌, Option, none, some, List, [], ◌∷◌, ◌++◌, map, ◌==◌, ltb,
  if◌then◌else◌, filter, single,
}
use noorix_fin.Common.Text.{Text, codes}
use noorix_fin.Common.Outcome.{Outcome, ok, err, then_call}
use noorix_fin.Ledger.{Uuid}
use noorix_fin.Planning.{
  DbError, no_row, check_constraint, PlanningError, empty_patch, fail, minor, assert_deleted,
}
use noorix_fin.Planning.Budgets.{given, unless_failed}

pub record Goal : Type 0 where
  pub id : Uuid
  pub workspace_id : Uuid
  pub name : Text
  pub target_minor : ℕ
  pub currency_code : Text
  pub target_date : Option Text
  pub linked_account_id : Option Uuid
  pub priority : ℕ
  pub status : Text
  pub created_by : Uuid

pub record CreateGoal : Type 0 where
  pub name : Text
  pub target_minor : Text
  pub currency_code : Option Text
  pub target_date : Option Text
  pub linked_account_id : Option Uuid
  pub priority : Option ℕ

-- Each field that is given is changed.
pub record UpdateGoal : Type 0 where
  pub name : Option Text
  pub target_minor : Option Text
  pub target_date : Option Text
  pub linked_account_id : Option Uuid
  pub priority : Option ℕ
  pub status : Option Text

-- the patch, with the amount parsed
pub record GoalPatch : Type 0 where
  pub name : Option Text
  pub target_minor : Option ℕ
  pub target_date : Option Text
  pub linked_account_id : Option Uuid
  pub priority : Option ℕ
  pub status : Option Text

pub record GoalCall : Type 0 where
  pub workspace : Uuid
  pub user : Uuid
  pub goal_id : Uuid
  pub fault : Option DbError

abbrev pub is_absent {ℓ} : {A : Type ℓ} → Option A → Bool
is_absent none = true
is_absent (some a) = false

-- `Object.keys(patch).length === 0`
abbrev pub is_empty_patch : GoalPatch → Bool
is_empty_patch p =
    is_absent p.name
    && (is_absent p.target_minor
        && (is_absent p.target_date
            && (is_absent p.linked_account_id && (is_absent p.priority && is_absent p.status))))

abbrev pub or_keep {ℓ} : {A : Type ℓ} → Option A → Option A → Option A
or_keep none kept = kept
or_keep (some a) kept = some a

abbrev pub apply_patch : GoalPatch → Goal → Goal
apply_patch p g = record g {
  name = given p.name g.name;
  target_minor = given p.target_minor g.target_minor;
  target_date = or_keep p.target_date g.target_date;
  linked_account_id = or_keep p.linked_account_id g.linked_account_id;
  priority = given p.priority g.priority;
  status = given p.status g.status;
}

abbrev pub optional_minor : Option Text → Outcome PlanningError (Option ℕ)
optional_minor none = ok none
optional_minor (some t) = then_call (λ n. ok (some n)) (minor t)

abbrev pub patch_of : UpdateGoal → Outcome PlanningError GoalPatch
patch_of dto =
    then_call
      (λ target. ok (record {
        name = dto.name;
        target_minor = target;
        target_date = dto.target_date;
        linked_account_id = dto.linked_account_id;
        priority = dto.priority;
        status = dto.status;
      }))
      (optional_minor dto.target_minor)

module _ (q : GoalCall) where
  open q use {workspace, user, goal_id, fault}

  abbrev pub new_goal : CreateGoal → ℕ → Goal
  new_goal dto target = record {
    id = goal_id;
    workspace_id = workspace;
    name = dto.name;
    target_minor = target;
    currency_code = given dto.currency_code (codes "BDT");
    target_date = dto.target_date;
    linked_account_id = dto.linked_account_id;
    priority = given dto.priority 0;
    status = codes "ACTIVE";
    created_by = user;
  }

  -- The table checks that the target is positive: migration 00015.
  abbrev pub insert_goal : Goal → List Goal → Outcome PlanningError Goal × List Goal
  insert_goal g goals = unless_failed fault goals (
      if ltb 0 g.target_minor
      then (ok g, goals ++ g ∷ [])
      else (err (fail check_constraint), goals))

  abbrev pub created :
      CreateGoal → Outcome PlanningError ℕ → List Goal → Outcome PlanningError Goal × List Goal
  created dto (err e) goals = (err e, goals)
  created dto (ok target) goals = insert_goal (new_goal dto target) goals

  unfoldable pub create_goal : CreateGoal → List Goal → Outcome PlanningError Goal × List Goal
  create_goal dto goals = created dto (minor dto.target_minor) goals

  abbrev pub is_goal : Uuid → Goal → Bool
  is_goal id g = g.id == id && g.workspace_id == workspace

  -- The update of no row is an error of `.single()`, and throws before the data are looked at.
  abbrev pub update_row :
      Option Goal → Uuid → GoalPatch → List Goal → Outcome PlanningError Goal × List Goal
  update_row none id p goals = (err (fail no_row), goals)
  update_row (some g) id p goals =
      if ltb 0 (apply_patch p g).target_minor
      then (ok (apply_patch p g), map (λ x. if is_goal id x then apply_patch p x else x) goals)
      else (err (fail check_constraint), goals)

  abbrev pub update_with :
      Uuid → Outcome PlanningError GoalPatch → List Goal → Outcome PlanningError Goal × List Goal
  update_with id (err e) goals = (err e, goals)
  update_with id (ok p) goals =
      if is_empty_patch p
      then (err empty_patch, goals)
      else unless_failed fault goals (update_row (single (filter (is_goal id) goals)) id p goals)

  unfoldable pub update_goal :
      Uuid → UpdateGoal → List Goal → Outcome PlanningError Goal × List Goal
  update_goal id dto goals = update_with id (patch_of dto) goals

  unfoldable pub delete_goal : Uuid → List Goal → Outcome PlanningError Bool × List Goal
  delete_goal id goals =
      unless_failed fault goals
        (assert_deleted (filter (is_goal id) goals), filter (λ g. not (is_goal id g)) goals)
