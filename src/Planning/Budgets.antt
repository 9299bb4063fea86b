-- ===== src/Planning/Budgets.antt =====
-- upsertBudget and deleteBudget of apps/api/src/planning/planning.service.ts. A write that the database
-- refuses has its error as a fault; the check that a line's amount is positive and the unique active
-- budget (migration 00015) are written out. The answer is that of the SQL function budget_status,
-- which may fail, and is otherwise the budget's id here.
pub mod Lines
use noorix_fin.Common.{
  ℕ, ◌≡◌, Bool, true, false, not, ◌&&◌, Option, none, some, List, [], ◌∷◌, ◌++◌, map, ◌==◌, ltb,
  if◌then◌else◌, filter, any, all, single,
}
use noorix_fin.Common.Text.{Text, codes, text_eq}
use noorix_fin.Common.Outcome.{Outcome, ok, err, then_call}
use noorix_fin.Ledger.{Uuid}
use noorix_fin.Ledger.Request.{read}
use noorix_fin.Planning.{
  DbError, PlanningError, write_failed, invalid_value, aggregation_failed, fail, minor,
  assert_deleted,
}

pub record Budget : Type 0 where
  pub id : Uuid
  pub workspace_id : Uuid
  pub name : Text
  pub cadence : Text
  pub period_start : Text
  pub rollover : Bool
  pub status : Text
  pub created_by : Uuid

pub record BudgetLine : Type 0 where
  pub budget_id : Uuid
  pub workspace_id : Uuid
  pub category_id : Uuid
  pub planned_minor : ℕ
  pub alert_threshold_pct : ℕ

pub record LineInput : Type 0 where
  pub category_id : Uuid
  pub planned_minor : Text
  pub alert_threshold_pct : Option ℕ

pub record BudgetTables : Type 0 where
  pub budgets : List Budget
  pub lines : List BudgetLine

-- which calls fail, and with what
pub record BudgetFaults : Type 0 where
  pub find : Bool
  pub update : Option DbError
  pub insert : Option DbError
  pub clear : Option DbError
  pub insert_lines : Option DbError
  pub status : Bool
  pub delete : Option DbError

pub record BudgetCall : Type 0 where
  pub workspace : Uuid
  pub user : Uuid
  pub name : Option Text
  pub cadence : Option Text
  pub rollover : Option Bool
  pub lines : List LineInput
  pub budget_id : Uuid
  pub today : Text
  pub faults : BudgetFaults

abbrev pub given {ℓ} : {A : Type ℓ} → Option A → A → A
given none other_value = other_value
given (some a) other_value = a

-- The next step, unless the call fails.
abbrev pub unless_failed :
    {A S : Type 0} → Option DbError → S → Outcome PlanningError A × S → Outcome PlanningError A × S
unless_failed (some e) s next = (err (fail e), s)
unless_failed none s next = next

module _ (q : BudgetCall) where
  open q use {workspace, user, budget_id, today, faults}

  abbrev pub cadence_of : Text
  cadence_of = given q.cadence (codes "MONTHLY")

  abbrev pub is_current : Budget → Bool
  is_current b =
      b.workspace_id == workspace
      && (text_eq b.cadence cadence_of && text_eq b.status (codes "ACTIVE"))

  abbrev pub new_budget : Budget
  new_budget = record {
    id = budget_id;
    workspace_id = workspace;
    name = given q.name [];
    cadence = cadence_of;
    period_start = today;
    rollover = given q.rollover false;
    status = codes "ACTIVE";
    created_by = user;
  }

  abbrev pub patched : Uuid → Budget → Budget
  patched id b =
      if b.id == id
      then record b { name = given q.name b.name; rollover = given q.rollover b.rollover }
      else b

  abbrev pub line_row : Uuid → LineInput → ℕ → BudgetLine
  line_row id l planned = record {
    budget_id = id;
    workspace_id = workspace;
    category_id = l.category_id;
    planned_minor = planned;
    alert_threshold_pct = given l.alert_threshold_pct 80;
  }

  -- the `map` over the lines, which throws at the first amount that is too large
  abbrev pub line_rows : Uuid → List LineInput → Outcome PlanningError (List BudgetLine)
  line_rows id [] = ok []
  line_rows id (l ∷ ls) =
      let rest = line_rows id ls in
      then_call (λ planned. then_call (λ rows. ok (line_row id l planned ∷ rows)) rest)
        (minor l.planned_minor)

  abbrev pub with_status : Uuid → BudgetTables → Outcome PlanningError Uuid × BudgetTables
  with_status id db = if faults.status then (err aggregation_failed, db) else (ok id, db)

  abbrev pub is_line_of : Uuid → BudgetLine → Bool
  is_line_of id l = l.budget_id == id

  abbrev pub insert_rows :
      Uuid
      → Outcome PlanningError (List BudgetLine)
      → BudgetTables
      → Outcome PlanningError Uuid × BudgetTables
  insert_rows id (err e) db = (err e, db)
  insert_rows id (ok rows) db = unless_failed faults.insert_lines db (
      if all (λ (l : BudgetLine). ltb 0 l.planned_minor) rows
      then with_status id (record db { lines = db.lines ++ rows })
      else (err invalid_value, db))

  -- `if (dto.lines.length > 0)`
  abbrev pub insert_lines :
      Uuid → List LineInput → BudgetTables → Outcome PlanningError Uuid × BudgetTables
  insert_lines id [] db = with_status id db
  insert_lines id (l ∷ ls) db = insert_rows id (line_rows id (l ∷ ls)) db

  abbrev pub cleared : Uuid → BudgetTables → BudgetTables
  cleared id db = record db { lines = filter (λ l. not (is_line_of id l)) db.lines }

  abbrev pub replace_lines : Uuid → BudgetTables → Outcome PlanningError Uuid × BudgetTables
  replace_lines id db = unless_failed faults.clear db (insert_lines id q.lines (cleared id db))

  abbrev pub with_budget : Option Budget → BudgetTables → Outcome PlanningError Uuid × BudgetTables
  with_budget (some b) db =
      unless_failed faults.update db
        (replace_lines b.id (record db { budgets = map (patched b.id) db.budgets }))
  with_budget none db = unless_failed faults.insert db (
      if any is_current db.budgets
      then (err write_failed, db)
      else replace_lines budget_id (record db { budgets = db.budgets ++ new_budget ∷ [] }))

  unfoldable pub upsert_budget : BudgetTables → Outcome PlanningError Uuid × BudgetTables
  upsert_budget db = with_budget (read faults.find (single (filter is_current db.budgets))) db

  abbrev pub is_budget : Uuid → Budget → Bool
  is_budget id b = b.id == id && b.workspace_id == workspace

  -- The lines of a deleted budget go with it: migration 00015.
  abbrev pub delete_rows :
      List Budget → Uuid → BudgetTables → Outcome PlanningError Bool × BudgetTables
  delete_rows [] id db = (assert_deleted {A = Budget} [], db)
  delete_rows (b ∷ bs) id db = (
    assert_deleted (b ∷ bs),
    record (cleared id db) { budgets = filter (λ x. not (is_budget id x)) db.budgets },
  )

  unfoldable pub delete_budget : Uuid → BudgetTables → Outcome PlanningError Bool × BudgetTables
  delete_budget id db =
      unless_failed faults.delete db (delete_rows (filter (is_budget id) db.budgets) id db)
