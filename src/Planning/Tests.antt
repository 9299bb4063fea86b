-- ===== src/Planning/Tests.antt =====
-- A budget and a goal, on which the theorems about planning are applied.
use noorix_fin.Common.{◌≡◌, ◌++◌, refl, true, false, some, none, [], ◌∷◌}
use noorix_fin.Common.Text.{codes}
use noorix_fin.Common.Outcome.{ok, err}
use noorix_fin.Money.Number.{round53}
use noorix_fin.Planning.{amount_too_large, write_failed, minor}
use noorix_fin.Planning.Budgets.{
  Budget, BudgetLine, LineInput, BudgetTables, BudgetFaults, BudgetCall, upsert_budget,
  delete_budget,
}
use noorix_fin.Planning.Budgets.Lines.{
  LinesEffect, upsert_budget-LinesEffect, upsert_budget_empties, own_lines,
}
use noorix_fin.Planning.Debts.{DebtAccount, DebtCall, UpsertDebt, not_a_liability, upsert_debt}
use noorix_fin.Planning.Tables.{others}
use noorix_fin.Planning.Tenants.{is_own_event, events-others}
use noorix_fin.Planning.Calendar.{
  Event, CreateEvent, UpdateEvent, EventCall, new_event, create_calendar_event,
  update_calendar_event, delete_calendar_event,
}
use noorix_fin.Planning.Goals.{GoalCall, UpdateGoal, update_goal}

abbrev no_faults : BudgetFaults
no_faults = record {
  find = false;
  update = none;
  insert = none;
  clear = none;
  insert_lines = none;
  status = false;
  delete = none;
}

abbrev food : LineInput
food = record { category_id = 6; planned_minor = codes "500000"; alert_threshold_pct = none }

abbrev monthly : BudgetCall
monthly = record {
  workspace = 3;
  user = 8;
  name = none;
  cadence = none;
  rollover = none;
  lines = food ∷ [];
  budget_id = 40;
  today = codes "2024-05-01";
  faults = no_faults;
}

abbrev may : Budget
may = record {
  id = 40;
  workspace_id = 3;
  name = [];
  cadence = codes "MONTHLY";
  period_start = codes "2024-05-01";
  rollover = false;
  status = codes "ACTIVE";
  created_by = 8;
}

abbrev food_line : BudgetLine
food_line = record {
  budget_id = 40;
  workspace_id = 3;
  category_id = 6;
  planned_minor = 500000;
  alert_threshold_pct = 80;
}

abbrev planned : BudgetTables
planned = record { budgets = may ∷ []; lines = food_line ∷ [] }

budget_made : upsert_budget monthly (record { budgets = []; lines = [] }) ≡ (ok 40, planned)
unfolding upsert_budget minor round53
budget_made = refl

budget_deleted : delete_budget monthly 40 planned ≡ (ok true, record { budgets = []; lines = [] })
unfolding delete_budget
budget_deleted = refl

abbrev huge : BudgetCall
huge = record monthly { lines = record food { planned_minor = codes "9007199254740993" } ∷ [] }

upsert_budget-LinesEffect_example : LinesEffect monthly 40 planned (upsert_budget monthly planned)
upsert_budget-LinesEffect_example = upsert_budget-LinesEffect monthly planned

upsert_budget_empties_example :
    (db' : BudgetTables) × (upsert_budget huge planned ≡ (err amount_too_large, db'))
    × (own_lines huge 40 db' ≡ [])
upsert_budget_empties_example = upsert_budget_empties huge planned may refl refl refl refl

abbrev goal_call : GoalCall
goal_call = record { workspace = 3; user = 8; goal_id = 70; fault = none }

abbrev finish_goal : UpdateGoal
finish_goal = record {
  name = none;
  target_minor = none;
  target_date = none;
  linked_account_id = none;
  priority = none;
  status = some (codes "ACHIEVED");
}

missing_goal : update_goal goal_call 71 finish_goal [] ≡ (err write_failed, [])
unfolding update_goal
missing_goal = refl

abbrev house : DebtAccount
house = record { id = 90; workspace_id = 3; class = codes "ASSET" }

abbrev debt_call : DebtCall
debt_call = record { workspace = 3; read_account = false; fault = none }

abbrev loan : UpsertDebt
loan = record {
  ledger_account_id = 90;
  principal_minor = codes "100";
  annual_rate_bps = none;
  minimum_payment_minor = none;
  due_day = none;
}

asset_refused : upsert_debt debt_call loan (house ∷ []) [] ≡ (err not_a_liability, [])
unfolding upsert_debt
asset_refused = refl

abbrev event_call : EventCall
event_call = record {
  workspace = 3;
  user = 8;
  event_id = 80;
  noon = λ d. d ++ codes "T12:00:00.000Z";
  settings = none;
  fault = none;
}

abbrev rent_event : CreateEvent
rent_event = record {
  type = codes "BILL";
  title = codes "Rent";
  amount_minor = none;
  currency_code = none;
  due_date = codes "2024-05-10";
  reminder_offsets = none;
}

abbrev paid : UpdateEvent
paid = record {
  title = none;
  amount_minor = none;
  due_date = none;
  status = some (codes "PAID");
  journal_entry_id = none;
}

abbrev foreign_event : Event
foreign_event = record (new_event event_call rent_event none) { workspace_id = 4 }

events-others_example :
    (others
        (is_own_event event_call)
        (create_calendar_event event_call rent_event (foreign_event ∷ [])).1
      ≡ foreign_event ∷ [])
    × (others
          (is_own_event event_call)
          (update_calendar_event event_call 80 paid (foreign_event ∷ [])).1
        ≡ foreign_event ∷ [])
    × (others (is_own_event event_call) (delete_calendar_event event_call 80 (foreign_event ∷ [])).1
        ≡ foreign_event ∷ [])
events-others_example = events-others event_call 80 rent_event paid (foreign_event ∷ [])
