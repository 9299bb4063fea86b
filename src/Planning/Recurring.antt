-- ===== src/Planning/Recurring.antt =====
-- createRecurringRule, updateRecurringRule and deleteRecurringRule of
-- apps/api/src/planning/planning.service.ts.
use mathlib.Core.Option
use noorix_fin.Common.{ℕ, Bool, ◌&&◌, Option, List, ◌==◌, take}
use noorix_fin.Common.Text.{Text, codes}
use noorix_fin.Common.Outcome.{Outcome, ok, err}
use noorix_fin.Ledger.{Uuid}
use noorix_fin.Planning.{DbError, PlanningError, minor}
use noorix_fin.Planning.Budgets.{given}
use noorix_fin.Planning.Tables.{insert_one, update_one, delete_some}
use noorix_fin.Planning.Calendar.{Settings}

pub record Rule : Type 0 where
  pub id : Uuid
  pub workspace_id : Uuid
  pub name : Text
  pub entry_type : Text
  pub amount_minor : ℕ
  pub currency_code : Text
  pub account_id : Option Uuid
  pub category_id : Option Uuid
  pub payee : Option Text
  pub frequency : Text
  pub interval_count : ℕ
  pub timezone : Text
  pub next_occurrence : Text
  pub ends_at : Option Text
  pub behavior : Text
  pub status : Text
  pub created_by : Uuid

pub record CreateRule : Type 0 where
  pub name : Text
  pub entry_type : Text
  pub amount_minor : Text
  pub currency_code : Option Text
  pub account_id : Option Uuid
  pub category_id : Option Uuid
  pub payee : Option Text
  pub frequency : Text
  pub interval_count : Option ℕ
  pub next_occurrence : Text
  pub ends_at : Option Text
  pub behavior : Option Text

pub record RuleCall : Type 0 where
  pub workspace : Uuid
  pub user : Uuid
  pub rule_id : Uuid
  pub settings : Option Settings
  pub fault : Option DbError

module _ (q : RuleCall) where
  open q use {workspace, user, rule_id, settings, fault}

  abbrev pub new_rule : CreateRule → ℕ → Rule
  new_rule dto amount = record {
    id = rule_id;
    workspace_id = workspace;
    name = dto.name;
    entry_type = dto.entry_type;
    amount_minor = amount;
    currency_code =
        given dto.currency_code
          (given (Option.map (λ (s : Settings). s.base_currency) settings) (codes "BDT"));
    account_id = dto.account_id;
    category_id = dto.category_id;
    payee = dto.payee;
    frequency = dto.frequency;
    interval_count = given dto.interval_count 1;
    timezone = given (Option.map (λ (s : Settings). s.timezone) settings) (codes "Asia/Dhaka");
    next_occurrence = take 10 dto.next_occurrence;
    ends_at = Option.map (take 10) dto.ends_at;
    behavior = given dto.behavior (codes "REMIND_ONLY");
    status = codes "ACTIVE";
    created_by = user;
  }

  abbrev pub insert_rule :
      CreateRule → Outcome PlanningError ℕ → List Rule → Outcome PlanningError Rule × List Rule
  insert_rule dto (err e) rules = (err e, rules)
  insert_rule dto (ok amount) rules = insert_one fault (new_rule dto amount) rules

  unfoldable pub create_recurring_rule :
      CreateRule → List Rule → Outcome PlanningError Rule × List Rule
  create_recurring_rule dto rules = insert_rule dto (minor dto.amount_minor) rules

  abbrev pub is_rule : Uuid → Rule → Bool
  is_rule id r = r.id == id && r.workspace_id == workspace

  unfoldable pub update_recurring_rule :
      Uuid → Text → List Rule → Outcome PlanningError Rule × List Rule
  update_recurring_rule id status rules =
      update_one fault (is_rule id) (λ r. record r { status = status }) rules

  unfoldable pub delete_recurring_rule : Uuid → List Rule → Outcome PlanningError Bool × List Rule
  delete_recurring_rule id rules = delete_some fault (is_rule id) rules
