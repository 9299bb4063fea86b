-- ===== src/Planning/Debts.antt =====
-- upsertDebt and deleteDebt of apps/api/src/planning/planning.service.ts. The details of an account are
-- one row, whose key is the account: migration 00015.
use noorix_fin.Common.{
  ℕ, Bool, true, not, ◌&&◌, Option, none, some, List, [], ◌∷◌, ◌++◌, map, ◌==◌, if◌then◌else◌,
  filter, any, single,
}
use noorix_fin.Common.Text.{Text, codes, text_eq}
use noorix_fin.Common.Outcome.{Outcome, ok, err}
use noorix_fin.Ledger.{Uuid}
use noorix_fin.Ledger.Request.{read}
use noorix_fin.Planning.{DbError, PlanningError, fail, minor}
use noorix_fin.Planning.Goals.{optional_minor}

pub data DebtError : Type 0 where
  account_not_found not_a_liability debt_terms_not_found : DebtError
  planning : PlanningError → DebtError

pub record DebtAccount : Type 0 where
  pub id : Uuid
  pub workspace_id : Uuid
  pub class : Text

pub record Debt : Type 0 where
  pub ledger_account_id : Uuid
  pub workspace_id : Uuid
  pub principal_minor : ℕ
  pub annual_rate_bps : Option ℕ
  pub minimum_payment_minor : Option ℕ
  pub due_day : Option ℕ

pub record UpsertDebt : Type 0 where
  pub ledger_account_id : Uuid
  pub principal_minor : Text
  pub annual_rate_bps : Option ℕ
  pub minimum_payment_minor : Option Text
  pub due_day : Option ℕ

pub record DebtCall : Type 0 where
  pub workspace : Uuid
  pub read_account : Bool
  pub fault : Option DbError

module _ (q : DebtCall) where
  open q use {workspace, read_account, fault}

  abbrev pub debt_row : UpsertDebt → ℕ → Option ℕ → Debt
  debt_row dto principal payment = record {
    ledger_account_id = dto.ledger_account_id;
    workspace_id = workspace;
    principal_minor = principal;
    annual_rate_bps = dto.annual_rate_bps;
    minimum_payment_minor = payment;
    due_day = dto.due_day;
  }

  abbrev pub is_debt_of : Uuid → Debt → Bool
  is_debt_of account d = d.ledger_account_id == account

  -- `onConflict: 'ledger_account_id'`
  abbrev pub put_debt : Debt → List Debt → List Debt
  put_debt d debts =
      if any (is_debt_of d.ledger_account_id) debts
      then map (λ x. if is_debt_of d.ledger_account_id x then d else x) debts
      else debts ++ d ∷ []

  abbrev pub write_debt : Option DbError → Debt → List Debt → Outcome DebtError Debt × List Debt
  write_debt (some e) d debts = (err (planning (fail e)), debts)
  write_debt none d debts = (ok d, put_debt d debts)

  abbrev pub with_payment :
      UpsertDebt
      → ℕ
      → Outcome PlanningError (Option ℕ)
      → List Debt
      → Outcome DebtError Debt × List Debt
  with_payment dto principal (err e) debts = (err (planning e), debts)
  with_payment dto principal (ok payment) debts =
      write_debt fault (debt_row dto principal payment) debts

  abbrev pub with_principal :
      UpsertDebt → Outcome PlanningError ℕ → List Debt → Outcome DebtError Debt × List Debt
  with_principal dto (err e) debts = (err (planning e), debts)
  with_principal dto (ok principal) debts =
      with_payment dto principal (optional_minor dto.minimum_payment_minor) debts

  abbrev pub of_account :
      Option DebtAccount → UpsertDebt → List Debt → Outcome DebtError Debt × List Debt
  of_account none dto debts = (err account_not_found, debts)
  of_account (some a) dto debts =
      if text_eq a.class (codes "LIABILITY")
      then with_principal dto (minor dto.principal_minor) debts
      else (err not_a_liability, debts)

  abbrev pub is_account_of : UpsertDebt → DebtAccount → Bool
  is_account_of dto a = a.id == dto.ledger_account_id && a.workspace_id == workspace

  unfoldable pub upsert_debt :
      UpsertDebt → List DebtAccount → List Debt → Outcome DebtError Debt × List Debt
  upsert_debt dto accounts debts =
      of_account (read read_account (single (filter (is_account_of dto) accounts))) dto debts

  abbrev pub is_own_debt : Uuid → Debt → Bool
  is_own_debt account d = d.ledger_account_id == account && d.workspace_id == workspace

  abbrev pub delete_found_debts : List Debt → Uuid → List Debt → Outcome DebtError Bool × List Debt
  delete_found_debts [] account debts = (err debt_terms_not_found, debts)
  delete_found_debts (d ∷ ds) account debts =
      (ok true, filter (λ x. not (is_own_debt account x)) debts)

  abbrev pub delete_unless : Option DbError → Uuid → List Debt → Outcome DebtError Bool × List Debt
  delete_unless (some e) account debts = (err (planning (fail e)), debts)
  delete_unless none account debts =
      delete_found_debts (filter (is_own_debt account) debts) account debts

  unfoldable pub delete_debt : Uuid → List Debt → Outcome DebtError Bool × List Debt
  delete_debt account debts = delete_unless fault account debts
