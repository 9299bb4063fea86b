-- ===== src/Import/Run/Moves.antt =====
-- What one imported row does to the abstract ledger.
use noorix_fin.Common.{ℕ, ◌<◌, ◌≡◌, ◌⊎◌, true, false, ◌&&◌, some, ◌==◌, filter, single}
use noorix_fin.Common.Text.{Text}
use noorix_fin.Common.Outcome.{Outcome, ok, err}
use noorix_fin.Ledger.{Uuid, CategoryRow, Db}
use noorix_fin.Ledger.Balance.{balances, move}
use noorix_fin.Ledger.Create.Moves.{Moves}
use noorix_fin.Import.Amount.{is_negative, decimal_to_minor}
use noorix_fin.Import.Rows.{ParsedRow}
use noorix_fin.Import.Job.{RowError, Import}

module _ (q : Import) where
  open q use {workspace, account_id, expense_category_id, income_category_id}

  -- The category of the workspace with this id has this ledger account.
  abbrev pub HasAccount : Uuid → Uuid → Db → Type 0
  HasAccount category account db =
      (c : CategoryRow) × (single (
          filter (λ (c : CategoryRow). c.id == category && c.workspace_id == workspace)
            db.categories)
        ≡ some c)
      × (account ≡ c.ledger_account_id)

  -- A negative amount leaves the statement's account for that of the category for expenses, any other
  -- reaches it from that of the category for income.
  abbrev pub MovesRow : ParsedRow → ℕ → Db → Db → Type 0
  MovesRow row minor db db' =
      (category : Uuid) × (account : Uuid) × HasAccount category account db
      × (((is_negative row.amount ≡ true)
            × (expense_category_id ≡ some category)
            × (balances db'.postings ≡ move account_id account minor (balances db.postings)))
          ⊎ ((is_negative row.amount ≡ false)
              × (income_category_id ≡ some category)
              × (balances db'.postings ≡ move account account_id minor (balances db.postings))))

  abbrev pub RowEffect : Text → ParsedRow → Db → Outcome RowError Uuid × Db → Type 0
  RowEffect currency row db (ok entry, db') =
      (minor : ℕ) × (0 < minor)
      × (decimal_to_minor row.amount currency ≡ ok minor)
      × (MovesRow row minor db db' ⊎ (db' ≡ db))
  RowEffect currency row db (err e, db') = balances db'.postings ≡ balances db.postings
