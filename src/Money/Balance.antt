-- ===== src/Money/Balance.antt =====
-- validateBalance of packages/money/src/index.ts.
pub mod Exact
use noorix_fin.Common.{
  ◌+◌, ◌≤◌, ◌≡◌, Bool, ◌&&◌, ◌||◌, Option, some, none, List, [], ◌∷◌, ltb, ◌==◌, if◌then◌else◌,
}
use noorix_fin.Common.Int.{ℤ, pos, pos_part, neg_part, ltb_ℤ, eqb_ℤ}
use noorix_fin.Common.Outcome.{Outcome, ok, err}
use noorix_fin.Money.Number.{js_add}

pub record Posting : Type 0 where
  pub debit_minor : ℤ
  pub credit_minor : ℤ

pub record Balance : Type 0 where
  pub balanced : Bool
  pub total_debit : ℤ
  pub total_credit : ℤ

pub data BalanceError : Type 0 where
  negative both_positive both_zero : BalanceError

-- the three checks on one posting
posting_fault : Posting → Option BalanceError
posting_fault p =
    if ltb_ℤ p.debit_minor (pos 0) || ltb_ℤ p.credit_minor (pos 0)
    then some negative
    else if ltb_ℤ (pos 0) p.debit_minor && ltb_ℤ (pos 0) p.credit_minor
    then some both_positive
    else if eqb_ℤ p.debit_minor (pos 0) && eqb_ℤ p.credit_minor (pos 0)
    then some both_zero
    else none

-- the loop, over the two running totals
validate_from : ℤ → ℤ → List Posting → Outcome BalanceError Balance
validate_from debit credit [] =
    ok (record { balanced = eqb_ℤ debit credit; total_debit = debit; total_credit = credit })
validate_from debit credit (p ∷ ps) =
    let rest = validate_from (js_add debit p.debit_minor) (js_add credit p.credit_minor) ps in
    elim (posting_fault p) [ some fault ↦ err fault | none ↦ rest ]

unfoldable pub validate_balance : List Posting → Outcome BalanceError Balance
unfolding validate_from posting_fault js_add
validate_balance postings = validate_from (pos 0) (pos 0) postings
