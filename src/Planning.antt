-- ===== src/Planning.antt =====
-- apps/api/src/planning/planning.service.ts: the errors, and the amounts of a request. The reports and
-- overviews are SQL functions that the service calls and returns.
pub mod Budgets
pub mod Goals
pub mod Tables
pub mod Calendar
pub mod Recurring
pub mod Debts
pub mod Tenants
mod Tests
use noorix_fin.Common.{
  ℕ, ◌≤◌, ◌≡◌, Bool, true, false, Option, none, some, List, [], ◌∷◌, arith, ltb, if◌then◌else◌,
  Bool-cases, inl, inr,
}
use noorix_fin.Common.Text.{Text, value}
use noorix_fin.Common.Outcome.{Outcome, ok, err}
use noorix_fin.Money.Number.{max_safe, round53, round53_exact, round53_unsafe}
use noorix_fin.Ledger.{Uuid}

-- What the database may answer a write with. `no_row` is PostgREST's answer to `.single()` where
-- no row was written.
pub data DbError : Type 0 where
  foreign_key check_constraint no_row other_error : DbError

pub data PlanningError : Type 0 where
  invalid_reference invalid_value write_failed amount_too_large : PlanningError
  not_found empty_patch goal_not_found aggregation_failed : PlanningError

abbrev pub fail : DbError → PlanningError
fail foreign_key = invalid_reference
fail check_constraint = invalid_value
fail no_row = write_failed
fail other_error = write_failed

-- `Number(value)` of a text of digits, which the request's validation leaves
unfoldable pub minor : Text → Outcome PlanningError ℕ
minor t =
    let parsed = round53 (value t) in
    if ltb max_safe parsed then err amount_too_large else ok parsed

-- The amount is taken as it was written, or refused.
pub minor_exact :
    (t : Text) → minor t ≡ (if ltb max_safe (value t) then err amount_too_large else ok (value t))
unfolding minor
minor_exact t = elim (Bool-cases (ltb max_safe (value t))) [
  | inl big ↦ ground (arith, round53_unsafe (value t))
  | inr safe ↦ ground (arith, round53_exact (value t))
]

-- an assertion on the rows that a delete returned
abbrev pub assert_deleted {ℓ} : {A : Type ℓ} → List A → Outcome PlanningError Bool
assert_deleted [] = err not_found
assert_deleted (x ∷ xs) = ok true
