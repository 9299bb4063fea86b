-- ===== src/Import/Job.antt =====
-- The tables and the requests of apps/api/src/imports/imports.service.ts: import_jobs, import_rows, and
-- what one import takes from outside.
use noorix_fin.Common.{ℕ, Bool, Option, List}
use noorix_fin.Common.Text.{Text}
use noorix_fin.Common.Outcome.{Outcome}
use noorix_fin.Ledger.{Uuid, LedgerError, Db}
use noorix_fin.Ledger.Request.{Run}
use noorix_fin.Import.Amount.{StatementError}
use noorix_fin.Import.Rows.{ParsedRow}

pub data JobStatus : Type 0 where
  processing completed completed_with_errors failed : JobStatus

pub data RowStatus : Type 0 where
  pending_row imported_row failed_row : RowStatus

pub data ImportError : Type 0 where
  too_large invalid_reference not_created parse_failed stage_failed : ImportError

-- why one row failed
pub data RowError : Type 0 where
  no_category undefined_note not_positive : RowError
  bad_amount : StatementError → RowError
  refused : LedgerError → RowError

-- a row of import_jobs and one of import_rows
pub record Job : Type 0 where
  pub id : Uuid
  pub workspace_id : Uuid
  pub created_by : Uuid
  pub idempotency_key : Uuid
  pub status : JobStatus
  pub total_rows : ℕ
  pub imported_rows : ℕ
  pub failed_rows : ℕ

pub record ImportRow : Type 0 where
  pub job_id : Uuid
  pub workspace_id : Uuid
  pub row_number : ℕ
  pub payload : ParsedRow
  pub status : RowStatus
  pub journal_entry_id : Option Uuid

pub record Store : Type 0 where
  pub jobs : List Job
  pub rows : List ImportRow
  pub ledger : Db

pub record ImportFaults : Type 0 where
  pub find_job : Bool
  pub read_account : Bool
  pub insert_job : Bool
  pub find_raced : Bool
  pub stage : ℕ → Bool
  pub fail_job : Bool
  pub total : Bool
  pub mark_row : ℕ → Bool
  pub complete : Bool

-- One request, with what it takes from outside. `row_key` is the key made of the SHA-256 of the job
-- and the row's number, and `byte_length` that of the file.
pub record Import : Type 0 where
  pub workspace : Uuid
  pub user : Uuid
  pub account_id : Uuid
  pub income_category_id : Option Uuid
  pub expense_category_id : Option Uuid
  pub idempotency_key : Uuid
  pub byte_length : ℕ
  pub parsed : Outcome StatementError (List ParsedRow)
  pub job_id : Uuid
  pub hash : Uuid → Uuid → Uuid
  pub canonical : Text → Text
  pub row_key : Uuid → ℕ → Uuid
  pub run : ℕ → Run
  pub faults : ImportFaults

-- the variables of the loop over the rows
pub record Progress : Type 0 where
  pub imported : ℕ
  pub failed : ℕ
  pub store : Store
