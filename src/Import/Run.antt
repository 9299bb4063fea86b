-- ===== src/Import/Run.antt =====
-- create of apps/api/src/imports/imports.service.ts: one import, from the request to the finished job.
-- The statement comes parsed: `parse_csv` of `Import.Rows` is that for a CSV file. The calls
-- that write to import_jobs and import_rows and whose errors the service ignores may fail, too.
pub mod Staging
pub mod Tally
pub mod Moves
mod Tests
use mathlib.Core.Option
use noorix_fin.Common.{
  ℕ, zero, suc, ◌+◌, ◌*◌, ◌≡◌, Bool, true, false, not, ◌&&◌, ◌||◌, Option, none, some, List, [],
  ◌∷◌, ◌++◌, map, ◌==◌, ltb, if◌then◌else◌, filter, any, single, take, drop, length,
}
use noorix_fin.Common.Text.{Text, codes}
use noorix_fin.Common.Outcome.{Outcome, ok, err}
use noorix_fin.Money.Parse.{show_natural}
use noorix_fin.Ledger.{Uuid, EntryType, expense, income, LedgerError, AccountRow, Db}
use noorix_fin.Ledger.Create.{create_transaction}
use noorix_fin.Ledger.Request.{CreateTransaction, Run, Call, Created, read}
use noorix_fin.Import.Amount.{StatementError, is_negative, decimal_to_minor}
use noorix_fin.Import.Rows.{ParsedRow}
use noorix_fin.Import.Job.{
  Import, ImportError, ImportFaults, ImportRow, Job, JobStatus, Progress, RowError, RowStatus,
  Store, bad_amount, completed, completed_with_errors, failed, failed_row, imported_row,
  invalid_reference, no_category, not_created, not_positive, parse_failed, pending_row, processing,
  refused, stage_failed, too_large, undefined_note,
}

module _ (q : Import) where
  open q use {workspace, user, account_id, idempotency_key, job_id, row_key, run, faults}

  abbrev pub row_type : ParsedRow → EntryType
  row_type row = if is_negative row.amount then expense else income

  abbrev pub row_category : ParsedRow → Option Uuid
  row_category row = if is_negative row.amount then q.expense_category_id else q.income_category_id

  -- the request for the row with this number, counted from 1
  abbrev pub row_call : ℕ → ParsedRow → Uuid → ℕ → Text → Call
  row_call number row category minor note = record {
    hash = q.hash;
    canonical = q.canonical;
    workspace = workspace;
    user = user;
    source = codes "IMPORT";
    run = run number;
    dto = record {
      type = row_type row;
      amount = show_natural minor;
      account_id = account_id;
      category_id = some category;
      transfer_to_account_id = none;
      occurred_at = some row.date;
      payee = some (take 200 row.payee);
      note = some (take 500 note);
      tags = [];
      idempotency_key = row_key job_id number;
    };
  }

  abbrev pub created_row : Outcome LedgerError Created × Db → Outcome RowError Uuid × Db
  created_row (err e, db) = (err (refused e), db)
  created_row (ok c, db) = (ok c.entry.id, db)

  -- `row.note.slice` of an absent note throws
  abbrev pub with_note : ℕ → ParsedRow → Uuid → ℕ → Option Text → Db → Outcome RowError Uuid × Db
  with_note number row category minor none db = (err undefined_note, db)
  with_note number row category minor (some note) db =
      created_row (create_transaction (row_call number row category minor note) db)

  abbrev pub with_minor :
      ℕ → ParsedRow → Uuid → Outcome StatementError ℕ → Db → Outcome RowError Uuid × Db
  with_minor number row category (err e) db = (err (bad_amount e), db)
  with_minor number row category (ok zero) db = (err not_positive, db)
  with_minor number row category (ok (suc n)) db = with_note number row category (suc n) row.note db

  abbrev pub in_category : ℕ → ParsedRow → Text → Option Uuid → Db → Outcome RowError Uuid × Db
  in_category number row currency none db = (err no_category, db)
  in_category number row currency (some category) db =
      with_minor number row category (decimal_to_minor row.amount currency) db

  abbrev pub import_row : Text → ℕ → ParsedRow → Db → Outcome RowError Uuid × Db
  import_row currency number row db = in_category number row currency (row_category row) db

  abbrev pub marked : ℕ → RowStatus → Option Uuid → ImportRow → ImportRow
  marked number status entry r =
      if r.job_id == job_id && r.row_number == number
      then record r { status = status; journal_entry_id = entry }
      else r

  abbrev pub mark : ℕ → RowStatus → Option Uuid → List ImportRow → List ImportRow
  mark number status entry rows =
      if faults.mark_row number then rows else map (marked number status entry) rows

  abbrev pub advance : ℕ → Outcome RowError Uuid × Db → Progress → Progress
  advance number (ok entry, db) p = record p {
    imported = p.imported + 1;
    store = record p.store {
      ledger = db;
      rows = mark number imported_row (some entry) p.store.rows;
    };
  }
  advance number (err e, db) p = record p {
    failed = p.failed + 1;
    store = record p.store { ledger = db; rows = mark number failed_row none p.store.rows };
  }

  abbrev pub import_rows : Text → ℕ → List ParsedRow → Progress → Progress
  import_rows currency number [] p = p
  import_rows currency number (row ∷ rows) p =
      import_rows currency (number + 1) rows
        (advance number (import_row currency number row p.store.ledger) p)

  abbrev pub final_status : ℕ → ℕ → JobStatus
  final_status imported zero = completed
  final_status zero (suc n) = failed
  final_status (suc m) (suc n) = completed_with_errors

  abbrev pub set_job : (Job → Job) → List Job → List Job
  set_job f jobs = map (λ (j : Job). if j.id == job_id then f j else j) jobs

  abbrev pub finished_job : Progress → Job → Job
  finished_job p j = record j {
    status = final_status p.imported p.failed;
    imported_rows = p.imported;
    failed_rows = p.failed;
  }

  -- A failed update gives null.
  abbrev pub complete_job : Progress → Outcome ImportError (Option Job) × Store
  complete_job p =
      if faults.complete
      then (ok none, p.store)
      else let jobs = set_job (finished_job p) p.store.jobs in
        (ok (single (filter (λ (j : Job). j.id == job_id) jobs)), record p.store { jobs = jobs })

  abbrev pub fail_job : Store → Store
  fail_job s =
      if faults.fail_job
      then s
      else record s { jobs = set_job (λ j. record j { status = failed }) s.jobs }

  abbrev pub staged : ℕ → List ParsedRow → List ImportRow
  staged number [] = []
  staged number (row ∷ rows) =
      record {
        job_id = job_id;
        workspace_id = workspace;
        row_number = number;
        payload = row;
        status = pending_row;
        journal_entry_id = none;
      }
      ∷ staged (number + 1) rows

  -- The rows are inserted 500 at a time; `chunks` bounds the number of inserts.
  abbrev pub stage : ℕ → ℕ → List ImportRow → Store → Bool × Store
  stage zero n rows s = (true, s)
  stage (suc chunks) n [] s = (true, s)
  stage (suc chunks) n (r ∷ rows) s =
      let rest =
        stage chunks (n + 1) (drop 500 (r ∷ rows))
          (record s { rows = s.rows ++ take 500 (r ∷ rows) }) in
      if faults.stage n then (false, s) else rest

  abbrev pub with_total : ℕ → Store → Store
  with_total n s =
      if faults.total
      then s
      else record s { jobs = set_job (λ j. record j { total_rows = n }) s.jobs }

  abbrev pub after_stage :
      Text → List ParsedRow → Bool × Store → Outcome ImportError (Option Job) × Store
  after_stage currency rows (false, s) = (err stage_failed, fail_job s)
  after_stage currency rows (true, s) = complete_job (
      import_rows currency 1 rows
        (record { imported = 0; failed = 0; store = with_total (length rows) s }))

  -- no row, or more than 5,000, is an error as well
  abbrev pub parse_ok : Outcome StatementError (List ParsedRow) → Bool
  parse_ok (err e) = false
  parse_ok (ok []) = false
  parse_ok (ok (r ∷ rows)) = not (ltb 5000 (length (r ∷ rows)))

  abbrev pub parsed_rows : Outcome StatementError (List ParsedRow) → List ParsedRow
  parsed_rows (err e) = []
  parsed_rows (ok rows) = rows

  abbrev pub after_job : Text → Store → Outcome ImportError (Option Job) × Store
  after_job currency s =
      let rows = parsed_rows q.parsed in
      if parse_ok q.parsed
      then after_stage currency rows (stage (length rows) 0 (staged 1 rows) s)
      else (err parse_failed, fail_job s)

  abbrev pub is_job : Job → Bool
  is_job j =
      j.workspace_id == workspace && (j.created_by == user && j.idempotency_key == idempotency_key)

  abbrev pub new_job : Job
  new_job = record {
    id = job_id;
    workspace_id = workspace;
    created_by = user;
    idempotency_key = idempotency_key;
    status = processing;
    total_rows = 0;
    imported_rows = 0;
    failed_rows = 0;
  }

  abbrev pub raced : Option Job → Store → Outcome ImportError (Option Job) × Store
  raced none s = (err not_created, s)
  raced (some j) s = (ok (some j), s)

  -- `(workspace, user, key)` is unique in import_jobs: migration 00026
  abbrev pub insert_job : AccountRow → Store → Outcome ImportError (Option Job) × Store
  insert_job account s =
      if faults.insert_job
      then (err not_created, s)
      else if any is_job s.jobs
      then raced (read faults.find_raced (single (filter is_job s.jobs))) s
      else after_job account.currency_code (record s { jobs = s.jobs ++ new_job ∷ [] })

  abbrev pub is_account : AccountRow → Bool
  is_account a = a.id == account_id && (a.workspace_id == workspace && not a.is_deleted)

  abbrev pub with_account : Option AccountRow → Store → Outcome ImportError (Option Job) × Store
  with_account none s = (err invalid_reference, s)
  with_account (some a) s = insert_job a s

  abbrev pub with_existing : Option Job → Store → Outcome ImportError (Option Job) × Store
  with_existing (some j) s = (ok (some j), s)
  with_existing none s =
      with_account (read faults.read_account (single (filter is_account s.ledger.accounts))) s

  unfoldable pub create_import : Store → Outcome ImportError (Option Job) × Store
  create_import s =
      if ltb (5 * 1024 * 1024) q.byte_length
      then (err too_large, s)
      else with_existing (read faults.find_job (single (filter is_job s.jobs))) s
