-- ===== src/Import/Run/Tests.antt =====
-- An import of two rows, of which one fails, to which the theorems about imports are applied.
use noorix_fin.Common.{◌+◌, ◌≡◌, refl, false, some, none, [], ◌∷◌}
use noorix_fin.Common.Text.{codes}
use noorix_fin.Common.Outcome.{ok, err}
use noorix_fin.Money.Number.{round53}
use noorix_fin.Money.Parse.{parse_minor_units, show_natural}
use noorix_fin.Ledger.Postings.{build_postings}
use noorix_fin.Ledger.Create.{create_transaction}
use noorix_fin.Import.Amount.{decimal_to_minor}
use noorix_fin.Import.Rows.{ParsedRow}
use noorix_fin.Import.Run.{import_row, create_import}
use noorix_fin.Import.Job.{ImportFaults, Import, Store, undefined_note}
use noorix_fin.Import.Run.Tally.{IsFinished, create_import-IsFinished}
use noorix_fin.Ledger.Tests.{lunch_call, one_category, taka}

abbrev no_faults : ImportFaults
no_faults = record {
  find_job = false;
  read_account = false;
  insert_job = false;
  find_raced = false;
  stage = λ n. false;
  fail_job = false;
  total = false;
  mark_row = λ n. false;
  complete = false;
}

abbrev rent : ParsedRow
rent = record {
  date = codes "2024-05-01T12:00:00.000Z";
  amount = codes "-1250.5";
  payee = codes "Rent";
  note = some [];
}

abbrev no_note : ParsedRow
no_note = record rent { note = none }

abbrev statement : Import
statement = record {
  workspace = 3;
  user = 8;
  account_id = 4;
  income_category_id = none;
  expense_category_id = some 6;
  idempotency_key = 55;
  byte_length = 100;
  parsed = ok (rent ∷ no_note ∷ []);
  job_id = 60;
  hash = λ user key. key;
  canonical = λ t. t;
  row_key = λ job n. 1000 + n;
  run = λ n. record lunch_call.run { entry_id = 200 + n };
  faults = no_faults;
}

abbrev empty_store : Store
empty_store = record { jobs = []; rows = []; ledger = one_category }

-- A row whose record ends before the note's column fails.
note_missing : import_row statement taka 2 no_note one_category ≡ (err undefined_note, one_category)
unfolding decimal_to_minor
note_missing = refl

create_import-IsFinished_example : IsFinished statement 2 1 (create_import statement empty_store)
unfolding decimal_to_minor create_transaction parse_minor_units show_natural round53 build_postings
create_import-IsFinished_example =
    create_import-IsFinished statement empty_store
      (record { id = 4; workspace_id = 3; is_deleted = false; currency_code = taka }) refl refl refl
      refl refl refl refl (λ n. refl) refl
