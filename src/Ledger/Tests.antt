-- ===== src/Ledger/Tests.antt =====
-- A small ledger on which the theorems about transactions.service.ts are applied.
use noorix_fin.Common.{suc, ◌≡◌, refl, ◌≢◌, false, some, none, [], ◌∷◌, arith}
use noorix_fin.Common.Int.{pos}
use noorix_fin.Common.Text.{Text, codes}
use noorix_fin.Common.Outcome.{ok, err}
use noorix_fin.Money.Number.{round53}
use noorix_fin.Money.Parse.{parse_minor_units}
use noorix_fin.Ledger.{Uuid, expense, Db}
use noorix_fin.Ledger.Postings.{
  build_postings, build_postings-balanced, debits_of, credits_of, BelongTo, money_out,
}
use noorix_fin.Ledger.Create.{new_entry, create_transaction}
use noorix_fin.Ledger.Request.{CreateTransaction, Faults, Run, Call, Created}
use noorix_fin.Ledger.Create.Effect.{Effect, create-Effect}
use noorix_fin.Ledger.{category_not_found}
use noorix_fin.Ledger.Create.Written.{row}
use noorix_fin.Ledger.Create.Moves.{Refines, create-Refines}
use noorix_fin.Ledger.Create.Orphan.{create_retry_left}
use noorix_fin.Ledger.Create.Retry.{IsBalanced, create-IsBalanced, again, create_retry}

abbrev pub taka : Text
taka = codes "BDT"

expense_built :
    build_postings 1 2 9 3 taka 2500 4 expense (some 5) none ≡ ok (money_out 1 2 9 3 taka 2500 4 5)
unfolding build_postings
expense_built = refl

build_postings-balanced_example :
    (debits_of 9 (money_out 1 2 9 3 taka 2500 4 5) ≡ 2500)
    × (credits_of 9 (money_out 1 2 9 3 taka 2500 4 5) ≡ 2500)
    × BelongTo 9 3 taka (money_out 1 2 9 3 taka 2500 4 5)
build_postings-balanced_example =
    build_postings-balanced 1 2 9 3 taka 2500 4 expense (some 5) none
      (money_out 1 2 9 3 taka 2500 4 5) expense_built

accounts_differ : (a b : Uuid) → suc a ≡ b → a ≢ b
accounts_differ a b h e = ground arith

abbrev no_faults : Faults
no_faults = record {
  find_existing = false;
  insert_entry = false;
  find_winner = false;
  read_postings = false;
  read_account = false;
  read_category = false;
  insert_postings = false;
  delete_entry = false;
  upsert_tags = false;
  read_tags = false;
  link_tags = false;
}

abbrev first_run : Run
first_run = record {
  now = codes "2024-05-01T10:00:00.000Z";
  entry_id = 9;
  first_posting_id = 1;
  second_posting_id = 2;
  tag_id = λ t. 7;
  faults = no_faults;
}

abbrev second_run : Run
second_run = record first_run { entry_id = 19; first_posting_id = 11; second_posting_id = 12 }

abbrev pub lunch : CreateTransaction
lunch = record {
  type = expense;
  amount = codes "2500";
  account_id = 4;
  category_id = some 6;
  transfer_to_account_id = none;
  occurred_at = none;
  payee = some (codes "Cafe");
  note = none;
  tags = [];
  idempotency_key = 77;
}

abbrev pub lunch_call : Call
lunch_call = record {
  hash = λ user key. key;
  canonical = λ t. t;
  workspace = 3;
  user = 8;
  source = codes "MANUAL";
  run = first_run;
  dto = lunch;
}

abbrev pub one_category : Db
one_category = record {
  entries = [];
  postings = [];
  categories = record { id = 6; workspace_id = 3; ledger_account_id = 5 } ∷ [];
  accounts = record { id = 4; workspace_id = 3; is_deleted = false; currency_code = taka } ∷ [];
  tags = [];
  links = [];
}

abbrev pub posted : Db
posted = record one_category {
  entries = new_entry lunch_call ∷ [];
  postings = money_out 1 2 9 3 taka 2500 4 5;
}

abbrev pub lunch_created : Created
lunch_created = record { entry = new_entry lunch_call; postings = money_out 1 2 9 3 taka 2500 4 5 }

pub lunch_amount : parse_minor_units lunch.amount ≡ ok (pos 2500)
unfolding parse_minor_units round53
lunch_amount = refl

pub lunch_posted : create_transaction lunch_call one_category ≡ (ok lunch_created, posted)
unfolding create_transaction build_postings parse_minor_units round53
lunch_posted = refl

create-Effect_example :
    Effect lunch_call 2500 one_category (create_transaction lunch_call one_category)
create-Effect_example = create-Effect lunch_call 2499 one_category lunch_amount

empty-IsBalanced : IsBalanced one_category
empty-IsBalanced e = refl

create-IsBalanced_example : IsBalanced (create_transaction lunch_call one_category).1
create-IsBalanced_example = create-IsBalanced lunch_call one_category empty-IsBalanced

create_retry_example :
    create_transaction (again lunch_call second_run) posted ≡ (ok lunch_created, posted)
create_retry_example =
    create_retry lunch_call second_run one_category posted lunch_created refl refl lunch_posted refl
      refl

abbrev no_category : Db
no_category = record one_category { categories = [] }

abbrev left_over : Db
left_over = record no_category { entries = new_entry lunch_call ∷ [] }

lunch_refused : create_transaction lunch_call no_category ≡ (err category_not_found, left_over)
unfolding create_transaction build_postings parse_minor_units round53
lunch_refused = refl

create_retry_left_example :
    create_transaction (again lunch_call second_run) left_over
    ≡ (ok (record { entry = row lunch_call; postings = [] }), left_over)
create_retry_left_example =
    create_retry_left lunch_call second_run no_category left_over category_not_found refl refl
      lunch_refused refl refl refl

create-Refines_example :
    Refines lunch_call 2500 one_category (create_transaction lunch_call one_category)
create-Refines_example = create-Refines lunch_call 2499 one_category lunch_amount
