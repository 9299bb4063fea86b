-- ===== src/Ledger/Reverse/Tests.antt =====
-- Reversals of a small ledger, on which the theorems about reverseTransaction are applied.
use noorix_fin.Common.{◌≡◌, refl, false, Option, some, [], ◌∷◌, ◌++◌, map}
use noorix_fin.Common.Text.{codes}
use noorix_fin.Common.Outcome.{ok, err}
use noorix_fin.Ledger.{Db}
use noorix_fin.Ledger.Create.{new_entry}
use noorix_fin.Ledger.Request.{Created}
use noorix_fin.Ledger.Balance.{balances}
use noorix_fin.Ledger.Reverse.{
  ReverseCall, answered, already_reversed, no_postings, reversal_entry, mirror, reverse_transaction,
}
use noorix_fin.Ledger.Reverse.Restores.{IsRestored, reverse-IsRestored}
use noorix_fin.Ledger.Reverse.Again.{reverse_once, create_reverse}
use noorix_fin.Ledger.Tests.{lunch_call, one_category, posted, lunch_created, lunch_posted}

abbrev undo : ReverseCall
undo = record {
  transaction = 9;
  workspace = 3;
  user = 8;
  reversal_id = 29;
  posting_id = λ p. p;
  now = codes "2024-05-02T08:00:00.000Z";
  today = codes "2024-05-02";
  uuid_text = λ u. codes "9";
  rpc = answered;
  read_back = false;
}

abbrev undo_again : ReverseCall
undo_again = record undo { reversal_id = 39 }

abbrev undone : Db
undone = record posted {
  entries = posted.entries ++ reversal_entry undo (new_entry lunch_call) ∷ [];
  postings = posted.postings ++ map (mirror undo) posted.postings;
}

abbrev undo_created : Created
undo_created = record {
  entry = reversal_entry undo (new_entry lunch_call);
  postings = map (mirror undo) posted.postings;
}

lunch_reversed : reverse_transaction undo posted ≡ (ok (some undo_created), undone)
unfolding reverse_transaction
lunch_reversed = refl

orphan_not_reversed :
    reverse_transaction undo (record posted { postings = [] })
    ≡ (err no_postings, record posted { postings = [] })
unfolding reverse_transaction
orphan_not_reversed = refl

reverse-IsRestored_example : IsRestored undo posted (reverse_transaction undo posted)
reverse-IsRestored_example = reverse-IsRestored undo posted

reverse_once_example : reverse_transaction undo_again undone ≡ (err already_reversed, undone)
reverse_once_example =
    reverse_once undo undo_again posted (some undo_created) undone lunch_reversed (refl, refl) refl

create_reverse_example :
    (back : Option Created) × (db'' : Db) × (reverse_transaction undo posted ≡ (ok back, db''))
    × (balances db''.postings ≡ balances one_category.postings)
create_reverse_example =
    create_reverse lunch_call undo (refl, refl) one_category posted lunch_created refl refl refl
      refl lunch_posted refl
