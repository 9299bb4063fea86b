-- ===== src/Ledger/Entries/Tests.antt =====
-- Three entries, two of them of the same instant, on which the theorems about the list are applied.
use noorix_fin.Common.{◌≡◌, refl, ◌<◌, inl, true, false, some, none, [], ◌∷◌, Member, ◌==◌}
use noorix_fin.Common.Text.{Text, codes, value}
use noorix_fin.Common.Outcome.{ok, err}
use noorix_fin.Pagination.{Page, to_page}
use noorix_fin.Ledger.{Uuid, EntryRow, Db}
use noorix_fin.Ledger.Create.{new_entry}
use noorix_fin.Ledger.Postings.{money_out}
use noorix_fin.Ledger.Entries.{item, list_transactions, get_transaction}
use noorix_fin.Ledger.Items.{transaction_not_found, ListFaults, ListCall, Item}
use noorix_fin.Ledger.Entries.Pages.{next}
use noorix_fin.Ledger.Entries.Sound.{next_page_older}
use noorix_fin.Ledger.Tests.{lunch_call, one_category, taka}

abbrev no_faults : ListFaults
no_faults = record {
  read_category = false;
  read_matches = false;
  read_tagged = false;
  read_entries = false;
  read_postings = false;
  read_reversals = false;
  read_links = false;
}

abbrev call : ListCall
call = record {
  workspace = 3;
  cursor = none;
  limit = some 1;
  category_id = none;
  tag_id = none;
  time = value;
  locale_sort = λ names. names;
  faults = no_faults;
}

abbrev at : Uuid → Text → EntryRow
at id time = record (new_entry lunch_call) { id = id; occurred_at = time }

abbrev three : Db
three = record one_category {
  entries = at 1 (codes "20240501") ∷ at 2 (codes "20240502") ∷ at 3 (codes "20240502") ∷ [];
  postings = money_out 1 2 1 3 taka 2500 4 5;
}

abbrev first_page : Page Item
first_page = record {
  items = item call three (at 3 (codes "20240502")) ∷ [];
  next_cursor = some (codes "20240502");
  has_more = true;
}

abbrev second_page : Page Item
second_page = record {
  items = item call three (at 1 (codes "20240501")) ∷ [];
  next_cursor = none;
  has_more = false;
}

second_listed : list_transactions (next call (codes "20240502")) three ≡ ok second_page
unfolding list_transactions to_page
second_listed = refl

nothing_found : get_transaction call 4 three ≡ err transaction_not_found
unfolding get_transaction
nothing_found = refl

next_page_older_example :
    Member (at 1 (codes "20240501")) three.entries
    × ((3 == 3) ≡ true)
    × (value (codes "20240501") < value (codes "20240502"))
next_page_older_example =
    next_page_older call (codes "20240502") three second_page (at 1 (codes "20240501")) refl
      second_listed (inl refl)
