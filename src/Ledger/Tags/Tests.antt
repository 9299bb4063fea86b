-- ===== src/Ledger/Tags/Tests.antt =====
-- A ledger with two tags, on which the theorems about tags are applied.
use noorix_fin.Common.{◌≡◌, refl, true, false, [], ◌∷◌}
use noorix_fin.Common.Text.{codes}
use noorix_fin.Common.Outcome.{ok, err}
use noorix_fin.Ledger.{TagRow, Db}
use noorix_fin.Ledger.Create.{new_entry}
use noorix_fin.Ledger.Request.{canonical_names, upsert_tags}
use noorix_fin.Ledger.Tags.{
  TagFaults, TagCall, already_exists, replace_transaction_tags, list_tags, create_tag, rename_tag,
  delete_tag,
}
use noorix_fin.Ledger.Tags.Replace.{ReplaceEffect, replace-Effect, replace_drops, own_links}
use noorix_fin.Ledger.Tests.{lunch_call, posted}

abbrev no_faults : TagFaults
no_faults = record {
  read_entry = false;
  upsert_tags = false;
  read_tags = false;
  delete_links = false;
  insert_links = false;
  write_tag = false;
  read_links = false;
}

abbrev call : TagCall
call = record { canonical = λ t. t; workspace = 3; tag_id = λ t. 7; faults = no_faults }

abbrev food : TagRow
food = record { id = 5; workspace_id = 3; name = codes "food" }

abbrev home : TagRow
home = record { id = 7; workspace_id = 3; name = codes "home" }

abbrev tagged : Db
tagged = record posted {
  tags = food ∷ [];
  links = record { journal_entry_id = 9; workspace_id = 3; tag_id = 5 } ∷ [];
}

abbrev retagged : Db
retagged = record posted {
  tags = food ∷ home ∷ [];
  links = record { journal_entry_id = 9; workspace_id = 3; tag_id = 7 } ∷ [];
}

lunch_retagged :
    replace_transaction_tags call 9 (codes "home" ∷ []) tagged ≡ (ok (codes "home" ∷ []), retagged)
unfolding replace_transaction_tags upsert_tags
lunch_retagged = refl

food_twice : create_tag call (codes "food") tagged ≡ (err already_exists, tagged)
unfolding create_tag
food_twice = refl

home_renamed : rename_tag call 7 (codes "food") retagged ≡ (err already_exists, retagged)
unfolding rename_tag
home_renamed = refl

home_deleted : delete_tag call 7 retagged ≡ (ok 7, record posted { tags = food ∷ []; links = [] })
unfolding delete_tag
home_deleted = refl

tags_listed :
    list_tags call retagged
    ≡ ok (record { tag = food; usage_count = 0 } ∷ record { tag = home; usage_count = 1 } ∷ [])
unfolding list_tags
tags_listed = refl

replace-Effect_example :
    ReplaceEffect call 9
      (canonical_names (λ t. t) (codes "home" ∷ []))
      tagged
      (replace_transaction_tags call 9 (codes "home" ∷ []) tagged)
replace-Effect_example = replace-Effect call 9 (codes "home" ∷ []) tagged

abbrev blind : TagCall
blind = record call { faults = record no_faults { read_tags = true } }

replace_drops_example :
    (db' : Db) × (replace_transaction_tags blind 9 (codes "home" ∷ []) tagged
      ≡ (ok (canonical_names (λ t. t) (codes "home" ∷ [])), db'))
    × (own_links blind 9 db' ≡ [])
replace_drops_example =
    replace_drops blind 9 (codes "home" ∷ []) tagged (new_entry lunch_call) refl refl refl refl
