-- ===== src/Ledger/Tags.antt =====
-- The tags of apps/api/src/transactions/transactions.service.ts: replaceTransactionTags, listTags,
-- createTag, renameTag and deleteTag. `canonical` is the JavaScript library's
-- `trim().toLocaleLowerCase('en-US')`; the order that the database gives listTags is left out.
pub mod Replace
mod Tests
use noorix_fin.Common.{
  ℕ, suc, ◌+◌, ◌≡◌, Bool, true, false, not, ◌&&◌, Option, none, some, List, [], ◌∷◌, ◌++◌, map,
  ◌==◌, if◌then◌else◌, filter, any, single, length,
}
use noorix_fin.Common.Text.{Text, text_eq, contains}
use noorix_fin.Common.Outcome.{Outcome, ok, err}
use noorix_fin.Ledger.{Uuid, EntryRow, TagRow, TagLink, Db}
use noorix_fin.Ledger.Request.{read, canonical_names, has_tag, upsert_tags}

pub data TagError : Type 0 where
  transaction_not_found links_failed upsert_failed name_missing already_exists : TagError
  tag_not_found create_failed rename_failed delete_failed list_failed : TagError

-- Which calls of one run fail.
pub record TagFaults : Type 0 where
  pub read_entry : Bool
  pub upsert_tags : Bool
  pub read_tags : Bool
  pub delete_links : Bool
  pub insert_links : Bool
  pub write_tag : Bool
  pub read_links : Bool

-- What a call takes from the request and from outside.
pub record TagCall : Type 0 where
  pub canonical : Text → Text
  pub workspace : Uuid
  pub tag_id : Text → Uuid
  pub faults : TagFaults

pub record TagUsage : Type 0 where
  pub tag : TagRow
  pub usage_count : ℕ

module _ (q : TagCall) where
  open q use {canonical, workspace, tag_id, faults}

  abbrev pub is_link_of : Uuid → TagLink → Bool
  is_link_of entry l = l.workspace_id == workspace && l.journal_entry_id == entry

  abbrev pub link_to : Uuid → TagRow → TagLink
  link_to entry t = record { journal_entry_id = entry; workspace_id = workspace; tag_id = t.id }

  -- `.in('name', canonical)`, not sent without names; a failed read gives null
  abbrev pub named_tags : List Text → Db → List TagRow
  named_tags names db =
      if faults.read_tags
      then []
      else filter (λ t. t.workspace_id == workspace && contains names t.name) db.tags

  abbrev pub insert_links : Uuid → List Text → List TagRow → Db → Outcome TagError (List Text) × Db
  insert_links entry names [] db = (ok names, db)
  insert_links entry names (t ∷ ts) db =
      if faults.insert_links
      then (err links_failed, db)
      else (ok names, record db { links = db.links ++ map (link_to entry) (t ∷ ts) })

  abbrev pub unlinked : Uuid → Db → Db
  unlinked entry db = record db { links = filter (λ l. not (is_link_of entry l)) db.links }

  abbrev pub relink : Uuid → List Text → List TagRow → Db → Outcome TagError (List Text) × Db
  relink entry names rows db =
      if faults.delete_links
      then (err links_failed, db)
      else insert_links entry names rows (unlinked entry db)

  abbrev pub with_upserted : List Text → Db → Db
  with_upserted names db = record db { tags = upsert_tags workspace tag_id names db.tags }

  abbrev pub replace_with : Uuid → List Text → Db → Outcome TagError (List Text) × Db
  replace_with entry [] db = relink entry [] [] db
  replace_with entry (n ∷ ns) db =
      if faults.upsert_tags
      then (err upsert_failed, db)
      else let db' = with_upserted (n ∷ ns) db in
        relink entry (n ∷ ns) (named_tags (n ∷ ns) db') db'

  abbrev pub found_entry : Uuid → List EntryRow → Option EntryRow
  found_entry entry es =
      read faults.read_entry
        (single (filter (λ (e : EntryRow). e.id == entry && e.workspace_id == workspace) es))

  abbrev pub for_entry : Option EntryRow → Uuid → List Text → Db → Outcome TagError (List Text) × Db
  for_entry none entry names db = (err transaction_not_found, db)
  for_entry (some e) entry names db = replace_with entry (canonical_names canonical names) db

  unfoldable pub replace_transaction_tags :
      Uuid → List Text → Db → Outcome TagError (List Text) × Db
  replace_transaction_tags entry names db = for_entry (found_entry entry db.entries) entry names db

  -- how many links of the workspace a tag has
  abbrev pub usage : Uuid → List TagLink → ℕ
  usage tag links =
      length (filter (λ (l : TagLink). l.workspace_id == workspace && l.tag_id == tag) links)

  unfoldable pub list_tags : Db → Outcome TagError (List TagUsage)
  list_tags db =
      if faults.read_tags
      then err list_failed
      else ok (
          map
            (λ (t : TagRow). record {
              tag = t;
              usage_count = if faults.read_links then 0 else usage t.id db.links;
            })
            (filter (λ (t : TagRow). t.workspace_id == workspace) db.tags))

  abbrev pub create_named : Text → Db → Outcome TagError TagUsage × Db
  create_named [] db = (err name_missing, db)
  create_named (c ∷ s) db =
      let tag : TagRow = record { id = tag_id (c ∷ s); workspace_id = workspace; name = c ∷ s } in
      if has_tag workspace (c ∷ s) db.tags
      then (err already_exists, db)
      else if faults.write_tag
      then (err create_failed, db)
      else (ok (record { tag = tag; usage_count = 0 }), record db { tags = db.tags ++ tag ∷ [] })

  unfoldable pub create_tag : Text → Db → Outcome TagError TagUsage × Db
  create_tag name db = create_named (canonical name) db

  abbrev pub is_tag : Uuid → TagRow → Bool
  is_tag tag t = t.id == tag && t.workspace_id == workspace

  -- The unique index is checked against the other rows of the workspace.
  abbrev pub is_name_taken : Uuid → Text → List TagRow → Bool
  is_name_taken tag name rows =
      any (λ t. not (t.id == tag) && (t.workspace_id == workspace && text_eq t.name name)) rows

  abbrev pub renamed : Uuid → Text → TagRow → TagRow
  renamed tag name t = if is_tag tag t then record t { name = name } else t

  abbrev pub rename_found : Option TagRow → Uuid → Text → Db → Outcome TagError TagRow × Db
  rename_found none tag name db = (err tag_not_found, db)
  rename_found (some t) tag name db =
      if is_name_taken tag name db.tags
      then (err already_exists, db)
      else (ok (record t { name = name }), record db { tags = map (renamed tag name) db.tags })

  abbrev pub rename_named : Uuid → Text → Db → Outcome TagError TagRow × Db
  rename_named tag [] db = (err name_missing, db)
  rename_named tag (c ∷ s) db =
      if faults.write_tag
      then (err rename_failed, db)
      else rename_found (single (filter (is_tag tag) db.tags)) tag (c ∷ s) db

  unfoldable pub rename_tag : Uuid → Text → Db → Outcome TagError TagRow × Db
  rename_tag tag name db = rename_named tag (canonical name) db

  -- journal_entry_tags cascades on tag_id: migration 00002
  abbrev pub delete_found : List TagRow → Uuid → Db → Outcome TagError Uuid × Db
  delete_found [] tag db = (err tag_not_found, db)
  delete_found (t ∷ ts) tag db = (
    ok tag,
    record db {
      tags = filter (λ t. not (is_tag tag t)) db.tags;
      links = filter (λ (l : TagLink). not (l.tag_id == tag)) db.links;
    },
  )

  unfoldable pub delete_tag : Uuid → Db → Outcome TagError Uuid × Db
  delete_tag tag db =
      if faults.write_tag
      then (err delete_failed, db)
      else delete_found (filter (is_tag tag) db.tags) tag db
