-- ===== src/Ledger/Entries.antt =====
-- listTransactions and getTransaction of apps/api/src/transactions/transactions.service.ts.
-- `time` is the instant that the database reads in a timestamp, and `locale_sort` the JavaScript
-- library's sort with localeCompare. What an item shows is in `Ledger.Items`.
pub mod Amounts
pub mod Order
pub mod Pages
pub mod Sound
mod Tests
use noorix_fin.Common.{
  ℕ, zero, suc, ◌+◌, ◌/◌, ◌≡◌, Bool, true, false, not, ◌&&◌, ◌||◌, Option, none, some, List, [],
  ◌∷◌, ◌++◌, map, ◌==◌, ltb, if◌then◌else◌, filter, any, find?, single, take,
}
use mathlib.Core.Option
use noorix_fin.Common.Text.{Text}
use noorix_fin.Common.Outcome.{Outcome, ok, err, then_call}
use noorix_fin.Pagination.{Page, to_page}
use noorix_fin.Ledger.{Uuid, PostingRow, EntryRow, CategoryRow, TagRow, TagLink, Db}
use noorix_fin.Ledger.Request.{read, truthy, postings_of, found_is}
use noorix_fin.Ledger.Items.{
  Detail, Item, ListCall, ListError, ListFaults, amount_of, category_not_found, distinct_ids,
  distinct_ids_after, first_currency, found_rows, has_id, intersect, is_some, link_names,
  list_failed, named, no_page, page_limit, passes, total_of, transaction_not_found, unless_empty,
}

module _ (q : ListCall) where
  open q use {workspace, cursor, limit, category_id, tag_id, time, locale_sort, faults}

  -- `order('occurred_at', desc).order('id', desc)`
  abbrev pub is_before : EntryRow → EntryRow → Bool
  is_before d e =
      ltb (time e.occurred_at) (time d.occurred_at)
      || (time e.occurred_at == time d.occurred_at && ltb e.id d.id)

  abbrev pub insert_row : EntryRow → List EntryRow → List EntryRow
  insert_row d [] = d ∷ []
  insert_row d (e ∷ es) =
      let rest = insert_row d es in if is_before d e then d ∷ e ∷ es else e ∷ rest

  abbrev pub newest_first : List EntryRow → List EntryRow
  newest_first [] = []
  newest_first (e ∷ es) = insert_row e (newest_first es)

  abbrev pub category_entries : Option CategoryRow → Db → Outcome ListError (Option (List Uuid))
  category_entries none db = err category_not_found
  category_entries (some c) db = ok (
      some (
        distinct_ids (
          map (λ (p : PostingRow). p.journal_entry_id)
            (found_rows faults.read_matches (
              filter
                (λ (p : PostingRow).
                  p.workspace_id == workspace && p.ledger_account_id == c.ledger_account_id)
                db.postings)))))

  abbrev pub category_ids : Option Uuid → Db → Outcome ListError (Option (List Uuid))
  category_ids none db = ok none
  category_ids (some category) db =
      category_entries
        (read faults.read_category (
          single (
            filter (λ (c : CategoryRow). c.id == category && c.workspace_id == workspace)
              db.categories)))
        db

  abbrev pub tagged_ids : Uuid → Db → List Uuid
  tagged_ids tag db = distinct_ids (
      map (λ (l : TagLink). l.journal_entry_id)
        (found_rows faults.read_tagged
          (filter (λ (l : TagLink). l.workspace_id == workspace && l.tag_id == tag) db.links)))

  abbrev pub narrowed : Option Uuid → Db → Option (List Uuid) → Option (List Uuid)
  narrowed none db ids = ids
  narrowed (some tag) db ids = some (intersect ids (tagged_ids tag db))

  abbrev pub is_older : Option Text → EntryRow → Bool
  is_older none e = true
  is_older (some c) e = ltb (time e.occurred_at) (time c)

  abbrev pub matches : Option (List Uuid) → EntryRow → Bool
  matches ids e = e.workspace_id == workspace && (passes ids e.id && is_older (truthy cursor) e)

  abbrev pub page_rows : Option (List Uuid) → Db → List EntryRow
  page_rows ids db = take (page_limit limit + 1) (newest_first (filter (matches ids) db.entries))

  -- An entry that one of the workspace reverses.
  abbrev pub has_reversal : Uuid → Db → Bool
  has_reversal entry db =
      any (λ (e : EntryRow). e.workspace_id == workspace && found_is e.reverses_entry_id entry)
        (found_rows faults.read_reversals db.entries)

  abbrev pub tags_of : Uuid → Db → List Text
  tags_of entry db = locale_sort (
      link_names db.tags (
        found_rows faults.read_links (
          filter (λ (l : TagLink). l.workspace_id == workspace && l.journal_entry_id == entry)
            db.links)))

  abbrev pub item : Db → EntryRow → Item
  item db e =
      let own = postings_of e.id db.postings in
      record {
        entry = e;
        amount_minor = amount_of own;
        currency_code = first_currency own;
        ledger_account_ids = map (λ (p : PostingRow). p.ledger_account_id) own;
        reversed = has_reversal e.id db;
        tags = tags_of e.id db;
      }

  abbrev pub query : Option (List Uuid) → Db → Outcome ListError (Page Item)
  query ids db =
      if faults.read_entries
      then err list_failed
      else ok (
          to_page (λ (i : Item). i.entry.occurred_at) (map (item db) (page_rows ids db))
            (page_limit limit))

  abbrev pub list_with : Db → Option (List Uuid) → Outcome ListError (Page Item)
  list_with db ids =
      unless_empty (λ ids. unless_empty (λ ids. query ids db) (narrowed tag_id db ids)) ids

  -- the ids that the filters leave, or none where nothing is filtered
  abbrev pub filter_of : Db → Outcome ListError (Option (List Uuid))
  filter_of db = then_call (λ ids. ok (narrowed tag_id db ids)) (category_ids category_id db)

  unfoldable pub list_transactions : Db → Outcome ListError (Page Item)
  list_transactions db = then_call (list_with db) (category_ids category_id db)

  abbrev pub detail : Option EntryRow → Uuid → Db → Outcome ListError Detail
  detail none entry db = err transaction_not_found
  detail (some e) entry db = ok (record {
    entry = e;
    postings = found_rows faults.read_postings (postings_of entry db.postings);
    reversed = is_some (
        read faults.read_reversals (
          single (
            filter
              (λ (e : EntryRow). e.workspace_id == workspace && found_is e.reverses_entry_id entry)
              db.entries)));
    tags = tags_of entry db;
  })

  unfoldable pub get_transaction : Uuid → Db → Outcome ListError Detail
  get_transaction entry db =
      detail
        (read faults.read_entries (
          single
            (filter (λ (e : EntryRow). e.id == entry && e.workspace_id == workspace) db.entries)))
        entry db
