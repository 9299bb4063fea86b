-- ===== src/Ledger/Create/Written.antt =====
-- What createTransaction does to the ledger once the journal entry is written.
use noorix_fin.Common.{
  ℕ, ap, ◌&&◌, ◌≡◌, refl, Bool, true, false, not, Option, some, none, List, [], ◌∷◌, ◌++◌, arith,
  ◌==◌, if◌then◌else◌, filter, all, All, if-elim, All-map,
}
use noorix_fin.Common.Text.{Text}
use noorix_fin.Common.Outcome.{Outcome, ok, err}
use noorix_fin.Ledger.{
  Uuid, EntryType, expense, income, transfer, other, LedgerError, create_failed, postings_failed,
  invalid_amount, category_not_found, category_required, destination_required, invalid_type,
  PostingRow, EntryRow, CategoryRow, TagRow, Db,
}
use noorix_fin.Ledger.Postings.{build_postings, build_postings-balanced, debits_of, credits_of}
use noorix_fin.Ledger.Create.{
  may_delete_entry, delete_entry, new_entry, link_tags, write_tags, tagged, write_postings,
  currency_of, with_category, resolved, after_insert,
}
use noorix_fin.Ledger.Request.{Call, Created}

-- The errors that are thrown when the entry is written and its postings are not: the entry stays.
abbrev pub leaves_entry : LedgerError → Bool
leaves_entry category_not_found = true
leaves_entry category_required = true
leaves_entry destination_required = true
leaves_entry invalid_type = true
leaves_entry postings_failed = true
leaves_entry create_failed = false
leaves_entry invalid_amount = false

leaves_entry-build_postings :
    (u v entry workspace : Uuid) (currency : Text) (amount : ℕ) (account : Uuid) (type : EntryType)
    (category_account transfer_to : Option Uuid) (e : LedgerError)
    → build_postings u v entry workspace currency amount account type category_account transfer_to
      ≡ err e
    → leaves_entry e ≡ true
unfolding build_postings
leaves_entry-build_postings u v e w c n a expense none t x h = ground arith
leaves_entry-build_postings u v e w c n a income none t x h = ground arith
leaves_entry-build_postings u v e w c n a transfer k none x h = ground arith
leaves_entry-build_postings u v e w c n a (other s) k t x h = ground arith
leaves_entry-build_postings u v e w c n a type k t x h = absurd (cc)

module _ (q : Call) where
  open q use {hash, user, run, dto}

  abbrev pub row : EntryRow
  row = new_entry q

  abbrev pub with_row : Db → Db
  with_row db = record db { entries = db.entries ++ row ∷ [] }

  -- A balanced entry of the amount was added, with its postings, and nothing else to the ledger.
  abbrev pub Adds : ℕ → Db → Created → Db → Type 0
  Adds amount db c db' =
      (c.entry ≡ row)
      × (db'.entries ≡ db.entries ++ row ∷ [])
      × (db'.postings ≡ db.postings ++ c.postings)
      × All (λ p. p.journal_entry_id ≡ run.entry_id) c.postings
      × (debits_of run.entry_id c.postings ≡ amount)
      × (credits_of run.entry_id c.postings ≡ amount)

  -- What the run may do once the entry is written.
  abbrev pub Rest : ℕ → Db → Outcome LedgerError Created × Db → Type 0
  Rest amount db (ok c, db') = Adds amount db c db'
  Rest amount db (err e, db') = db' ≡ (if leaves_entry e then with_row db else db)

  -- Tags are outside the ledger.
  link_tags-ledger :
      (ts : List TagRow) (db : Db)
      → ((link_tags q ts db).entries ≡ db.entries) × ((link_tags q ts db).postings ≡ db.postings)
  unfolding link_tags
  link_tags-ledger [] db = (refl, refl)
  link_tags-ledger (t ∷ ts) db = ground arith

  pub tagged-ledger :
      (names : List Text) (db : Db)
      → ((tagged q names db).entries ≡ db.entries) × ((tagged q names db).postings ≡ db.postings)
  unfolding tagged write_tags
  tagged-ledger [] db = (refl, refl)
  tagged-ledger (t ∷ ts) db = link_tags-ledger _ _

  -- What buildPostings may hand over: balanced postings, or an error that leaves the entry.
  abbrev Built : ℕ → Outcome LedgerError (List PostingRow) → Type 0
  Built amount (err e) = leaves_entry e ≡ true
  Built amount (ok ps) =
      All (λ p. p.journal_entry_id ≡ run.entry_id) ps
      × (debits_of run.entry_id ps ≡ amount)
      × (credits_of run.entry_id ps ≡ amount)

  -- No entry has the id of the new one.
  abbrev pub IsFresh : Db → Type 0
  IsFresh db = all (λ (e : EntryRow). not (e.id == run.entry_id)) db.entries ≡ true

  delete_entry-nothing : (db : Db) → delete_entry q db ≡ db
  delete_entry-nothing db = ap (λ es. record db { entries = es }) (kept db.entries)
    where
      kept :
          (es : List EntryRow)
          → filter (λ e. not (may_delete_entry q e && e.id == run.entry_id)) es ≡ es
      kept [] = refl
      kept (e ∷ es) = ap (λ l. e ∷ l) (kept es)

  write_postings-Rest :
      (amount : ℕ) (r : Outcome LedgerError (List PostingRow)) (db : Db)
      → Built amount r
      → Rest amount db (write_postings q r (with_row db))
  unfolding write_postings
  write_postings-Rest amount (err e) db stays = rw stays
  write_postings-Rest amount (ok ps) db balanced =
      if-elim (Rest amount db) run.faults.insert_postings
        (λ _.
          if-elim (λ (d : Db). d ≡ with_row db) run.faults.delete_entry (λ _. refl)
            (λ _. delete_entry-nothing (with_row db)))
        (λ _.
          let saved = record (with_row db) { postings = db.postings ++ ps } in
          let (entries, postings) = tagged-ledger dto.tags saved in
          (refl, entries, postings, balanced.0, balanced.1, balanced.2))

  build_postings-Built :
      (workspace : Uuid) (currency : Text) (amount : ℕ) (category_account : Option Uuid)
      → Built amount (
          build_postings run.first_posting_id run.second_posting_id run.entry_id workspace currency
            amount dto.account_id dto.type category_account dto.transfer_to_account_id)
  build_postings-Built w c n k = go _ refl
    where
      built : Outcome LedgerError (List PostingRow)
      built =
          build_postings run.first_posting_id run.second_posting_id run.entry_id w c n
            dto.account_id dto.type k dto.transfer_to_account_id

      go : (r : Outcome LedgerError (List PostingRow)) → built ≡ r → Built n r
      go (err e) h =
          leaves_entry-build_postings run.first_posting_id run.second_posting_id run.entry_id w c n
            dto.account_id dto.type k dto.transfer_to_account_id e h
      go (ok ps) h =
          let balanced =
            build_postings-balanced run.first_posting_id run.second_posting_id run.entry_id w c n
              dto.account_id dto.type k dto.transfer_to_account_id ps h in
          (All-map (λ p belongs. belongs.0) ps balanced.2, balanced.0, balanced.1)

  with_category-Rest :
      (amount : ℕ) (category_account : Option Uuid) (db : Db)
      → Rest amount db (with_category q amount category_account (with_row db))
  unfolding with_category
  with_category-Rest amount k db =
      write_postings-Rest amount _ db
        (build_postings-Built q.workspace (currency_of q (with_row db)) amount k)

  resolved-Rest :
      (amount : ℕ) (c : Option CategoryRow) (db : Db)
      → Rest amount db (resolved q amount c (with_row db))
  unfolding resolved
  resolved-Rest amount none db = refl
  resolved-Rest amount (some c) db = with_category-Rest amount (some c.ledger_account_id) db

  pub after_insert-Rest :
      (amount : ℕ) (category : Option Uuid) (db : Db)
      → Rest amount db (after_insert q amount category (with_row db))
  unfolding after_insert
  after_insert-Rest amount none db = with_category-Rest amount none db
  after_insert-Rest amount (some c) db = resolved-Rest amount _ db
