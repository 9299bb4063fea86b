-- ===== src/Ledger/Create.antt =====
-- createTransaction of apps/api/src/transactions/transactions.service.ts.
-- Each PostgREST call either fails, as `Faults` says, or does what its table says; a failed read
-- returns no data. The service awaits them one by one, and the state is threaded through. The
-- notification rules that run at the end neither fail the call nor write to these tables.
pub mod Effect
pub mod Written
pub mod Retry
pub mod Orphan
pub mod Moves
use noorix_fin.Common.{
  ℕ, zero, suc, ◌+◌, ◌≡◌, refl, Bool, true, false, not, ◌&&◌, ◌||◌, Option, some, none, List, [],
  ◌∷◌, ◌++◌, map, ◌==◌, ltb, if◌then◌else◌, filter, any, single,
}
use mathlib.Core.Option
use noorix_fin.Common.Int.{ℤ, pos, negsuc}
use noorix_fin.Common.Text.{Text, codes, text_eq, contains, distinct}
use noorix_fin.Common.Outcome.{Outcome, ok, err}
use noorix_fin.Money.Parse.{AmountError, parse_minor_units}
use noorix_fin.Ledger.{
  Uuid, EntryType, LedgerError, create_failed, postings_failed, invalid_amount, category_not_found,
  PostingRow, EntryRow, CategoryRow, AccountRow, TagRow, TagLink, Db,
}
use noorix_fin.Ledger.Postings.{build_postings}
use noorix_fin.Ledger.Request.{
  Call, CreateTransaction, Created, Faults, Run, canonical_names, date_part, found_is, has_tag,
  is_taken, non_empty, or_else, postings_of, read, truthy, upsert_tags,
}

module _ (q : Call) where
  open q use {hash, canonical, workspace, user, source, run, dto}

  abbrev pub key_hash : Uuid
  key_hash = hash user dto.idempotency_key

  abbrev pub new_entry : EntryRow
  new_entry =
      let occurred = or_else dto.occurred_at run.now in
      record {
        id = run.entry_id;
        workspace_id = workspace;
        entry_type = dto.type;
        occurred_at = occurred;
        local_date = date_part occurred;
        payee = truthy dto.payee;
        note = truthy dto.note;
        status = codes "POSTED";
        source = source;
        reverses_entry_id = none;
        client_entry_id = dto.idempotency_key;
        idempotency_key_hash = some key_hash;
        created_by = user;
        posted_at = run.now;
      }

  link_tags : List TagRow → Db → Db
  link_tags [] db = db
  link_tags (t ∷ ts) db = if run.faults.link_tags then db else record db {
    links =
        db.links
        ++ map
            (λ (r : TagRow). record {
              journal_entry_id = run.entry_id;
              workspace_id = workspace;
              tag_id = r.id;
            })
            (t ∷ ts);
  }

  write_tags : Db → Db
  write_tags db =
      let names = canonical_names canonical dto.tags in
      let rows =
        if run.faults.upsert_tags
        then db.tags
        else upsert_tags workspace run.tag_id names db.tags in
      let found =
        if run.faults.read_tags
        then []
        else filter (λ t. t.workspace_id == workspace && contains names t.name) rows in
      link_tags found (record db { tags = rows })

  -- `if (dto.tags && dto.tags.length > 0)`
  pub tagged : List Text → Db → Db
  tagged [] db = db
  tagged (t ∷ ts) db = write_tags db

  -- The clean-up. No migration has a policy that lets a user delete rows of journal_entries, so
  -- row-level security hides them all from a DELETE, which then succeeds.
  abbrev pub may_delete_entry : EntryRow → Bool
  may_delete_entry e = false

  abbrev pub delete_entry : Db → Db
  delete_entry db = record db {
    entries = filter (λ e. not (may_delete_entry e && e.id == run.entry_id)) db.entries;
  }

  write_postings : Outcome LedgerError (List PostingRow) → Db → Outcome LedgerError Created × Db
  write_postings (err e) db = (err e, db)
  write_postings (ok ps) db =
      if run.faults.insert_postings
      then (err postings_failed, if run.faults.delete_entry then db else delete_entry db)
      else (
        ok (record { entry = new_entry; postings = ps }),
        tagged dto.tags (record db { postings = db.postings ++ ps }),
      )

  currency_of : Db → Text
  currency_of db =
      or_else
        (Option.map (λ (a : AccountRow). a.currency_code)
          (read run.faults.read_account
            (single (filter (λ a. a.id == dto.account_id) db.accounts))))
        (codes "BDT")

  with_category : ℕ → Option Uuid → Db → Outcome LedgerError Created × Db
  with_category amount category_account db =
      write_postings
        (build_postings run.first_posting_id run.second_posting_id run.entry_id workspace
          (currency_of db) amount dto.account_id dto.type category_account
          dto.transfer_to_account_id)
        db

  resolved : ℕ → Option CategoryRow → Db → Outcome LedgerError Created × Db
  resolved amount none db = (err category_not_found, db)
  resolved amount (some c) db = with_category amount (some c.ledger_account_id) db

  -- `resolveLedgerAccountId` of categories.service.ts, where the request names a category
  pub after_insert : ℕ → Option Uuid → Db → Outcome LedgerError Created × Db
  after_insert amount none db = with_category amount none db
  after_insert amount (some category) db =
      resolved amount
        (read run.faults.read_category
          (single (filter (λ c. c.id == category && c.workspace_id == workspace) db.categories)))
        db

  already : Option EntryRow → Db → Outcome LedgerError Created × Db
  already none db = (err create_failed, db)
  already (some e) db = (
    ok (record {
      entry = e;
      postings = if run.faults.read_postings then [] else postings_of e.id db.postings;
    }),
    db,
  )

  -- the primary key, a violation of which has the code 23505 as well
  abbrev pub is_id_taken : List EntryRow → Bool
  is_id_taken es = any (λ (e : EntryRow). e.id == run.entry_id) es

  insert_entry : ℕ → Db → Outcome LedgerError Created × Db
  insert_entry amount db =
      if run.faults.insert_entry
      then (err create_failed, db)
      else if is_taken user key_hash db.entries || is_id_taken db.entries
      then already
          (read run.faults.find_winner (
            single (
              filter (λ e. e.created_by == user && found_is e.idempotency_key_hash key_hash)
                db.entries)))
          db
      else after_insert amount dto.category_id
          (record db { entries = db.entries ++ new_entry ∷ [] })

  find_existing : Db → Option EntryRow
  find_existing db = read run.faults.find_existing (
      single (
        filter
          (λ e.
            e.workspace_id == workspace
            && (e.created_by == user && e.client_entry_id == dto.idempotency_key))
          db.entries))

  once : ℕ → Option EntryRow → Db → Outcome LedgerError Created × Db
  once amount none db = insert_entry amount db
  once amount (some e) db = already (some e) db

  with_amount : Outcome AmountError ℤ → Db → Outcome LedgerError Created × Db
  with_amount (err e) db = (err invalid_amount, db)
  with_amount (ok (negsuc n)) db = (err invalid_amount, db)
  with_amount (ok (pos zero)) db = (err invalid_amount, db)
  with_amount (ok (pos (suc n))) db = once (suc n) (find_existing db) db

  unfoldable pub create_transaction : Db → Outcome LedgerError Created × Db
  unfolding with_amount once find_existing insert_entry already after_insert resolved with_category
      currency_of write_postings tagged write_tags link_tags upsert_tags
  create_transaction db = with_amount (parse_minor_units dto.amount) db
