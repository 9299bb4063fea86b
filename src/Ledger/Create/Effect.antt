-- ===== src/Ledger/Create/Effect.antt =====
-- What one run of createTransaction does to the ledger, on every branch.
use noorix_fin.Common.{
  ℕ, zero, suc, ◌≡◌, refl, ◌⊎◌, inl, inr, Bool, true, false, ◌&&◌, ◌||◌, Option, some, none, [],
  arith, ◌==◌, if◌then◌else◌, filter, any, single, if-elim, single-filter, any_of_single,
}
use noorix_fin.Common.Int.{ℤ, pos, negsuc}
use noorix_fin.Common.Outcome.{Outcome, ok, err}
use noorix_fin.Money.Parse.{AmountError, parse_minor_units}
use noorix_fin.Ledger.{LedgerError, invalid_amount, EntryRow, Db}
use noorix_fin.Ledger.Create.{
  is_id_taken, key_hash, already, insert_entry, find_existing, once, with_amount,
  create_transaction,
}
use noorix_fin.Ledger.Request.{Call, read, postings_of, Created, found_is, is_taken}
use noorix_fin.Ledger.Create.Written.{leaves_entry, with_row, Adds, Rest, after_insert-Rest}

module _ (q : Call) where
  open q use {hash, user, run, dto}

  -- The entry found belongs to the same user and has the same key, or its hash.
  abbrev pub is_same_request : EntryRow → Bool
  is_same_request e =
      e.created_by == user
      && (e.client_entry_id == dto.idempotency_key
          || found_is e.idempotency_key_hash (hash user dto.idempotency_key))

  abbrev pub Replays : Db → Created → Db → Type 0
  Replays db c db' =
      (db' ≡ db)
      × (is_same_request c.entry ≡ true)
      × (any is_same_request db.entries ≡ true)
      × (c.postings ≡ (if run.faults.read_postings then [] else postings_of c.entry.id db.postings))

  abbrev pub Effect : ℕ → Db → Outcome LedgerError Created × Db → Type 0
  Effect amount db (ok c, db') = Adds q amount db c db' ⊎ Replays db c db'
  Effect amount db (err e, db') = db' ≡ (if leaves_entry e then with_row q db else db)

  abbrev IsKnown : Db → EntryRow → Type 0
  IsKnown db e = (is_same_request e ≡ true) × (any is_same_request db.entries ≡ true)

  already-Effect :
      (amount : ℕ) (found : Option EntryRow) (db : Db)
      → ((e : EntryRow) → found ≡ some e → IsKnown db e)
      → Effect amount db (already q found db)
  unfolding already
  already-Effect amount none db same = refl
  already-Effect amount (some e) db same = inr (refl, (same e refl).0, (same e refl).1, refl)

  Rest-Effect :
      (amount : ℕ) (db : Db) (r : Outcome LedgerError Created × Db)
      → Rest q amount db r
      → Effect amount db r
  Rest-Effect amount db (ok c, db') h = inl h
  Rest-Effect amount db (err e, db') h = h

  insert_entry-Effect : (amount : ℕ) (db : Db) → Effect amount db (insert_entry q amount db)
  unfolding insert_entry
  insert_entry-Effect amount db =
      if-elim (Effect amount db) run.faults.insert_entry (λ _. refl)
        (λ _.
          if-elim (Effect amount db)
            (is_taken user (key_hash q) db.entries || is_id_taken q db.entries)
            (λ _. already-Effect amount _ db (winner run.faults.find_winner))
            (λ _. Rest-Effect amount db _ (after_insert-Rest q amount dto.category_id db)))
    where
      by_hash : EntryRow → Bool
      by_hash e = e.created_by == user && found_is e.idempotency_key_hash (key_hash q)

      implies : (e : EntryRow) → by_hash e ≡ true → is_same_request e ≡ true
      implies e h = ground arith

      winner :
          (fails : Bool) (e : EntryRow)
          → read fails (single (filter by_hash db.entries)) ≡ some e
          → IsKnown db e
      winner true e h = absurd (cc)
      winner false e h = (
        implies e (single-filter by_hash db.entries h),
        any_of_single is_same_request by_hash implies db.entries h,
      )

  once-Effect :
      (amount : ℕ) (found : Option EntryRow) (db : Db)
      → ((e : EntryRow) → found ≡ some e → IsKnown db e)
      → Effect amount db (once q amount found db)
  unfolding once
  once-Effect amount none db same = insert_entry-Effect amount db
  once-Effect amount (some e) db same = already-Effect amount (some e) db same

  find_existing-same : (db : Db) (e : EntryRow) → find_existing q db ≡ some e → IsKnown db e
  unfolding find_existing
  find_existing-same db e = found run.faults.find_existing
    where
      by_key : EntryRow → Bool
      by_key e =
          e.workspace_id == q.workspace
          && (e.created_by == user && e.client_entry_id == dto.idempotency_key)

      implies : (e : EntryRow) → by_key e ≡ true → is_same_request e ≡ true
      implies e h = ground arith

      found :
          (fails : Bool) → read fails (single (filter by_key db.entries)) ≡ some e → IsKnown db e
      found true h = absurd (cc)
      found false h = (
        implies e (single-filter by_key db.entries h),
        any_of_single is_same_request by_key implies db.entries h,
      )

  -- With an amount that parses to a positive integer, a run either adds one entry with its postings,
  -- whose debits and credits are the amount, or returns an entry of the same user with the same key
  -- or key hash and changes nothing, or fails; a failed run changes nothing, except that after some
  -- errors (`leaves_entry`), of which a failed insert of the postings is one, the new entry stays in
  -- the ledger without postings.
  pub create-Effect :
      (n : ℕ) (db : Db)
      → parse_minor_units dto.amount ≡ ok (pos (suc n))
      → Effect (suc n) db (create_transaction q db)
  unfolding create_transaction
  create-Effect n db parsed =
      rw parsed (once-Effect (suc n) (find_existing q db) db (find_existing-same db))

  -- A run that succeeds had an amount that parses to a positive integer; any other amount is
  -- refused with INVALID_AMOUNT before the database is read.
  pub create_refuses_amount :
      (db : Db)
      → ((n : ℕ) × (parse_minor_units dto.amount ≡ ok (pos (suc n))))
        ⊎ (create_transaction q db ≡ (err invalid_amount, db))
  unfolding create_transaction
  create_refuses_amount db = go (parse_minor_units dto.amount) refl
    where
      go :
          (r : Outcome AmountError ℤ)
          → parse_minor_units dto.amount ≡ r
          → ((n : ℕ) × (parse_minor_units dto.amount ≡ ok (pos (suc n))))
            ⊎ (with_amount q r db ≡ (err invalid_amount, db))
      go (err e) h = inr refl
      go (ok (negsuc n)) h = inr refl
      go (ok (pos zero)) h = inr refl
      go (ok (pos (suc n))) h = inl (n, h)
