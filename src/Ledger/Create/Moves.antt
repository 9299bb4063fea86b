-- ===== src/Ledger/Create/Moves.antt =====
-- createTransaction as an operation of the abstract ledger: an amount moves between two accounts.
use noorix_fin.Common.{
  ℕ, suc, ◌≡◌, refl, sym, ap, ◌∙◌, subst, ◌⊎◌, inl, inr, Bool, true, false, ◌&&◌, ◌||◌, Option,
  none, some, List, [], ◌∷◌, ◌++◌, arith, ◌==◌, filter, single, if-elim,
}
use noorix_fin.Common.Int.{pos}
use noorix_fin.Common.Text.{Text}
use noorix_fin.Common.Outcome.{Outcome, ok, err, ok-injective}
use noorix_fin.Money.Parse.{parse_minor_units}
use noorix_fin.Ledger.{
  Uuid, EntryType, expense, income, transfer, LedgerError, PostingRow, EntryRow, CategoryRow, Db,
}
use noorix_fin.Ledger.Postings.{build_postings, money_out, money_in, flow}
use noorix_fin.Ledger.Create.{
  is_id_taken, write_postings, with_category, currency_of, resolved, after_insert, already,
  insert_entry, find_existing, once, create_transaction, new_entry, key_hash,
}
use noorix_fin.Ledger.Request.{Call, Created, read, is_taken}
use noorix_fin.Ledger.Create.Written.{tagged-ledger}
use noorix_fin.Ledger.Balance.{
  account_debits-append, account_credits-append, balances-moved, balances, move,
}

module _ (u v entry workspace : Uuid) (currency : Text) (amount : ℕ) (account : Uuid) where
  balances-money_out :
      (k : Uuid) (bs : List PostingRow)
      → balances (bs ++ money_out u v entry workspace currency amount account k)
        ≡ move account k amount (balances bs)
  balances-money_out k bs =
      let new = money_out u v entry workspace currency amount account k in
      balances-moved account k amount bs (bs ++ new)
        (λ a. grind (arith, account_debits-append a bs new))
        (λ a. grind (arith, account_credits-append a bs new))

  balances-money_in :
      (k : Uuid) (bs : List PostingRow)
      → balances (bs ++ money_in u v entry workspace currency amount account k)
        ≡ move k account amount (balances bs)
  balances-money_in k bs =
      let new = money_in u v entry workspace currency amount account k in
      balances-moved k account amount bs (bs ++ new)
        (λ a. grind (arith, account_debits-append a bs new))
        (λ a. grind (arith, account_credits-append a bs new))

-- What is moved is what the accounts say that the request names.
build_postings-move :
    (u v entry workspace : Uuid) (currency : Text) (amount : ℕ) (account : Uuid) (type : EntryType)
    (category_account transfer_to : Option Uuid) (bs ps : List PostingRow)
    → build_postings u v entry workspace currency amount account type category_account transfer_to
      ≡ ok ps
    → (from : Uuid) × (to : Uuid) × (flow type account category_account transfer_to
        ≡ some (from, to))
      × (balances (bs ++ ps) ≡ move from to amount (balances bs))
unfolding build_postings
build_postings-move u v e w c n a expense (some k) t bs ps h = (
  a,
  k,
  refl,
  subst (λ l. balances (bs ++ l) ≡ move a k n (balances bs)) (ok-injective h)
      (balances-money_out u v e w c n a k bs),
)
build_postings-move u v e w c n a income (some k) t bs ps h = (
  k,
  a,
  refl,
  subst (λ l. balances (bs ++ l) ≡ move k a n (balances bs)) (ok-injective h)
      (balances-money_in u v e w c n a k bs),
)
build_postings-move u v e w c n a transfer k (some t) bs ps h = (
  a,
  t,
  refl,
  subst (λ l. balances (bs ++ l) ≡ move a t n (balances bs)) (ok-injective h)
      (balances-money_out u v e w c n a t bs),
)
build_postings-move u v e w c n a type k t bs ps h = absurd (cc)

read-some : {A : Type 0} {o : Option A} {a : A} (b : Bool) → read b o ≡ some a → o ≡ some a
read-some true h = cc
read-some false h = h

module _ (q : Call) where
  open q use {workspace, user, run, dto}

  -- The ledger account of the category that the request names, if it names one.
  abbrev pub IsCategoryAccount : Option Uuid → List CategoryRow → Option Uuid → Type 0
  IsCategoryAccount none cs k = k ≡ none
  IsCategoryAccount (some category) cs k =
      (c : CategoryRow) × (single (filter (λ c. c.id == category && c.workspace_id == workspace) cs)
        ≡ some c)
      × (k ≡ some c.ledger_account_id)

  -- The amount left one account and reached another, as the type of the request says.
  abbrev pub Moves : ℕ → Option Uuid → Db → Db → Type 0
  Moves amount k db db' =
      (from : Uuid) × (to : Uuid) × (flow dto.type dto.account_id k dto.transfer_to_account_id
        ≡ some (from, to))
      × (balances db'.postings ≡ move from to amount (balances db.postings))

  -- after the entry was written
  abbrev Booked : ℕ → Option Uuid → Db → Outcome LedgerError Created × Db → Type 0
  Booked amount k db (ok c, db') = Moves amount k db db'
  Booked amount k db (err e, db') = db'.postings ≡ db.postings

  write_postings-Booked :
      (amount : ℕ) (k : Option Uuid) (db : Db) (o : Outcome LedgerError (List PostingRow))
      → build_postings run.first_posting_id run.second_posting_id run.entry_id workspace
          (currency_of q db)
          amount
          dto.account_id
          dto.type
          k
          dto.transfer_to_account_id
        ≡ o
      → Booked amount k db (write_postings q o db)
  unfolding write_postings
  write_postings-Booked amount k db (err e) h = refl
  write_postings-Booked amount k db (ok ps) h =
      if-elim (Booked amount k db) run.faults.insert_postings
        (λ _.
          if-elim (λ (x : Db). x.postings ≡ db.postings) run.faults.delete_entry (λ _. refl)
            (λ _. refl))
        (λ _.
          let (from, to, flows, moves) =
            build_postings-move _ _ _ _ _ amount dto.account_id dto.type k
              dto.transfer_to_account_id db.postings ps h in
          (
            from,
            to,
            flows,
            ap balances (tagged-ledger q dto.tags (record db { postings = db.postings ++ ps })).1
                ∙ moves,
          ))

  abbrev Enters : ℕ → Db → Outcome LedgerError Created × Db → Type 0
  Enters amount db (ok c, db') =
      (k : Option Uuid) × IsCategoryAccount dto.category_id db.categories k × Moves amount k db db'
  Enters amount db (err e, db') = balances db'.postings ≡ balances db.postings

  Booked-Enters :
      (amount : ℕ) (k : Option Uuid) (db : Db) (r : Outcome LedgerError Created × Db)
      → IsCategoryAccount dto.category_id db.categories k
      → Booked amount k db r
      → Enters amount db r
  Booked-Enters amount k db (ok c, db') account moves = (k, account, moves)
  Booked-Enters amount k db (err e, db') account same = ap balances same

  with_category-Enters :
      (amount : ℕ) (k : Option Uuid) (db : Db)
      → IsCategoryAccount dto.category_id db.categories k
      → Enters amount db (with_category q amount k db)
  unfolding with_category
  with_category-Enters amount k db account =
      Booked-Enters amount k db _ account (write_postings-Booked amount k db _ refl)

  resolved-Enters :
      (amount : ℕ) (category : Uuid) (db : Db) (o : Option CategoryRow)
      → dto.category_id ≡ some category
      → read run.faults.read_category
          (single (filter (λ c. c.id == category && c.workspace_id == workspace) db.categories))
        ≡ o
      → Enters amount db (resolved q amount o db)
  unfolding resolved
  resolved-Enters amount category db none names h = refl
  resolved-Enters amount category db (some c) names h =
      with_category-Enters amount (some c.ledger_account_id) db (
        subst (λ o. IsCategoryAccount o db.categories (some c.ledger_account_id)) (sym names)
          (c, read-some _ h, refl))

  after_insert-Enters :
      (amount : ℕ) (category : Option Uuid) (db : Db)
      → dto.category_id ≡ category
      → Enters amount db (after_insert q amount category db)
  unfolding after_insert
  after_insert-Enters amount none db names =
      with_category-Enters amount none db
        (subst (λ o. IsCategoryAccount o db.categories none) (sym names) refl)
  after_insert-Enters amount (some category) db names =
      resolved-Enters amount category db _ names refl

  -- What the abstract ledger sees of a run: an amount moved, or nothing.
  abbrev pub Refines : ℕ → Db → Outcome LedgerError Created × Db → Type 0
  Refines amount db (ok c, db') =
      ((k : Option Uuid) × IsCategoryAccount dto.category_id db.categories k
        × Moves amount k db db')
      ⊎ (db' ≡ db)
  Refines amount db (err e, db') = balances db'.postings ≡ balances db.postings

  Enters-Refines :
      (amount : ℕ) (db : Db) (r : Outcome LedgerError Created × Db)
      → Enters amount (record db { entries = db.entries ++ new_entry q ∷ [] }) r
      → Refines amount db r
  Enters-Refines amount db (ok c, db') moves = inl moves
  Enters-Refines amount db (err e, db') same = same

  already-Refines :
      (amount : ℕ) (o : Option EntryRow) (db : Db) → Refines amount db (already q o db)
  unfolding already
  already-Refines amount none db = refl
  already-Refines amount (some e) db = inr refl

  insert_entry-Refines : (amount : ℕ) (db : Db) → Refines amount db (insert_entry q amount db)
  unfolding insert_entry
  insert_entry-Refines amount db =
      if-elim (Refines amount db) run.faults.insert_entry (λ _. refl)
        (λ _.
          if-elim (Refines amount db)
            (is_taken user (key_hash q) db.entries || is_id_taken q db.entries)
            (λ _. already-Refines amount _ db)
            (λ _. Enters-Refines amount db _ (after_insert-Enters amount dto.category_id _ refl)))

  once-Refines :
      (amount : ℕ) (o : Option EntryRow) (db : Db) → Refines amount db (once q amount o db)
  unfolding once
  once-Refines amount none db = insert_entry-Refines amount db
  once-Refines amount (some e) db = already-Refines amount (some e) db

  -- A run whose amount parses to a positive integer does to the balances what the abstract ledger
  -- does: if it succeeds, the amount moves from one account to another, which the type of the
  -- request, its accounts and its category's account determine, or nothing changes at all; and if it
  -- fails, on whichever call, no balance changes.
  pub create-Refines :
      (n : ℕ) (db : Db)
      → parse_minor_units dto.amount ≡ ok (pos (suc n))
      → Refines (suc n) db (create_transaction q db)
  unfolding create_transaction
  create-Refines n db parsed = rw parsed (once-Refines (suc n) (find_existing q db) db)
