-- ===== src/Ledger/Reverse/Restores.antt =====
-- What a reversal does to the balances of the ledger.
use mathlib.Core.Path.{fun_ext}
use noorix_fin.Common.{
  ◌+◌, ◌≡◌, refl, sym, ap, ◌∙◌, ◌⊎◌, inl, inr, true, false, not, Option, none, some, List, [], ◌∷◌,
  ◌++◌, map, arith, ◌==◌, filter, find?, Bool-cases, if-elim, ==_iff, find?-true,
}
use noorix_fin.Common.Outcome.{Outcome, ok, err}
use noorix_fin.Ledger.{Uuid, PostingRow, EntryRow, Db}
use noorix_fin.Ledger.Postings.{account_debits, account_credits}
use noorix_fin.Ledger.Request.{Created, postings_of}
use noorix_fin.Ledger.Balance.{account_debits-append, account_credits-append, balances, balance_eq}
use noorix_fin.Ledger.Reverse.{
  RpcError, ReverseError, Reply, answered, failed, lost, ReverseCall, is_reversible, reversal_entry,
  mirror, insert_mirrored, is_reversed, claimed, reverse_journal_entry, rpc_answer, mapped,
  reverse_transaction,
}

account-mirror :
    (q : ReverseCall) (a : Uuid) (ps : List PostingRow)
    → (account_debits a (map (mirror q) ps) ≡ account_credits a ps)
      × (account_credits a (map (mirror q) ps) ≡ account_debits a ps)
account-mirror q a [] = (refl, refl)
account-mirror q a (p ∷ ps) =
    (omega (arith, (account-mirror q a ps).0), omega (arith, (account-mirror q a ps).1))

-- the postings of the other entries
abbrev pub without : Uuid → List PostingRow → List PostingRow
without e ps = filter (λ p. not (p.journal_entry_id == e)) ps

account-without :
    (e a : Uuid) (ps : List PostingRow)
    → (account_debits a ps ≡ account_debits a (postings_of e ps) + account_debits a (without e ps))
      × (account_credits a ps
          ≡ account_credits a (postings_of e ps) + account_credits a (without e ps))
account-without e a [] = (refl, refl)
account-without e a (p ∷ ps) = elim (Bool-cases (p.journal_entry_id == e)) [
  | inl own ↦
      rw own (omega (arith, (account-without e a ps).0), omega (arith, (account-without e a ps).1))
  | inr others ↦
      rw others
        (omega (arith, (account-without e a ps).0), omega (arith, (account-without e a ps).1))
]

-- After the mirrored postings of an entry every account holds what it held without the entry.
pub balances-mirror :
    (q : ReverseCall) (e : Uuid) (ps : List PostingRow)
    → balances (ps ++ map (mirror q) (postings_of e ps)) ≡ balances (without e ps)
balances-mirror q e ps = fun_ext λ a. balance_eq _ _ _ _ (
    omega (
      arith,
      account_debits-append a ps (map (mirror q) (postings_of e ps)),
      account_credits-append a ps (map (mirror q) (postings_of e ps)),
      (account-mirror q a (postings_of e ps)).0,
      (account-mirror q a (postings_of e ps)).1,
      (account-without e a ps).0,
      (account-without e a ps).1,
    ))

module _ (q : ReverseCall) where
  open q use {transaction, workspace, reversal_id, rpc}

  -- One entry and the mirrored postings of the original were added.
  abbrev pub Reverses : Db → Db → Type 0
  Reverses db db' =
      (original : EntryRow) × (find? (is_reversible q) db.entries ≡ some original)
      × (is_reversed q original.id db.entries ≡ false)
      × (db'.entries ≡ db.entries ++ reversal_entry q original ∷ [])
      × (db'.postings ≡ db.postings ++ map (mirror q) (postings_of transaction db.postings))

  abbrev pub RpcEffect : Db → Outcome RpcError Uuid × Db → Type 0
  RpcEffect db (ok id, db') = (id ≡ reversal_id) × Reverses db db'
  RpcEffect db (err e, db') = db' ≡ db

  insert_mirrored-Effect :
      (db : Db) (original : EntryRow)
      → find? (is_reversible q) db.entries ≡ some original
      → is_reversed q original.id db.entries ≡ false
      → (ps : List PostingRow) → postings_of transaction db.postings ≡ ps
      → RpcEffect db (insert_mirrored q original ps db)
  insert_mirrored-Effect db original found fresh [] own = refl
  insert_mirrored-Effect db original found fresh (p ∷ ps) own =
      (refl, (original, found, fresh, refl, ap (λ l. db.postings ++ map (mirror q) l) (sym own)))

  claimed-Effect :
      (db : Db) (o : Option EntryRow)
      → find? (is_reversible q) db.entries ≡ o
      → RpcEffect db (claimed q o db)
  claimed-Effect db none found = refl
  claimed-Effect db (some original) found =
      if-elim (RpcEffect db) (is_reversed q original.id db.entries) (λ _. refl)
        (λ fresh. insert_mirrored-Effect db original found fresh _ refl)

  pub rpc-Effect : (db : Db) → RpcEffect db (reverse_journal_entry q db)
  rpc-Effect db = claimed-Effect db _ refl

  -- A success reversed the entry; an error changed nothing, unless the answer was lost.
  abbrev pub ReverseEffect : Db → Outcome ReverseError (Option Created) × Db → Type 0
  ReverseEffect db (ok c, db') = Reverses db db'
  ReverseEffect db (err e, db') = (db' ≡ db) ⊎ ((rpc ≡ lost) × Reverses db db')

  mapped-Effect :
      (db : Db) (r : Outcome RpcError Uuid × Db) → RpcEffect db r → ReverseEffect db (mapped q r)
  mapped-Effect db (ok id, db') h = h.1
  mapped-Effect db (err e, db') h = inl h

  lost-Effect :
      (db : Db) (r : Outcome RpcError Uuid × Db)
      → RpcEffect db r
      → rpc ≡ lost
      → (r.1 ≡ db) ⊎ ((rpc ≡ lost) × Reverses db r.1)
  lost-Effect db (ok id, db') h l = inr (l, h.1)
  lost-Effect db (err e, db') h l = inl h

  rpc_answer-Effect :
      (db : Db) (reply : Reply) → rpc ≡ reply → ReverseEffect db (mapped q (rpc_answer q reply db))
  rpc_answer-Effect db answered h = mapped-Effect db (reverse_journal_entry q db) (rpc-Effect db)
  rpc_answer-Effect db failed h = inl refl
  rpc_answer-Effect db lost h = lost-Effect db (reverse_journal_entry q db) (rpc-Effect db) h

  pub reverse-Effect : (db : Db) → ReverseEffect db (reverse_transaction q db)
  unfolding reverse_transaction
  reverse-Effect db = rpc_answer-Effect db rpc refl

  pub Reverses-balances :
      (db db' : Db)
      → Reverses db db'
      → balances db'.postings ≡ balances (without transaction db.postings)
  Reverses-balances db db' (original, found, fresh, entries, postings) =
      ap balances postings ∙ balances-mirror q transaction db.postings

  -- The balances are those of the ledger without the entry, nothing was taken from the ledger, and
  -- the entry that was added points to the one reversed.
  abbrev pub IsUndone : Db → Db → Type 0
  IsUndone db db' =
      (balances db'.postings ≡ balances (without transaction db.postings))
      × ((added : EntryRow) × (added.reverses_entry_id ≡ some transaction)
          × (db'.entries ≡ db.entries ++ added ∷ []))
      × ((more : List PostingRow) × (db'.postings ≡ db.postings ++ more))

  abbrev pub IsRestored : Db → Outcome ReverseError (Option Created) × Db → Type 0
  IsRestored db (ok c, db') = IsUndone db db'
  IsRestored db (err e, db') = (db' ≡ db) ⊎ ((rpc ≡ lost) × IsUndone db db')

  is_reversible-id : (e : EntryRow) → is_reversible q e ≡ true → e.id ≡ transaction
  is_reversible-id e h = ground (arith, ==_iff e.id transaction)

  Reverses-IsUndone : (db db' : Db) → Reverses db db' → IsUndone db db'
  Reverses-IsUndone db db' (original, found, fresh, entries, postings) = (
    Reverses-balances db db' (original, found, fresh, entries, postings),
    (
      reversal_entry q original,
      ap some (is_reversible-id original (find?-true (is_reversible q) db.entries found)),
      entries,
    ),
    (map (mirror q) (postings_of transaction db.postings), postings),
  )

  Effect-IsRestored :
      (db : Db) (r : Outcome ReverseError (Option Created) × Db)
      → ReverseEffect db r
      → IsRestored db r
  Effect-IsRestored db (ok c, db') h = Reverses-IsUndone db db' h
  Effect-IsRestored db (err e, db') (inl same) = inl same
  Effect-IsRestored db (err e, db') (inr (l, h)) = inr (l, Reverses-IsUndone db db' h)

  -- A reversal that succeeds adds one entry that points to the one reversed and takes no entry and no
  -- posting away, and afterwards every account holds what it would hold had the reversed entry no
  -- postings. A reversal that fails changes nothing, unless the answer of the database was lost: then
  -- either nothing changed or the reversal was done.
  pub reverse-IsRestored : (db : Db) → IsRestored db (reverse_transaction q db)
  reverse-IsRestored db = Effect-IsRestored db (reverse_transaction q db) (reverse-Effect db)
