-- ===== src/Ledger/Reverse/Again.antt =====
-- Reversing after another operation: twice, and after the creation of the entry.
use mathlib.Core.Path.{fun_ext}
use noorix_fin.Common.{
  ℕ, suc, ◌≡◌, refl, ap, ◌∙◌, subst, Bool, true, false, not, Option, some, List, [], ◌∷◌, ◌++◌, map,
  arith, ◌==◌, any, find?, ==_refl, find?-append, any_last, any_last_false, any_none_of,
  any-all-not, all-any-not, filter-append, filter-none, filter-every, append-nil, All, find?-last,
}
use noorix_fin.Common.Outcome.{ok, err}
use noorix_fin.Ledger.{Uuid, PostingRow, EntryRow, Db}
use noorix_fin.Ledger.Create.{create_transaction}
use noorix_fin.Ledger.Request.{Call, Created, postings_of, found_is}
use noorix_fin.Ledger.Create.Written.{IsFresh, Adds, row}
use noorix_fin.Ledger.Create.Retry.{IsNew, IsUnused, created-Adds, postings_of-added}
use noorix_fin.Ledger.Postings.{debits_of}
use noorix_fin.Ledger.Balance.{balances}
use noorix_fin.Ledger.Reverse.{
  already_reversed, answered, ReverseCall, is_reversible, reversal_entry, mirror, is_reversed,
  read_reversal, reverse_transaction,
}
use noorix_fin.Ledger.Reverse.Restores.{
  Reverses, Reverses-balances, without, ReverseEffect, reverse-Effect,
}

-- The same reversal, requested again with other ids and another clock.
abbrev pub IsSameRequest : ReverseCall → ReverseCall → Type 0
IsSameRequest q q' = (q'.transaction ≡ q.transaction) × (q'.workspace ≡ q.workspace)

is_reversed-Reverses :
    (q q' : ReverseCall) (db db' : Db) (original : EntryRow)
    → db'.entries ≡ db.entries ++ reversal_entry q original ∷ []
    → is_reversed q' original.id db'.entries ≡ true
is_reversed-Reverses q q' db db' original entries =
    ap (is_reversed q' original.id) entries
    ∙ any_last (λ e. found_is e.reverses_entry_id original.id) db.entries
        {x = reversal_entry q original} (==_refl original.id)

find?-Reverses :
    (q : ReverseCall) (db db' : Db) (original : EntryRow)
    → find? (is_reversible q) db.entries ≡ some original
    → db'.entries ≡ db.entries ++ reversal_entry q original ∷ []
    → find? (is_reversible q) db'.entries ≡ some original
find?-Reverses q db db' original found entries =
    ap (find? (is_reversible q)) entries
    ∙ find?-append (is_reversible q) db.entries (reversal_entry q original ∷ []) found

-- Where an entry is found that has been reversed, the RPC meets the unique index.
refused :
    (q : ReverseCall) (db : Db) (original : EntryRow)
    → find? (is_reversible q) db.entries ≡ some original
    → is_reversed q original.id db.entries ≡ true
    → q.rpc ≡ answered
    → reverse_transaction q db ≡ (err already_reversed, db)
unfolding reverse_transaction
refused q db original found taken replies = rw (replies, found, taken)

-- Where a posted entry with postings is found that has not been reversed, the reversal succeeds.
abbrev reversed_db : ReverseCall → EntryRow → List PostingRow → Db → Db
reversed_db q original ps db = record db {
  entries = db.entries ++ reversal_entry q original ∷ [];
  postings = db.postings ++ map (mirror q) ps;
}

accepted :
    (q : ReverseCall) (db : Db) (original : EntryRow) (p : PostingRow) (ps : List PostingRow)
    → find? (is_reversible q) db.entries ≡ some original
    → is_reversed q original.id db.entries ≡ false
    → postings_of q.transaction db.postings ≡ p ∷ ps
    → q.rpc ≡ answered
    → reverse_transaction q db ≡ (
      ok (read_reversal q q.reversal_id (reversed_db q original (p ∷ ps) db)),
      reversed_db q original (p ∷ ps) db,
    )
unfolding reverse_transaction
accepted q db original p ps found fresh own replies = rw (replies, found, fresh, own)

same_target : (q q' : ReverseCall) → IsSameRequest q q' → is_reversible q' ≡ is_reversible q
same_target q q' (transaction, workspace) = fun_ext λ e. rw (transaction, workspace)

refused_again :
    (q q' : ReverseCall) (db db' : Db)
    → IsSameRequest q q'
    → q'.rpc ≡ answered
    → Reverses q db db'
    → reverse_transaction q' db' ≡ (err already_reversed, db')
refused_again q q' db db' same replies (original, found, fresh, entries, postings) =
    refused q' db' original
      (ap (λ p. find? p db'.entries) (same_target q q' same)
        ∙ find?-Reverses q db db' original found entries)
      (is_reversed-Reverses q q' db db' original entries) replies

-- Once an entry has been reversed, reversing it again is refused as already reversed and changes
-- nothing, whatever ids and clock the second request has, provided that its call is answered.
pub reverse_once :
    (q q' : ReverseCall) (db : Db) (c : Option Created) (db' : Db)
    → reverse_transaction q db ≡ (ok c, db')
    → IsSameRequest q q'
    → q'.rpc ≡ answered
    → reverse_transaction q' db' ≡ (err already_reversed, db')
reverse_once q q' db c db' done same replies =
    refused_again q q' db db' same replies (subst (ReverseEffect q db) done (reverse-Effect q db))

-- No entry reverses the one that a request is to create.
abbrev pub IsUnreversed : Call → Db → Type 0
IsUnreversed q db = any (λ e. found_is e.reverses_entry_id q.run.entry_id) db.entries ≡ false

-- The reversal names the entry that a request created.
abbrev pub IsReversalOf : Call → ReverseCall → Type 0
IsReversalOf q r = (r.transaction ≡ q.run.entry_id) × (r.workspace ≡ q.workspace)

module _ (q : Call) (r : ReverseCall) (target : IsReversalOf q r) where
  by_id : EntryRow → Bool
  by_id e = e.id == q.run.entry_id

  created_found :
      (db : Db) → IsFresh q db → find? (is_reversible r) (db.entries ++ row q ∷ []) ≡ some (row q)
  unfolding by_id
  created_found db fresh =
      find?-last (is_reversible r) db.entries
        (any_none_of by_id (is_reversible r) (λ e h. ground (arith, target.0)) db.entries
          (any-all-not by_id db.entries fresh))
        (rw (target.0, target.1) (simp ==_refl))

  created_unreversed :
      (db : Db)
      → IsUnreversed q db
      → is_reversed r q.run.entry_id (db.entries ++ row q ∷ []) ≡ false
  created_unreversed db none_yet =
      any_last_false (λ e. found_is e.reverses_entry_id q.run.entry_id) db.entries {x = row q}
        none_yet refl

  own_postings :
      (e : Uuid) (n : ℕ) (ps : List PostingRow)
      → debits_of e ps ≡ suc n
      → (p : PostingRow) × (rest : List PostingRow) × (ps ≡ p ∷ rest)
  own_postings e n [] h = absurd (omega (arith, h))
  own_postings e n (p ∷ ps) h = (p, ps, refl)

  -- The reversal goes through, whatever the postings are, as long as there are some.
  created_reversed :
      (db db' : Db) (p : PostingRow) (ps : List PostingRow)
      → IsFresh q db
      → IsUnreversed q db
      → db'.entries ≡ db.entries ++ row q ∷ []
      → postings_of q.run.entry_id db'.postings ≡ p ∷ ps
      → r.rpc ≡ answered
      → (back : Option Created) × (db'' : Db) × (reverse_transaction r db' ≡ (ok back, db''))
  created_reversed db db' p ps fresh open_yet entries own replies = (
    _,
    _,
    accepted r db' (row q) p ps (ap (find? (is_reversible r)) entries ∙ created_found db fresh)
        (ap (is_reversed r q.run.entry_id) entries ∙ created_unreversed db open_yet)
        (ap (λ e. postings_of e db'.postings) target.0 ∙ own) replies,
  )

  own_every :
      (ps : List PostingRow)
      → All (λ p. p.journal_entry_id ≡ q.run.entry_id) ps
      → any (λ (p : PostingRow). not (p.journal_entry_id == q.run.entry_id)) ps ≡ false
  own_every [] h = refl
  own_every (p ∷ ps) h = rw h.0 (simp ==_refl (own_every ps h.1))

  without_created :
      (amount : ℕ) (db db' : Db) (c : Created)
      → Adds q amount db c db'
      → IsUnused q db
      → without r.transaction db'.postings ≡ db.postings
  without_created amount db db' c (entry, entries, postings, own, hd, hc) unused =
      let others = λ (p : PostingRow). not (p.journal_entry_id == q.run.entry_id) in
      let mine = λ (p : PostingRow). p.journal_entry_id == q.run.entry_id in
      ap (λ e. without e db'.postings) target.0
      ∙ ap (without q.run.entry_id) postings
      ∙ filter-append others db.postings c.postings
      ∙ ap (λ l. l ++ without q.run.entry_id c.postings)
          (filter-every others db.postings (all-any-not mine db.postings unused))
      ∙ ap (λ l. db.postings ++ l) (filter-none others c.postings (own_every c.postings own))
      ∙ append-nil db.postings

  -- A new request that succeeds, and whose entry id was in no entry and no posting and was reversed
  -- by none, can be reversed: an answered reversal of its entry succeeds, and afterwards every account
  -- holds what it held before the request.
  pub create_reverse :
      (db db' : Db) (c : Created)
      → IsFresh q db
      → IsNew q db
      → IsUnused q db
      → IsUnreversed q db
      → create_transaction q db ≡ (ok c, db')
      → r.rpc ≡ answered
      → (back : Option Created) × (db'' : Db) × (reverse_transaction r db' ≡ (ok back, db''))
        × (balances db''.postings ≡ balances db.postings)
  create_reverse db db' c fresh new unused open_yet first replies =
      let (n, parsed, adds) = created-Adds q db db' c new first in
      let (p, ps, some_own) = own_postings q.run.entry_id n c.postings adds.4 in
      let (back, db'', done) =
        created_reversed db db' p ps fresh open_yet adds.1
          (postings_of-added q (suc n) db db' c adds unused ∙ some_own) replies in
      (
        back,
        db'',
        done,
        Reverses-balances r db' db'' (subst (ReverseEffect r db') done (reverse-Effect r db'))
            ∙ ap balances (without_created (suc n) db db' c adds unused),
      )
