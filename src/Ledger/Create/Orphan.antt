-- ===== src/Ledger/Create/Orphan.antt =====
-- What createTransaction makes of a request that has failed after its entry was written.
use noorix_fin.Common.{
  suc, ◌≡◌, refl, ◌∙◌, inl, inr, Bool, true, false, ◌&&◌, some, [], ◌∷◌, arith, ◌==◌, if◌then◌else◌,
  ==_refl, any_none_of, false≢true, single, ap, subst, sym, filter-append, filter-none,
}
use noorix_fin.Common.Outcome.{Outcome, ok, err}
use noorix_fin.Ledger.{LedgerError, PostingRow, EntryRow, Db}
use noorix_fin.Ledger.Create.{already, find_existing, once, with_amount, create_transaction}
use noorix_fin.Ledger.Request.{Run, Call, Created}
use noorix_fin.Ledger.Create.Effect.{Effect, is_same_request, create-Effect, create_refuses_amount}
use noorix_fin.Ledger.Create.Written.{row, with_row, leaves_entry}
use noorix_fin.Ledger.{create_failed}
use noorix_fin.Ledger.Create.Retry.{again, IsNew, IsUnused, if_false, read-false}

find_existing-left :
    (q : Call) (run : Run) (db : Db)
    → IsNew q db
    → run.faults.find_existing ≡ false
    → find_existing (again q run) (with_row q db) ≡ some (row q)
unfolding find_existing
find_existing-left q run db new works =
    read-false works
    ∙ ap single (filter-append by_key db.entries (row q ∷ []))
    ∙ rw
        (filter-none by_key db.entries
          (any_none_of (is_same_request q) by_key implies db.entries new))
        (simp ==_refl refl)
  where
    by_key : EntryRow → Bool
    by_key e =
        e.workspace_id == q.workspace
        && (e.created_by == q.user && e.client_entry_id == q.dto.idempotency_key)

    implies : (e : EntryRow) → by_key e ≡ true → is_same_request q e ≡ true
    implies e h = ground arith

abbrev error_in : Outcome LedgerError Created → LedgerError
error_in (ok c) = create_failed
error_in (err e) = e

-- After a failed request that left its entry without postings (`leaves_entry`), sending it again,
-- with working reads, reports success with that entry and no postings, and writes nothing. The
-- request was new and its entry id was in no posting.
pub create_retry_left :
    (q : Call) (run : Run) (db db' : Db) (e : LedgerError)
    → IsNew q db
    → IsUnused q db
    → create_transaction q db ≡ (err e, db')
    → leaves_entry e ≡ true
    → run.faults.find_existing ≡ false
    → run.faults.read_postings ≡ false
    → create_transaction (again q run) db' ≡ (ok (record { entry = row q; postings = [] }), db')
unfolding create_transaction already
create_retry_left q run db db' e new unused first left finds reads =
    elim (create_refuses_amount q db) [
      | inl (n, parsed) ↦
          let effect = subst (Effect q (suc n) db) first (create-Effect q n db parsed) in
          let stays : db' ≡ with_row q db =
            effect ∙ ap (λ b. if b then with_row q db else db) left in
          subst
            (λ d.
              create_transaction (again q run) d
              ≡ (ok (record { entry = row q; postings = [] }), d))
            (sym stays)
            (ap (λ r. with_amount (again q run) r (with_row q db)) parsed
              ∙ ap (λ o. once (again q run) (suc n) o (with_row q db))
                  (find_existing-left q run db new finds)
              ∙ ap (λ ps. (ok (record { entry = row q; postings = ps }), with_row q db))
                  (if_false _ _ _ reads
                    ∙ filter-none (λ (p : PostingRow). p.journal_entry_id == q.run.entry_id)
                        db.postings unused))
      | inr refused ↦
          absurd (false≢true (ap (λ r. leaves_entry (error_in r.0)) (sym refused ∙ first) ∙ left))
    ]
