-- ===== src/Ledger/Entries/Amounts.antt =====
-- The amount that the list shows for an entry.
use noorix_fin.Common.{
  ℕ, ◌+◌, ◌/◌, ◌≡◌, refl, ap, sym, ◌∙◌, inl, inr, Bool-cases, List, [], ◌∷◌, arith, ◌==◌,
}
use noorix_fin.Ledger.{Uuid, PostingRow, EntryRow, Db}
use noorix_fin.Ledger.Postings.{debits_of, credits_of}
use noorix_fin.Ledger.Request.{postings_of}
use noorix_fin.Ledger.Entries.{item}
use noorix_fin.Ledger.Items.{ListCall, total_of}

total_of-postings_of :
    (e : Uuid) (ps : List PostingRow)
    → total_of (postings_of e ps) ≡ debits_of e ps + credits_of e ps
total_of-postings_of e [] = refl
total_of-postings_of e (p ∷ ps) = elim (Bool-cases (p.journal_entry_id == e)) [
  | inl own ↦ rw own (omega (arith, total_of-postings_of e ps))
  | inr others ↦ rw others (omega (arith, total_of-postings_of e ps))
]

half_of_double : (n : ℕ) → (n + n + 1) / 2 ≡ n
half_of_double n = omega arith

-- The list shows an entry whose postings balance with the sum of its debits, however many postings
-- it has.
item-amount :
    (q : ListCall) (db : Db) (e : EntryRow)
    → debits_of e.id db.postings ≡ credits_of e.id db.postings
    → (item q db e).amount_minor ≡ debits_of e.id db.postings
item-amount q db e balanced =
    ap (λ t. (t + 1) / 2)
      (total_of-postings_of e.id db.postings
        ∙ ap (λ c. debits_of e.id db.postings + c) (sym balanced))
    ∙ half_of_double (debits_of e.id db.postings)
