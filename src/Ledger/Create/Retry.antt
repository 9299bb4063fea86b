-- ===== src/Ledger/Create/Retry.antt =====
-- createTransaction keeps the ledger balanced, and a repeated request posts nothing twice.
use noorix_fin.Common.{
  ℕ, suc, ◌+◌, ◌≡◌, refl, ◌∙◌, inl, inr, ◌≢◌, Bool, true, false, ◌&&◌, Option, some, List, [], ◌∷◌,
  ◌++◌, arith, ◌==◌, if◌then◌else◌, filter, any, ==_refl, all_of_All, any_none_of, All-map,
  false≢true, single, All, ap, subst, sym, filter-append, filter-none, filter-every,
}
use native.Mathlib.Decide.{ℕ_discrete}
use noorix_fin.Common.Int.{pos}
use noorix_fin.Common.Outcome.{Outcome, ok, err}
use noorix_fin.Money.Parse.{parse_minor_units}
use noorix_fin.Ledger.{Uuid, LedgerError, PostingRow, EntryRow, Db}
use noorix_fin.Ledger.Postings.{debits_of, credits_of}
use noorix_fin.Ledger.Create.{already, find_existing, once, with_amount, create_transaction}
use noorix_fin.Ledger.Request.{Run, Call, read, Created, postings_of}
use noorix_fin.Ledger.Create.Effect.{Effect, is_same_request, create-Effect, create_refuses_amount}
use noorix_fin.Ledger.Create.Written.{row, with_row, Adds, leaves_entry}

debits_of-append :
    (e : Uuid) (ps qs : List PostingRow) → debits_of e (ps ++ qs) ≡ debits_of e ps + debits_of e qs
debits_of-append e [] qs = omega arith
debits_of-append e (p ∷ ps) qs = omega (arith, debits_of-append e ps qs)

credits_of-append :
    (e : Uuid) (ps qs : List PostingRow)
    → credits_of e (ps ++ qs) ≡ credits_of e ps + credits_of e qs
credits_of-append e [] qs = omega arith
credits_of-append e (p ∷ ps) qs = omega (arith, credits_of-append e ps qs)

-- Postings of one entry say nothing of another.
others_zero :
    (x e : Uuid) (ps : List PostingRow)
    → All (λ p. p.journal_entry_id ≡ x) ps
    → x ≢ e
    → (debits_of e ps ≡ 0) × (credits_of e ps ≡ 0)
others_zero x e [] h ne = (refl, refl)
others_zero x e (p ∷ ps) h ne = ground (arith, others_zero x e ps h.1 ne, h.0)

-- The debits of every entry equal its credits.
abbrev pub IsBalanced : Db → Type 0
IsBalanced db = (e : Uuid) → debits_of e db.postings ≡ credits_of e db.postings

own_balanced :
    (x : Uuid) (amount : ℕ) (ps : List PostingRow)
    → All (λ p. p.journal_entry_id ≡ x) ps
    → debits_of x ps ≡ amount
    → credits_of x ps ≡ amount
    → (e : Uuid) → debits_of e ps ≡ credits_of e ps
own_balanced x amount ps own hd hc e = elim (ℕ_discrete x e) [
  | yes same ↦ subst (λ y. debits_of y ps ≡ credits_of y ps) same (hd ∙ sym hc)
  | no differs ↦ (others_zero x e ps own differs).0 ∙ sym (others_zero x e ps own differs).1
]

Adds-IsBalanced :
    (q : Call) (amount : ℕ) (db db' : Db) (c : Created)
    → Adds q amount db c db'
    → IsBalanced db
    → IsBalanced db'
Adds-IsBalanced q amount db db' c (entry, entries, postings, own, hd, hc) balanced e = omega (
  arith,
  ap (debits_of e) postings,
  ap (credits_of e) postings,
  debits_of-append e db.postings c.postings,
  credits_of-append e db.postings c.postings,
  balanced e,
  own_balanced q.run.entry_id amount c.postings own hd hc e,
)

-- An entry without postings balances.
leaves-IsBalanced :
    (q : Call) (b : Bool) (db : Db) → IsBalanced db → IsBalanced (if b then with_row q db else db)
leaves-IsBalanced q true db h = h
leaves-IsBalanced q false db h = h

Effect-IsBalanced :
    (q : Call) (amount : ℕ) (db : Db) (r : Outcome LedgerError Created × Db)
    → Effect q amount db r
    → IsBalanced db
    → IsBalanced r.1
Effect-IsBalanced q amount db (ok c, db') (inl adds) balanced =
    Adds-IsBalanced q amount db db' c adds balanced
Effect-IsBalanced q amount db (ok c, db') (inr replays) balanced =
    subst IsBalanced (sym replays.0) balanced
Effect-IsBalanced q amount db (err e, db') h balanced =
    subst IsBalanced (sym h) (leaves-IsBalanced q (leaves_entry e) db balanced)

-- Whatever the request, and whichever calls fail, a run keeps the debits of every entry equal to its
-- credits.
pub create-IsBalanced :
    (q : Call) (db : Db) → IsBalanced db → IsBalanced (create_transaction q db).1
create-IsBalanced q db balanced = elim (create_refuses_amount q db) [
  | inl (n, parsed) ↦
      Effect-IsBalanced q (suc n) db (create_transaction q db) (create-Effect q n db parsed)
        balanced
  | inr refused ↦ rw refused balanced
]

-- The same request, sent again.
abbrev pub again : Call → Run → Call
again q run = record q { run = run }

-- No entry of the ledger has the user and the key of the request, or the user and its hash.
abbrev pub IsNew : Call → Db → Type 0
IsNew q db = any (is_same_request q) db.entries ≡ false

-- The id of the entry is in no posting either.
abbrev pub IsUnused : Call → Db → Type 0
IsUnused q db = any (λ (p : PostingRow). p.journal_entry_id == q.run.entry_id) db.postings ≡ false

pub postings_of-added :
    (q : Call) (amount : ℕ) (db db' : Db) (c : Created)
    → Adds q amount db c db'
    → IsUnused q db
    → postings_of q.run.entry_id db'.postings ≡ c.postings
postings_of-added q amount db db' c (entry, entries, postings, own, hd, hc) unused =
    let mine = λ (p : PostingRow). p.journal_entry_id == q.run.entry_id in
    let own_test =
      all_of_All mine c.postings (All-map (λ p e. rw e (==_refl q.run.entry_id)) c.postings own) in
    ap (postings_of q.run.entry_id) postings
    ∙ filter-append mine db.postings c.postings
    ∙ rw (filter-none mine db.postings unused) (filter-every mine c.postings own_test)

pub if_false : (b : Bool) (xs ys : List PostingRow) → b ≡ false → (if b then xs else ys) ≡ ys
if_false b xs ys h = rw h

pub read-false : {b : Bool} {o : Option EntryRow} → b ≡ false → read b o ≡ o
read-false h = rw h

find_existing-added :
    (q : Call) (run : Run) (amount : ℕ) (db db' : Db) (c : Created)
    → Adds q amount db c db'
    → IsNew q db
    → run.faults.find_existing ≡ false
    → find_existing (again q run) db' ≡ some c.entry
unfolding find_existing
find_existing-added q run amount db db' c (entry, entries, postings, own, hd, hc) new works =
    read-false works
    ∙ ap (λ es. single (filter by_key es)) entries
    ∙ ap single (filter-append by_key db.entries (row q ∷ []))
    ∙ rw
        (filter-none by_key db.entries
          (any_none_of (is_same_request q) by_key implies db.entries new))
        (simp ==_refl (ap some (sym entry)))
  where
    by_key : EntryRow → Bool
    by_key e =
        e.workspace_id == q.workspace
        && (e.created_by == q.user && e.client_entry_id == q.dto.idempotency_key)

    implies : (e : EntryRow) → by_key e ≡ true → is_same_request q e ≡ true
    implies e h = ground arith

ok≢err : {c : Created} {e : LedgerError} → ok c ≢ err e
ok≢err h = cc

already-added :
    (q : Call) (run : Run) (amount : ℕ) (db db' : Db) (c : Created)
    → Adds q amount db c db'
    → IsUnused q db
    → run.faults.read_postings ≡ false
    → already (again q run) (some c.entry) db' ≡ (ok c, db')
unfolding already
already-added q run amount db db' c adds unused reads =
    ap (λ ps. (ok (record { entry = c.entry; postings = ps }), db'))
      (if_false _ _ _ reads
        ∙ ap (λ (e : EntryRow). postings_of e.id db'.postings) adds.0
        ∙ postings_of-added q amount db db' c adds unused)

create-added :
    (q : Call) (run : Run) (n : ℕ) (db db' : Db) (c : Created)
    → Adds q (suc n) db c db'
    → parse_minor_units q.dto.amount ≡ ok (pos (suc n))
    → IsNew q db
    → IsUnused q db
    → run.faults.find_existing ≡ false
    → run.faults.read_postings ≡ false
    → create_transaction (again q run) db' ≡ (ok c, db')
unfolding create_transaction
create-added q run n db db' c adds parsed new unused finds reads =
    ap (λ r. with_amount (again q run) r db') parsed
    ∙ ap (λ o. once (again q run) (suc n) o db')
        (find_existing-added q run (suc n) db db' c adds new finds)
    ∙ already-added q run (suc n) db db' c adds unused reads

-- A new request that succeeded added its entry.
pub created-Adds :
    (q : Call) (db db' : Db) (c : Created)
    → IsNew q db
    → create_transaction q db ≡ (ok c, db')
    → (n : ℕ) × (parse_minor_units q.dto.amount ≡ ok (pos (suc n))) × Adds q (suc n) db c db'
created-Adds q db db' c new first = elim (create_refuses_amount q db) [
  | inl (n, parsed) ↦ elim (subst (Effect q (suc n) db) first (create-Effect q n db parsed)) [
    | inl adds ↦ (n, parsed, adds)
    | inr replays ↦ absurd (false≢true (sym new ∙ replays.2))
  ]
  | inr refused ↦ absurd (ok≢err (sym (ap (λ r. r.0) first) ∙ ap (λ r. r.0) refused))
]

-- Once a request has succeeded that was new (no entry of its user has its key or its key's hash)
-- and whose entry id was in no posting, sending it again, with other random ids,
-- another clock and other faults but working reads of the entry and its postings, returns the same
-- entry and postings and changes nothing.
pub create_retry :
    (q : Call) (run : Run) (db db' : Db) (c : Created)
    → IsNew q db
    → IsUnused q db
    → create_transaction q db ≡ (ok c, db')
    → run.faults.find_existing ≡ false
    → run.faults.read_postings ≡ false
    → create_transaction (again q run) db' ≡ (ok c, db')
create_retry q run db db' c new unused first finds reads =
    let (n, parsed, adds) = created-Adds q db db' c new first in
    create-added q run n db db' c adds parsed new unused finds reads
