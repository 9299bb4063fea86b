-- ===== src/Ledger/Balance.antt =====
-- The abstract ledger behind journal_postings of apps/api/src/transactions/transactions.service.ts:
-- what every account holds. A balance is a pair of totals, debits and credits, of which only the
-- difference counts, so it is a quotient; the rows, their ids and their order are forgotten.
use mathlib.Core.Path.{fun_ext}
use mathlib.Core.Quot
use mathlib.Core.Quot.{Quot, Quot-set}
use noorix_fin.Common.{
  [], ◌∷◌, ◌++◌, ℕ, ◌+◌, ◌≡◌, arith, ◌==◌, if◌then◌else◌, List, Bool-cases, inl, inr, ap, ◌∙◌,
}
use noorix_fin.Ledger.{Uuid, PostingRow}
use noorix_fin.Ledger.Postings.{account_debits, account_credits}

-- Totals of an account over lists of postings.
pub account_debits-append :
    (a : Uuid) (ps qs : List PostingRow)
    → account_debits a (ps ++ qs) ≡ account_debits a ps + account_debits a qs
account_debits-append a [] qs = omega arith
account_debits-append a (p ∷ ps) qs = omega (arith, account_debits-append a ps qs)

pub account_credits-append :
    (a : Uuid) (ps qs : List PostingRow)
    → account_credits a (ps ++ qs) ≡ account_credits a ps + account_credits a qs
account_credits-append a [] qs = omega arith
account_credits-append a (p ∷ ps) qs = omega (arith, account_credits-append a ps qs)

abbrev pub Totals : Type 0
Totals = ℕ × ℕ

abbrev pub SameBalance : Totals → Totals → Type 0
SameBalance s t = s.0 + t.1 ≡ t.0 + s.1

abbrev pub AccountBalance : Type 0
AccountBalance = Quot SameBalance

abbrev pub balance : ℕ → ℕ → AccountBalance
balance debits credits = Quot.mk (debits, credits)

pub balance_eq : (d c d' c' : ℕ) → d + c' ≡ d' + c → balance d c ≡ balance d' c'
balance_eq d c d' c' h = Quot.sound h

unfoldable pub debited : ℕ → AccountBalance → AccountBalance
debited n = Quot.lift Quot-set (λ t. balance (t.0 + n) t.1) (λ s t h. Quot.sound (omega (arith, h)))

unfoldable pub credited : ℕ → AccountBalance → AccountBalance
credited n =
    Quot.lift Quot-set (λ t. balance t.0 (t.1 + n)) (λ s t h. Quot.sound (omega (arith, h)))

abbrev pub Balances : Type 0
Balances = Uuid → AccountBalance

abbrev pub balances : List PostingRow → Balances
balances ps a = balance (account_debits a ps) (account_credits a ps)

-- An amount leaves an account and reaches another one, or the same.
unfoldable pub move : Uuid → Uuid → ℕ → Balances → Balances
move from to n b a =
    let kept = b a in
    let left = if from == a then credited n kept else kept in
    if to == a then debited n left else left

debited-credited : (n : ℕ) (b : AccountBalance) → debited n (credited n b) ≡ b
unfolding debited credited
debited-credited n = Quot.ind (λ b. Quot-set _ _) (λ t. Quot.sound (omega arith))

credited-debited : (n : ℕ) (b : AccountBalance) → credited n (debited n b) ≡ b
unfolding debited credited
credited-debited n = Quot.ind (λ b. Quot-set _ _) (λ t. Quot.sound (omega arith))

-- What is moved and moved back is as it was.
pub move_back : (from to : Uuid) (n : ℕ) (b : Balances) → move to from n (move from to n b) ≡ b
unfolding move
move_back from to n b = fun_ext λ a. elim (Bool-cases (from == a)) [
  | inl left ↦ elim (Bool-cases (to == a)) [
    | inl reached ↦
        rw (left, reached)
          (ap (λ k. debited n (credited n k)) (debited-credited n (b a)) ∙ debited-credited n (b a))
    | inr other ↦ rw (left, other) (debited-credited n (b a))
  ]
  | inr other ↦ elim (Bool-cases (to == a)) [
    | inl reached ↦ rw (other, reached) (credited-debited n (b a))
    | inr apart ↦ rw (other, apart)
  ]
]

-- Postings that debit one account and credit another with the amount move it.
pub balances-moved :
    (from to : Uuid) (n : ℕ) (bs bs' : List PostingRow)
    → ((a : Uuid) → account_debits a bs' ≡ account_debits a bs + (if to == a then n else 0))
    → ((a : Uuid) → account_credits a bs' ≡ account_credits a bs + (if from == a then n else 0))
    → balances bs' ≡ move from to n (balances bs)
unfolding move debited credited
balances-moved from to n bs bs' debits credits = fun_ext λ a. elim (Bool-cases (from == a)) [
  | inl left ↦ elim (Bool-cases (to == a)) [
    | inl reached ↦
        rw (left, reached)
          (balance_eq _ _ _ _ (omega (arith, rw reached at (debits a), rw left at (credits a))))
    | inr other ↦
        rw (left, other)
          (balance_eq _ _ _ _ (omega (arith, rw other at (debits a), rw left at (credits a))))
  ]
  | inr other ↦ elim (Bool-cases (to == a)) [
    | inl reached ↦
        rw (other, reached)
          (balance_eq _ _ _ _ (omega (arith, rw reached at (debits a), rw other at (credits a))))
    | inr apart ↦
        rw (other, apart)
          (balance_eq _ _ _ _ (omega (arith, rw apart at (debits a), rw other at (credits a))))
  ]
]
