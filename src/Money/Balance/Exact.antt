-- ===== src/Money/Balance/Exact.antt =====
-- What validateBalance accepts and reports.
use noorix_fin.Common.{
  ℕ, suc, ◌+◌, ◌≤◌, ◌≡◌, refl, zero, inl, inr, none, Option-cases, ◌↔◌, ◌⊎◌, List, [], ◌∷◌, arith,
  ◌==◌, All,
}
use noorix_fin.Common.Int.{ℤ, pos, negsuc, pos_part, sub_ℕ, ◌+ℤ◌}
use noorix_fin.Common.Outcome.{ok}
use noorix_fin.Money.Number.{max_safe, js_add, to_double_exact}
use noorix_fin.Money.Balance.{Posting, Balance, posting_fault, validate_from, validate_balance}

-- A posting with one side positive and the other zero.
abbrev pub IsOneSided : Posting → Type 0
IsOneSided p =
    ((n : ℕ) × (p.debit_minor ≡ pos (suc n)) × (p.credit_minor ≡ pos 0))
    ⊎ ((n : ℕ) × (p.debit_minor ≡ pos 0) × (p.credit_minor ≡ pos (suc n)))

abbrev pub debits : List Posting → ℕ
debits [] = 0
debits (p ∷ ps) = pos_part p.debit_minor + debits ps

abbrev pub credits : List Posting → ℕ
credits [] = 0
credits (p ∷ ps) = pos_part p.credit_minor + credits ps

-- The report on two exact totals.
abbrev pub report : ℕ → ℕ → Balance
report d c = record { balanced = d == c; total_debit = pos d; total_credit = pos c }

js_add_small : (a b : ℕ) → a + b ≤ max_safe → js_add (pos a) (pos b) ≡ pos (a + b)
unfolding js_add ◌+ℤ◌
js_add_small a b h = rw (to_double_exact (sub_ℕ (a + b) 0) (ground arith)) (ground arith)

js_add_zero : (a : ℕ) → a ≤ max_safe → js_add (pos a) (pos 0) ≡ pos a
unfolding js_add ◌+ℤ◌
js_add_zero a h = rw (to_double_exact (sub_ℕ (a + 0) 0) (ground arith)) (ground arith)

posting_fault-one_sided : (p : Posting) → IsOneSided p → posting_fault p ≡ none
unfolding posting_fault
posting_fault-one_sided p (inl (n, d, c)) = rw (d, c) (ground arith)
posting_fault-one_sided p (inr (n, d, c)) = rw (d, c) (ground arith)

IsOneSided-of :
    (d c : ℤ)
    → posting_fault (record { debit_minor = d; credit_minor = c }) ≡ none
    → IsOneSided (record { debit_minor = d; credit_minor = c })
unfolding posting_fault
IsOneSided-of (pos zero) (pos zero) h = ground arith
IsOneSided-of (pos zero) (pos (suc c)) h = inr (c, refl, refl)
IsOneSided-of (pos (suc d)) (pos zero) h = inl (d, refl, refl)
IsOneSided-of (pos (suc d)) (pos (suc c)) h = ground arith
IsOneSided-of (negsuc d) (pos c) h = ground arith
IsOneSided-of (pos d) (negsuc c) h = ground arith
IsOneSided-of (negsuc d) (negsuc c) h = ground arith

validate_from-cons :
    (d c : ℤ) (p : Posting) (ps : List Posting)
    → posting_fault p ≡ none
    → validate_from d c (p ∷ ps)
      ≡ validate_from (js_add d p.debit_minor) (js_add c p.credit_minor) ps
unfolding validate_from
validate_from-cons d c p ps fine = rw (fine, validate_from)

validate_from-eq-report :
    (d c : ℕ) (ps : List Posting)
    → All IsOneSided ps
    → d + debits ps ≤ max_safe
    → c + credits ps ≤ max_safe
    → validate_from (pos d) (pos c) ps ≡ ok (report (d + debits ps) (c + credits ps))
validate_from-eq-report d c [] h hd hc = unfold validate_from in ground arith
validate_from-eq-report d c (p ∷ ps) (inl (n, pd, pc), h) hd hc = ground (
  arith,
  pd,
  pc,
  js_add_small d (suc n),
  js_add_zero c,
  validate_from-cons (pos d) (pos c) p ps (posting_fault-one_sided p (inl (n, pd, pc))),
  validate_from-eq-report (d + suc n) c ps h,
)
validate_from-eq-report d c (p ∷ ps) (inr (n, pd, pc), h) hd hc = ground (
  arith,
  pd,
  pc,
  js_add_zero d,
  js_add_small c (suc n),
  validate_from-cons (pos d) (pos c) p ps (posting_fault-one_sided p (inr (n, pd, pc))),
  validate_from-eq-report d (c + suc n) ps h,
)

validate_from-All :
    (d c : ℤ) (ps : List Posting) {r : Balance} → validate_from d c ps ≡ ok r → All IsOneSided ps
unfolding validate_from
validate_from-All d c [] e = tt
validate_from-All d c (p ∷ ps) {r} e = elim (Option-cases (posting_fault p)) [
  | inl fine ↦ (
    IsOneSided-of p.debit_minor p.credit_minor fine,
    validate_from-All (js_add d p.debit_minor) (js_add c p.credit_minor) ps {r = r}
        (rw (fine, validate_from) at e),
  )
  | inr (f, fault) ↦ ground arith
]

-- Where the debits and the credits each sum to a safe integer, `validateBalance` succeeds exactly
-- if every posting has one positive side and a zero one. It then reports the exact totals, and
-- `balanced` exactly when they are equal.
pub validate_balance_exact :
    (postings : List Posting) (r : Balance)
    → debits postings ≤ max_safe
    → credits postings ≤ max_safe
    → (validate_balance postings ≡ ok r)
      ↔ (All IsOneSided postings × (r ≡ report (debits postings) (credits postings)))
unfolding validate_balance
validate_balance_exact postings r hd hc = (
  λ e.
      let h = validate_from-All (pos 0) (pos 0) postings e in
      (h, ground (arith, validate_from-eq-report 0 0 postings h)),
  λ (h, e). ground (arith, validate_from-eq-report 0 0 postings h),
)
