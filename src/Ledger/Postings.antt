-- ===== src/Ledger/Postings.antt =====
-- buildPostings of apps/api/src/transactions/transactions.service.ts.
use noorix_fin.Common.{
  ℕ, ◌+◌, ◌≡◌, refl, Option, some, none, List, [], ◌∷◌, arith, subst, ◌==◌, if◌then◌else◌, All, ◌≢◌,
}
use noorix_fin.Common.Text.{Text}
use noorix_fin.Common.Outcome.{Outcome, ok, err, ok-injective}
use noorix_fin.Ledger.{
  Uuid, EntryType, expense, income, transfer, other, LedgerError, category_required,
  destination_required, invalid_type, PostingRow,
}

-- one `postings.push`
abbrev pub posting : Uuid → Uuid → Uuid → Text → ℕ → Uuid → ℕ → ℕ → PostingRow
posting uuid entry workspace currency amount account debit credit = record {
  id = uuid;
  journal_entry_id = entry;
  workspace_id = workspace;
  ledger_account_id = account;
  debit_minor = debit;
  credit_minor = credit;
  currency_code = currency;
  base_amount_minor = amount;
}

-- `u` and `v` are the two random ids, in the order in which they are drawn.
module _ (u v entry workspace : Uuid) (currency : Text) (amount : ℕ) (account : Uuid) where
  -- the account is credited and the other side debited
  abbrev pub money_out : Uuid → List PostingRow
  money_out to =
      posting u entry workspace currency amount account 0 amount
      ∷ posting v entry workspace currency amount to amount 0
      ∷ []

  abbrev pub money_in : Uuid → List PostingRow
  money_in from =
      posting u entry workspace currency amount account amount 0
      ∷ posting v entry workspace currency amount from 0 amount
      ∷ []

  abbrev pub required :
      LedgerError → (Uuid → List PostingRow) → Option Uuid → Outcome LedgerError (List PostingRow)
  required e f none = err e
  required e f (some other_side) = ok (f other_side)

  unfoldable pub build_postings :
      EntryType → Option Uuid → Option Uuid → Outcome LedgerError (List PostingRow)
  build_postings expense category_account transfer_to =
      required category_required money_out category_account
  build_postings income category_account transfer_to =
      required category_required money_in category_account
  build_postings transfer category_account transfer_to =
      required destination_required money_out transfer_to
  build_postings (other t) category_account transfer_to = err invalid_type

-- The debits and the credits of one entry.
abbrev pub debits_of : Uuid → List PostingRow → ℕ
debits_of e [] = 0
debits_of e (p ∷ ps) = (if p.journal_entry_id == e then p.debit_minor else 0) + debits_of e ps

abbrev pub credits_of : Uuid → List PostingRow → ℕ
credits_of e [] = 0
credits_of e (p ∷ ps) = (if p.journal_entry_id == e then p.credit_minor else 0) + credits_of e ps

-- What an account gains: its debits, and what it loses: its credits.
abbrev pub account_debits : Uuid → List PostingRow → ℕ
account_debits a [] = 0
account_debits a (p ∷ ps) =
    (if p.ledger_account_id == a then p.debit_minor else 0) + account_debits a ps

abbrev pub account_credits : Uuid → List PostingRow → ℕ
account_credits a [] = 0
account_credits a (p ∷ ps) =
    (if p.ledger_account_id == a then p.credit_minor else 0) + account_credits a ps

-- All postings belong to the entry, its workspace and its currency.
abbrev pub BelongTo : Uuid → Uuid → Text → List PostingRow → Type 0
BelongTo entry workspace currency = All (λ p.
    (p.journal_entry_id ≡ entry) × (p.workspace_id ≡ workspace) × (p.currency_code ≡ currency))

-- What every list of postings that is built has in common.
abbrev IsBalancedEntry : Uuid → Uuid → Text → ℕ → List PostingRow → Type 0
IsBalancedEntry entry workspace currency amount ps =
    (debits_of entry ps ≡ amount)
    × (credits_of entry ps ≡ amount)
    × BelongTo entry workspace currency ps

IsBalancedEntry-pair :
    (u v entry workspace : Uuid) (currency : Text) (amount : ℕ) (account k : Uuid)
    → IsBalancedEntry entry workspace currency amount
        (money_out u v entry workspace currency amount account k)
      × IsBalancedEntry entry workspace currency amount
          (money_in u v entry workspace currency amount account k)
IsBalancedEntry-pair u v e w c n a k = (
  (ground arith, ground arith, ((refl, refl, refl), ((refl, refl, refl), tt))),
  (ground arith, ground arith, ((refl, refl, refl), ((refl, refl, refl), tt))),
)

-- Whatever the type and the accounts, the postings that are built are those of one entry, in its
-- workspace and currency, with the amount debited once and credited once: the entry balances.
pub build_postings-balanced :
    (u v entry workspace : Uuid) (currency : Text) (amount : ℕ) (account : Uuid) (type : EntryType)
    (category_account transfer_to : Option Uuid) (ps : List PostingRow)
    → build_postings u v entry workspace currency amount account type category_account transfer_to
      ≡ ok ps
    → (debits_of entry ps ≡ amount)
      × (credits_of entry ps ≡ amount)
      × BelongTo entry workspace currency ps
unfolding build_postings
build_postings-balanced u v e w c n a expense (some k) t ps h =
    subst (IsBalancedEntry e w c n) (ok-injective h) (IsBalancedEntry-pair u v e w c n a k).0
build_postings-balanced u v e w c n a income (some k) t ps h =
    subst (IsBalancedEntry e w c n) (ok-injective h) (IsBalancedEntry-pair u v e w c n a k).1
build_postings-balanced u v e w c n a transfer k (some t) ps h =
    subst (IsBalancedEntry e w c n) (ok-injective h) (IsBalancedEntry-pair u v e w c n a t).0
build_postings-balanced u v e w c n a type k t ps h = absurd (cc)

-- The account that the money leaves and the one that it reaches, where the request names both.
abbrev pub flow : EntryType → Uuid → Option Uuid → Option Uuid → Option (Uuid × Uuid)
flow expense account (some category) transfer_to = some (account, category)
flow income account (some category) transfer_to = some (category, account)
flow transfer account category (some to) = some (account, to)
flow type account category transfer_to = none

-- The amount is credited to the account that the money leaves and debited to the one that it
-- reaches, and neither has any other posting, provided that they are two accounts.
pub build_postings-flow :
    (u v entry workspace : Uuid) (currency : Text) (amount : ℕ) (account : Uuid) (type : EntryType)
    (category_account transfer_to : Option Uuid) (from to : Uuid)
    → flow type account category_account transfer_to ≡ some (from, to)
    → from ≢ to
    → (ps : List PostingRow) × (build_postings u v entry workspace currency amount account type
          category_account transfer_to
        ≡ ok ps)
      × (account_credits from ps ≡ amount)
      × (account_debits from ps ≡ 0)
      × (account_debits to ps ≡ amount)
      × (account_credits to ps ≡ 0)
unfolding build_postings
build_postings-flow u v e w c n a expense (some k) t from to h ne =
    (money_out u v e w c n a k, refl, ground arith, ground arith, ground arith, ground arith)
build_postings-flow u v e w c n a income (some k) t from to h ne =
    (money_in u v e w c n a k, refl, ground arith, ground arith, ground arith, ground arith)
build_postings-flow u v e w c n a transfer k (some t) from to h ne =
    (money_out u v e w c n a t, refl, ground arith, ground arith, ground arith, ground arith)
build_postings-flow u v e w c n a type k t from to h ne = absurd (cc)
