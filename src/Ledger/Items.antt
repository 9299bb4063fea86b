-- ===== src/Ledger/Items.antt =====
-- The items, the details and the filters of listTransactions and getTransaction of
-- apps/api/src/transactions/transactions.service.ts. The attachments of an entry are left out. An amount
-- is computed with exact numbers, as the service's doubles are below 2^53.
use noorix_fin.Common.{
  ℕ, ◌+◌, ◌/◌, Bool, true, false, Option, none, some, List, [], ◌∷◌, ◌==◌, if◌then◌else◌, filter,
  any, find?,
}
use mathlib.Core.Option
use noorix_fin.Common.Text.{Text}
use noorix_fin.Common.Outcome.{Outcome, ok}
use noorix_fin.Pagination.{Page}
use noorix_fin.Ledger.{Uuid, PostingRow, EntryRow, TagRow, TagLink}

pub data ListError : Type 0 where
  category_not_found list_failed transaction_not_found : ListError

-- Which calls of one run fail.
pub record ListFaults : Type 0 where
  pub read_category : Bool
  pub read_matches : Bool
  pub read_tagged : Bool
  pub read_entries : Bool
  pub read_postings : Bool
  pub read_reversals : Bool
  pub read_links : Bool

pub record ListCall : Type 0 where
  pub workspace : Uuid
  pub cursor : Option Text
  pub limit : Option ℕ
  pub category_id : Option Uuid
  pub tag_id : Option Uuid
  pub time : Text → ℕ
  pub locale_sort : List Text → List Text
  pub faults : ListFaults

-- an entry as the list shows it
pub record Item : Type 0 where
  pub entry : EntryRow
  pub amount_minor : ℕ
  pub currency_code : Option Text
  pub ledger_account_ids : List Uuid
  pub reversed : Bool
  pub tags : List Text

-- an entry as its page shows it
pub record Detail : Type 0 where
  pub entry : EntryRow
  pub postings : List PostingRow
  pub reversed : Bool
  pub tags : List Text

abbrev pub has_id : List Uuid → Uuid → Bool
has_id ids x = any (λ y. y == x) ids

-- `[...new Set(ids)]`: each id once, at its first place; `seen` stands before.
abbrev pub distinct_ids_after : List Uuid → List Uuid → List Uuid
distinct_ids_after seen [] = []
distinct_ids_after seen (x ∷ xs) =
    let again = distinct_ids_after seen xs in
    let first = distinct_ids_after (x ∷ seen) xs in if has_id seen x then again else x ∷ first

abbrev pub distinct_ids : List Uuid → List Uuid
distinct_ids ids = distinct_ids_after [] ids

-- `reduce`, the sum of both sides of every posting
abbrev pub total_of : List PostingRow → ℕ
total_of [] = 0
total_of (p ∷ ps) = p.debit_minor + p.credit_minor + total_of ps

-- `Math.round(total / 2)`
abbrev pub amount_of : List PostingRow → ℕ
amount_of ps = (total_of ps + 1) / 2

abbrev pub first_currency : List PostingRow → Option Text
first_currency [] = none
first_currency (p ∷ ps) = some p.currency_code

-- the empty text is falsy
abbrev pub named : Option Text → List Text → List Text
named none names = names
named (some []) names = names
named (some (c ∷ s)) names = (c ∷ s) ∷ names

-- the list that a failed read leaves empty
abbrev pub found_rows {ℓ} : {A : Type ℓ} → Bool → List A → List A
found_rows true rows = []
found_rows false rows = rows

-- the names of the tags that links embed
abbrev pub link_names : List TagRow → List TagLink → List Text
link_names tags [] = []
link_names tags (l ∷ ls) =
    let rest = link_names tags ls in
    named (Option.map (λ (t : TagRow). t.name) (find? (λ t. t.id == l.tag_id) tags)) rest

abbrev pub intersect : Option (List Uuid) → List Uuid → List Uuid
intersect none tagged = tagged
intersect (some ids) tagged = filter (has_id tagged) ids

abbrev pub passes : Option (List Uuid) → Uuid → Bool
passes none x = true
passes (some ids) x = has_id ids x

abbrev pub page_limit : Option ℕ → ℕ
page_limit none = 20
page_limit (some n) = n

abbrev pub no_page : Page Item
no_page = record { items = []; next_cursor = none; has_more = false }

-- `.in('id', [])` would be no filter at all, so an empty filter returns an empty page.
abbrev pub unless_empty :
    (Option (List Uuid) → Outcome ListError (Page Item))
    → Option (List Uuid)
    → Outcome ListError (Page Item)
unless_empty next none = next none
unless_empty next (some []) = ok no_page
unless_empty next (some (x ∷ ids)) = next (some (x ∷ ids))

-- `.maybeSingle()`: more than one reversal is an error, and its data null
abbrev pub is_some {ℓ} : {A : Type ℓ} → Option A → Bool
is_some none = false
is_some (some a) = true
