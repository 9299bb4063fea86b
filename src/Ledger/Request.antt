-- ===== src/Ledger/Request.antt =====
-- What one call of createTransaction of apps/api/src/transactions/transactions.service.ts takes, and the
-- reads and tests that the operations on the ledger share.
use noorix_fin.Common.{
  Bool, true, false, ◌&&◌, Option, some, none, List, [], ◌∷◌, ◌++◌, map, ◌==◌, if◌then◌else◌,
  filter, any,
}
use noorix_fin.Common.Text.{Text, text_eq, distinct}
use noorix_fin.Ledger.{Uuid, EntryType, PostingRow, EntryRow, TagRow}

pub record CreateTransaction : Type 0 where
  pub type : EntryType
  pub amount : Text
  pub account_id : Uuid
  pub category_id : Option Uuid
  pub transfer_to_account_id : Option Uuid
  pub occurred_at : Option Text
  pub payee : Option Text
  pub note : Option Text
  pub tags : List Text
  pub idempotency_key : Uuid

-- Which calls of one run fail.
pub record Faults : Type 0 where
  pub find_existing : Bool
  pub insert_entry : Bool
  pub find_winner : Bool
  pub read_postings : Bool
  pub read_account : Bool
  pub read_category : Bool
  pub insert_postings : Bool
  pub delete_entry : Bool
  pub upsert_tags : Bool
  pub read_tags : Bool
  pub link_tags : Bool

-- What one run takes from outside: the random ids, the clock, and the faults.
pub record Run : Type 0 where
  pub now : Text
  pub entry_id : Uuid
  pub first_posting_id : Uuid
  pub second_posting_id : Uuid
  pub tag_id : Text → Uuid
  pub faults : Faults

-- the data of a read that may fail
abbrev pub read {ℓ} : {A : Type ℓ} → Bool → Option A → Option A
read true found = none
read false found = found

-- `text || null`, `text || other`: the empty text counts as absent
abbrev pub truthy : Option Text → Option Text
truthy none = none
truthy (some []) = none
truthy (some (c ∷ s)) = some (c ∷ s)

abbrev pub or_else : Option Text → Text → Text
or_else none other_text = other_text
or_else (some []) other_text = other_text
or_else (some (c ∷ s)) other_text = c ∷ s

-- `occurredAt.split('T')[0]`
abbrev pub date_part : Text → Text
date_part [] = []
date_part (c ∷ s) = let rest = date_part s in if c == b'T' then [] else c ∷ rest

abbrev pub postings_of : Uuid → List PostingRow → List PostingRow
postings_of e ps = filter (λ p. p.journal_entry_id == e) ps

pub record Created : Type 0 where
  pub entry : EntryRow
  pub postings : List PostingRow

-- `(user, hash)` is unique in journal_entries: migration 00002, idx_idempotency
abbrev pub found_is : Option Uuid → Uuid → Bool
found_is none h = false
found_is (some k) h = k == h

abbrev pub is_taken : Uuid → Uuid → List EntryRow → Bool
is_taken user hash es = any (λ e. e.created_by == user && found_is e.idempotency_key_hash hash) es

-- The tags that one upsert with `ignoreDuplicates` adds, one for each name that is new.
abbrev pub has_tag : Uuid → Text → List TagRow → Bool
has_tag workspace name rows = any (λ t. t.workspace_id == workspace && text_eq t.name name) rows

unfoldable pub upsert_tags : Uuid → (Text → Uuid) → List Text → List TagRow → List TagRow
upsert_tags workspace fresh [] rows = rows
upsert_tags workspace fresh (name ∷ names) rows = upsert_tags workspace fresh names (
    if has_tag workspace name rows
    then rows
    else rows ++ record { id = fresh name; workspace_id = workspace; name = name } ∷ [])

abbrev pub non_empty : Text → Bool
non_empty [] = false
non_empty (c ∷ s) = true

abbrev pub canonical_names : (Text → Text) → List Text → List Text
canonical_names canonical names = distinct (filter non_empty (map canonical names))

-- One call. `hash` is the SHA-256 of the user and the key, `canonical` the JavaScript library's
-- `trim().toLocaleLowerCase('en-US')`; `source` is `options.source ?? 'MANUAL'`.
pub record Call : Type 0 where
  pub hash : Uuid → Uuid → Uuid
  pub canonical : Text → Text
  pub workspace : Uuid
  pub user : Uuid
  pub source : Text
  pub run : Run
  pub dto : CreateTransaction
