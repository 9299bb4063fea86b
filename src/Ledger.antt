-- ===== src/Ledger.antt =====
-- apps/api/src/transactions/transactions.service.ts: the double-entry ledger. This file has the
-- rows that the service reads and writes, and what a caller supplies.
pub mod Postings
pub mod Request
pub mod Create
pub mod Balance
pub mod Reverse
pub mod Tags
pub mod Items
pub mod Entries
pub mod Tests
use noorix_fin.Common.{ℕ, Bool, Option, List}
use noorix_fin.Common.Text.{Text}

-- UUIDs, user ids and idempotency keys are only compared, so they are numbers.
abbrev pub Uuid : Type 0
Uuid = ℕ

-- `dto.type` or the column entry_type: any text that is none of the three is kept as it is
pub data EntryType : Type 0 where
  expense income transfer : EntryType
  other : Text → EntryType

-- the error codes that the service throws; the first two of them carry a message and no code
pub data LedgerError : Type 0 where
  create_failed postings_failed : LedgerError
  invalid_amount category_required destination_required invalid_type category_not_found :
      LedgerError

-- a row of journal_postings
pub record PostingRow : Type 0 where
  pub id : Uuid
  pub journal_entry_id : Uuid
  pub workspace_id : Uuid
  pub ledger_account_id : Uuid
  pub debit_minor : ℕ
  pub credit_minor : ℕ
  pub currency_code : Text
  pub base_amount_minor : ℕ

-- a row of journal_entries, as far as the service writes it
pub record EntryRow : Type 0 where
  pub id : Uuid
  pub workspace_id : Uuid
  pub entry_type : EntryType
  pub occurred_at : Text
  pub local_date : Text
  pub payee : Option Text
  pub note : Option Text
  pub status : Text
  pub source : Text
  pub reverses_entry_id : Option Uuid
  pub client_entry_id : Uuid
  pub idempotency_key_hash : Option Uuid
  pub created_by : Uuid
  pub posted_at : Text

-- a row of categories and one of ledger_accounts, as far as they are read here
pub record CategoryRow : Type 0 where
  pub id : Uuid
  pub workspace_id : Uuid
  pub ledger_account_id : Uuid

pub record AccountRow : Type 0 where
  pub id : Uuid
  pub workspace_id : Uuid
  pub is_deleted : Bool
  pub currency_code : Text

pub record TagRow : Type 0 where
  pub id : Uuid
  pub workspace_id : Uuid
  pub name : Text

pub record TagLink : Type 0 where
  pub journal_entry_id : Uuid
  pub workspace_id : Uuid
  pub tag_id : Uuid

pub record Db : Type 0 where
  pub entries : List EntryRow
  pub postings : List PostingRow
  pub categories : List CategoryRow
  pub accounts : List AccountRow
  pub tags : List TagRow
  pub links : List TagLink
