-- ===== src/Ledger/Reverse.antt =====
-- reverseTransaction of apps/api/src/transactions/transactions.service.ts and the SQL function
-- that it calls, reverse_journal_entry of supabase/migrations/00019_reverse_entry_atomic.sql.
-- The function is one transaction, so an exception leaves the rows as they were. The notification
-- that follows does not fail the call and writes to no table of the ledger. The column memo of the
-- postings is left out.
pub mod Restores
pub mod Again
mod Tests
use mathlib.Core.Option
use noorix_fin.Common.{
  ◌≡◌, Bool, ◌&&◌, Option, none, some, List, [], ◌∷◌, ◌++◌, map, ◌==◌, if◌then◌else◌, filter, any,
  find?, single,
}
use noorix_fin.Common.Text.{Text, codes, text_eq}
use noorix_fin.Common.Outcome.{Outcome, ok, err}
use noorix_fin.Ledger.{Uuid, other, PostingRow, EntryRow, Db}
use noorix_fin.Ledger.Request.{Created, read, postings_of, found_is}

-- what the RPC raises
pub data RpcError : Type 0 where
  entry_not_reversible entry_has_no_postings unique_violation rpc_failure : RpcError

pub data ReverseError : Type 0 where
  not_reversible no_postings already_reversed reversal_failed : ReverseError

-- What becomes of the request: it is answered, it fails and does nothing, or its answer is lost.
pub data Reply : Type 0 where
  answered failed lost : Reply

-- One call, with what it takes from outside: the random ids, the clock, the text of an id, and
-- which calls fail.
pub record ReverseCall : Type 0 where
  pub transaction : Uuid
  pub workspace : Uuid
  pub user : Uuid
  pub reversal_id : Uuid
  pub posting_id : Uuid → Uuid
  pub now : Text
  pub today : Text
  pub uuid_text : Uuid → Text
  pub rpc : Reply
  pub read_back : Bool

module _ (q : ReverseCall) where
  open q use {transaction, workspace, user, reversal_id, posting_id, now, today, uuid_text, rpc}

  abbrev pub is_reversible : EntryRow → Bool
  is_reversible e =
      e.id == transaction && (e.workspace_id == workspace && text_eq e.status (codes "POSTED"))

  abbrev pub reversal_entry : EntryRow → EntryRow
  reversal_entry original = record {
    id = reversal_id;
    workspace_id = original.workspace_id;
    entry_type = other (codes "REVERSAL");
    occurred_at = now;
    local_date = today;
    payee = none;
    note = some (codes "Reversal of " ++ uuid_text original.id);
    status = codes "POSTED";
    source = codes "MANUAL";
    reverses_entry_id = some original.id;
    client_entry_id = original.id;
    idempotency_key_hash = none;
    created_by = user;
    posted_at = now;
  }

  -- debit and credit swapped
  abbrev pub mirror : PostingRow → PostingRow
  mirror p = record {
    id = posting_id p.id;
    journal_entry_id = reversal_id;
    workspace_id = p.workspace_id;
    ledger_account_id = p.ledger_account_id;
    debit_minor = p.credit_minor;
    credit_minor = p.debit_minor;
    currency_code = p.currency_code;
    base_amount_minor = p.base_amount_minor;
  }

  abbrev pub insert_mirrored : EntryRow → List PostingRow → Db → Outcome RpcError Uuid × Db
  insert_mirrored original [] db = (err entry_has_no_postings, db)
  insert_mirrored original (p ∷ ps) db = (
    ok reversal_id,
    record db {
      entries = db.entries ++ reversal_entry original ∷ [];
      postings = db.postings ++ map mirror (p ∷ ps);
    },
  )

  -- idx_one_reversal_per_entry: an entry is reversed at most once
  abbrev pub is_reversed : Uuid → List EntryRow → Bool
  is_reversed original es = any (λ e. found_is e.reverses_entry_id original) es

  abbrev pub claimed : Option EntryRow → Db → Outcome RpcError Uuid × Db
  claimed none db = (err entry_not_reversible, db)
  claimed (some original) db =
      if is_reversed original.id db.entries
      then (err unique_violation, db)
      else insert_mirrored original (postings_of transaction db.postings) db

  abbrev pub reverse_journal_entry : Db → Outcome RpcError Uuid × Db
  reverse_journal_entry db = claimed (find? is_reversible db.entries) db

  abbrev pub rpc_answer : Reply → Db → Outcome RpcError Uuid × Db
  rpc_answer answered db = reverse_journal_entry db
  rpc_answer failed db = (err rpc_failure, db)
  rpc_answer lost db = (err rpc_failure, (reverse_journal_entry db).1)

  abbrev pub reverse_error : RpcError → ReverseError
  reverse_error entry_not_reversible = not_reversible
  reverse_error entry_has_no_postings = no_postings
  reverse_error unique_violation = already_reversed
  reverse_error rpc_failure = reversal_failed

  abbrev pub read_reversal : Uuid → Db → Option Created
  read_reversal id db = read q.read_back (
      Option.map (λ e. record { entry = e; postings = postings_of id db.postings })
        (single (filter (λ (e : EntryRow). e.id == id) db.entries)))

  abbrev pub mapped : Outcome RpcError Uuid × Db → Outcome ReverseError (Option Created) × Db
  mapped (err e, db) = (err (reverse_error e), db)
  mapped (ok id, db) = (ok (read_reversal id db), db)

  unfoldable pub reverse_transaction : Db → Outcome ReverseError (Option Created) × Db
  reverse_transaction db = mapped (rpc_answer rpc db)
