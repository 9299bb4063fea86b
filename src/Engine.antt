-- ===== src/Engine.antt =====
-- apps/mobile/src/sync/engine.ts, with upsertRows of apps/mobile/src/db/index.ts: one run of the
-- sync, push and then pull. A row is its primary key and its other columns, of which those that the
-- local schema lacks are dropped. The reads of the stored cursor and of the local schema succeed;
-- every other call may fail.
pub mod Pull
pub mod Overlap
mod Tests
use noorix_fin.Common.{
  ℕ, zero, suc, ◌+◌, ◌≡◌, Bool, true, false, not, ◌&&◌, Option, some, none, List, [], ◌∷◌, ◌++◌,
  map, ◌==◌, ltb, if◌then◌else◌, filter, any, length, take,
}
use noorix_fin.Common.Text.{Text, codes}
use noorix_fin.Common.Outcome.{Outcome, ok, err}
use noorix_fin.Queue.{QueuedMutation}
use noorix_fin.Queue.Transport.{ApiError, World}
use noorix_fin.Queue.Loop.{DrainResult, drain}
use noorix_fin.Sync.{
  TableName, ledger_accounts, categories, journal_entries, journal_postings, tags,
  journal_entry_tags, notifications, table_number,
}

pub data SyncState : Type 0 where
  idle syncing offline needs_attention failed : SyncState

pub record LocalRow : Type 0 where
  pub key : List ℕ
  pub columns : List (ℕ × Text)

pub record SyncResponse : Type 0 where
  pub cursor : Text
  pub has_more : Bool
  pub changes : TableName → List LocalRow

-- An error that stops the pull: of the API, or any other with its message.
pub data PullError : Type 0 where
  api : ApiError → PullError
  other : Text → PullError

-- The device: the tables of the workspace, the entries that are pending, and the stored cursor.
pub record Local : Type 0 where
  pub tables : TableName → List LocalRow
  pub pending : List (List ℕ)
  pub cursor : Option Text

abbrev pub syncable_tables : List TableName
syncable_tables =
    ledger_accounts ∷ categories ∷ journal_entries ∷ journal_postings ∷ tags ∷ journal_entry_tags
    ∷ notifications ∷ []

abbrev pub same_key : List ℕ → List ℕ → Bool
same_key [] [] = true
same_key (a ∷ ks) (b ∷ ls) = a == b && same_key ks ls
same_key ks ls = false

abbrev pub overlay : List (ℕ × Text) → List (ℕ × Text) → List (ℕ × Text)
overlay new old = filter (λ c. not (any (λ d. d.0 == c.0) new)) old ++ new

-- `INSERT ... ON CONFLICT DO UPDATE`
abbrev pub upsert_row : LocalRow → List LocalRow → List LocalRow
upsert_row r rows =
    if any (λ x. same_key x.key r.key) rows
    then map
        (λ x.
          if same_key x.key r.key then record x { columns = overlay r.columns x.columns } else x)
        rows
    else rows ++ r ∷ []

abbrev pub known_columns : (ℕ → Bool) → LocalRow → LocalRow
known_columns is_known r = record r { columns = filter (λ c. is_known c.0) r.columns }

abbrev pub upsert_rows : (ℕ → Bool) → List LocalRow → List LocalRow → List LocalRow
upsert_rows is_known [] rows = rows
upsert_rows is_known (r ∷ rs) rows =
    upsert_rows is_known rs (upsert_row (known_columns is_known r) rows)

-- The outside of one run. `store_fails` says in which page the transaction throws, and after how
-- many of the tables; `push_fails` that the drain throws, and the queue that it leaves then.
pub record Outside : Type 0 where
  pub queue_world : World
  pub push_fails : Option (Text × List QueuedMutation)
  pub fetch : ℕ → Option Text → Outcome PullError SyncResponse
  pub store_fails : ℕ → Option ℕ
  pub is_known : TableName → ℕ → Bool

abbrev pub rows_of : SyncResponse → List TableName → ℕ
rows_of response [] = 0
rows_of response (t ∷ ts) = length (response.changes t) + rows_of response ts

-- the transaction of one page
abbrev pub apply_page : Outside → SyncResponse → Local → Local
apply_page w response local = record {
  tables = λ t. upsert_rows (w.is_known t) (response.changes t) (local.tables t);
  pending =
      filter
        (λ k. not (any (λ (e : LocalRow). same_key e.key k) (response.changes journal_entries)))
        local.pending;
  cursor = some response.cursor;
}

-- `cursor ? ... : ''`
abbrev pub query_cursor : Option Text → Option Text
query_cursor none = none
query_cursor (some []) = none
query_cursor (some (c ∷ s)) = some (c ∷ s)

pub record Pulled : Type 0 where
  pub local : Local
  pub pulled : ℕ
  pub cursor : Option Text
  pub error : Option PullError

abbrev pub incomplete : PullError
incomplete = other (codes "SYNC_INCOMPLETE")

abbrev pub stop : Local → ℕ → Option Text → PullError → Pulled
stop local pulled cursor e = record {
  local = local;
  pulled = pulled;
  cursor = cursor;
  error = some e;
}

module _ (w : Outside) where
  -- after the transaction of a page: the next page, or the end of the loop
  abbrev pub after_page :
      (Option Text → ℕ → Local → Pulled)
      → SyncResponse
      → ℕ
      → Local
      → Option ℕ
      → Option Text
      → Pulled
  after_page next response pulled local (some done) cursor =
      stop local (pulled + rows_of response (take done syncable_tables)) cursor
        (other (codes "SQLITE_ERROR"))
  after_page next response pulled local none cursor =
      let total = pulled + rows_of response syncable_tables in
      let stored = apply_page w response local in
      let rest = next (some response.cursor) total stored in
      if response.has_more
      then rest
      else record { local = stored; pulled = total; cursor = some response.cursor; error = none }

  abbrev pub after_fetch :
      (Option Text → ℕ → Local → Pulled)
      → Outcome PullError SyncResponse
      → ℕ
      → Local
      → Option ℕ
      → Option Text
      → Pulled
  after_fetch next (err e) pulled local fault cursor = stop local pulled cursor e
  after_fetch next (ok response) pulled local fault cursor =
      after_page next response pulled local fault cursor

  -- the loop: `left` pages of MAX_PULL_PAGES are left, and this is the page `k`
  unfoldable pub pull : ℕ → ℕ → Option Text → ℕ → Local → Pulled
  pull zero k cursor pulled local = stop local pulled cursor incomplete
  pull (suc left) k cursor pulled local =
      after_fetch (pull left (suc k)) (w.fetch k (query_cursor cursor)) pulled local
        (w.store_fails k) cursor

pub record SyncOutcome : Type 0 where
  pub push : DrainResult
  pub pulled : ℕ
  pub cursor : Option Text
  pub state : SyncState
  pub error : Option Text

abbrev pub is_offline : PullError → Bool
is_offline (api e) = e.status == 0
is_offline (other message) = false

abbrev pub message_of : PullError → Text
message_of (api e) = e.message
message_of (other message) = message

abbrev pub end_state : DrainResult → Option PullError → SyncState
end_state push none = if ltb 0 push.parked then needs_attention else idle
end_state push (some e) = if is_offline e then offline else failed

abbrev pub end_error : Option PullError → Option Text
end_error none = none
end_error (some e) = some (message_of e)

abbrev pub nothing_pushed : DrainResult
nothing_pushed = record { sent = 0; parked = 0; deferred = 0; reclaimed = 0 }

abbrev pub max_pull_pages : ℕ
max_pull_pages = 1000

-- What one run leaves: the queue, the tables, and what it reports.
pub record Synced : Type 0 where
  pub queue : List QueuedMutation
  pub local : Local
  pub outcome : SyncOutcome

module _ (w : Outside) (workspace : ℕ) where
  abbrev pub pull_after : List QueuedMutation → DrainResult → Local → Synced
  pull_after queue push local =
      let p = pull w max_pull_pages 0 local.cursor 0 local in
      record {
        queue = queue;
        local = p.local;
        outcome = record {
          push = push;
          pulled = p.pulled;
          cursor = p.cursor;
          state = end_state push p.error;
          error = end_error p.error;
        };
      }

  abbrev pub push_failed : List QueuedMutation → Local → Text → Synced
  push_failed queue local message = record {
    queue = queue;
    local = local;
    outcome = record {
      push = nothing_pushed;
      pulled = 0;
      cursor = none;
      state = failed;
      error = some message;
    };
  }

  -- The loop of a drain always ends, so the first clause is never reached.
  abbrev pub after_push :
      Option (List QueuedMutation × DrainResult) → List QueuedMutation → Local → Synced
  after_push none queue local = push_failed queue local []
  after_push (some (queue', push)) queue local = pull_after queue' push local

  abbrev pub try_push : Option (Text × List QueuedMutation) → List QueuedMutation → Local → Synced
  try_push (some (message, left)) queue local = push_failed left local message
  try_push none queue local = after_push (drain w.queue_world workspace queue) queue local

  unfoldable pub execute : List QueuedMutation → Local → Synced
  execute queue local = try_push w.push_fails queue local
