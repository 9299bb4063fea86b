-- ===== src/Sync.antt =====
-- apps/api/src/sync/sync.service.ts: the delta endpoint. A table is the list of its rows that the
-- caller's row-level security shows, in the order of `updated_at` and the keys, as the query's
-- `order` asks. Timestamps and UUIDs are numbers in their order, the zero UUID is 0. The cursor's
-- JSON and base64url coding is left out: a cursor is its decoded value.
pub mod Order
pub mod Cursor
pub mod Pages
pub mod Changes
pub mod Sources
pub mod Deltas
mod Tests
use noorix_fin.Common.{
  ℕ, zero, suc, ◌+◌, ◌≡◌, Bool, true, false, ◌&&◌, ◌||◌, Option, some, none, List, [], ◌∷◌, ◌++◌,
  ◌==◌, ltb, if◌then◌else◌, filter, any, all, length, take, last, min,
}
use noorix_fin.Common.Text.{Text}
use noorix_fin.Common.Outcome.{Outcome, ok, err}

-- `source.table` and the properties of `changes`
pub data TableName : Type 0 where
  ledger_accounts categories journal_entries journal_postings tags journal_entry_tags
        notifications :
      TableName

abbrev pub table_number : TableName → ℕ
table_number ledger_accounts = 0
table_number categories = 1
table_number journal_entries = 2
table_number journal_postings = 3
table_number tags = 4
table_number journal_entry_tags = 5
table_number notifications = 6

-- A source: a table, or the part of `categories` that belongs to no workspace.
pub data SourceName : Type 0 where
  table : TableName → SourceName
  system_categories : SourceName

abbrev pub source_table : SourceName → TableName
source_table (table t) = t
source_table system_categories = categories

abbrev pub source_number : SourceName → ℕ
source_number (table t) = table_number t
source_number system_categories = 7

-- How many key columns a source has.
abbrev pub key_count : SourceName → ℕ
key_count (table journal_entry_tags) = 2
key_count (table t) = 1
key_count system_categories = 1

abbrev pub sources : List SourceName
sources =
    table ledger_accounts
    ∷ table categories
    ∷ table journal_entries
    ∷ table journal_postings
    ∷ table tags
    ∷ table journal_entry_tags
    ∷ system_categories
    ∷ table notifications
    ∷ []

pub record Row : Type 0 where
  pub workspace_id : Option ℕ
  pub updated_at : ℕ
  pub key : List ℕ
  pub columns : Text

pub record CursorPosition : Type 0 where
  pub updated_at : ℕ
  pub key : List ℕ

-- `sources` of a cursor
abbrev pub SyncCursor : Type 0
SyncCursor = List (SourceName × CursorPosition)

abbrev pub position_in : SyncCursor → SourceName → Option CursorPosition
position_in [] s = none
position_in ((t, p) ∷ rest) s =
    if source_number t == source_number s then some p else position_in rest s

-- `position.key[index] ?? ZERO_UUID`, and the key column of a row
abbrev pub key_at : List ℕ → ℕ → ℕ
key_at [] i = 0
key_at (k ∷ ks) zero = k
key_at (k ∷ ks) (suc i) = key_at ks i

-- One condition of a PostgREST filter.
pub data Condition : Type 0 where
  updated_gt updated_eq : ℕ → Condition
  key_gt key_eq : ℕ → ℕ → Condition

abbrev pub equal_prefix : CursorPosition → ℕ → List Condition
equal_prefix p zero = []
equal_prefix p (suc i) = equal_prefix p i ++ key_eq i (key_at p.key i) ∷ []

-- `and(...)` for the indices from `i` on, `n` of them
abbrev pub disjuncts : CursorPosition → ℕ → ℕ → List (List Condition)
disjuncts p i zero = []
disjuncts p i (suc n) =
    (updated_eq p.updated_at ∷ (equal_prefix p i ++ key_gt i (key_at p.key i) ∷ []))
    ∷ disjuncts p (suc i) n

-- `or(...)` of the conditions for `n` keys
unfoldable pub after_filter : CursorPosition → ℕ → List (List Condition)
after_filter p n = (updated_gt p.updated_at ∷ []) ∷ disjuncts p 0 n

-- What the conditions mean.
abbrev pub meets : Row → Condition → Bool
meets r (updated_gt t) = ltb t r.updated_at
meets r (updated_eq t) = r.updated_at == t
meets r (key_gt i k) = ltb k (key_at r.key i)
meets r (key_eq i k) = key_at r.key i == k

abbrev pub satisfies : List (List Condition) → Row → Bool
satisfies f r = any (λ conjunct. all (meets r) conjunct) f

abbrev pub is_workspace : Option ℕ → ℕ → Bool
is_workspace none w = false
is_workspace (some v) w = v == w

abbrev pub is_global : Option ℕ → Bool
is_global none = true
is_global (some v) = false

abbrev pub in_scope : SourceName → ℕ → Row → Bool
in_scope system_categories workspace r = is_global r.workspace_id
in_scope (table notifications) workspace r =
    is_workspace r.workspace_id workspace || is_global r.workspace_id
in_scope (table t) workspace r = is_workspace r.workspace_id workspace

abbrev pub zeros : ℕ → List ℕ
zeros zero = []
zeros (suc n) = 0 ∷ zeros n

pub record Query : Type 0 where
  pub cursor : SyncCursor
  pub since : Option ℕ
  pub limit : Option ℕ

abbrev or_number : Option ℕ → ℕ → ℕ
or_number none other = other
or_number (some n) other = n

abbrev pub limit_of : Query → ℕ
limit_of query = or_number query.limit 500

abbrev or_position : Option CursorPosition → CursorPosition → CursorPosition
or_position none other = other
or_position (some p) other = p

-- 0 is the epoch
abbrev pub start_of : Query → SourceName → CursorPosition
start_of query s =
    or_position (position_in query.cursor s)
      (record { updated_at = or_number query.since 0; key = zeros (key_count s) })

-- The database of one call: the rows of each table, or an error of the query of a source.
pub record Database : Type 0 where
  pub rows : TableName → List Row
  pub fails : SourceName → Bool

abbrev pub selected : Database → ℕ → SourceName → CursorPosition → List Row
selected db workspace s p =
    filter (satisfies (after_filter p (key_count s)))
      (filter (in_scope s workspace) (db.rows (source_table s)))

abbrev pub position_of : Row → CursorPosition
position_of r = record { updated_at = r.updated_at; key = r.key }

abbrev pub next_position : ℕ → ℕ → Option Row → CursorPosition
next_position server_time n none = record { updated_at = server_time; key = zeros n }
next_position server_time n (some r) = position_of r

abbrev pub Changes : Type 0
Changes = List (TableName × List Row)

-- `changes[name] = [...(changes[name] ?? []), ...rows]`
abbrev pub add_changes : TableName → List Row → Changes → Changes
add_changes t rows [] = (t, rows) ∷ []
add_changes t rows ((u, old) ∷ rest) =
    let later = add_changes t rows rest in
    if table_number u == table_number t then (u, old ++ rows) ∷ rest else (u, old) ∷ later

-- `max_rows` of supabase/config.toml: no answer of PostgREST has more rows
abbrev pub max_rows : ℕ
max_rows = 1000

pub record Delta : Type 0 where
  pub cursor : SyncCursor
  pub has_more : Bool
  pub changes : Changes

module _ (db : Database) (workspace server_time : ℕ) (query : Query) where
  -- the limit of the query, which PostgREST lowers to `max_rows`
  abbrev pub fetched : SourceName → List Row
  fetched s = take (min (limit_of query + 1) max_rows) (selected db workspace s (start_of query s))

  -- one source
  abbrev pub read_source : SourceName → Delta → Delta
  read_source s delta =
      let rows = take (limit_of query) (fetched s) in
      record {
        cursor = delta.cursor ++ (s, next_position server_time (key_count s) (last rows)) ∷ [];
        has_more = delta.has_more || ltb (limit_of query) (length (fetched s));
        changes = add_changes (source_table s) rows delta.changes;
      }

  -- the error is SYNC_FAILED, with the source
  abbrev pub read_sources : List SourceName → Delta → Outcome SourceName Delta
  read_sources [] delta = ok delta
  read_sources (s ∷ rest) delta =
      if db.fails s then err s else read_sources rest (read_source s delta)

  unfoldable pub get_delta : Outcome SourceName Delta
  get_delta = read_sources sources (record { cursor = []; has_more = false; changes = [] })
