-- ===== src/Sync/Tests.antt =====
-- Three tags and two of them a page, on which the theorems about the delta endpoint are applied.
use noorix_fin.Common.{
  ℕ, zero, suc, ◌≡◌, refl, ◌⊎◌, inl, inr, true, false, some, none, List, [], ◌∷◌, arith, map,
  Member,
}
use noorix_fin.Common.Outcome.{ok}
use noorix_fin.Sync.{
  TableName, ledger_accounts, categories, journal_entries, journal_postings, tags,
  journal_entry_tags, notifications, SourceName, table, key_count, sources, Row, CursorPosition,
  position_in, SyncCursor, after_filter, satisfies, zeros, Query, Database, selected, start_of,
  Delta, get_delta,
}
use noorix_fin.Sync.Order.{is_after, after_filter_lem}
use noorix_fin.Sync.Changes.{rows_in}
use noorix_fin.Sync.Deltas.{
  get_delta-keeps, get_delta_complete, full_limit_hides_more, late_row_skipped,
}

abbrev tag_row : ℕ → ℕ → Row
tag_row time i = record { workspace_id = some 3; updated_at = time; key = i ∷ []; columns = [] }

abbrev tag_rows : TableName → List Row
tag_rows tags = tag_row 10 1 ∷ tag_row 10 2 ∷ tag_row 20 1 ∷ []
tag_rows t = []

abbrev tag_database : Database
tag_database = record { rows = tag_rows; fails = λ s. false }

abbrev first_query : ℕ → Query
first_query n = record { cursor = []; since = none; limit = some n }

abbrev position_at : ℕ → ℕ → SourceName → CursorPosition
position_at time i (table tags) = record { updated_at = time; key = i ∷ [] }
position_at time i s = record { updated_at = 99; key = zeros (key_count s) }

-- the cursor when a source without rows is at time 99
abbrev cursor_at : ℕ → ℕ → SyncCursor
cursor_at time i = map (λ s. (s, position_at time i s)) sources

after_filter_lem_example :
    satisfies (after_filter (record { updated_at = 10; key = 1 ∷ [] }) 1) (tag_row 10 2)
    ≡ is_after 1 (record { updated_at = 10; key = 1 ∷ [] }) (tag_row 10 2)
after_filter_lem_example =
    after_filter_lem (record { updated_at = 10; key = 1 ∷ [] }) 1 (tag_row 10 2)

abbrev changes_of : List Row → List (TableName × List Row)
changes_of rows =
    (ledger_accounts, [])
    ∷ (categories, [])
    ∷ (journal_entries, [])
    ∷ (journal_postings, [])
    ∷ (tags, rows)
    ∷ (journal_entry_tags, [])
    ∷ (notifications, [])
    ∷ []

abbrev first_delta : Delta
first_delta = record {
  cursor = cursor_at 10 2;
  has_more = true;
  changes = changes_of (tag_row 10 1 ∷ tag_row 10 2 ∷ []);
}

abbrev whole_delta : Delta
whole_delta = record {
  cursor = cursor_at 20 1;
  has_more = false;
  changes = changes_of (tag_rows tags);
}

first_page : get_delta tag_database 3 99 (first_query 2) ≡ ok first_delta
unfolding get_delta after_filter
first_page = refl

whole_page : get_delta tag_database 3 99 (first_query 9) ≡ ok whole_delta
unfolding get_delta after_filter
whole_page = refl

third_selected :
    (n : ℕ)
    → Member
        (tag_row 20 1)
        (selected tag_database 3 (table tags) (start_of (first_query n) (table tags)))
unfolding after_filter
third_selected n = inr (inr (inl refl))

get_delta-keeps_example :
    Member (tag_row 20 1) (rows_in tags first_delta.changes)
    ⊎ ((p : CursorPosition) × (position_in first_delta.cursor (table tags) ≡ some p)
        × Member (tag_row 20 1) (selected tag_database 3 (table tags) p))
get_delta-keeps_example =
    get_delta-keeps tag_database 3 99 (first_query 2) first_delta (table tags) (tag_row 20 1)
      ((refl, (refl, tt)), ((refl, tt), (tt, tt))) (omega arith) first_page (third_selected 2)

get_delta_complete_example : Member (tag_row 20 1) (rows_in tags whole_delta.changes)
get_delta_complete_example =
    get_delta_complete tag_database 3 99 (first_query 9) whole_delta (table tags) (tag_row 20 1)
      (omega arith) whole_page refl (third_selected 9)

no_accounts :
    selected tag_database 3
      (table ledger_accounts)
      (start_of (first_query 2) (table ledger_accounts))
    ≡ []
no_accounts = refl

late_row_skipped_example :
    satisfies (after_filter (record { updated_at = 99; key = 0 ∷ [] }) 1) (tag_row 98 5) ≡ false
late_row_skipped_example =
    late_row_skipped tag_database 3 99 (first_query 2) first_delta (table ledger_accounts)
      (record { updated_at = 99; key = 0 ∷ [] }) (tag_row 98 5) first_page no_accounts refl
      (omega arith)

-- `n` rows with the keys from `i` on
abbrev numbered : ℕ → ℕ → List Row
numbered i zero = []
numbered i (suc n) = tag_row 10 i ∷ numbered (suc i) n

abbrev many_rows : TableName → List Row
many_rows tags = numbered 1 1001
many_rows t = []

abbrev many_tags : Database
many_tags = record { rows = many_rows; fails = λ s. false }

-- One row of 1001 is missing.
abbrev cut_delta : Delta
cut_delta = record {
  cursor = cursor_at 10 1000;
  has_more = false;
  changes = changes_of (numbered 1 1000);
}

cut_page : get_delta many_tags 3 99 (first_query 1000) ≡ ok cut_delta
unfolding get_delta after_filter
cut_page = refl

full_limit_hides_more_example : cut_delta.has_more ≡ false
full_limit_hides_more_example =
    full_limit_hides_more many_tags 3 99 (first_query 1000) cut_delta refl cut_page
