-- ===== src/Ledger/Entries/Sound.antt =====
-- What a page of listTransactions may show.
use noorix_fin.Common.{
  ℕ, zero, suc, ◌+◌, ◌<◌, ◌≡◌, sym, ap, ◌∙◌, subst, true, Option, none, some, List, [], ◌∷◌, map,
  ltb, ◌==◌, filter, length, take, if-elim, All, Member, filter-Member, ltb→lt, if-elim,
}
use noorix_fin.Common.Text.{Text}
use noorix_fin.Common.Outcome.{Outcome, ok, err, then_call}
use noorix_fin.Pagination.{Page, to_page}
use noorix_fin.Ledger.{Uuid, EntryRow, Db}
use noorix_fin.Ledger.Request.{truthy}
use noorix_fin.Ledger.Entries.{
  narrowed, is_older, matches, page_rows, item, query, list_with, list_transactions, category_ids,
}
use noorix_fin.Ledger.Items.{ListError, ListCall, Item, page_limit, unless_empty}
use noorix_fin.Ledger.Entries.Order.{newest_first-All}
use noorix_fin.Ledger.Entries.Pages.{entries_of, next, All-Member, All-of_Member, matches_parts}

All-take : (P : EntryRow → Type 0) (n : ℕ) (es : List EntryRow) → All P es → All P (take n es)
All-take P zero es h = tt
All-take P (suc n) [] h = tt
All-take P (suc n) (e ∷ es) h = (h.0, All-take P n es h.1)

module _ (q : ListCall) (db : Db) where
  open q use {workspace, cursor, limit, tag_id, category_id, faults}

  -- an entry of the workspace that is older than the cursor, if there is one
  abbrev pub IsShown : EntryRow → Type 0
  IsShown e =
      Member e db.entries
      × ((e.workspace_id == workspace) ≡ true)
      × (is_older q (truthy cursor) e ≡ true)

  abbrev IsSound : Outcome ListError (Page Item) → Type 0
  IsSound (err e) = Unit
  IsSound (ok page) = All IsShown (entries_of page)

  matched-IsShown : (ids : Option (List Uuid)) → All IsShown (filter (matches q ids) db.entries)
  matched-IsShown ids = All-of_Member IsShown (filter (matches q ids) db.entries) (λ e m.
      let (at, match) = filter-Member (matches q ids) db.entries {x = e} m in
      let parts = matches_parts q ids e match in (at, parts.0, parts.2))

  page_rows-IsShown : (ids : Option (List Uuid)) → All IsShown (page_rows q ids db)
  page_rows-IsShown ids =
      All-take IsShown (page_limit limit + 1) _
        (newest_first-All q IsShown (filter (matches q ids) db.entries) (matched-IsShown ids))

  -- items of shown entries, and the first of them
  items-IsShown :
      (es : List EntryRow)
      → All IsShown es
      → All IsShown (map (λ (i : Item). i.entry) (map (item q db) es))
  items-IsShown [] h = tt
  items-IsShown (e ∷ es) h = (h.0, items-IsShown es h.1)

  first-IsShown :
      (n : ℕ) (es : List EntryRow)
      → All IsShown es
      → All IsShown (map (λ (i : Item). i.entry) (take n (map (item q db) es)))
  first-IsShown zero es h = tt
  first-IsShown (suc n) [] h = tt
  first-IsShown (suc n) (e ∷ es) h = (h.0, first-IsShown n es h.1)

  page-IsSound :
      (n : ℕ) (es : List EntryRow)
      → All IsShown es
      → IsSound (ok (to_page (λ (i : Item). i.entry.occurred_at) (map (item q db) es) n))
  unfolding to_page
  page-IsSound n es h =
      if-elim (λ (items : List Item). All IsShown (map (λ (i : Item). i.entry) items))
        (ltb n (length (map (item q db) es))) (λ _. first-IsShown n es h) (λ _. items-IsShown es h)

  query-IsSound : (ids : Option (List Uuid)) → IsSound (query q ids db)
  query-IsSound ids =
      if-elim IsSound faults.read_entries (λ _. tt)
        (λ _. page-IsSound (page_limit limit) (page_rows q ids db) (page_rows-IsShown ids))

  unless_empty-IsSound :
      (g : Option (List Uuid) → Outcome ListError (Page Item))
      → ((ids : Option (List Uuid)) → IsSound (g ids))
      → (ids : Option (List Uuid)) → IsSound (unless_empty g ids)
  unless_empty-IsSound g h none = h none
  unless_empty-IsSound g h (some []) = tt
  unless_empty-IsSound g h (some (x ∷ ids)) = h (some (x ∷ ids))

  asked-IsSound :
      (o : Outcome ListError (Option (List Uuid))) → IsSound (then_call (list_with q db) o)
  asked-IsSound (err e) = tt
  asked-IsSound (ok ids) =
      unless_empty-IsSound _
        (λ ids. unless_empty-IsSound _ query-IsSound (narrowed q tag_id db ids)) ids

  list-IsSound : IsSound (list_transactions q db)
  unfolding list_transactions
  list-IsSound = asked-IsSound (category_ids q category_id db)

-- Every entry on a page is one of the ledger and the workspace, whatever the filters and the faults,
-- and if the page was asked for with a cursor, the entry is strictly older than the cursor. So an
-- entry with the cursor's own timestamp is on no page that the cursor leads to.
pub next_page_older :
    (q : ListCall) (c : Text) (db : Db) (page : Page Item) (e : EntryRow)
    → truthy (some c) ≡ some c
    → list_transactions (next q c) db ≡ ok page
    → Member e (entries_of page)
    → Member e db.entries
      × ((e.workspace_id == q.workspace) ≡ true)
      × (q.time e.occurred_at < q.time c)
next_page_older q c db page e is_time answered shown =
    let sound = subst (IsSound (next q c) db) answered (list-IsSound (next q c) db) in
    let (at, ws, older) = All-Member (IsShown (next q c) db) (entries_of page) e sound shown in
    (at, ws, ltb→lt _ _ (sym (ap (λ o. is_older (next q c) o e) is_time) ∙ older))
