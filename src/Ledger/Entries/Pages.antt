-- ===== src/Ledger/Entries/Pages.antt =====
-- The pages of listTransactions, one after another.
use mathlib.Core.Option
use noorix_fin.Common.{
  ℕ, ◌≡◌, refl, ap, subst, inl, inr, true, Option, none, some, List, [], ◌∷◌, map, arith, ltb, ◌==◌,
  if◌then◌else◌, filter, length, take, last, All, Member,
}
use noorix_fin.Common.Text.{Text}
use noorix_fin.Common.Outcome.{Outcome}
use noorix_fin.Pagination.{Page}
use noorix_fin.Ledger.{Uuid, EntryRow, Db}
use noorix_fin.Ledger.Request.{truthy}
use noorix_fin.Ledger.Entries.{newest_first, is_older, matches, item}
use noorix_fin.Ledger.Items.{ListCall, Item, passes}

-- The same list with the cursor of a page.
abbrev pub next : ListCall → Text → ListCall
next q c = record q { cursor = some c }

-- the entries that a page shows
abbrev pub entries_of : Page Item → List EntryRow
entries_of page = map (λ (i : Item). i.entry) page.items

pub All-Member :
    (P : EntryRow → Type 0) (es : List EntryRow) (e : EntryRow) → All P es → Member e es → P e
All-Member P [] e h m = absurd m
All-Member P (x ∷ es) e h (inl here) = subst P here h.0
All-Member P (x ∷ es) e h (inr there) = All-Member P es e h.1 there

pub All-of_Member :
    (P : EntryRow → Type 0) (es : List EntryRow) → ((e : EntryRow) → Member e es → P e) → All P es
All-of_Member P [] h = tt
All-of_Member P (e ∷ es) h = (h e (inl refl), All-of_Member P es (λ x m. h x (inr m)))

module _ (q : ListCall) where
  open q use {time, limit, tag_id, category_id, faults}

  -- the entries that match, in their order
  abbrev selection : Option (List Uuid) → Db → List EntryRow
  selection ids db = newest_first q (filter (matches q ids) db.entries)

  pub entries_shown :
      (db : Db) (es : List EntryRow) → map (λ (i : Item). i.entry) (map (item q db) es) ≡ es
  entries_shown db [] = refl
  entries_shown db (e ∷ es) = ap (λ l. e ∷ l) (entries_shown db es)

  -- the database prints no instant as the empty text
  abbrev pub HasTimes : Db → Type 0
  HasTimes db = All (λ e. truthy (some e.occurred_at) ≡ some e.occurred_at) db.entries

  pub matches_parts :
      (ids : Option (List Uuid)) (e : EntryRow)
      → matches q ids e ≡ true
      → ((e.workspace_id == q.workspace) ≡ true)
        × (passes ids e.id ≡ true)
        × (is_older q (truthy q.cursor) e ≡ true)
  matches_parts ids e h = (ground arith, ground arith, ground arith)

  abbrev cursor_at : ℕ → List EntryRow → Option Text
  cursor_at n rows =
      if ltb n (length rows)
      then Option.map (λ (e : EntryRow). e.occurred_at) (last (take n rows))
      else none
