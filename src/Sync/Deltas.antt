-- ===== src/Sync/Deltas.antt =====
-- One call of the delta endpoint as a whole: its pages, its changes and its cursor.
use noorix_fin.Common.{
  length-take, min, Member-split, ℕ, ◌+◌, ◌<◌, ◌≤◌, ◌≡◌, refl, sym, ap, ◌∙◌, subst, Bool, false,
  some, none, List, [], ◌∷◌, ltb, arith, any, length, take, last, Option-cases, ◌⊎◌, inl, inr,
  Member,
}
use noorix_fin.Common.Outcome.{ok}
use noorix_fin.Sync.{
  SourceName, source_table, key_count, sources, Row, CursorPosition, position_in, after_filter,
  satisfies, zeros, Query, limit_of, start_of, Database, selected, position_of, next_position,
  Delta, fetched, get_delta, max_rows,
}
use noorix_fin.Sync.Order.{after_filter_lem}
use noorix_fin.Sync.Changes.{rows_in}
use noorix_fin.Sync.Pages.{IsOrdered, page-append}
use noorix_fin.Sync.Sources.{
  page, next_of, is_cut, read_sources-cursor, read_sources-adds, last-take-nil, some-injective,
  last-some, any-Member, capped, uncut_whole, Member-sources, position_in-sources,
}

any-none : {A : Type 0} (f : A → Bool) (xs : List A) → ((x : A) → f x ≡ false) → any f xs ≡ false
any-none f [] h = refl
any-none f (x ∷ xs) h = ground (arith, h x, any-none f xs h)

-- With a limit of `max_rows`, which the endpoint accepts, the answer says that there is no more,
-- whatever the tables hold.
pub full_limit_hides_more :
    (db : Database) (workspace server_time : ℕ) (query : Query) (delta : Delta)
    → limit_of query ≡ max_rows
    → get_delta db workspace server_time query ≡ ok delta
    → delta.has_more ≡ false
unfolding get_delta
full_limit_hides_more db workspace server_time query delta full h =
    (read_sources-cursor db workspace server_time query sources
      (record { cursor = []; has_more = false; changes = [] }) delta h).1
    ∙ any-none (is_cut db workspace server_time query) sources (λ s.
      uncut (fetched db workspace server_time query s) (
        omega (
          arith,
          full,
          length-take (min (limit_of query + 1) max_rows)
              (selected db workspace s (start_of query s)),
        )))
  where
    uncut :
        (rows : List Row)
        → length rows ≤ limit_of query
        → ltb (limit_of query) (length rows) ≡ false
    uncut rows h = ground arith

module _ (db : Database) (workspace server_time : ℕ) (query : Query) (delta : Delta)
    (s : SourceName) where
  abbrev empty_delta : Delta
  empty_delta = record { cursor = []; has_more = false; changes = [] }

  get_delta-position :
      get_delta db workspace server_time query ≡ ok delta
      → position_in delta.cursor s ≡ some (next_of db workspace server_time query s)
  unfolding get_delta
  get_delta-position h =
      ap (λ c. position_in c s)
        (read_sources-cursor db workspace server_time query sources empty_delta delta h).0
      ∙ position_in-sources (next_of db workspace server_time query) s

  -- A row that a source's position selects is not lost: it is among the changes of its table, or the
  -- position of the new cursor selects it. The source's rows are in the order of the query, and the
  -- limit is not 0.
  pub get_delta-keeps :
      (r : Row)
      → IsOrdered (key_count s) (db.rows (source_table s))
      → 0 < limit_of query
      → get_delta db workspace server_time query ≡ ok delta
      → Member r (selected db workspace s (start_of query s))
      → Member r (rows_in (source_table s) delta.changes)
        ⊎ ((p : CursorPosition) × (position_in delta.cursor s ≡ some p)
            × Member r (selected db workspace s p))
  unfolding get_delta
  get_delta-keeps r ordered positive h found =
      let sel = selected db workspace s (start_of query s) in
      let k = min (limit_of query) max_rows in
      let whole = capped (limit_of query) max_rows sel in
      elim (Option-cases (last (page db workspace server_time query s))) [
        | inl empty ↦
            absurd (last-some k sel r (omega (arith, positive)) found (ap last (sym whole) ∙ empty))
        | inr (l, e) ↦
            let e' : last (take k sel) ≡ some l = ap last (sym whole) ∙ e in
            let all_rows = page-append db workspace s (start_of query s) k {l = l} ordered e' in
            elim (Member-split r (take k sel) _ (subst (Member r) (sym all_rows) found)) [
              | inl first ↦ inl (
                  read_sources-adds db workspace server_time query r s sources empty_delta delta h
                    (Member-sources s) (subst (Member r) (sym whole) first))
              | inr rest ↦ inr (
                position_of l,
                get_delta-position h ∙ ap (λ o. some (next_position server_time (key_count s) o)) e,
                rest,
              )
            ]
      ]

  -- If the limit is below `max_rows` and the answer says that there is no more, then every row that a
  -- source's position selects is among the changes of its table.
  pub get_delta_complete :
      (r : Row)
      → limit_of query < max_rows
      → get_delta db workspace server_time query ≡ ok delta
      → delta.has_more ≡ false
      → Member r (selected db workspace s (start_of query s))
      → Member r (rows_in (source_table s) delta.changes)
  unfolding get_delta
  get_delta_complete r below h done found =
      let more =
        (read_sources-cursor db workspace server_time query sources empty_delta delta h).1 in
      let uncut : ltb (limit_of query) (length (fetched db workspace server_time query s)) ≡ false =
        any-Member (is_cut db workspace server_time query) sources s (Member-sources s)
          (sym more ∙ done) in
      read_sources-adds db workspace server_time query r s sources empty_delta delta h
        (Member-sources s)
        (subst (Member r)
          (sym (
            uncut_whole (limit_of query) max_rows (selected db workspace s (start_of query s)) below
              uncut))
          found)

  -- When a source has nothing new, its position moves to the clock of the server, read before the
  -- query: no later call that starts there selects a row with an earlier `updated_at`, even one
  -- that was not in the table yet.
  pub late_row_skipped :
      (p : CursorPosition) (late : Row)
      → get_delta db workspace server_time query ≡ ok delta
      → selected db workspace s (start_of query s) ≡ []
      → position_in delta.cursor s ≡ some p
      → late.updated_at < server_time
      → satisfies (after_filter p (key_count s)) late ≡ false
  late_row_skipped p late h nothing at earlier =
      let empty : last (page db workspace server_time query s) ≡ none =
        ap last (capped (limit_of query) max_rows (selected db workspace s (start_of query s)))
        ∙ ap (λ xs. last (take (min (limit_of query) max_rows) xs)) nothing
        ∙ last-take-nil (min (limit_of query) max_rows) in
      let moved : record { updated_at = server_time; key = zeros (key_count s) } ≡ p =
        some-injective (
          sym (
            get_delta-position h ∙ ap (λ o. some (next_position server_time (key_count s) o)) empty)
          ∙ at) in
      subst (λ x. satisfies (after_filter x (key_count s)) late ≡ false) moved
        (after_filter_lem _ (key_count s) late ∙ ground arith)
