-- ===== src/Sync/Sources.antt =====
-- One call of the delta endpoint, source by source: its cursor and its changes.
use noorix_fin.Common.{
  take-take, take-take-min, min, ℕ, zero, suc, ◌+◌, ◌<◌, ◌≡◌, refl, sym, ap, ◌∙◌, subst, Bool,
  false, ◌||◌, some, none, List, [], ◌∷◌, ◌++◌, map, ltb, arith, any, length, take, last,
  Bool-cases, inl, inr, append_assoc, append-nil, ◌≢◌, Member,
}
use noorix_fin.Common.Outcome.{ok, err, ok-injective}
use noorix_fin.Sync.{
  TableName, ledger_accounts, categories, journal_entries, journal_postings, tags,
  journal_entry_tags, notifications, SourceName, table, system_categories, source_table, key_count,
  sources, Row, CursorPosition, position_in, Query, limit_of, Database, next_position, add_changes,
  Delta, fetched, read_source, read_sources,
}
use noorix_fin.Sync.Changes.{rows_in, rows_in-keeps, rows_in-adds}

err≢ok : {s : SourceName} {d : Delta} → err s ≢ ok d
err≢ok h = cc

or_assoc : (a b c : Bool) → ((a || b) || c) ≡ (a || (b || c))
or_assoc a b c = ground arith

module _ (db : Database) (workspace server_time : ℕ) (query : Query) where
  abbrev pub page : SourceName → List Row
  page s = take (limit_of query) (fetched db workspace server_time query s)

  abbrev pub next_of : SourceName → CursorPosition
  next_of s = next_position server_time (key_count s) (last (page s))

  abbrev pub is_cut : SourceName → Bool
  is_cut s = ltb (limit_of query) (length (fetched db workspace server_time query s))

  pub read_sources-cursor :
      (ss : List SourceName) (delta delta' : Delta)
      → read_sources db workspace server_time query ss delta ≡ ok delta'
      → (delta'.cursor ≡ delta.cursor ++ map (λ s. (s, next_of s)) ss)
        × (delta'.has_more ≡ (delta.has_more || any is_cut ss))
  read_sources-cursor [] delta delta' h =
      subst
        (λ (d : Delta). (d.cursor ≡ delta.cursor ++ []) × (d.has_more ≡ (delta.has_more || false)))
        (ok-injective h) (sym (append-nil delta.cursor), ground arith)
  read_sources-cursor (s ∷ ss) delta delta' h = elim (Bool-cases (db.fails s)) [
    | inl failed ↦ absurd (err≢ok (rw failed at h))
    | inr works ↦
        let (cursor, more) =
          read_sources-cursor ss (read_source db workspace server_time query s delta) delta'
            (rw works at h) in
        (
          cursor ∙ append_assoc delta.cursor ((s, next_of s) ∷ []) _,
          more ∙ or_assoc delta.has_more _ _,
        )
  ]

module _ (db : Database) (workspace server_time : ℕ) (query : Query) (r : Row) where
  read_sources-keeps :
      (t : TableName) (ss : List SourceName) (delta delta' : Delta)
      → read_sources db workspace server_time query ss delta ≡ ok delta'
      → Member r (rows_in t delta.changes)
      → Member r (rows_in t delta'.changes)
  read_sources-keeps t [] delta delta' h found =
      subst (λ (d : Delta). Member r (rows_in t d.changes)) (ok-injective h) found
  read_sources-keeps t (s ∷ ss) delta delta' h found = elim (Bool-cases (db.fails s)) [
    | inl failed ↦ absurd (err≢ok (rw failed at h))
    | inr works ↦
        read_sources-keeps t ss (read_source db workspace server_time query s delta) delta'
          (rw works at h)
          (rows_in-keeps r t (source_table s) (page db workspace server_time query s) delta.changes
            found)
  ]

  pub read_sources-adds :
      (s : SourceName) (ss : List SourceName) (delta delta' : Delta)
      → read_sources db workspace server_time query ss delta ≡ ok delta'
      → Member s ss
      → Member r (page db workspace server_time query s)
      → Member r (rows_in (source_table s) delta'.changes)
  read_sources-adds s [] delta delta' h at found = absurd at
  read_sources-adds s (s' ∷ ss) delta delta' h at found = elim (Bool-cases (db.fails s')) [
    | inl failed ↦ absurd (err≢ok (rw failed at h))
    | inr works ↦
        let h' = rw works at h in
        let after = read_source db workspace server_time query s' delta in
        elim at [
          | inl here ↦ read_sources-keeps (source_table s) ss after delta' h' (
              subst
                (λ x. Member r (
                  rows_in (source_table s) (
                    add_changes (source_table x) (page db workspace server_time query x)
                      delta.changes)))
                (sym here)
                (rows_in-adds r (source_table s) (page db workspace server_time query s)
                  delta.changes found))
          | inr there ↦ read_sources-adds s ss after delta' h' there found
        ]
  ]

abbrev no_rows : List Row
no_rows = []

pub last-take-nil : (k : ℕ) → last (take k no_rows) ≡ none
last-take-nil zero = refl
last-take-nil (suc k) = refl

pub some-injective : {p q : CursorPosition} → some p ≡ some q → p ≡ q
some-injective h = cc

pub last-some : (k : ℕ) (xs : List Row) (r : Row) → 0 < k → Member r xs → last (take k xs) ≢ none
last-some zero xs r h found = absurd (omega (arith, h))
last-some (suc k) [] r h found = absurd found
last-some (suc zero) (x ∷ xs) r h found = λ e. cc
last-some (suc (suc k)) (x ∷ []) r h found = λ e. cc
last-some (suc (suc k)) (x ∷ y ∷ xs) r h found =
    last-some (suc k) (y ∷ xs) y (omega arith) (inl refl)

pub any-Member :
    {A : Type 0} (f : A → Bool) (xs : List A) (x : A) → Member x xs → any f xs ≡ false → f x ≡ false
any-Member f [] x found h = absurd found
any-Member f (y ∷ ys) x (inl here) h = ap f (sym here) ∙ ground arith
any-Member f (y ∷ ys) x (inr there) h = any-Member f ys x there (ground arith)

-- A page has as many rows as the limit and `max_rows` allow.
pub capped : (k m : ℕ) (xs : List Row) → take k (take (min (k + 1) m) xs) ≡ take (min k m) xs
capped k m xs =
    let same : min k (min (k + 1) m) ≡ min k m = omega arith in
    take-take-min k (min (k + 1) m) xs ∙ ap (λ n. take n xs) same

pub uncut_whole :
    (k m : ℕ) (xs : List Row)
    → k < m
    → ltb k (length (take (min (k + 1) m) xs)) ≡ false
    → take k (take (min (k + 1) m) xs) ≡ xs
uncut_whole k m xs below h =
    let plain : min (k + 1) m ≡ k + 1 = omega (arith, below) in
    ap (λ n. take k (take n xs)) plain
    ∙ take-take k xs
    ∙ fits k xs (ap (λ n. ltb k (length (take n xs))) (sym plain) ∙ h)
  where
    fits : (i : ℕ) (ys : List Row) → ltb i (length (take (i + 1) ys)) ≡ false → take i ys ≡ ys
    fits zero [] h = refl
    fits zero (y ∷ ys) h = absurd (cc)
    fits (suc i) [] h = refl
    fits (suc i) (y ∷ ys) h = ap (λ l. y ∷ l) (fits i ys (ground arith))

pub Member-sources : (s : SourceName) → Member s sources
Member-sources (table ledger_accounts) = inl refl
Member-sources (table categories) = inr (inl refl)
Member-sources (table journal_entries) = inr (inr (inl refl))
Member-sources (table journal_postings) = inr (inr (inr (inl refl)))
Member-sources (table tags) = inr (inr (inr (inr (inl refl))))
Member-sources (table journal_entry_tags) = inr (inr (inr (inr (inr (inl refl)))))
Member-sources system_categories = inr (inr (inr (inr (inr (inr (inl refl))))))
Member-sources (table notifications) = inr (inr (inr (inr (inr (inr (inr (inl refl)))))))

pub position_in-sources :
    (f : SourceName → CursorPosition) (s : SourceName)
    → position_in (map (λ x. (x, f x)) sources) s ≡ some (f s)
position_in-sources f (table ledger_accounts) = refl
position_in-sources f (table categories) = refl
position_in-sources f (table journal_entries) = refl
position_in-sources f (table journal_postings) = refl
position_in-sources f (table tags) = refl
position_in-sources f (table journal_entry_tags) = refl
position_in-sources f system_categories = refl
position_in-sources f (table notifications) = refl
