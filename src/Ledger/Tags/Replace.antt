-- ===== src/Ledger/Tags/Replace.antt =====
-- What replaceTransactionTags does to the links between entries and tags.
use noorix_fin.Common.{
  ◌≡◌, refl, sym, ap, ◌∙◌, ◌⊎◌, inl, inr, true, false, not, ◌&&◌, Option, none, some, List, [], ◌∷◌,
  ◌++◌, map, arith, ◌==◌, filter, any, all, if-elim, ==_refl, filter-append, filter-none,
  filter-every, filter-filter-not, filter_twice, append-nil,
}
use noorix_fin.Common.Text.{Text}
use noorix_fin.Common.Outcome.{Outcome, ok, err}
use noorix_fin.Ledger.{Uuid, EntryRow, TagRow, TagLink, Db}
use noorix_fin.Ledger.Request.{canonical_names}
use noorix_fin.Ledger.Tags.{
  TagError, links_failed, TagCall, is_link_of, link_to, named_tags, insert_links, unlinked, relink,
  with_upserted, replace_with, found_entry, for_entry, replace_transaction_tags,
}

module _ (q : TagCall) (entry : Uuid) where
  open q use {canonical, workspace, faults}

  -- the links of the entry in the workspace, and all the others
  abbrev pub own_links : Db → List TagLink
  own_links db = filter (is_link_of q entry) db.links

  abbrev pub other_links : Db → List TagLink
  other_links db = filter (λ l. not (is_link_of q entry l)) db.links

  abbrev pub IsLedgerSame : Db → Db → Type 0
  IsLedgerSame db db' = (db'.entries ≡ db.entries) × (db'.postings ≡ db.postings)

  link_own : (ts : List TagRow) → all (is_link_of q entry) (map (link_to q entry) ts) ≡ true
  link_own [] = refl
  link_own (t ∷ ts) = simp ==_refl (link_own ts)

  link_not_other :
      (ts : List TagRow) → any (λ l. not (is_link_of q entry l)) (map (link_to q entry) ts) ≡ false
  link_not_other [] = refl
  link_not_other (t ∷ ts) = simp ==_refl (link_not_other ts)

  -- What is left when the links of the entry were removed and new ones added.
  own-linked :
      (db : Db) (ts : List TagRow)
      → filter (is_link_of q entry) ((unlinked q entry db).links ++ map (link_to q entry) ts)
        ≡ map (link_to q entry) ts
  own-linked db ts =
      filter-append (is_link_of q entry) (unlinked q entry db).links (map (link_to q entry) ts)
      ∙ ap (λ l. l ++ filter (is_link_of q entry) (map (link_to q entry) ts))
          (filter-filter-not (is_link_of q entry) db.links)
      ∙ filter-every (is_link_of q entry) (map (link_to q entry) ts) (link_own ts)

  others-linked :
      (db : Db) (ts : List TagRow)
      → filter
          (λ l. not (is_link_of q entry l))
          ((unlinked q entry db).links ++ map (link_to q entry) ts)
        ≡ other_links db
  others-linked db ts =
      let other = λ (l : TagLink). not (is_link_of q entry l) in
      filter-append other (unlinked q entry db).links (map (link_to q entry) ts)
      ∙ ap (λ l. filter other (unlinked q entry db).links ++ l)
          (filter-none other (map (link_to q entry) ts) (link_not_other ts))
      ∙ append-nil _
      ∙ filter_twice other db.links

  -- A success leaves the entry with a link to each tag that was found by the names; a failure keeps
  -- its links or, when the new ones cannot be inserted, loses them.
  abbrev pub ReplaceEffect : List Text → Db → Outcome TagError (List Text) × Db → Type 0
  ReplaceEffect names db (ok ns, db') =
      (ns ≡ names)
      × (own_links db' ≡ map (link_to q entry) (named_tags q names db'))
      × (other_links db' ≡ other_links db)
      × IsLedgerSame db db'
  ReplaceEffect names db (err e, db') =
      ((own_links db' ≡ own_links db) ⊎ ((e ≡ links_failed) × (own_links db' ≡ [])))
      × (other_links db' ≡ other_links db)
      × IsLedgerSame db db'

  named_none : (db : Db) → named_tags q [] db ≡ []
  named_none db =
      if-elim (λ l. l ≡ []) faults.read_tags (λ _. refl)
        (λ _. filter-none _ db.tags (none_named db.tags))
    where
      none_named :
          (ts : List TagRow) → any (λ (t : TagRow). t.workspace_id == workspace && false) ts ≡ false
      none_named [] = refl
      none_named (t ∷ ts) = ground (arith, none_named ts)

  insert_links-Effect :
      (names : List Text) (db : Db) (ts : List TagRow)
      → named_tags q names db ≡ ts
      → ReplaceEffect names db (insert_links q entry names ts (unlinked q entry db))
  insert_links-Effect names db [] found = (
    refl,
    filter-filter-not (is_link_of q entry) db.links ∙ ap (map (link_to q entry)) (sym found),
    filter_twice _ db.links,
    (refl, refl),
  )
  insert_links-Effect names db (t ∷ ts) found =
      if-elim (ReplaceEffect names db) faults.insert_links
        (λ _. (
          inr (refl, filter-filter-not (is_link_of q entry) db.links),
          filter_twice _ db.links,
          (refl, refl),
        ))
        (λ _. (
          refl,
          own-linked db (t ∷ ts) ∙ ap (map (link_to q entry)) (sym found),
          others-linked db (t ∷ ts),
          (refl, refl),
        ))

  relink-Effect :
      (names : List Text) (db : Db) (ts : List TagRow)
      → named_tags q names db ≡ ts
      → ReplaceEffect names db (relink q entry names ts db)
  relink-Effect names db ts found =
      if-elim (ReplaceEffect names db) faults.delete_links (λ _. (inl refl, refl, (refl, refl)))
        (λ _. insert_links-Effect names db ts found)

  upserted-Effect :
      (names : List Text) (db : Db) (r : Outcome TagError (List Text) × Db)
      → ReplaceEffect names (with_upserted q names db) r
      → ReplaceEffect names db r
  upserted-Effect names db (ok ns, db') h = h
  upserted-Effect names db (err e, db') h = h

  replace_with-Effect :
      (names : List Text) (db : Db) → ReplaceEffect names db (replace_with q entry names db)
  replace_with-Effect [] db = relink-Effect [] db [] (named_none db)
  replace_with-Effect (n ∷ ns) db =
      if-elim (ReplaceEffect (n ∷ ns) db) faults.upsert_tags (λ _. (inl refl, refl, (refl, refl)))
        (λ _.
          upserted-Effect (n ∷ ns) db _
            (relink-Effect (n ∷ ns) (with_upserted q (n ∷ ns) db) _ refl))

  for_entry-Effect :
      (o : Option EntryRow) (names : List Text) (db : Db)
      → ReplaceEffect (canonical_names canonical names) db (for_entry q o entry names db)
  for_entry-Effect none names db = (inl refl, refl, (refl, refl))
  for_entry-Effect (some e) names db = replace_with-Effect (canonical_names canonical names) db

  -- Whatever the names, and whichever calls fail: a run that succeeds returns the canonical names and
  -- leaves the entry with exactly one link to each tag of the workspace that it found by them; a run
  -- that fails leaves the entry's links as they were, or without any where the new ones could not be
  -- inserted. The links of every other entry, the entries and the postings stay as they were.
  pub replace-Effect :
      (names : List Text) (db : Db)
      → ReplaceEffect
          (canonical_names canonical names)
          db
          (replace_transaction_tags q entry names db)
  unfolding replace_transaction_tags
  replace-Effect names db = for_entry-Effect (found_entry q entry db.entries) names db

  relink_drops :
      (names : List Text) (db : Db)
      → faults.delete_links ≡ false
      → relink q entry names [] db ≡ (ok names, unlinked q entry db)
  relink_drops names db works = rw works

  named_fault : (names : List Text) (db : Db) → faults.read_tags ≡ true → named_tags q names db ≡ []
  named_fault names db fails = rw fails

  replace_with_drops :
      (names : List Text) (db : Db)
      → faults.upsert_tags ≡ false
      → faults.read_tags ≡ true
      → faults.delete_links ≡ false
      → (db' : Db) × (replace_with q entry names db ≡ (ok names, db')) × (own_links db' ≡ [])
  replace_with_drops [] db upserts fails deletes = (
    unlinked q entry db,
    relink_drops [] db deletes,
    filter-filter-not (is_link_of q entry) db.links,
  )
  replace_with_drops (n ∷ ns) db upserts fails deletes = (
    unlinked q entry (with_upserted q (n ∷ ns) db),
    rw upserts (
        ap (λ ts. relink q entry (n ∷ ns) ts (with_upserted q (n ∷ ns) db))
          (named_fault (n ∷ ns) (with_upserted q (n ∷ ns) db) fails)
        ∙ relink_drops (n ∷ ns) (with_upserted q (n ∷ ns) db) deletes),
    filter-filter-not (is_link_of q entry) db.links,
  )

  -- Where the entry is found and only the read of the tag rows fails, the run reports success with
  -- all the canonical names, and the entry has no tag left.
  pub replace_drops :
      (names : List Text) (db : Db) (e : EntryRow)
      → found_entry q entry db.entries ≡ some e
      → faults.upsert_tags ≡ false
      → faults.read_tags ≡ true
      → faults.delete_links ≡ false
      → (db' : Db) × (replace_transaction_tags q entry names db
          ≡ (ok (canonical_names canonical names), db'))
        × (own_links db' ≡ [])
  unfolding replace_transaction_tags
  replace_drops names db e found upserts fails deletes =
      rw found (replace_with_drops (canonical_names canonical names) db upserts fails deletes)
