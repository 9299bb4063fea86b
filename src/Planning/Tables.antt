-- ===== src/Planning/Tables.antt =====
-- The writes that the planning routes share: an insert, the update of one row with `.single()`, and a
-- delete whose returned rows are counted.
use noorix_fin.Common.{
  ◌≡◌, refl, ap, ◌∙◌, inl, inr, Bool, true, not, Option, none, some, List, [], ◌∷◌, ◌++◌, map,
  if◌then◌else◌, filter, single, Bool-cases, append-nil, filter-append,
}
use noorix_fin.Common.Outcome.{Outcome, ok, err}
use noorix_fin.Planning.{DbError, no_row, PlanningError, fail, assert_deleted}
use noorix_fin.Planning.Budgets.{unless_failed}

module _ {A : Type 0} where
  abbrev pub insert_one : Option DbError → A → List A → Outcome PlanningError A × List A
  insert_one fault x rows = unless_failed fault rows (ok x, rows ++ x ∷ [])

  abbrev pub update_found :
      (A → Bool) → (A → A) → Option A → List A → Outcome PlanningError A × List A
  update_found p f none rows = (err (fail no_row), rows)
  update_found p f (some x) rows = (ok (f x), map (λ y. if p y then f y else y) rows)

  abbrev pub update_one :
      Option DbError → (A → Bool) → (A → A) → List A → Outcome PlanningError A × List A
  update_one fault p f rows =
      unless_failed fault rows (update_found p f (single (filter p rows)) rows)

  abbrev pub delete_some :
      Option DbError → (A → Bool) → List A → Outcome PlanningError Bool × List A
  delete_some fault p rows =
      unless_failed fault rows (assert_deleted (filter p rows), filter (λ x. not (p x)) rows)

  -- Rows that a write does not concern: `mine` marks the workspace's, and only those are matched.
  module _ (mine : A → Bool) where
    abbrev pub others : List A → List A
    others rows = filter (λ x. not (mine x)) rows

    insert-others : (x : A) (rows : List A) → mine x ≡ true → others (rows ++ x ∷ []) ≡ others rows
    insert-others x rows own =
        filter-append (λ y. not (mine y)) rows (x ∷ [])
        ∙ ap (λ l. others rows ++ l) (rw own)
        ∙ append-nil (others rows)

    pub insert_one-others :
        (fault : Option DbError) (x : A) (rows : List A)
        → mine x ≡ true
        → others (insert_one fault x rows).1 ≡ others rows
    insert_one-others (some e) x rows own = refl
    insert_one-others none x rows own = insert-others x rows own

    module _ (p : A → Bool) (inside : (x : A) → p x ≡ true → mine x ≡ true) where
      map-others :
          (f : A → A) (kept : (x : A) → mine (f x) ≡ mine x) (rows : List A)
          → others (map (λ y. if p y then f y else y) rows) ≡ others rows
      map-others f kept [] = refl
      map-others f kept (x ∷ rows) = elim (Bool-cases (p x)) [
        | inl hit ↦ rw (hit, kept x, inside x hit) (map-others f kept rows)
        | inr miss ↦ rw miss (elim (Bool-cases (mine x)) [
          | inl own ↦ rw own (map-others f kept rows)
          | inr other ↦ rw other (ap (λ l. x ∷ l) (map-others f kept rows))
        ])
      ]

      update_found-others :
          (f : A → A) (kept : (x : A) → mine (f x) ≡ mine x) (o : Option A) (rows : List A)
          → others (update_found p f o rows).1 ≡ others rows
      update_found-others f kept none rows = refl
      update_found-others f kept (some x) rows = map-others f kept rows

      pub update_one-others :
          (fault : Option DbError) (f : A → A) (kept : (x : A) → mine (f x) ≡ mine x)
          (rows : List A)
          → others (update_one fault p f rows).1 ≡ others rows
      update_one-others (some e) f kept rows = refl
      update_one-others none f kept rows = update_found-others f kept _ rows

      filter-others : (rows : List A) → others (filter (λ x. not (p x)) rows) ≡ others rows
      filter-others [] = refl
      filter-others (x ∷ rows) = elim (Bool-cases (p x)) [
        | inl hit ↦ rw (hit, inside x hit) (filter-others rows)
        | inr miss ↦ rw miss (elim (Bool-cases (mine x)) [
          | inl own ↦ rw own (filter-others rows)
          | inr other ↦ rw other (ap (λ l. x ∷ l) (filter-others rows))
        ])
      ]

      pub delete_some-others :
          (fault : Option DbError) (rows : List A)
          → others (delete_some fault p rows).1 ≡ others rows
      delete_some-others (some e) rows = refl
      delete_some-others none rows = filter-others rows
