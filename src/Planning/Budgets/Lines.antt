-- ===== src/Planning/Budgets/Lines.antt =====
-- The lines of a budget before and after upsertBudget.
use noorix_fin.Common.{
  ◌≡◌, refl, sym, ap, ◌∙◌, subst, ◌⊎◌, inl, inr, Bool, true, false, not, Option, none, some, List,
  [], ◌∷◌, ◌++◌, map, ltb, if◌then◌else◌, filter, any, all, single, Bool-cases, if-elim, false≢true,
  ==_refl, filter-append, filter-every, filter-none, filter-filter-not, filter_twice, append-nil,
}
use noorix_fin.Common.Text.{value}
use noorix_fin.Common.Outcome.{Outcome, ok, err, then_call}
use noorix_fin.Money.Number.{max_safe}
use noorix_fin.Ledger.{Uuid}
use noorix_fin.Ledger.Request.{read}
use noorix_fin.Planning.{
  DbError, PlanningError, amount_too_large, aggregation_failed, minor_exact, invalid_value, fail,
}
use noorix_fin.Planning.Budgets.{
  Budget, BudgetLine, LineInput, BudgetTables, BudgetCall, unless_failed, is_current, line_row,
  line_rows, with_status, is_line_of, insert_rows, insert_lines, cleared, replace_lines, patched,
  new_budget, with_budget, upsert_budget,
}

-- An amount beyond the safe integers.
abbrev pub is_too_large : LineInput → Bool
is_too_large l = ltb max_safe (value l.planned_minor)

module _ (q : BudgetCall) where
  open q use {faults}

  abbrev pub own_lines : Uuid → BudgetTables → List BudgetLine
  own_lines id db = filter (is_line_of q id) db.lines

  abbrev pub other_lines : Uuid → BudgetTables → List BudgetLine
  other_lines id db = filter (λ l. not (is_line_of q id l)) db.lines

  -- Rows that belong to the budget and have the request's amounts, exactly.
  abbrev pub AreRows : Uuid → List LineInput → List BudgetLine → Type 0
  AreRows id ls rows =
      (all (is_line_of q id) rows ≡ true)
      × (any (λ l. not (is_line_of q id l)) rows ≡ false)
      × (map (λ (r : BudgetLine). r.category_id) rows ≡ map (λ (l : LineInput). l.category_id) ls)
      × (map (λ (r : BudgetLine). r.planned_minor) rows
          ≡ map (λ (l : LineInput). value l.planned_minor) ls)

  abbrev RowsResult : Uuid → List LineInput → Outcome PlanningError (List BudgetLine) → Type 0
  RowsResult id ls (err e) = any is_too_large ls ≡ true
  RowsResult id ls (ok rows) = AreRows id ls rows

  row_before :
      (id : Uuid) (l : LineInput) (ls : List LineInput)
      (r : Outcome PlanningError (List BudgetLine))
      → RowsResult id ls r
      → is_too_large l ≡ false
      → RowsResult id
          (l ∷ ls)
          (then_call (λ rows. ok (line_row q id l (value l.planned_minor) ∷ rows)) r)
  row_before id l ls (err e) h fits = rw fits h
  row_before id l ls (ok rows) (own, others, categories, amounts) fits = (
    simp ==_refl own,
    simp ==_refl others,
    ap (λ t. l.category_id ∷ t) categories,
    ap (λ t. value l.planned_minor ∷ t) amounts,
  )

  line_rows-RowsResult : (id : Uuid) (ls : List LineInput) → RowsResult id ls (line_rows q id ls)
  line_rows-RowsResult id [] = (refl, refl, refl, refl)
  line_rows-RowsResult id (l ∷ ls) = elim (Bool-cases (is_too_large l)) [
    | inl big ↦ rw (minor_exact l.planned_minor, big) (rw big)
    | inr fits ↦
        rw (minor_exact l.planned_minor, fits)
          (row_before id l ls (line_rows q id ls) (line_rows-RowsResult id ls) fits)
  ]

  -- A success leaves the budget with the request's lines. A failure leaves it with its own lines, with
  -- none, or, where only the answer failed, with those of the request.
  abbrev pub LinesEffect : Uuid → BudgetTables → Outcome PlanningError Uuid × BudgetTables → Type 0
  LinesEffect id db (ok id', db') =
      (id' ≡ id) × AreRows id q.lines (own_lines id db') × (other_lines id db' ≡ other_lines id db)
  LinesEffect id db (err e, db') =
      ((own_lines id db' ≡ own_lines id db)
        ⊎ ((own_lines id db' ≡ [])
            ⊎ ((e ≡ aggregation_failed) × AreRows id q.lines (own_lines id db'))))
      × (other_lines id db' ≡ other_lines id db)

  -- a call that fails before anything was written
  unless_failed-Lines :
      (id : Uuid) (fault : Option DbError) (db : BudgetTables)
      (next : Outcome PlanningError Uuid × BudgetTables)
      → LinesEffect id db next
      → LinesEffect id db (unless_failed fault db next)
  unless_failed-Lines id (some e) db next h = (inl refl, refl)
  unless_failed-Lines id none db next h = h

  -- and one after the lines were cleared
  Emptied : Uuid → BudgetTables → BudgetTables → Type 0
  Emptied id db db' = (own_lines id db' ≡ []) × (other_lines id db' ≡ other_lines id db)

  cleared-Emptied : (id : Uuid) (db : BudgetTables) → Emptied id db (cleared q id db)
  unfolding Emptied
  cleared-Emptied id db = (
    filter-filter-not (is_line_of q id) db.lines,
    filter_twice (λ l. not (is_line_of q id l)) db.lines,
  )

  emptied-Lines :
      (id : Uuid) (db : BudgetTables) (e : PlanningError)
      → LinesEffect id db (err e, cleared q id db)
  unfolding Emptied
  emptied-Lines id db e = (inr (inl (cleared-Emptied id db).0), (cleared-Emptied id db).1)

  own-inserted :
      (id : Uuid) (db : BudgetTables) (rows : List BudgetLine)
      → AreRows id q.lines rows
      → (filter (is_line_of q id) ((cleared q id db).lines ++ rows) ≡ rows)
        × (filter (λ l. not (is_line_of q id l)) ((cleared q id db).lines ++ rows)
            ≡ other_lines id db)
  unfolding Emptied
  own-inserted id db rows (own, others, categories, amounts) = (
    filter-append (is_line_of q id) (cleared q id db).lines rows
        ∙ ap (λ l. l ++ filter (is_line_of q id) rows) (cleared-Emptied id db).0
        ∙ filter-every (is_line_of q id) rows own,
    filter-append (λ l. not (is_line_of q id l)) (cleared q id db).lines rows
        ∙ ap (λ l. other_lines id (cleared q id db) ++ l)
            (filter-none (λ l. not (is_line_of q id l)) rows others)
        ∙ append-nil _
        ∙ (cleared-Emptied id db).1,
  )

  with_status-Lines :
      (id : Uuid) (db : BudgetTables) (rows : List BudgetLine)
      → AreRows id q.lines rows
      → LinesEffect id db
          (with_status q id (record (cleared q id db) { lines = (cleared q id db).lines ++ rows }))
  with_status-Lines id db rows h =
      let (own, others) = own-inserted id db rows h in
      let kept = subst (AreRows id q.lines) (sym own) h in
      if-elim (LinesEffect id db) faults.status (λ _. (inr (inr (refl, kept)), others))
        (λ _. (refl, kept, others))

  insert_rows-Lines :
      (id : Uuid) (db : BudgetTables) (r : Outcome PlanningError (List BudgetLine))
      → RowsResult id q.lines r
      → LinesEffect id db (insert_rows q id r (cleared q id db))
  insert_rows-Lines id db (err e) h = emptied-Lines id db e
  insert_rows-Lines id db (ok rows) h = inserted faults.insert_lines
    where
      inserted :
          (fault : Option DbError)
          → LinesEffect id db (
              unless_failed fault (cleared q id db) (
                if all (λ (l : BudgetLine). ltb 0 l.planned_minor) rows
                then with_status q id
                    (record (cleared q id db) { lines = (cleared q id db).lines ++ rows })
                else (err invalid_value, cleared q id db)))
      inserted (some e) = emptied-Lines id db (fail e)
      inserted none =
          if-elim (LinesEffect id db) (all (λ (l : BudgetLine). ltb 0 l.planned_minor) rows)
            (λ _. with_status-Lines id db rows h) (λ _. emptied-Lines id db invalid_value)

  no_rows-Lines :
      (id : Uuid) (db : BudgetTables)
      → q.lines ≡ []
      → LinesEffect id db (with_status q id (cleared q id db))
  unfolding Emptied
  no_rows-Lines id db empty =
      let (own, others) = cleared-Emptied id db in
      let kept : AreRows id q.lines (own_lines id (cleared q id db)) =
        subst (λ ls. AreRows id ls (own_lines id (cleared q id db))) (sym empty)
          (subst (AreRows id []) (sym own) (refl, refl, refl, refl)) in
      if-elim (LinesEffect id db) faults.status (λ _. (inr (inl own), others))
        (λ _. (refl, kept, others))

  insert_lines-Lines :
      (id : Uuid) (db : BudgetTables) (ls : List LineInput)
      → q.lines ≡ ls
      → LinesEffect id db (insert_lines q id ls (cleared q id db))
  insert_lines-Lines id db [] same = no_rows-Lines id db same
  insert_lines-Lines id db (l ∷ ls) same = insert_rows-Lines id db (line_rows q id (l ∷ ls)) (
      subst (λ x. RowsResult id x (line_rows q id (l ∷ ls))) (sym same)
        (line_rows-RowsResult id (l ∷ ls)))

  replace_lines-Lines : (id : Uuid) (db : BudgetTables) → LinesEffect id db (replace_lines q id db)
  replace_lines-Lines id db =
      unless_failed-Lines id faults.clear db _ (insert_lines-Lines id db q.lines refl)

  -- the budget that a request changes: the active one of its cadence, or a new one
  abbrev pub target : Option Budget → Uuid
  target none = q.budget_id
  target (some b) = b.id

  abbrev pub current : BudgetTables → Option Budget
  current db = read faults.find (single (filter (is_current q) db.budgets))

  with_budget-Lines :
      (o : Option Budget) (db : BudgetTables) → LinesEffect (target o) db (with_budget q o db)
  with_budget-Lines (some b) db =
      unless_failed-Lines b.id faults.update db _
        (replace_lines-Lines b.id (record db { budgets = map (patched q b.id) db.budgets }))
  with_budget-Lines none db = unless_failed-Lines q.budget_id faults.insert db _ (
      if-elim (LinesEffect q.budget_id db) (any (is_current q) db.budgets) (λ _. (inl refl, refl))
        (λ _.
          replace_lines-Lines q.budget_id
            (record db { budgets = db.budgets ++ new_budget q ∷ [] })))

  -- On every branch: upsertBudget changes the lines of one budget only, the active one of the cadence
  -- or the new one. If it succeeds, these are the request's lines in their order, with exactly the
  -- amounts that were written. If it fails, they are as they were or none, or, where only the final
  -- aggregation failed, the request's.
  pub upsert_budget-LinesEffect :
      (db : BudgetTables) → LinesEffect (target (current db)) db (upsert_budget q db)
  unfolding upsert_budget
  upsert_budget-LinesEffect db = with_budget-Lines (current db) db

  rows_too_large :
      (id : Uuid) (ls : List LineInput)
      → any is_too_large ls ≡ true
      → line_rows q id ls ≡ err amount_too_large
  rows_too_large id [] h = absurd (false≢true h)
  rows_too_large id (l ∷ ls) h = elim (Bool-cases (is_too_large l)) [
    | inl big ↦ rw (minor_exact l.planned_minor, big)
    | inr fits ↦ rw (minor_exact l.planned_minor, fits, rows_too_large id ls (rw fits at h))
  ]

  replace_lines-empties :
      (id : Uuid) (db : BudgetTables) (ls : List LineInput)
      → q.lines ≡ ls
      → any is_too_large ls ≡ true
      → faults.clear ≡ none
      → replace_lines q id db ≡ (err amount_too_large, cleared q id db)
  replace_lines-empties id db [] same big clears = absurd (false≢true big)
  replace_lines-empties id db (l ∷ ls) same big clears =
      rw (clears, same, rows_too_large id (l ∷ ls) big)

  -- Where the workspace has a budget and one amount of the request is beyond the safe integers, the
  -- request is refused as too large, and yet the budget has lost all its lines.
  pub upsert_budget_empties :
      (db : BudgetTables) (b : Budget)
      → current db ≡ some b
      → any is_too_large q.lines ≡ true
      → faults.update ≡ none
      → faults.clear ≡ none
      → (db' : BudgetTables) × (upsert_budget q db ≡ (err amount_too_large, db'))
        × (own_lines b.id db' ≡ [])
  unfolding upsert_budget
  upsert_budget_empties db b found big updates clears = (
    cleared q b.id (record db { budgets = map (patched q b.id) db.budgets }),
    rw (found, updates)
        (replace_lines-empties b.id (record db { budgets = map (patched q b.id) db.budgets })
          q.lines refl big clears),
    filter-filter-not (is_line_of q b.id) db.lines,
  )
