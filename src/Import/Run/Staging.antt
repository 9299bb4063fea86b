-- ===== src/Import/Run/Staging.antt =====
-- The staging of the rows of an import.
use noorix_fin.Common.{
  ℕ, zero, suc, ◌+◌, ◌-◌, ◌≤◌, ◌≡◌, refl, sym, ap, ◌∙◌, true, false, List, [], ◌∷◌, ◌++◌, arith,
  take, drop, length, append_assoc, append-nil, take-append-drop,
}
use noorix_fin.Import.Rows.{ParsedRow}
use noorix_fin.Import.Run.{staged, stage}
use noorix_fin.Import.Job.{ImportRow, Store, Import}

length-drop : {A : Type 0} (n : ℕ) (xs : List A) → length (drop n xs) ≡ length xs - n
length-drop zero xs = omega arith
length-drop (suc n) [] = omega arith
length-drop (suc n) (x ∷ xs) = omega (arith, length-drop n xs)

module _ (q : Import) where
  open q use {faults}

  -- As many inserts as there are rows are enough to stage them all.
  pub stage_all :
      ((n : ℕ) → faults.stage n ≡ false)
      → (chunks n : ℕ) (rows : List ImportRow) (s : Store) → length rows ≤ chunks
      → stage q chunks n rows s ≡ (true, record s { rows = s.rows ++ rows })
  stage_all works zero n [] s h = ap (λ l. (true, record s { rows = l })) (sym (append-nil s.rows))
  stage_all works zero n (r ∷ rows) s h = absurd (omega (arith, h))
  stage_all works (suc chunks) n [] s h =
      ap (λ l. (true, record s { rows = l })) (sym (append-nil s.rows))
  stage_all works (suc chunks) n (r ∷ rows) s h =
      let first = take 500 (r ∷ rows) in
      let others = drop 500 (r ∷ rows) in
      rw (works n) (
        stage_all works chunks (n + 1) others (record s { rows = s.rows ++ first })
          (omega (arith, h, length-drop 500 (r ∷ rows)))
        ∙ ap (λ l. (true, record s { rows = l }))
            (append_assoc s.rows first others
              ∙ ap (λ l. s.rows ++ l) (take-append-drop 500 (r ∷ rows))))

  pub length-staged : (n : ℕ) (rows : List ParsedRow) → length (staged q n rows) ≡ length rows
  length-staged n [] = refl
  length-staged n (row ∷ rows) = ap suc (length-staged (n + 1) rows)
