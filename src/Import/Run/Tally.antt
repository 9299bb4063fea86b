-- ===== src/Import/Run/Tally.antt =====
-- The job at the end of an import.
use noorix_fin.Common.{
  ℕ, ◌<◌, ◌⊎◌, if-elim, zero, suc, ◌+◌, ◌*◌, ◌≡◌, refl, sym, ap, ◌∙◌, inl, inr, Bool, true, false,
  Option, none, some, List, [], ◌∷◌, ◌++◌, arith, ◌==◌, ltb, filter, any, single, length,
  filter-append, filter-none, Member, Member-right, Bool-cases, false≢true, subst, ==_refl,
}
use noorix_fin.Common.Text.{Text}
use noorix_fin.Common.Outcome.{Outcome, ok, err}
use noorix_fin.Ledger.{Uuid, AccountRow, Db}
use noorix_fin.Ledger.Request.{read}
use noorix_fin.Import.Rows.{ParsedRow}
use noorix_fin.Import.Run.{
  import_row, advance, import_rows, final_status, set_job, finished_job, complete_job, staged,
  with_total, after_stage, parse_ok, parsed_rows, after_job, is_job, new_job, is_account,
  create_import,
}
use noorix_fin.Import.Job.{
  JobStatus, completed, failed, completed_with_errors, ImportError, RowError, Job, Store, Import,
  Progress,
}
use noorix_fin.Import.Run.Staging.{stage_all, length-staged}

module _ (q : Import) where
  open q use {job_id, faults, parsed}

  advance-counts :
      (n : ℕ) (r : Outcome RowError Uuid × Db) (p : Progress)
      → (advance q n r p).imported + (advance q n r p).failed ≡ p.imported + p.failed + 1
  advance-counts n (ok entry, db) p = omega arith
  advance-counts n (err e, db) p = omega arith

  advance-jobs :
      (n : ℕ) (r : Outcome RowError Uuid × Db) (p : Progress)
      → (advance q n r p).store.jobs ≡ p.store.jobs
  advance-jobs n (ok entry, db) p = refl
  advance-jobs n (err e, db) p = refl

  -- Each row is counted once.
  import_rows-counts :
      (currency : Text) (n : ℕ) (rows : List ParsedRow) (p : Progress)
      → (import_rows q currency n rows p).imported + (import_rows q currency n rows p).failed
        ≡ p.imported + p.failed + length rows
  import_rows-counts currency n [] p = omega arith
  import_rows-counts currency n (row ∷ rows) p =
      let r = import_row q currency n row p.store.ledger in
      import_rows-counts currency (n + 1) rows (advance q n r p)
      ∙ omega (arith, advance-counts n r p)

  abbrev succeeded : Outcome RowError Uuid → ℕ
  succeeded (ok entry) = 1
  succeeded (err e) = 0

  -- How many rows, numbered from this one on, get a transaction, each on the ledger that the rows
  -- before it leave behind.
  abbrev pub successes : Text → ℕ → List ParsedRow → Db → ℕ
  successes currency n [] db = 0
  successes currency n (row ∷ rows) db =
      let (r, db') = import_row q currency n row db in
      succeeded r + successes currency (n + 1) rows db'

  advance-imported :
      (n : ℕ) (r : Outcome RowError Uuid × Db) (p : Progress)
      → ((advance q n r p).imported ≡ p.imported + succeeded r.0)
        × ((advance q n r p).store.ledger ≡ r.1)
  advance-imported n (ok entry, db) p = (refl, refl)
  advance-imported n (err e, db) p = (omega arith, refl)

  import_rows-imported :
      (currency : Text) (n : ℕ) (rows : List ParsedRow) (p : Progress)
      → (import_rows q currency n rows p).imported
        ≡ p.imported + successes currency n rows p.store.ledger
  import_rows-imported currency n [] p = omega arith
  import_rows-imported currency n (row ∷ rows) p =
      let r = import_row q currency n row p.store.ledger in
      let (counted, kept) = advance-imported n r p in
      import_rows-imported currency (n + 1) rows (advance q n r p)
      ∙ omega (arith, counted, ap (successes currency (n + 1) rows) kept)

  import_rows-jobs :
      (currency : Text) (n : ℕ) (rows : List ParsedRow) (p : Progress)
      → (import_rows q currency n rows p).store.jobs ≡ p.store.jobs
  import_rows-jobs currency n [] p = refl
  import_rows-jobs currency n (row ∷ rows) p =
      let r = import_row q currency n row p.store.ledger in
      import_rows-jobs currency (n + 1) rows (advance q n r p) ∙ advance-jobs n r p

  is_mine : Job → Bool
  is_mine j = j.id == job_id

  abbrev pub HasNoJob : List Job → Type 0
  HasNoJob jobs = any (λ (j : Job). j.id == job_id) jobs ≡ false

  set_job-last :
      (f : Job → Job) (jobs : List Job) (j : Job)
      → HasNoJob jobs
      → (j.id == job_id) ≡ true
      → set_job q f (jobs ++ j ∷ []) ≡ jobs ++ f j ∷ []
  set_job-last f [] j new own = rw own
  set_job-last f (x ∷ jobs) j new own = elim (Bool-cases (x.id == job_id)) [
    | inl mine ↦ absurd (false≢true (sym new ∙ rw mine))
    | inr other ↦ rw other (ap (λ l. x ∷ l) (set_job-last f jobs j (rw other at new) own))
  ]

  single-last :
      (jobs : List Job) (j : Job)
      → HasNoJob jobs
      → (j.id == job_id) ≡ true
      → single (filter (λ (x : Job). x.id == job_id) (jobs ++ j ∷ [])) ≡ some j
  single-last jobs j new own =
      ap single (
        filter-append (λ (x : Job). x.id == job_id) jobs (j ∷ [])
        ∙ ap (λ l. l ++ filter (λ (x : Job). x.id == job_id) (j ∷ []))
            (filter-none (λ (x : Job). x.id == job_id) jobs new))
      ∙ rw own

  -- The status that a job with these numbers of imported and failed rows has.
  abbrev pub IsStatus : ℕ → ℕ → JobStatus → Type 0
  IsStatus good bad status =
      ((bad ≡ 0) × (status ≡ completed))
      ⊎ (((0 < bad) × (good ≡ 0) × (status ≡ failed))
          ⊎ ((0 < bad) × (0 < good) × (status ≡ completed_with_errors)))

  final_status-IsStatus : (good bad : ℕ) → IsStatus good bad (final_status q good bad)
  final_status-IsStatus good zero = inl (refl, refl)
  final_status-IsStatus zero (suc n) = inr (inl (omega arith, refl, refl))
  final_status-IsStatus (suc m) (suc n) = inr (inr (omega arith, omega arith, refl))

  -- The job that ends an import of these rows, of which so many were imported.
  abbrev pub IsFinished : ℕ → ℕ → Outcome ImportError (Option Job) × Store → Type 0
  IsFinished total good r =
      (j : Job) × (r.0 ≡ ok (some j))
      × Member j r.1.jobs
      × (j.imported_rows ≡ good)
      × (j.imported_rows + j.failed_rows ≡ total)
      × IsStatus j.imported_rows j.failed_rows j.status

  complete_job-IsFinished :
      (p : Progress) (jobs : List Job) (j : Job)
      → faults.complete ≡ false
      → HasNoJob jobs
      → (j.id == job_id) ≡ true
      → p.store.jobs ≡ jobs ++ j ∷ []
      → IsFinished (p.imported + p.failed) p.imported (complete_job q p)
  complete_job-IsFinished p jobs j works new own at =
      let kept : set_job q (finished_job q p) p.store.jobs ≡ jobs ++ finished_job q p j ∷ [] =
        ap (set_job q (finished_job q p)) at ∙ set_job-last (finished_job q p) jobs j new own in
      rw works (
        finished_job q p j,
        ap ok (
            ap (λ l. single (filter (λ (x : Job). x.id == job_id) l)) kept
            ∙ single-last jobs (finished_job q p j) new own),
        subst (Member (finished_job q p j)) (sym kept)
            (Member-right (finished_job q p j) jobs (finished_job q p j ∷ []) (inl refl)),
        refl,
        refl,
        final_status-IsStatus p.imported p.failed,
      )

  with_total-jobs :
      (n : ℕ) (s : Store) (jobs : List Job)
      → HasNoJob jobs
      → s.jobs ≡ jobs ++ new_job q ∷ []
      → (j : Job) × ((j.id == job_id) ≡ true) × ((with_total q n s).jobs ≡ jobs ++ j ∷ [])
  with_total-jobs n s jobs new at = elim (Bool-cases faults.total) [
    | inl fails ↦ rw fails (new_job q, ==_refl job_id, at)
    | inr works ↦ rw works (
      record (new_job q) { total_rows = n },
      ==_refl job_id,
      ap (set_job q (λ j. record j { total_rows = n })) at
          ∙ set_job-last (λ j. record j { total_rows = n }) jobs (new_job q) new (==_refl job_id),
    )
  ]

  with_total-ledger : (n : ℕ) (s : Store) → (with_total q n s).ledger ≡ s.ledger
  with_total-ledger n s =
      if-elim (λ (x : Store). x.ledger ≡ s.ledger) faults.total (λ _. refl) (λ _. refl)

  after_stage-IsFinished :
      (currency : Text) (rows : List ParsedRow) (s : Store) (jobs : List Job)
      → faults.complete ≡ false
      → HasNoJob jobs
      → s.jobs ≡ jobs ++ new_job q ∷ []
      → IsFinished
          (length rows)
          (successes currency 1 rows s.ledger)
          (after_stage q currency rows (true, s))
  after_stage-IsFinished currency rows s jobs works new at =
      let begin : Progress = record {
        imported = 0;
        failed = 0;
        store = with_total q (length rows) s;
      } in
      let (j, own, kept) = with_total-jobs (length rows) s jobs new at in
      let end = import_rows q currency 1 rows begin in
      let counted : end.imported + end.failed ≡ length rows =
        omega (arith, import_rows-counts currency 1 rows begin) in
      let good : end.imported ≡ successes currency 1 rows s.ledger = omega (
        arith,
        import_rows-imported currency 1 rows begin,
        ap (successes currency 1 rows) (with_total-ledger (length rows) s),
      ) in
      subst (λ n. IsFinished (length rows) n (complete_job q end)) good
        (subst (λ n. IsFinished n end.imported (complete_job q end)) counted
          (complete_job-IsFinished end jobs j works new own
            (import_rows-jobs currency 1 rows begin ∙ kept)))

  after_job-IsFinished :
      (currency : Text) (s : Store) (jobs : List Job)
      → parse_ok q parsed ≡ true
      → ((n : ℕ) → faults.stage n ≡ false)
      → faults.complete ≡ false
      → HasNoJob jobs
      → s.jobs ≡ jobs ++ new_job q ∷ []
      → IsFinished
          (length (parsed_rows q parsed))
          (successes currency 1 (parsed_rows q parsed) s.ledger)
          (after_job q currency s)
  after_job-IsFinished currency s jobs parses stages works new at =
      let rows = parsed_rows q parsed in
      let all_staged =
        stage_all q stages (length rows) 0 (staged q 1 rows) s
          (omega (arith, length-staged q 1 rows)) in
      rw parses (
        subst
          (λ r.
            IsFinished (length rows) (successes currency 1 rows s.ledger)
              (after_stage q currency rows r))
          (sym all_staged)
          (after_stage-IsFinished currency rows (record s { rows = s.rows ++ staged q 1 rows }) jobs
            works new at))

  -- An import that is new, not too large, of an account of the workspace and with 1 to 5,000 parsed
  -- rows, whose job's id is new, ends where the insert of the job, the staging of the rows and the last
  -- update of the job work: with a job, kept in the table, whose imported rows are those that get a
  -- transaction and whose imported and failed rows together are all rows of the statement. It is
  -- completed if none failed, failed if rows failed and none was imported, and completed with errors
  -- if rows failed and others were imported.
  pub create_import-IsFinished :
      (s : Store) (a : AccountRow)
      → ltb (5 * 1024 * 1024) q.byte_length ≡ false
      → read faults.find_job (single (filter (is_job q) s.jobs)) ≡ none
      → read faults.read_account (single (filter (is_account q) s.ledger.accounts)) ≡ some a
      → faults.insert_job ≡ false
      → any (is_job q) s.jobs ≡ false
      → HasNoJob s.jobs
      → parse_ok q parsed ≡ true
      → ((n : ℕ) → faults.stage n ≡ false)
      → faults.complete ≡ false
      → IsFinished
          (length (parsed_rows q parsed))
          (successes a.currency_code 1 (parsed_rows q parsed) s.ledger)
          (create_import q s)
  unfolding create_import
  create_import-IsFinished s a small is_new account inserts untaken fresh parses stages works =
      rw (small, is_new, account, inserts, untaken)
        (after_job-IsFinished a.currency_code (record s { jobs = s.jobs ++ new_job q ∷ [] }) s.jobs
          parses stages works fresh refl)
