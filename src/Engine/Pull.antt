-- ===== src/Engine/Pull.antt =====
-- What one run of the sync leaves on the device and reports.
use noorix_fin.Common.{
  ℕ, zero, suc, ◌≡◌, ◌≢◌, refl, sym, subst, false, Option, some, none, List, inl, inr, if-elim, ◌⊎◌,
}
use noorix_fin.Common.Text.{Text}
use noorix_fin.Common.Outcome.{Outcome, ok, err}
use noorix_fin.Queue.{QueuedMutation}
use noorix_fin.Queue.Loop.{DrainResult}
use noorix_fin.Queue.Drain.Fuel.{drain-Returns}
use noorix_fin.Engine.{
  SyncResponse, PullError, Local, Outside, query_cursor, Pulled, after_fetch, pull, end_error,
  max_pull_pages, Synced, pull_after, after_push, try_push, execute, apply_page,
}

module _ (w : Outside) where
  -- What a pull ends with: the stored cursor is the reported one, and without an error the last
  -- page of the server said that there is no more.
  abbrev IsLast : Option Text → Type 0
  IsLast c =
      (k : ℕ) × (asked : Option Text) × (response : SyncResponse) × (w.fetch k asked ≡ ok response)
      × (response.has_more ≡ false)
      × (c ≡ some response.cursor)

  abbrev Sound : Pulled → Type 0
  Sound p = (p.local.cursor ≡ p.cursor) × ((p.error ≢ none) ⊎ IsLast p.cursor)

  some≢none : {e : PullError} → some e ≢ none
  some≢none h = cc

  after_fetch-Sound :
      (next : Option Text → ℕ → Local → Pulled) (k : ℕ) (cursor : Option Text) (pulled : ℕ)
      (local : Local)
      → ((c : Option Text) (n : ℕ) (l : Local) → l.cursor ≡ c → Sound (next c n l))
      → local.cursor ≡ cursor
      → (r : Outcome PullError SyncResponse) → w.fetch k (query_cursor cursor) ≡ r
      → (fault : Option ℕ) → Sound (after_fetch w next r pulled local fault cursor)
  after_fetch-Sound next k cursor pulled local later h (err e) got fault = (h, inl some≢none)
  after_fetch-Sound next k cursor pulled local later h (ok response) got (some done) =
      (h, inl some≢none)
  after_fetch-Sound next k cursor pulled local later h (ok response) got none =
      if-elim Sound response.has_more
        (λ more. later (some response.cursor) _ (apply_page w response local) refl)
        (λ no_more. (refl, inr (k, query_cursor cursor, response, got, no_more, refl)))

  pull-Sound :
      (left k : ℕ) (cursor : Option Text) (pulled : ℕ) (local : Local)
      → local.cursor ≡ cursor
      → Sound (pull w left k cursor pulled local)
  unfolding pull
  pull-Sound zero k cursor pulled local h = (h, inl some≢none)
  pull-Sound (suc left) k cursor pulled local h =
      after_fetch-Sound (pull w left (suc k)) k cursor pulled local
        (λ c n l e. pull-Sound left (suc k) c n l e) h (w.fetch k (query_cursor cursor)) refl
        (w.store_fails k)

  -- The cursor that is reported is the stored one, and either there is an error or the server said
  -- that there is no more after the page with that cursor.
  abbrev pub Resumes : Synced → Type 0
  Resumes s =
      (s.local.cursor ≡ s.outcome.cursor)
      × ((s.outcome.error ≢ none)
          ⊎ ((k : ℕ) × (asked : Option Text) × (response : SyncResponse) × (w.fetch k asked
                ≡ ok response)
              × (response.has_more ≡ false)
              × (s.outcome.cursor ≡ some response.cursor)))

  end_error-some : (o : Option PullError) → o ≢ none → end_error o ≢ none
  end_error-some none h e = h refl
  end_error-some (some x) h e = cc

  pull_after-Resumes :
      (workspace : ℕ) (queue : List QueuedMutation) (push : DrainResult) (local : Local)
      → Resumes (pull_after w workspace queue push local)
  pull_after-Resumes workspace queue push local =
      let p = pull w max_pull_pages 0 local.cursor 0 local in
      let (stored, last_page) = pull-Sound max_pull_pages 0 local.cursor 0 local refl in
      (
        stored,
        elim last_page [
          | inl stopped ↦ inl (end_error-some p.error stopped)
          | inr last_one ↦ inr last_one
        ],
      )

  -- Whatever the server and the database do, a run whose drain does not throw reports the cursor that
  -- is stored on the device, where the next run resumes; and unless it reports an error, the server
  -- said that there is no more after the page with that cursor.
  pub execute-Resumes :
      (workspace : ℕ) (queue : List QueuedMutation) (local : Local)
      → w.push_fails ≡ none
      → Resumes (execute w workspace queue local)
  unfolding execute
  execute-Resumes workspace queue local works =
      let (rows, r, drained) = drain-Returns w.queue_world workspace queue in
      subst (λ o. Resumes (try_push w workspace o queue local)) (sym works)
        (subst (λ o. Resumes (after_push w workspace o queue local)) (sym drained)
          (pull_after-Resumes workspace rows r local))
