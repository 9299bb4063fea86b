-- ===== src/Queue/Drain/Counts.antt =====
-- What the numbers of a drain's result say of the queue.
use noorix_fin.Common.{
  ℕ, ◌+◌, ◌≡◌, refl, ◌∙◌, true, false, some, none, List, [], ◌∷◌, ◌⊎◌, inl, inr, arith, filter,
  length, Bool-cases,
}
use noorix_fin.Queue.{
  QueueStatus, backoff_ms, Uuid, QueuedMutation, pending, in_flight, needs_attention, is_in_flight,
  is_parked, has_id, update_where, is_stranded, reclaim_stranded, claim_next,
}
use noorix_fin.Queue.Transport.{World, send_mutation}
use noorix_fin.Queue.Loop.{
  DrainResult, Verdict, deleted, rejected, put_off, verdict, mark_in_flight, rows_after,
  result_after, drain,
}
use noorix_fin.Queue.Drain.{claim_next-Member, drain_from-rule, Next}
use noorix_fin.Queue.Drain.Rows.{
  IsKeyed, count_parked, count_id-update_where, count_id-delete_id, length-delete_id,
  length-update_where, count_id-Member, deleted_claimed, updated_claimed,
}

module _ (w : World) (workspace : Uuid) (n p c : ℕ) where
  -- of a queue of `n` rows with `p` parked ones and `c` stranded ones
  abbrev Tallied : List QueuedMutation → DrainResult → Type 0
  Tallied rows r =
      IsKeyed rows
      × (length rows + r.sent ≡ n)
      × (count_parked rows ≡ p + r.parked)
      × (r.reclaimed ≡ c)

  abbrev Running : List QueuedMutation → DrainResult → Type 0
  Running rows r = Tallied rows r × (r.deferred ≡ 0)

  -- why the loop has ended
  abbrev pub Ended : List QueuedMutation → DrainResult → Type 0
  Ended rows r =
      (r.deferred ≡ 1)
      ⊎ ((r.deferred ≡ 0) × ((k : ℕ) × (claim_next workspace (w.now k) rows ≡ none)))

  abbrev Final : List QueuedMutation → DrainResult → Type 0
  Final rows r = Tallied rows r × Ended rows r

  round-Tallied :
      (k : ℕ) (m : QueuedMutation) (rows : List QueuedMutation) (r : DrainResult) (v : Verdict)
      → claim_next workspace (w.now k) rows ≡ some m
      → verdict (send_mutation w k m) ≡ v
      → Running rows r
      → Next w workspace Running Final v
          (rows_after w workspace k m v (mark_in_flight m.id rows))
          (result_after w workspace v r)
  round-Tallied k m rows r deleted claimed sent ((keyed, total, parked, recl), none_yet) =
      let (found, at, is_waiting) = claim_next-Member workspace (w.now k) rows {m = m} claimed in
      let marked = λ (i : Uuid).
        count_id-update_where i (has_id m.id) (λ x. record x { status = in_flight }) (λ x. refl)
          rows in
      (
        (
          (λ i.
              omega
                (arith, keyed i, marked i, count_id-delete_id i m.id (mark_in_flight m.id rows))),
          omega (
            arith,
            total,
            keyed m.id,
            count_id-Member m rows found,
            marked m.id,
            length-delete_id m.id (mark_in_flight m.id rows),
            length-update_where (has_id m.id) (λ x. record x { status = in_flight }) rows,
          ),
          deleted_claimed m is_waiting rows found (keyed m.id) ∙ parked,
          recl,
        ),
        none_yet,
      )
  round-Tallied k m rows r (rejected message) claimed sent
        ((keyed, total, parked, recl), none_yet) =
      let (found, at, is_waiting) = claim_next-Member workspace (w.now k) rows {m = m} claimed in
      let mark = λ (x : QueuedMutation). record x { status = in_flight } in
      let park = λ (x : QueuedMutation). record x {
        status = needs_attention;
        attempts = m.attempts + 1;
        last_error = some message;
      } in
      (
        (
          (λ i. omega (
            arith,
            keyed i,
            count_id-update_where i (has_id m.id) mark (λ x. refl) rows,
            count_id-update_where i (has_id m.id) park (λ x. refl) (mark_in_flight m.id rows),
          )),
          omega (
            arith,
            total,
            length-update_where (has_id m.id) mark rows,
            length-update_where (has_id m.id) park (mark_in_flight m.id rows),
          ),
          omega (
            arith,
            parked,
            updated_claimed m is_waiting park true (λ x. refl) rows found (keyed m.id),
          ),
          recl,
        ),
        none_yet,
      )
  round-Tallied k m rows r (put_off message) claimed sent ((keyed, total, parked, recl), none_yet) =
      let (found, at, is_waiting) = claim_next-Member workspace (w.now k) rows {m = m} claimed in
      let mark = λ (x : QueuedMutation). record x { status = in_flight } in
      let defer = λ (x : QueuedMutation). record x {
        status = pending;
        attempts = m.attempts + 1;
        next_attempt_at = some (w.failed_at k + backoff_ms (m.attempts + 1) (w.jitter k));
        last_error = some message;
      } in
      (
        (
          (λ i. omega (
            arith,
            keyed i,
            count_id-update_where i (has_id m.id) mark (λ x. refl) rows,
            count_id-update_where i (has_id m.id) defer (λ x. refl) (mark_in_flight m.id rows),
          )),
          omega (
            arith,
            total,
            length-update_where (has_id m.id) mark rows,
            length-update_where (has_id m.id) defer (mark_in_flight m.id rows),
          ),
          omega (
            arith,
            parked,
            updated_claimed m is_waiting defer false (λ x. refl) rows found (keyed m.id),
          ),
          recl,
        ),
        inl (omega (arith, none_yet)),
      )

flying-parked : (s : QueueStatus) → is_in_flight s ≡ true → is_parked s ≡ false
flying-parked pending h = absurd (cc)
flying-parked in_flight h = refl
flying-parked needs_attention h = absurd (cc)

reclaimed_parked :
    (workspace : Uuid) (rows : List QueuedMutation)
    → count_parked (
        update_where
          (is_stranded workspace)
          (λ m. record m { status = pending; next_attempt_at = none })
          rows)
      ≡ count_parked rows
reclaimed_parked workspace [] = refl
reclaimed_parked workspace (x ∷ rows) = elim (Bool-cases (is_in_flight x.status)) [
  | inl flies ↦ ground (arith, reclaimed_parked workspace rows, flying-parked x.status flies)
  | inr stays ↦ ground (arith, reclaimed_parked workspace rows)
]

-- With ids that are unique, which they stay, the result's numbers are what happened: each row sent
-- is gone from the queue, each row parked is one more that needs attention, the rows reclaimed are
-- the stranded ones, and at most one row is deferred. With none deferred, no row of the workspace
-- was left to claim when the loop ended.
pub drain-tallies :
    (w : World) (workspace : Uuid) (rows rows' : List QueuedMutation) (r : DrainResult)
    → IsKeyed rows
    → drain w workspace rows ≡ some (rows', r)
    → IsKeyed rows'
      × (length rows' + r.sent ≡ length rows)
      × (count_parked rows' ≡ count_parked rows + r.parked)
      × (r.reclaimed ≡ length (filter (is_stranded workspace) rows))
      × ((r.deferred ≡ 1)
          ⊎ ((r.deferred ≡ 0) × ((k : ℕ) × (claim_next workspace (w.now k) rows' ≡ none))))
unfolding drain reclaim_stranded
drain-tallies w workspace rows rows' r keyed h =
    let n = length rows in
    let p = count_parked rows in
    let c = length (filter (is_stranded workspace) rows) in
    let revive = λ (m : QueuedMutation). record m { status = pending; next_attempt_at = none } in
    let (tallied, ended) =
      drain_from-rule w workspace (Running w workspace n p c) (Final w workspace n p c)
        (λ k xs s idle running. (running.0, inr (running.1, (k, idle))))
        (round-Tallied w workspace n p c) _ _ _ rows' _ r h
        (
          (
            (λ i. omega (
              arith,
              keyed i,
              count_id-update_where i (is_stranded workspace) revive (λ m. refl) rows,
            )),
            omega (arith, length-update_where (is_stranded workspace) revive rows),
            omega (arith, reclaimed_parked workspace rows),
            refl,
          ),
          refl,
        ) in
    (tallied.0, tallied.1, tallied.2, tallied.3, ended)
