-- ===== src/Queue/Drain/Fuel.antt =====
-- The loop of `drain` ends: each round lowers the number of pending rows of the workspace.
use noorix_fin.Common.{
  ℕ, zero, suc, ◌+◌, ◌≤◌, ◌<◌, ◌≡◌, refl, sym, ap, ◌∙◌, subst, Bool, true, false, ◌&&◌, Option,
  some, none, List, [], ◌∷◌, ◌==◌, inl, inr, arith, filter, length, Option-cases, ==_refl, Member,
}
use noorix_fin.Queue.{
  Uuid, QueuedMutation, pending, needs_attention, is_pending, has_id, update_where, delete_id,
  is_stranded, reclaim_stranded, claim_next,
}
use noorix_fin.Queue.Transport.{World, send_mutation}
use noorix_fin.Queue.Loop.{
  DrainResult, Verdict, deleted, rejected, put_off, verdict, mark_in_flight, rows_after, go_on,
  drain_from, drain,
}
use noorix_fin.Queue.Drain.Rows.{length-update_where}
use noorix_fin.Queue.Drain.{claim_next-Member}

module _ (workspace : Uuid) where
  abbrev waits : QueuedMutation → Bool
  waits m = m.workspace_id == workspace && is_pending m.status

  abbrev waiting : List QueuedMutation → ℕ
  waiting rows = length (filter waits rows)

  waiting-le-length : (rows : List QueuedMutation) → waiting rows ≤ length rows
  waiting-le-length [] = omega arith
  waiting-le-length (m ∷ rows) = ground (arith, waiting-le-length rows)

  waiting-mark-le :
      (i : Uuid) (rows : List QueuedMutation) → waiting (mark_in_flight i rows) ≤ waiting rows
  waiting-mark-le i [] = omega arith
  waiting-mark-le i (m ∷ rows) = ground (arith, waiting-mark-le i rows)

  waiting-mark-lt :
      (m : QueuedMutation) (rows : List QueuedMutation)
      → Member m rows
      → waits m ≡ true
      → waiting (mark_in_flight m.id rows) < waiting rows
  waiting-mark-lt m [] found waits_m = absurd found
  waiting-mark-lt m (x ∷ rows) (inl here) waits_m =
      let waits_x : waits x ≡ true = subst (λ y. waits y ≡ true) (sym here) waits_m in
      let same : (x.id == m.id) ≡ true = ap (λ y. y.id == m.id) here ∙ ==_refl m.id in
      ground (arith, waiting-mark-le m.id rows)
  waiting-mark-lt m (x ∷ rows) (inr there) waits_m =
      ground (arith, waiting-mark-lt m rows there waits_m)

  waiting-delete-le :
      (i : Uuid) (rows : List QueuedMutation) → waiting (delete_id i rows) ≤ waiting rows
  waiting-delete-le i [] = omega arith
  waiting-delete-le i (m ∷ rows) = ground (arith, waiting-delete-le i rows)

  waiting-park-le :
      (i : Uuid) (f : QueuedMutation → QueuedMutation)
      → ((m : QueuedMutation) → is_pending (f m).status ≡ false)
      → (rows : List QueuedMutation) → waiting (update_where (has_id i) f rows) ≤ waiting rows
  waiting-park-le i f parks [] = omega arith
  waiting-park-le i f parks (m ∷ rows) = ground (arith, parks m, waiting-park-le i f parks rows)

module _ (w : World) (workspace : Uuid) where
  abbrev Returns : Option (List QueuedMutation × DrainResult) → Type 0
  Returns o = (rows : List QueuedMutation) × (r : DrainResult) × (o ≡ some (rows, r))

  go_on-Returns :
      (next : List QueuedMutation → DrainResult → Option (List QueuedMutation × DrainResult))
      (fuel k : ℕ) (m : QueuedMutation) (v : Verdict) (rows : List QueuedMutation) (r : DrainResult)
      → ((xs : List QueuedMutation) (s : DrainResult)
          → waiting workspace xs < fuel
          → Returns (next xs s))
      → waiting workspace rows < fuel
      → Returns (go_on w workspace next v (rows_after w workspace k m v rows) r)
  go_on-Returns next fuel k m deleted rows r later h =
      later _ r (omega (arith, h, waiting-delete-le workspace m.id rows))
  go_on-Returns next fuel k m (rejected message) rows r later h = later _ r (
      omega (
        arith,
        h,
        waiting-park-le workspace m.id
            (λ x. record x {
              status = needs_attention;
              attempts = m.attempts + 1;
              last_error = some message;
            })
            (λ x. refl) rows,
      ))
  go_on-Returns next fuel k m (put_off message) rows r later h = (_, r, refl)

  drain_from-Returns :
      (fuel k : ℕ) (rows : List QueuedMutation) (r : DrainResult)
      → waiting workspace rows < fuel
      → Returns (drain_from w workspace fuel k rows r)
  unfolding drain_from
  drain_from-Returns zero k rows r h = absurd (omega (arith, h))
  drain_from-Returns (suc fuel) k rows r h =
      elim (Option-cases (claim_next workspace (w.now k) rows)) [
        | inl idle ↦ rw idle (rows, r, refl)
        | inr (m, claimed) ↦
            let (found, at, is_waiting) =
              claim_next-Member workspace (w.now k) rows {m = m} claimed in
            let fewer = waiting-mark-lt workspace m rows found (ground arith) in
            rw claimed (
              go_on-Returns (drain_from w workspace fuel (suc k)) fuel k m
                (verdict (send_mutation w k m)) (mark_in_flight m.id rows) _
                (λ xs s e. drain_from-Returns fuel (suc k) xs s e) (omega (arith, fewer, h)))
      ]

  -- The loop ends within one round more than there are rows, whatever the queue, the clock and the
  -- answers of the server.
  pub drain-Returns : (rows : List QueuedMutation) → Returns (drain w workspace rows)
  unfolding drain reclaim_stranded
  drain-Returns rows = drain_from-Returns _ _ _ _ (
      omega (
        arith,
        waiting-le-length workspace (reclaim_stranded workspace rows).0,
        length-update_where (is_stranded workspace)
            (λ m. record m { status = pending; next_attempt_at = none }) rows,
      ))
