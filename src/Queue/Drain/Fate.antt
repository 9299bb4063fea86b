-- ===== src/Queue/Drain/Fate.antt =====
-- What becomes of a single mutation in a drain.
use noorix_fin.Common.{
  ℕ, ◌+◌, ◌≡◌, refl, ◌∙◌, Bool, true, false, some, none, List, [], ◌∷◌, ◌==◌, ◌⊎◌, inl, inr, arith,
  any, Bool-cases, ==_iff,
}
use noorix_fin.Queue.{
  Uuid, QueuedMutation, pending, in_flight, needs_attention, is_in_flight, has_id, update_where,
  delete_id, is_stranded, backoff_ms, reclaim_stranded, claim_next,
}
use noorix_fin.Queue.Transport.{World, Reply, confirmed, refused, thrown, send_mutation}
use noorix_fin.Queue.Loop.{
  DrainResult, Verdict, deleted, rejected, put_off, verdict, mark_in_flight, rows_after,
  result_after, drain,
}
use noorix_fin.Queue.Drain.{claim_next-Member, drain_from-rule, Next}

-- An update that keeps the ids keeps which of them are there.
any-update_where :
    (i : Uuid) (p : QueuedMutation → Bool) (f : QueuedMutation → QueuedMutation)
    → ((m : QueuedMutation) → (f m).id ≡ m.id)
    → (rows : List QueuedMutation) → any (has_id i) (update_where p f rows) ≡ any (has_id i) rows
any-update_where i p f keeps [] = refl
any-update_where i p f keeps (m ∷ rows) = ground (arith, keeps m, any-update_where i p f keeps rows)

any-delete_id :
    (i j : Uuid) (rows : List QueuedMutation)
    → (j == i) ≡ false
    → any (has_id i) (delete_id j rows) ≡ any (has_id i) rows
any-delete_id i j [] differs = refl
any-delete_id i j (m ∷ rows) differs = ground (arith, any-delete_id i j rows differs)

deleted-confirmed : (r : Reply) → verdict r ≡ deleted → r ≡ confirmed
deleted-confirmed confirmed h = refl
deleted-confirmed (refused e) h = ground arith
deleted-confirmed (thrown t) h = absurd (cc)

module _ (w : World) (workspace : Uuid) (i : Uuid) where
  -- a request that carried the id as its key was confirmed in some round
  abbrev pub WasConfirmed : Type 0
  WasConfirmed =
      (k : ℕ) × (m : QueuedMutation) × (m.id ≡ i)
      × (m.workspace_id ≡ workspace)
      × (send_mutation w k m ≡ confirmed)

  abbrev Kept : List QueuedMutation → DrainResult → Type 0
  Kept rows r = (any (has_id i) rows ≡ true) ⊎ WasConfirmed

  round-Kept :
      (k : ℕ) (m : QueuedMutation) (rows : List QueuedMutation) (r : DrainResult) (v : Verdict)
      → claim_next workspace (w.now k) rows ≡ some m
      → verdict (send_mutation w k m) ≡ v
      → Kept rows r
      → Next w workspace Kept Kept v
          (rows_after w workspace k m v (mark_in_flight m.id rows))
          (result_after w workspace v r)
  round-Kept k m rows r deleted claimed sent (inl h) = elim (Bool-cases (m.id == i)) [
    | inl same ↦ inr (
      k,
      m,
      (==_iff m.id i).0 same,
      (claim_next-Member workspace (w.now k) rows {m = m} claimed).1,
      deleted-confirmed _ sent,
    )
    | inr differs ↦ inl (
        any-delete_id i m.id (mark_in_flight m.id rows) differs
        ∙ any-update_where i (has_id m.id) (λ x. record x { status = in_flight }) (λ x. refl) rows
        ∙ h)
  ]
  round-Kept k m rows r (rejected message) claimed sent (inl h) = inl (
      any-update_where i (has_id m.id) _ (λ x. refl) (mark_in_flight m.id rows)
      ∙ any-update_where i (has_id m.id) (λ x. record x { status = in_flight }) (λ x. refl) rows
      ∙ h)
  round-Kept k m rows r (put_off message) claimed sent (inl h) = inl (
      any-update_where i (has_id m.id) _ (λ x. refl) (mark_in_flight m.id rows)
      ∙ any-update_where i (has_id m.id) (λ x. record x { status = in_flight }) (λ x. refl) rows
      ∙ h)
  round-Kept k m rows r deleted claimed sent (inr c) = inr c
  round-Kept k m rows r (rejected message) claimed sent (inr c) = inr c
  round-Kept k m rows r (put_off message) claimed sent (inr c) = inr c

  -- A drain loses no write: a mutation that is in the queue before is in it afterwards, unless the
  -- server confirmed a request that carried its id as the idempotency key.
  pub drain-keeps :
      (rows rows' : List QueuedMutation) (r : DrainResult)
      → drain w workspace rows ≡ some (rows', r)
      → any (has_id i) rows ≡ true
      → (any (has_id i) rows' ≡ true) ⊎ WasConfirmed
  unfolding drain reclaim_stranded
  drain-keeps rows rows' r h there =
      drain_from-rule w workspace Kept Kept (λ k xs s idle kept. kept) round-Kept _ _ _ rows' _ r h
        (inl (
          any-update_where i (is_stranded workspace)
            (λ m. record m { status = pending; next_attempt_at = none }) (λ m. refl) rows
          ∙ there))

abbrev pub has_stranded : Uuid → List QueuedMutation → Bool
has_stranded workspace rows = any (is_stranded workspace) rows

-- The claimed row is marked, and then deleted, parked or put back.
module _ (workspace : Uuid) (i : Uuid) where
  stranded-delete :
      (rows : List QueuedMutation)
      → has_stranded workspace rows ≡ false
      → has_stranded workspace (delete_id i (mark_in_flight i rows)) ≡ false
  stranded-delete [] h = refl
  stranded-delete (x ∷ rows) h = ground (arith, stranded-delete rows)

  stranded-update :
      (g : QueuedMutation → QueuedMutation)
      → ((x : QueuedMutation) → is_in_flight (g x).status ≡ false)
      → (rows : List QueuedMutation) → has_stranded workspace rows ≡ false
      → has_stranded workspace (update_where (has_id i) g (mark_in_flight i rows)) ≡ false
  stranded-update g lands [] h = refl
  stranded-update g lands (x ∷ rows) h =
      ground (arith, stranded-update g lands rows, lands (record x { status = in_flight }))

stranded-reclaim :
    (workspace : Uuid) (rows : List QueuedMutation)
    → has_stranded workspace (
        update_where
          (is_stranded workspace)
          (λ m. record m { status = pending; next_attempt_at = none })
          rows)
      ≡ false
stranded-reclaim workspace [] = refl
stranded-reclaim workspace (x ∷ rows) = ground (arith, stranded-reclaim workspace rows)

module _ (w : World) (workspace : Uuid) where
  abbrev Clear : List QueuedMutation → DrainResult → Type 0
  Clear rows r = has_stranded workspace rows ≡ false

  round-Clear :
      (k : ℕ) (m : QueuedMutation) (rows : List QueuedMutation) (r : DrainResult) (v : Verdict)
      → Clear rows r
      → Next w workspace Clear Clear v
          (rows_after w workspace k m v (mark_in_flight m.id rows))
          (result_after w workspace v r)
  round-Clear k m rows r deleted h = stranded-delete workspace m.id rows h
  round-Clear k m rows r (rejected message) h =
      stranded-update workspace m.id
        (λ x. record x {
          status = needs_attention;
          attempts = m.attempts + 1;
          last_error = some message;
        })
        (λ x. refl) rows h
  round-Clear k m rows r (put_off message) h =
      stranded-update workspace m.id
        (λ x. record x {
          status = pending;
          attempts = m.attempts + 1;
          next_attempt_at = some (w.failed_at k + backoff_ms (m.attempts + 1) (w.jitter k));
          last_error = some message;
        })
        (λ x. refl) rows h

  -- No mutation of the workspace is left in flight by a drain, not even one that an earlier run
  -- left behind.
  pub drain-clears :
      (rows rows' : List QueuedMutation) (r : DrainResult)
      → drain w workspace rows ≡ some (rows', r)
      → any (is_stranded workspace) rows' ≡ false
  unfolding drain reclaim_stranded
  drain-clears rows rows' r h =
      drain_from-rule w workspace Clear Clear (λ k xs s idle clear. clear)
        (λ k m xs s v claimed sent clear. round-Clear k m xs s v clear) _ _ _ rows' _ r h
        (stranded-reclaim workspace rows)
