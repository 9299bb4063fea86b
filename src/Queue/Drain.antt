-- ===== src/Queue/Drain.antt =====
-- What one drain of the queue does, whatever the server answers: the rule by which a
-- property of the rows is proved, round by round, and what the claimed mutation is.
pub mod Rows
pub mod Fuel
pub mod Fate
pub mod Counts
use noorix_fin.Common.{
  ℕ, zero, suc, ◌+◌, ◌≤◌, ◌<◌, ◌≡◌, refl, sym, ap, ◌∙◌, subst, Bool, true, false, not, ◌&&◌, Option,
  some, none, List, [], ◌∷◌, ◌++◌, ◌==◌, ◌⊎◌, inl, inr, arith, filter, any, all, length, Bool-cases,
  Option-cases, ==_refl, ==_iff, leb, if◌then◌else◌, Member, filter-Member,
}
use noorix_fin.Queue.{
  Uuid, QueuedMutation, pending, in_flight, needs_attention, is_pending, is_in_flight, is_parked,
  has_id, update_where, delete_id, is_stranded, reclaim_stranded, is_claimable, earliest,
  claim_next,
}
use noorix_fin.Queue.Transport.{World, Reply, confirmed, refused, thrown, send_mutation}
use noorix_fin.Queue.Loop.{
  DrainResult, Verdict, deleted, rejected, put_off, verdict, mark_in_flight, rows_after,
  result_after, go_on, turn, drain_from, drain,
}

some-injective {ℓ} : {A : Type ℓ} {x y : A} → some x ≡ some y → x ≡ y
some-injective h = cc

module _ (w : World) (workspace : Uuid) where
  -- What holds before each round holds of the rows that a round leaves, or the final condition does.
  abbrev Next {κ} :
      (List QueuedMutation → DrainResult → Type κ)
      → (List QueuedMutation → DrainResult → Type κ)
      → Verdict
      → List QueuedMutation
      → DrainResult
      → Type κ
  Next P Q deleted rows r = P rows r
  Next P Q (rejected message) rows r = P rows r
  Next P Q (put_off message) rows r = Q rows r

  module _ {κ} (P Q : List QueuedMutation → DrainResult → Type κ)
      (ends : (k : ℕ) (rows : List QueuedMutation) (r : DrainResult)
        → claim_next workspace (w.now k) rows ≡ none
        → P rows r
        → Q rows r)
      (step : (k : ℕ) (m : QueuedMutation) (rows : List QueuedMutation) (r : DrainResult)
          (v : Verdict)
        → claim_next workspace (w.now k) rows ≡ some m
        → verdict (send_mutation w k m) ≡ v
        → P rows r
        → Next P Q v
            (rows_after w workspace k m v (mark_in_flight m.id rows))
            (result_after w workspace v r)) where
    go_on-rule :
        (next : List QueuedMutation → DrainResult → Option (List QueuedMutation × DrainResult))
        (rows' : List QueuedMutation) (r' : DrainResult)
        → ((rows : List QueuedMutation) (r : DrainResult)
            → next rows r ≡ some (rows', r')
            → P rows r
            → Q rows' r')
        → (v : Verdict) (rows : List QueuedMutation) (r : DrainResult)
        → go_on w workspace next v rows r ≡ some (rows', r')
        → Next P Q v rows r
        → Q rows' r'
    go_on-rule next rows' r' later deleted rows r h p = later rows r h p
    go_on-rule next rows' r' later (rejected message) rows r h p = later rows r h p
    go_on-rule next rows' r' later (put_off message) rows r h q =
        subst (λ (x : List QueuedMutation × DrainResult). Q x.0 x.1) (some-injective h) q

    drain_from-rule :
        (fuel k : ℕ) (rows rows' : List QueuedMutation) (r r' : DrainResult)
        → drain_from w workspace fuel k rows r ≡ some (rows', r')
        → P rows r
        → Q rows' r'
    unfolding drain_from
    drain_from-rule zero k rows rows' r r' h p = absurd (cc)
    drain_from-rule (suc fuel) k rows rows' r r' h p =
        elim (Option-cases (claim_next workspace (w.now k) rows)) [
          | inl idle ↦
              subst (λ (x : List QueuedMutation × DrainResult). Q x.0 x.1)
                (some-injective (rw idle at h)) (ends k rows r idle p)
          | inr (m, claimed) ↦
              let v = verdict (send_mutation w k m) in
              go_on-rule (drain_from w workspace fuel (suc k)) rows' r'
                (λ xs x e. drain_from-rule fuel (suc k) xs rows' x r' e) v
                (rows_after w workspace k m v (mark_in_flight m.id rows))
                (result_after w workspace v r) (rw claimed at h) (step k m rows r v claimed refl p)
        ]

earliest-Member :
    (rows : List QueuedMutation) {m : QueuedMutation} → earliest rows ≡ some m → Member m rows
earliest-Member [] h = cc
earliest-Member (x ∷ rows) {m} h = elim (Option-cases (earliest rows)) [
  | inl alone ↦ inl (some-injective (rw alone at h))
  | inr (k, found) ↦
      let h' : some (if leb x.created_at k.created_at then x else k) ≡ some m = rw found at h in
      elim (Bool-cases (leb x.created_at k.created_at)) [
        | inl first ↦ inl (some-injective (rw first at h'))
        | inr later ↦
            let same : k ≡ m = some-injective (rw later at h') in
            inr (subst (λ y. Member y rows) same (earliest-Member rows {m = k} found))
      ]
]

-- The mutation that is claimed is a pending row of the workspace.
claim_next-Member :
    (workspace : Uuid) (now : ℕ) (rows : List QueuedMutation) {m : QueuedMutation}
    → claim_next workspace now rows ≡ some m
    → Member m rows × (m.workspace_id ≡ workspace) × (is_pending m.status ≡ true)
unfolding claim_next
claim_next-Member workspace now rows {m} h =
    let (found, test) =
      filter-Member (is_claimable workspace now) rows
        (earliest-Member (filter (is_claimable workspace now) rows) h) in
    (found, ground arith, ground arith)
