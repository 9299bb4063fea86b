-- ===== src/Queue/Loop.antt =====
-- drain of apps/mobile/src/sync/queue.ts: the loop, on fuel, one more than there are rows.
use noorix_fin.Common.{ℕ, zero, suc, ◌+◌, Option, some, none, List, if◌then◌else◌, length}
use noorix_fin.Common.Text.{Text}
use noorix_fin.Queue.{
  QueuedMutation, Uuid, backoff_ms, claim_next, delete_id, has_id, in_flight, needs_attention,
  pending, reclaim_stranded, update_where,
}
use noorix_fin.Queue.Transport.{
  Reply, World, confirmed, is_permanent, refused, send_mutation, thrown,
}

pub record DrainResult : Type 0 where
  pub sent : ℕ
  pub parked : ℕ
  pub deferred : ℕ
  pub reclaimed : ℕ

-- What a round does with the mutation: delete it, park it, or defer it, with the error's text.
pub data Verdict : Type 0 where
  deleted : Verdict
  rejected put_off : Text → Verdict

abbrev pub verdict : Reply → Verdict
verdict confirmed = deleted
verdict (refused e) = if is_permanent e then rejected e.message else put_off e.message
verdict (thrown t) = put_off t

abbrev pub mark_in_flight : Uuid → List QueuedMutation → List QueuedMutation
mark_in_flight i rows = update_where (has_id i) (λ m. record m { status = in_flight }) rows

module _ (w : World) (workspace : Uuid) where
  abbrev pub rows_after : ℕ → QueuedMutation → Verdict → List QueuedMutation → List QueuedMutation
  rows_after k m deleted rows = delete_id m.id rows
  rows_after k m (rejected message) rows =
      update_where (has_id m.id)
        (λ x. record x {
          status = needs_attention;
          attempts = m.attempts + 1;
          last_error = some message;
        })
        rows
  rows_after k m (put_off message) rows =
      update_where (has_id m.id)
        (λ x. record x {
          status = pending;
          attempts = m.attempts + 1;
          next_attempt_at = some (w.failed_at k + backoff_ms (m.attempts + 1) (w.jitter k));
          last_error = some message;
        })
        rows

  abbrev pub result_after : Verdict → DrainResult → DrainResult
  result_after deleted r = record r { sent = r.sent + 1 }
  result_after (rejected message) r = record r { parked = r.parked + 1 }
  result_after (put_off message) r = record r { deferred = r.deferred + 1 }

  -- the next round, or the end of the loop: `continue` and `break`
  abbrev pub go_on :
      (List QueuedMutation → DrainResult → Option (List QueuedMutation × DrainResult))
      → Verdict
      → List QueuedMutation
      → DrainResult
      → Option (List QueuedMutation × DrainResult)
  go_on next deleted rows r = next rows r
  go_on next (rejected message) rows r = next rows r
  go_on next (put_off message) rows r = some (rows, r)

  -- one round
  abbrev pub turn :
      (List QueuedMutation → DrainResult → Option (List QueuedMutation × DrainResult))
      → ℕ
      → Option QueuedMutation
      → List QueuedMutation
      → DrainResult
      → Option (List QueuedMutation × DrainResult)
  turn next k none rows r = some (rows, r)
  turn next k (some m) rows r =
      let v = verdict (send_mutation w k m) in
      go_on next v (rows_after k m v (mark_in_flight m.id rows)) (result_after v r)

  -- the loop from the round `k`, on fuel
  unfoldable pub drain_from :
      ℕ → ℕ → List QueuedMutation → DrainResult → Option (List QueuedMutation × DrainResult)
  drain_from zero k rows r = none
  drain_from (suc fuel) k rows r =
      turn (drain_from fuel (suc k)) k (claim_next workspace (w.now k) rows) rows r

  unfoldable pub drain : List QueuedMutation → Option (List QueuedMutation × DrainResult)
  drain rows =
      let (reclaimed_rows, n) = reclaim_stranded workspace rows in
      drain_from (suc (length rows)) 0 reclaimed_rows
        (record { sent = 0; parked = 0; deferred = 0; reclaimed = n })
