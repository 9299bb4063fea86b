-- ===== src/Idempotency/Tests.antt =====
-- A request that succeeds and is sent again, on which the theorems about the interceptor are applied.
use noorix_fin.Common.{◌+◌, ◌≡◌, refl, false, some, [], ◌∷◌, any, if◌then◌else◌, Member}
use noorix_fin.Common.Text.{Text, codes}
use noorix_fin.Idempotency.{
  IdempotencyRecord, replay, run_handler, differs, has_key, new_record, reserve, complete, System,
  initial, Step, begin, succeed, Reach, start, then_step,
}
use noorix_fin.Idempotency.Once.{count, successes, at_most_once}
use noorix_fin.Idempotency.Replay.{replay_lem}

abbrev answer : Text
answer = codes "{}"

abbrev begun : System
begun = record { records = new_record 5 9 ∷ []; running = 5 ∷ []; done = [] }

abbrev stored : IdempotencyRecord
stored = record (new_record 5 9) { response = some answer }

abbrev finished : System
finished = record { records = stored ∷ []; running = []; done = (5, answer) ∷ [] }

reserved : reserve false 5 9 [] ≡ (run_handler, new_record 5 9 ∷ [])
unfolding reserve
reserved = refl

finish : Step begun (record begun {
  records = complete false 5 answer begun.records;
  running = [];
  done = (5, answer) ∷ [];
})
finish = succeed 5 [] [] answer refl

completed : complete false 5 answer begun.records ≡ stored ∷ []
unfolding complete
completed = refl

finished-Reach : Reach finished
unfolding complete
finished-Reach =
    then_step begun finished
      (then_step initial begun start (begin 5 9 (new_record 5 9 ∷ []) reserved)) finish

at_most_once_example :
    count 5 finished.running + successes 5 finished.done
    ≡ (if any (has_key 5) finished.records then 1 else 0)
at_most_once_example = at_most_once finished 5 finished-Reach

replayed : reserve false 5 9 finished.records ≡ (replay answer, finished.records)
unfolding reserve
replayed = refl

replay_lem_example :
    Member (5, answer) finished.done
    × ((r : IdempotencyRecord) × Member r finished.records
        × (r.key_hash ≡ 5)
        × (differs r.request_fingerprint 9 ≡ false))
replay_lem_example = replay_lem finished 5 9 answer finished.records finished-Reach replayed
