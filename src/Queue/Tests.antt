-- ===== src/Queue/Tests.antt =====
-- A queue with a stranded mutation and a parked one, on which the theorems about it are applied.
use noorix_fin.Common.{
  ℕ, ◌+◌, ◌≡◌, refl, ◌⊎◌, inl, true, false, some, none, List, [], ◌∷◌, arith, any, filter, length,
  Member,
}
use noorix_fin.Common.Text.{codes}
use noorix_fin.Common.Outcome.{ok}
use noorix_fin.Queue.{
  create_transaction, reverse_transaction, QueuedMutation, in_flight, needs_attention, Device,
  has_id, new_row, find_parked, discard, is_stranded, claim_next, reclaim_stranded,
}
use noorix_fin.Queue.Transport.{answer, World, send_mutation, api_fetch}
use noorix_fin.Queue.Loop.{DrainResult, drain, drain_from}
use noorix_fin.Queue.Drain.Fuel.{drain-Returns}
use noorix_fin.Queue.Drain.Fate.{WasConfirmed, drain-keeps, drain-clears}
use noorix_fin.Queue.Drain.Rows.{IsKeyed, count_parked}
use noorix_fin.Queue.Drain.Counts.{drain-tallies}
use noorix_fin.Queue.Edits.{discard-keeps}

abbrev stranded : QueuedMutation
stranded = record (new_row 1 3 create_transaction (codes "{}") 100) { status = in_flight }

abbrev refused_before : QueuedMutation
refused_before = record (new_row 2 3 reverse_transaction (codes "{}") 90) {
  status = needs_attention;
  attempts = 1;
}

abbrev two_rows : List QueuedMutation
two_rows = stranded ∷ refused_before ∷ []

-- a server that answers 201
abbrev good_world : World
good_world = record {
  parse = λ t. ok (record { field = λ f. []; with_key = λ i. t });
  now = λ k. 1000;
  failed_at = λ k. 1001;
  jitter = λ k. 0;
  token = λ k. some (codes "token");
  fetch = λ k r. answer 201 (codes "Created") (some (none, none));
}

abbrev sent_one : DrainResult
sent_one = record { sent = 1; parked = 0; deferred = 0; reclaimed = 1 }

drained : drain good_world 3 two_rows ≡ some (refused_before ∷ [], sent_one)
unfolding drain drain_from claim_next reclaim_stranded send_mutation api_fetch
drained = refl

drain-Returns_example :
    (rows : List QueuedMutation) × (r : DrainResult) × (drain good_world 3 two_rows
      ≡ some (rows, r))
drain-Returns_example = drain-Returns good_world 3 two_rows

drain-keeps_example : (any (has_id 1) (refused_before ∷ []) ≡ true) ⊎ WasConfirmed good_world 3 1
drain-keeps_example =
    drain-keeps good_world 3 1 two_rows (refused_before ∷ []) sent_one drained refl

drain-clears_example : any (is_stranded 3) (refused_before ∷ []) ≡ false
drain-clears_example = drain-clears good_world 3 two_rows (refused_before ∷ []) sent_one drained

two_rows-IsKeyed : IsKeyed two_rows
two_rows-IsKeyed i = ground arith

drain-tallies_example :
    IsKeyed (refused_before ∷ [])
    × (1 + sent_one.sent ≡ length two_rows)
    × (count_parked (refused_before ∷ []) ≡ count_parked two_rows + sent_one.parked)
    × (sent_one.reclaimed ≡ length (filter (is_stranded 3) two_rows))
    × ((sent_one.deferred ≡ 1)
        ⊎ ((sent_one.deferred ≡ 0)
            × ((k : ℕ) × (claim_next 3 (good_world.now k) (refused_before ∷ []) ≡ none))))
drain-tallies_example =
    drain-tallies good_world 3 two_rows (refused_before ∷ []) sent_one two_rows-IsKeyed drained

abbrev device : Device
device = record {
  queue = two_rows;
  entries = (2, false) ∷ (7, true) ∷ [];
  postings = 7 ∷ [];
  entry_tags = 7 ∷ [];
}

discard-keeps_example :
    Member (2, false) (discard 2 device).entries × (find_parked 2 (discard 2 device).queue ≡ none)
discard-keeps_example = discard-keeps 2 device (2, false) (inl refl) (inl refl)
