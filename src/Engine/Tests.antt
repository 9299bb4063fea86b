-- ===== src/Engine/Tests.antt =====
-- A run that pulls two pages, and overlapping calls of sync.
use noorix_fin.Common.{ℕ, ◌<◌, zero, suc, ◌≡◌, refl, true, false, Option, some, none, List, [], ◌∷◌}
use noorix_fin.Common.Text.{Text, codes}
use noorix_fin.Common.Outcome.{Outcome, ok}
use noorix_fin.Queue.Transport.{answer}
use noorix_fin.Sync.{TableName, tags}
use noorix_fin.Engine.{LocalRow, SyncResponse, PullError, Local, Outside, idle, pull, execute}
use noorix_fin.Queue.{claim_next, reclaim_stranded}
use noorix_fin.Queue.Loop.{drain, drain_from}
use noorix_fin.Engine.Pull.{Resumes, execute-Resumes}
use noorix_fin.Engine.Overlap.{
  Runs, call, SyncReach, start, then_step, no_runs, sync, runs_of, one_run,
}

abbrev one_tag : ℕ → TableName → List LocalRow
one_tag i tags = record { key = i ∷ []; columns = [] } ∷ []
one_tag i t = []

abbrev two_pages : ℕ → Option Text → Outcome PullError SyncResponse
two_pages zero asked = ok (record { cursor = codes "a"; has_more = true; changes = one_tag 1 })
two_pages (suc k) asked = ok (record { cursor = codes "b"; has_more = false; changes = one_tag 2 })

abbrev outside : Outside
outside = record {
  queue_world = record {
    parse = λ t. ok (record { field = λ f. []; with_key = λ i. t });
    now = λ k. 1000;
    failed_at = λ k. 1001;
    jitter = λ k. 0;
    token = λ k. some (codes "token");
    fetch = λ k r. answer 201 (codes "Created") (some (none, none));
  };
  push_fails = none;
  fetch = two_pages;
  store_fails = λ k. none;
  is_known = λ t c. true;
}

abbrev empty_local : Local
empty_local = record { tables = λ t. []; pending = []; cursor = none }

ends_idle : (execute outside 3 [] empty_local).outcome.state ≡ idle
unfolding execute pull drain drain_from claim_next reclaim_stranded
ends_idle = refl

execute-Resumes_example : Resumes outside (execute outside 3 [] empty_local)
execute-Resumes_example = execute-Resumes outside 3 [] empty_local refl

-- Workspace 3 is synced, then 4; the second call for 3 gets the run of the first.
abbrev two_runs : Runs
two_runs = (sync 4 (sync 3 no_runs).1).1

joins : sync 3 two_runs ≡ (0, two_runs)
unfolding sync
joins = refl

two_runs-SyncReach : SyncReach two_runs
two_runs-SyncReach = then_step _ _ (then_step _ _ start (call 3)) (call 4)

one_run_example :
    ((w : ℕ) → runs_of w two_runs.running < 2)
    × ((w : ℕ) → runs_of w (sync w two_runs).1.running ≡ 1)
one_run_example = one_run two_runs two_runs-SyncReach
