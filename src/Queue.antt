-- ===== src/Queue.antt =====
-- apps/mobile/src/sync/queue.ts, with `ApiError` of apps/mobile/src/lib/api.ts: the durable queue
-- of the writes that the server has not confirmed. The table `_mutation_queue` is the list of its
-- rows in the order of their insertion. Times are milliseconds: the ISO strings of the source all
-- have one format and are compared as their times.
pub mod Transport
pub mod Loop
pub mod Drain
pub mod Edits
mod Tests
use noorix_fin.Common.{
  ℕ, zero, suc, String, ◌+◌, ◌*◌, ◌/◌, ◌^◌, ◌≡◌, Bool, true, false, not, ◌&&◌, ◌||◌, Option, some,
  none, List, [], ◌∷◌, ◌++◌, map, ◌==◌, leb, ltb, if◌then◌else◌, filter, any, length,
}
use Prim.Native.Nat.{min}
use noorix_fin.Common.Text.{Text, codes}
use noorix_fin.Common.Outcome.{Outcome, ok, err}

abbrev pub Uuid : Type 0
Uuid = ℕ

pub data MutationKind : Type 0 where
  create_transaction reverse_transaction read_notification read_all_notifications : MutationKind

pub data QueueStatus : Type 0 where
  pending in_flight needs_attention : QueueStatus

pub record QueuedMutation : Type 0 where
  pub id : Uuid
  pub workspace_id : Uuid
  pub kind : MutationKind
  pub payload : Text
  pub created_at : ℕ
  pub attempts : ℕ
  pub next_attempt_at : Option ℕ
  pub status : QueueStatus
  pub last_error : Option Text

abbrev pub is_pending : QueueStatus → Bool
is_pending pending = true
is_pending in_flight = false
is_pending needs_attention = false

abbrev pub is_in_flight : QueueStatus → Bool
is_in_flight pending = false
is_in_flight in_flight = true
is_in_flight needs_attention = false

abbrev pub is_parked : QueueStatus → Bool
is_parked pending = false
is_parked in_flight = false
is_parked needs_attention = true

-- The device's tables that `discard` touches: pairs of an entry's id and its `is_pending`, and the
-- entry of each posting and of each tag.
pub record Device : Type 0 where
  pub queue : List QueuedMutation
  pub entries : List (Uuid × Bool)
  pub postings : List Uuid
  pub entry_tags : List Uuid

-- `UPDATE ... SET ... WHERE ...`
abbrev pub update_where :
    (QueuedMutation → Bool)
    → (QueuedMutation → QueuedMutation)
    → List QueuedMutation
    → List QueuedMutation
update_where p f rows = map (λ m. if p m then f m else m) rows

abbrev pub has_id : Uuid → QueuedMutation → Bool
has_id i m = m.id == i

abbrev pub new_row : Uuid → Uuid → MutationKind → Text → ℕ → QueuedMutation
new_row i workspace kind payload now = record {
  id = i;
  workspace_id = workspace;
  kind = kind;
  payload = payload;
  created_at = now;
  attempts = 0;
  next_attempt_at = none;
  status = pending;
  last_error = none;
}

-- `INSERT OR IGNORE`: the id is the primary key
unfoldable pub enqueue :
    Uuid → Uuid → MutationKind → Text → ℕ → List QueuedMutation → List QueuedMutation
enqueue i workspace kind payload now rows =
    if any (has_id i) rows then rows else rows ++ new_row i workspace kind payload now ∷ []

unfoldable pub count_pending : Uuid → List QueuedMutation → ℕ
count_pending workspace rows = length (
    filter
      (λ (m : QueuedMutation).
        m.workspace_id == workspace && (is_pending m.status || is_in_flight m.status))
      rows)

-- `DELETE FROM _mutation_queue WHERE id = ?`
abbrev pub delete_id : Uuid → List QueuedMutation → List QueuedMutation
delete_id i rows = filter (λ m. not (has_id i m)) rows

abbrev pub find_parked : Uuid → List QueuedMutation → Option QueuedMutation
find_parked i [] = none
find_parked i (m ∷ rows) = if has_id i m && is_parked m.status then some m else find_parked i rows

abbrev roll_back : MutationKind → Uuid → Device → Device
roll_back create_transaction i d = record d {
  entry_tags = filter (λ e. not (e == i)) d.entry_tags;
  entries = filter (λ e. not (e.0 == i && (e.1 && not (any (λ p. p == e.0) d.postings)))) d.entries;
}
roll_back kind i d = d

-- one SQLite transaction
discard_found : Option QueuedMutation → Uuid → Device → Device
discard_found none i d = d
discard_found (some m) i d =
    let rolled = roll_back m.kind i d in record rolled { queue = delete_id i rolled.queue }

unfoldable pub discard : Uuid → Device → Device
unfolding discard_found
discard i d = discard_found (find_parked i d.queue) i d

unfoldable pub retry : Uuid → List QueuedMutation → List QueuedMutation
retry i rows =
    update_where (λ m. has_id i m && is_parked m.status)
      (λ m. record m { status = pending; next_attempt_at = none; last_error = none }) rows

-- `Math.random()` is `jitter / 2^53`. A Date drops the fraction of a millisecond.
unfoldable pub backoff_ms : ℕ → ℕ → ℕ
backoff_ms attempts jitter =
    let base = min (1000 * 2 ^ attempts) 300000 in base + base * jitter / (4 * 2 ^ 53)

abbrev pub is_stranded : Uuid → QueuedMutation → Bool
is_stranded workspace m = m.workspace_id == workspace && is_in_flight m.status

-- the rows, and how many of them changed
unfoldable pub reclaim_stranded : Uuid → List QueuedMutation → List QueuedMutation × ℕ
reclaim_stranded workspace rows = (
  update_where (is_stranded workspace) (λ m. record m { status = pending; next_attempt_at = none })
      rows,
  length (filter (is_stranded workspace) rows),
)

abbrev pub is_due : ℕ → Option ℕ → Bool
is_due now none = true
is_due now (some at) = leb at now

abbrev pub is_claimable : Uuid → ℕ → QueuedMutation → Bool
is_claimable workspace now m =
    m.workspace_id == workspace && (is_pending m.status && is_due now m.next_attempt_at)

-- `ORDER BY created_at LIMIT 1`. The index idx_queue_pending holds rows of one time in the order
-- of their insertion.
abbrev sooner : QueuedMutation → Option QueuedMutation → QueuedMutation
sooner m none = m
sooner m (some k) = if leb m.created_at k.created_at then m else k

abbrev pub earliest : List QueuedMutation → Option QueuedMutation
earliest [] = none
earliest (m ∷ rows) = some (sooner m (earliest rows))

unfoldable pub claim_next : Uuid → ℕ → List QueuedMutation → Option QueuedMutation
claim_next workspace now rows = earliest (filter (is_claimable workspace now) rows)
