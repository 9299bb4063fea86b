-- ===== src/Queue/Edits.antt =====
-- The operations on single rows of the queue: enqueue, discard, retry, and the backoff.
use noorix_fin.Common.{
  ℕ, ◌+◌, ◌*◌, ◌/◌, ◌^◌, ◌≤◌, ◌<◌, ◌≡◌, refl, ap, ◌∙◌, subst, Bool, true, false, not, ◌&&◌, Option,
  some, none, List, [], ◌∷◌, ◌++◌, ◌==◌, ◌⊎◌, inl, inr, arith, filter, any, Bool-cases,
  if◌then◌else◌, ==_iff, Member,
}
use noorix_fin.Common.Text.{Text}
use Prim.Native.Nat.{min}
use native.Mathlib.Nat.{le_of_lt, mul-div-le, mul-le-mul_left}
use noorix_fin.Queue.{
  Uuid, MutationKind, create_transaction, reverse_transaction, read_notification,
  read_all_notifications, QueuedMutation, Device, has_id, enqueue, find_parked, discard,
  discard_found, delete_id, backoff_ms, new_row, roll_back,
}
use noorix_fin.Queue.Drain.Rows.{count_id, IsKeyed}

any-snoc :
    (i : Uuid) (rows : List QueuedMutation) (m : QueuedMutation)
    → m.id ≡ i
    → any (has_id i) (rows ++ m ∷ []) ≡ true
any-snoc i [] m h = ground arith
any-snoc i (x ∷ rows) m h = ground (arith, any-snoc i rows m h)

-- A second enqueue under the same id changes nothing, whatever its workspace, kind, payload and time.
pub enqueue-enqueue :
    (i v w : Uuid) (kind kind' : MutationKind) (payload payload' : Text) (now now' : ℕ)
    (rows : List QueuedMutation)
    → enqueue i v kind' payload' now' (enqueue i w kind payload now rows)
      ≡ enqueue i w kind payload now rows
unfolding enqueue
enqueue-enqueue i v w kind kind' payload payload' now now' rows =
    elim (Bool-cases (any (has_id i) rows)) [
      | inl there ↦ rw (there, there) refl
      | inr new ↦ rw new (rw (any-snoc i rows (new_row i w kind payload now) refl) refl)
    ]

count_id-absent :
    (i : Uuid) (rows : List QueuedMutation) → any (has_id i) rows ≡ false → count_id i rows ≡ 0
count_id-absent i [] h = refl
count_id-absent i (x ∷ rows) h = ground (arith, count_id-absent i rows)

count_id-snoc :
    (j : Uuid) (rows : List QueuedMutation) (m : QueuedMutation)
    → count_id j (rows ++ m ∷ []) ≡ count_id j rows + (if m.id == j then 1 else 0)
count_id-snoc j [] m = ground arith
count_id-snoc j (x ∷ rows) m = ground (arith, count_id-snoc j rows m)

fresh_lem :
    (i j : Uuid) (rows : List QueuedMutation)
    → any (has_id i) rows ≡ false
    → IsKeyed rows
    → count_id j rows + (if i == j then 1 else 0) ≤ 1
fresh_lem i j rows new keyed = elim (Bool-cases (i == j)) [
  | inl same ↦ rw same (
      omega (
        arith,
        subst (λ x. count_id x rows ≡ 0) ((==_iff i j).0 same) (count_id-absent i rows new),
      ))
  | inr differs ↦ rw differs (omega (arith, keyed j))
]

-- Enqueuing a mutation keeps the ids of the queue unique.
pub enqueue-IsKeyed :
    (i w : Uuid) (kind : MutationKind) (payload : Text) (now : ℕ) (rows : List QueuedMutation)
    → IsKeyed rows
    → IsKeyed (enqueue i w kind payload now rows)
unfolding enqueue
enqueue-IsKeyed i w kind payload now rows keyed j = elim (Bool-cases (any (has_id i) rows)) [
  | inl there ↦ rw there (keyed j)
  | inr new ↦
      rw new
        (rw (count_id-snoc j rows (new_row i w kind payload now)) (fresh_lem i j rows new keyed))
]

quarter_lem : (b j : ℕ) → j < 2 ^ 53 → 4 * (b * j / 36028797018963968) ≤ b
quarter_lem b j h =
    omega (arith, mul-div-le (b * j) 36028797018963968, mul-le-mul_left b (le_of_lt h))

-- With a random number below 1, the delay is at least the base, which is 1000 * 2^attempts but at
-- most five minutes, at most a quarter longer than it, and never more than 375 seconds.
pub backoff_ms-bounds :
    (attempts jitter : ℕ)
    → jitter < 2 ^ 53
    → (min (1000 * 2 ^ attempts) 300000 ≤ backoff_ms attempts jitter)
      × (4 * backoff_ms attempts jitter ≤ 5 * min (1000 * 2 ^ attempts) 300000)
      × (backoff_ms attempts jitter ≤ 375000)
unfolding backoff_ms
backoff_ms-bounds attempts jitter h =
    let base = min (1000 * 2 ^ attempts) 300000 in
    let quarter = quarter_lem base jitter h in
    (omega arith, omega (arith, quarter), omega (arith, quarter))

filter-keeps :
    {A : Type 0} (p : A → Bool) (xs : List A) {x : A}
    → Member x xs
    → p x ≡ true
    → Member x (filter p xs)
filter-keeps p [] found h = absurd found
filter-keeps p (y ∷ ys) {x} (inl here) h = rw (ap p here ∙ h) (inl here)
filter-keeps p (y ∷ ys) {x} (inr there) h = elim (Bool-cases (p y)) [
  | inl kept ↦ rw kept (inr (filter-keeps p ys {x = x} there h))
  | inr dropped ↦ rw dropped (filter-keeps p ys {x = x} there h)
]

-- An entry that discarding a mutation may not delete: it has been confirmed, has postings, or has
-- another id.
abbrev pub is_protected : Uuid → Device → Uuid × Bool → Bool
is_protected i d e = not (e.0 == i && (e.1 && not (any (λ p. p == e.0) d.postings)))

discard_found-keeps :
    (i : Uuid) (d : Device) (e : Uuid × Bool) (found : Option QueuedMutation)
    → Member e d.entries
    → is_protected i d e ≡ true
    → Member e (discard_found found i d).entries
unfolding discard_found
discard_found-keeps i d e none there safe = there
discard_found-keeps i d e (some m) there safe = kept m.kind
  where
    kept : (kind : MutationKind) → Member e (roll_back kind i d).entries
    kept create_transaction = filter-keeps (is_protected i d) d.entries {x = e} there safe
    kept reverse_transaction = there
    kept read_notification = there
    kept read_all_notifications = there

find_parked-delete_id :
    (i : Uuid) (rows : List QueuedMutation) → find_parked i (delete_id i rows) ≡ none
find_parked-delete_id i [] = refl
find_parked-delete_id i (x ∷ rows) = elim (Bool-cases (has_id i x)) [
  | inl same ↦ rw same (find_parked-delete_id i rows)
  | inr differs ↦ rw differs (rw differs (find_parked-delete_id i rows))
]

-- Discarding a mutation deletes no entry that the server has confirmed, that has postings, or that
-- has another id, and it leaves no row with the id that needed attention.
pub discard-keeps :
    (i : Uuid) (d : Device) (e : Uuid × Bool)
    → Member e d.entries
    → (e.1 ≡ false) ⊎ ((any (λ p. p == e.0) d.postings ≡ true) ⊎ ((e.0 == i) ≡ false))
    → Member e (discard i d).entries × (find_parked i (discard i d).queue ≡ none)
unfolding discard discard_found
discard-keeps i d e there safe = (
  discard_found-keeps i d e (find_parked i d.queue) there (protected safe),
  gone (find_parked i d.queue) refl,
)
  where
    protected :
        (e.1 ≡ false) ⊎ ((any (λ p. p == e.0) d.postings ≡ true) ⊎ ((e.0 == i) ≡ false))
        → is_protected i d e ≡ true
    protected (inl h) = ground arith
    protected (inr (inl h)) = ground arith
    protected (inr (inr h)) = ground arith

    gone :
        (found : Option QueuedMutation)
        → find_parked i d.queue ≡ found
        → find_parked i (discard_found found i d).queue ≡ none
    gone none h = h
    gone (some m) h = find_parked-delete_id i (roll_back m.kind i d).queue
