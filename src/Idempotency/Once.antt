-- ===== src/Idempotency/Once.antt =====
-- With replay protection a handler succeeds at most once for a key.
use noorix_fin.Common.{
  ℕ, ◌+◌, ◌≡◌, refl, sym, ap, ◌∙◌, subst, Bool, true, false, not, ◌&&◌, Option, some, none, List,
  [], ◌∷◌, ◌++◌, ◌==◌, if◌then◌else◌, any, find?, inl, inr, arith, Bool-cases, ==_iff, Member, ◌≢◌,
  ◌||◌,
}
use noorix_fin.Common.Text.{Text}
use noorix_fin.Idempotency.{
  Hash, IdempotencyRecord, run_handler, key_reused, differs, answer_of, resolve, has_key,
  new_record, reserve, complete, release, System, Step, begin, succeed, fail, Reach, start,
  then_step,
}

abbrev pub count : Hash → List Hash → ℕ
count k [] = 0
count k (x ∷ xs) = (if x == k then 1 else 0) + count k xs

abbrev pub successes : Hash → List (Hash × Text) → ℕ
successes k [] = 0
successes k ((x, body) ∷ xs) = (if x == k then 1 else 0) + successes k xs

count-append : (k : Hash) (xs ys : List Hash) → count k (xs ++ ys) ≡ count k xs + count k ys
count-append k [] ys = omega arith
count-append k (x ∷ xs) ys = omega (arith, count-append k xs ys)

abbrev one_if : Bool → ℕ
one_if b = if b then 1 else 0

-- one if the key is in the table
abbrev taken : Hash → List IdempotencyRecord → ℕ
taken k rows = one_if (any (has_key k) rows)

-- The runs of a key's handler, in progress or successful, are as many as the key has records.
abbrev IsCounted : System → Type 0
IsCounted s = (k : Hash) → count k s.running + successes k s.done ≡ taken k s.records

any-append :
    (k : Hash) (rows : List IdempotencyRecord) (r : IdempotencyRecord)
    → any (has_key k) (rows ++ r ∷ []) ≡ (any (has_key k) rows || has_key k r)
any-append k [] r = ground arith
any-append k (x ∷ rows) r = ground (arith, any-append k rows r)

any-complete :
    (k j : Hash) (body : Text) (rows : List IdempotencyRecord)
    → any (has_key k) (complete false j body rows) ≡ any (has_key k) rows
unfolding complete
any-complete k j body [] = refl
any-complete k j body (x ∷ rows) = ground (arith, any-complete k j body rows)

any-release :
    (k j : Hash) (rows : List IdempotencyRecord)
    → any (has_key k) (release false j rows) ≡ (any (has_key k) rows && not (k == j))
unfolding release
any-release k j [] = refl
any-release k j (x ∷ rows) = ground (arith, any-release k j rows)

resolve-runs :
    (fingerprint : Hash) (r : IdempotencyRecord) → resolve fingerprint (some r) ≢ run_handler
resolve-runs fingerprint r h = elim (Bool-cases (differs r.request_fingerprint fingerprint)) [
  | inl other ↦ reused≢run (rw other at h)
  | inr same ↦ answer≢run r.response (rw same at h)
]
  where
    reused≢run : key_reused ≢ run_handler
    reused≢run e = cc

    answer≢run : (o : Option Text) → answer_of o ≢ run_handler
    answer≢run none e = cc
    answer≢run (some body) e = cc

pub find?-any :
    (k : Hash) (rows : List IdempotencyRecord)
    → any (has_key k) rows ≡ true
    → (r : IdempotencyRecord) × (find? (has_key k) rows ≡ some r)
      × Member r rows
      × (has_key k r ≡ true)
find?-any k [] h = absurd (cc)
find?-any k (x ∷ rows) h = elim (Bool-cases (has_key k x)) [
  | inl here ↦ (x, rw here refl, inl refl, here)
  | inr elsewhere ↦
      let (r, found, at, own) = find?-any k rows (ground arith) in
      (r, rw elsewhere found, inr at, own)
]

-- A handler runs only under a key that was free, and the key is then taken.
pub reserve-runs :
    (k fingerprint : Hash) (recs rows : List IdempotencyRecord)
    → reserve false k fingerprint recs ≡ (run_handler, rows)
    → (any (has_key k) recs ≡ false) × (recs ++ new_record k fingerprint ∷ [] ≡ rows)
unfolding reserve
reserve-runs k fingerprint recs rows h = elim (Bool-cases (any (has_key k) recs)) [
  | inl busy ↦
      let (r, found, at, own) = find?-any k recs busy in
      absurd (
        resolve-runs fingerprint r
          (ap (resolve fingerprint) (sym found) ∙ ap (λ x. x.0) (rw busy at h)))
  | inr free ↦ (free, ap (λ x. x.1) (rw free at h))
]

==_sym : (a b : ℕ) → (a == b) ≡ (b == a)
==_sym a b = ground arith

taken-begin :
    (k j fingerprint : Hash) (recs : List IdempotencyRecord)
    → any (has_key j) recs ≡ false
    → taken k (recs ++ new_record j fingerprint ∷ []) ≡ (if j == k then 1 else 0) + taken k recs
taken-begin k j fingerprint recs free = elim (Bool-cases (j == k)) [
  | inl same ↦
      let free' : any (has_key k) recs ≡ false =
        subst (λ x. any (has_key x) recs ≡ false) ((==_iff j k).0 same) free in
      rw (any-append k recs (new_record j fingerprint), free', same) refl
  | inr other ↦ rw (any-append k recs (new_record j fingerprint), other) (ground arith)
]

taken-release :
    (k j : Hash) (recs : List IdempotencyRecord) (n : ℕ)
    → (if j == k then 1 else 0) + n ≡ taken k recs
    → n ≡ taken k (release false j recs)
taken-release k j recs n h = rw (any-release k j recs) (ground (arith, ==_sym k j))

Step-IsCounted : {s t : System} → Step s t → IsCounted s → IsCounted t
Step-IsCounted {s} (begin j fingerprint rows h) counted k =
    let (free, added) = reserve-runs j fingerprint s.records rows h in
    subst (λ x. count k (j ∷ s.running) + successes k s.done ≡ taken k x) added
      (omega (arith, taken-begin k j fingerprint s.records free, counted k))
Step-IsCounted {s} (succeed j before after body at) counted k = omega (
  arith,
  ap one_if (any-complete k j body s.records),
  ap (count k) at,
  count-append k before (j ∷ after),
  count-append k before after,
  counted k,
)
Step-IsCounted {s} (fail j before after at) counted k = taken-release k j s.records _ (
    omega (
      arith,
      ap (count k) at,
      count-append k before (j ∷ after),
      count-append k before after,
      counted k,
    ))

Reach-IsCounted : (s : System) → Reach s → IsCounted s
Reach-IsCounted s start k = refl
Reach-IsCounted s (then_step r t reached step) k = Step-IsCounted step (Reach-IsCounted r reached) k

-- However the requests interleave, while the database works and no step comes between the two
-- calls of a reserve, the handler of a key runs or has succeeded exactly once if the table has a
-- record of the key, and not at all if it has none: it never succeeds twice.
pub at_most_once :
    (s : System) (k : Hash)
    → Reach s
    → count k s.running + successes k s.done ≡ (if any (has_key k) s.records then 1 else 0)
at_most_once s k reached = Reach-IsCounted s reached k
