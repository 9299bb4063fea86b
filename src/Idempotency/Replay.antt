-- ===== src/Idempotency/Replay.antt =====
-- What a replayed response is.
use noorix_fin.Common.{
  ◌≡◌, sym, ap, ◌∙◌, subst, false, not, Option, some, none, List, [], ◌∷◌, if◌then◌else◌, any, inl,
  inr, Bool-cases, ==_iff, Member, ◌≢◌, Member-split, map-Member, filter-Member,
}
use noorix_fin.Common.Text.{Text}
use noorix_fin.Idempotency.{
  Hash, IdempotencyRecord, run_handler, replay, key_reused, differs, answer_of, resolve, has_key,
  new_record, reserve, complete, release, System, Step, begin, succeed, fail, Reach, start,
  then_step,
}
use noorix_fin.Idempotency.Once.{reserve-runs, find?-any}

-- Every stored response is the body of a handler that succeeded under its key.
abbrev IsStored : System → Type 0
IsStored s =
    (r : IdempotencyRecord) (body : Text)
    → Member r s.records
    → r.response ≡ some body
    → Member (r.key_hash, body) s.done

some-injective : {a b : Text} → some a ≡ some b → a ≡ b
some-injective h = cc

stored_begin :
    (k fingerprint : Hash) (body : Text) → (new_record k fingerprint).response ≢ some body
stored_begin k fingerprint body h = cc

Step-IsStored : {s t : System} → Step s t → IsStored s → IsStored t
unfolding complete release
Step-IsStored {s} (begin j fingerprint rows h) stored r body at e =
    let added = (reserve-runs j fingerprint s.records rows h).1 in
    elim (Member-split r s.records (new_record j fingerprint ∷ [])
      (subst (Member r) (sym added) at)) [
        | inl old ↦ stored r body old e
        | inr new ↦ absurd (stored_begin j fingerprint body (ap (λ x. x.response) (only new) ∙ e))
      ]
  where
    only : Member r (new_record j fingerprint ∷ []) → new_record j fingerprint ≡ r
    only (inl here) = here
    only (inr there) = absurd there
Step-IsStored {s} (succeed j before after result at_j) stored r body at e =
    let (y, found, same) =
      map-Member (λ x. if has_key j x then record x { response = some result } else x) s.records
        {x = r} at in
    elim (Bool-cases (has_key j y)) [
      | inl own ↦
          let same' : record y { response = some result } ≡ r = rw own at same in
          let key : y.key_hash ≡ r.key_hash = ap (λ x. x.key_hash) same' in
          let value : result ≡ body = some-injective (ap (λ x. x.response) same' ∙ e) in
          inl (
            ap (λ k. (k, result)) (sym ((==_iff y.key_hash j).0 own) ∙ key)
            ∙ ap (λ b. (r.key_hash, b)) value)
      | inr other ↦
          let same' : y ≡ r = rw other at same in
          inr (stored r body (subst (λ x. Member x s.records) same' found) e)
    ]
Step-IsStored {s} (fail j before after at_j) stored r body at e =
    stored r body (filter-Member (λ x. not (has_key j x)) s.records {x = r} at).0 e

Reach-IsStored : (s : System) → Reach s → IsStored s
Reach-IsStored s start r body at e = absurd at
Reach-IsStored s (then_step u t reached step) r body at e =
    Step-IsStored step (Reach-IsStored u reached) r body at e

run≢replay : {body : Text} → run_handler ≢ replay body
run≢replay h = cc

resolve-replay :
    (fingerprint : Hash) (r : IdempotencyRecord) (body : Text)
    → resolve fingerprint (some r) ≡ replay body
    → (differs r.request_fingerprint fingerprint ≡ false) × (r.response ≡ some body)
resolve-replay fingerprint r body h =
    elim (Bool-cases (differs r.request_fingerprint fingerprint)) [
      | inl other ↦ absurd (reused≢replay (rw other at h))
      | inr same ↦ (same, answered r.response (rw same at h))
    ]
  where
    reused≢replay : key_reused ≢ replay body
    reused≢replay e = cc

    answered : (o : Option Text) → answer_of o ≡ replay body → o ≡ some body
    answered none e = absurd (cc)
    answered (some b) e = cc

-- In a state that the steps reach from an empty table, a request that is answered with a stored
-- response gets the body with which a handler has succeeded under its own key, and a record of
-- that key has the request's fingerprint or none.
pub replay_lem :
    (s : System) (k fingerprint : Hash) (body : Text) (rows : List IdempotencyRecord)
    → Reach s
    → reserve false k fingerprint s.records ≡ (replay body, rows)
    → Member (k, body) s.done
      × ((r : IdempotencyRecord) × Member r s.records
          × (r.key_hash ≡ k)
          × (differs r.request_fingerprint fingerprint ≡ false))
unfolding reserve
replay_lem s k fingerprint body rows reached h = elim (Bool-cases (any (has_key k) s.records)) [
  | inl busy ↦
      let (r, found, at, own) = find?-any k s.records busy in
      let answered : resolve fingerprint (some r) ≡ replay body =
        ap (resolve fingerprint) (sym found) ∙ ap (λ x. x.0) (rw busy at h) in
      let key : r.key_hash ≡ k = (==_iff r.key_hash k).0 own in
      let (fits, stored) = resolve-replay fingerprint r body answered in
      (
        subst (λ x. Member (x, body) s.done) key (Reach-IsStored s reached r body at stored),
        (r, at, key, fits),
      )
  | inr free ↦ absurd (run≢replay (ap (λ x. x.0) (rw free at h)))
]
