-- ===== src/Idempotency.antt =====
-- apps/api/src/common/interceptors/idempotency.interceptor.ts: replay protection for the
-- operators' writes. Hashes and the serialised bodies are values that are compared or passed on.
-- The table `idempotency_records` is the list of the records that the caller may see; `key_hash`
-- is unique in it. The clean-up of old records is not modelled.
pub mod Once
pub mod Replay
mod Tests
use noorix_fin.Common.{
  ℕ, ◌+◌, ◌≡◌, Bool, true, false, not, Option, some, none, List, [], ◌∷◌, ◌++◌, map, ◌==◌, ltb,
  if◌then◌else◌, filter, any, length, find?,
}
use noorix_fin.Common.Text.{Text}

abbrev pub Hash : Type 0
Hash = ℕ

pub record IdempotencyRecord : Type 0 where
  pub key_hash : Hash
  pub request_fingerprint : Option Hash
  pub response : Option Text

-- What `intercept` does with a request before it looks at the table.
pub data Decision : Type 0 where
  pass key_required key_too_long : Decision
  guarded : Hash → Decision

pub record Incoming : Type 0 where
  pub is_http : Bool
  pub required : Option Bool
  pub key : Option Text
  pub actor : Option Hash
  pub token : Option Text
  pub route : Text

module _ (hash : Hash → Text → Text → Hash) where
  abbrev with_actor : Option Hash → Option Text → Text → Text → Decision
  with_actor none token route key = pass
  with_actor (some actor) none route key = pass
  with_actor (some actor) (some token) route key = guarded (hash actor route key)

  abbrev with_key : Bool → Option Text → Incoming → Decision
  with_key required none q = if required then key_required else pass
  with_key required (some []) q = if required then key_required else pass
  with_key required (some (c ∷ s)) q =
      if ltb 255 (length (c ∷ s)) then key_too_long else with_actor q.actor q.token q.route (c ∷ s)

  abbrev with_options : Option Bool → Incoming → Decision
  with_options none q = pass
  with_options (some required) q = with_key required q.key q

  unfoldable pub admit : Incoming → Decision
  admit q = if q.is_http then with_options q.required q else pass

-- How `reserve` ends: the handler is to run, a stored response, or an error.
pub data Reservation : Type 0 where
  run_handler : Reservation
  replay : Text → Reservation
  key_reused in_progress : Reservation

abbrev pub differs : Option Hash → Hash → Bool
differs none fingerprint = false
differs (some f) fingerprint = not (f == fingerprint)

abbrev pub answer_of : Option Text → Reservation
answer_of none = in_progress
answer_of (some body) = replay body

abbrev pub resolve : Hash → Option IdempotencyRecord → Reservation
resolve fingerprint none = run_handler
resolve fingerprint (some r) =
    if differs r.request_fingerprint fingerprint then key_reused else answer_of r.response

abbrev pub has_key : Hash → IdempotencyRecord → Bool
has_key k r = r.key_hash == k

abbrev pub new_record : Hash → Hash → IdempotencyRecord
new_record k fingerprint = record {
  key_hash = k;
  request_fingerprint = some fingerprint;
  response = none;
}

-- `fails`: the insert fails with another error than a unique violation.
unfoldable pub reserve :
    Bool → Hash → Hash → List IdempotencyRecord → Reservation × List IdempotencyRecord
reserve fails k fingerprint rows =
    if fails
    then (run_handler, rows)
    else if any (has_key k) rows
    then (resolve fingerprint (find? (has_key k) rows), rows)
    else (run_handler, rows ++ new_record k fingerprint ∷ [])

unfoldable pub complete : Bool → Hash → Text → List IdempotencyRecord → List IdempotencyRecord
complete fails k body rows =
    if fails
    then rows
    else map (λ r. if has_key k r then record r { response = some body } else r) rows

unfoldable pub release : Bool → Hash → List IdempotencyRecord → List IdempotencyRecord
release fails k rows = if fails then rows else filter (λ r. not (has_key k r)) rows

-- All requests together: the table, the keys whose handlers run, and the bodies that handlers have
-- returned.
pub record System : Type 0 where
  pub records : List IdempotencyRecord
  pub running : List Hash
  pub done : List (Hash × Text)

abbrev pub initial : System
initial = record { records = []; running = []; done = [] }

-- One step of one request, while every call to the database works. A request's `reserve` is one
-- step: nothing comes between its insert and its read.
pub data Step (s : System) : System → Type 0 where
  begin :
      (k fingerprint : Hash) (rows : List IdempotencyRecord)
      → reserve false k fingerprint s.records ≡ (run_handler, rows)
      → Step s (record s { records = rows; running = k ∷ s.running })
  succeed :
      (k : Hash) (before after : List Hash) (body : Text)
      → s.running ≡ before ++ k ∷ after
      → Step s (record s {
        records = complete false k body s.records;
        running = before ++ after;
        done = (k, body) ∷ s.done;
      })
  fail :
      (k : Hash) (before after : List Hash)
      → s.running ≡ before ++ k ∷ after
      → Step s (record s { records = release false k s.records; running = before ++ after })

pub data Reach : System → Type 0 where
  start : Reach initial
  then_step : (s t : System) → Reach s → Step s t → Reach t
