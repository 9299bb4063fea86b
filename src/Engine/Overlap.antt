-- ===== src/Engine/Overlap.antt =====
-- apps/mobile/src/sync/engine.ts: sync, the guard against overlapping runs. A promise is the number
-- of its run, and the calls of sync and the ends of runs are the steps of a relation.
use noorix_fin.Common.{
  ℕ, suc, ◌+◌, ◌<◌, ◌≡◌, refl, ap, Bool, true, false, not, Option, some, none, List, [], ◌∷◌, ◌++◌,
  ◌==◌, if◌then◌else◌, filter, any, find?, inl, inr, arith, Bool-cases,
}

-- An entry of the map `inFlight`.
pub record InFlight : Type 0 where
  pub workspace : ℕ
  pub promise : ℕ

-- `running` has the workspace of each run that has not ended.
pub record Runs : Type 0 where
  pub in_flight : List InFlight
  pub running : List ℕ
  pub next : ℕ

abbrev pub is_of : ℕ → InFlight → Bool
is_of w f = f.workspace == w

abbrev pub start_run : ℕ → Option InFlight → Runs → ℕ × Runs
start_run w (some existing) s = (existing.promise, s)
start_run w none s = (
  s.next,
  record {
    in_flight = s.in_flight ++ record { workspace = w; promise = s.next } ∷ [];
    running = w ∷ s.running;
    next = suc s.next;
  },
)

unfoldable pub sync : ℕ → Runs → ℕ × Runs
sync w s = start_run w (find? (is_of w) s.in_flight) s

-- `inFlight.delete`
abbrev pub forget : ℕ → List InFlight → List InFlight
forget w fs = filter (λ f. not (is_of w f)) fs

abbrev pub no_runs : Runs
no_runs = record { in_flight = []; running = []; next = 0 }

pub data SyncStep (s : Runs) : Runs → Type 0 where
  call : (w : ℕ) → SyncStep s (sync w s).1
  finish :
      (w : ℕ) (before after : List ℕ)
      → s.running ≡ before ++ w ∷ after
      → SyncStep s (record s { in_flight = forget w s.in_flight; running = before ++ after })

pub data SyncReach : Runs → Type 0 where
  start : SyncReach no_runs
  then_step : (s t : Runs) → SyncReach s → SyncStep s t → SyncReach t

abbrev pub runs_of : ℕ → List ℕ → ℕ
runs_of w [] = 0
runs_of w (x ∷ xs) = (if x == w then 1 else 0) + runs_of w xs

runs_of-append : (w : ℕ) (xs ys : List ℕ) → runs_of w (xs ++ ys) ≡ runs_of w xs + runs_of w ys
runs_of-append w [] ys = omega arith
runs_of-append w (x ∷ xs) ys = omega (arith, runs_of-append w xs ys)

abbrev one_if : Bool → ℕ
one_if b = if b then 1 else 0

abbrev held : ℕ → List InFlight → ℕ
held w fs = one_if (any (is_of w) fs)

-- A workspace has a run exactly if the map has an entry of it.
abbrev IsGuarded : Runs → Type 0
IsGuarded s = (w : ℕ) → runs_of w s.running ≡ held w s.in_flight

held-append :
    (w : ℕ) (fs : List InFlight) (f : InFlight)
    → any (is_of f.workspace) fs ≡ false
    → held w (fs ++ f ∷ []) ≡ (if f.workspace == w then 1 else 0) + held w fs
held-append w [] f h = ground arith
held-append w (x ∷ fs) f h = ground (arith, held-append w fs f)

held-forget :
    (w v : ℕ) (fs : List InFlight) → held w (forget v fs) ≡ (if v == w then 0 else held w fs)
held-forget w v [] = ground arith
held-forget w v (x ∷ fs) = ground (arith, held-forget w v fs)

find?-none : (w : ℕ) (fs : List InFlight) → any (is_of w) fs ≡ false → find? (is_of w) fs ≡ none
find?-none w [] h = refl
find?-none w (x ∷ fs) h = ground (arith, find?-none w fs)

find?-some :
    (w : ℕ) (fs : List InFlight)
    → any (is_of w) fs ≡ true
    → (f : InFlight) × (find? (is_of w) fs ≡ some f)
find?-some w [] h = absurd (cc)
find?-some w (x ∷ fs) h = elim (Bool-cases (is_of w x)) [
  | inl here ↦ (x, rw here refl)
  | inr elsewhere ↦ let (f, found) = find?-some w fs (ground arith) in (f, rw elsewhere found)
]

-- A call keeps the guard, and its workspace has an entry afterwards.
sync-IsGuarded :
    (w : ℕ) (s : Runs) → IsGuarded s → IsGuarded (sync w s).1 × (held w (sync w s).1.in_flight ≡ 1)
unfolding sync
sync-IsGuarded w s guarded = elim (Bool-cases (any (is_of w) s.in_flight)) [
  | inl busy ↦ let (f, found) = find?-some w s.in_flight busy in rw found (guarded, rw busy refl)
  | inr free ↦
      let f : InFlight = record { workspace = w; promise = s.next } in
      rw (find?-none w s.in_flight free) (
        λ v. omega (arith, guarded v, held-append v s.in_flight f free),
        rw (held-append w s.in_flight f free, free) (ground arith),
      )
]

SyncStep-IsGuarded : {s t : Runs} → SyncStep s t → IsGuarded s → IsGuarded t
SyncStep-IsGuarded {s} (call v) guarded w = (sync-IsGuarded v s guarded).0 w
SyncStep-IsGuarded {s} (finish v before after at) guarded w = ground (
  arith,
  ap (runs_of w) at,
  runs_of-append w before (v ∷ after),
  runs_of-append w before after,
  guarded w,
  held-forget w v s.in_flight,
)

SyncReach-IsGuarded : (s : Runs) → SyncReach s → IsGuarded s
SyncReach-IsGuarded s start w = refl
SyncReach-IsGuarded s (then_step r t reached step) w =
    SyncStep-IsGuarded step (SyncReach-IsGuarded r reached) w

-- However the calls of sync and the ends of runs interleave, no workspace has two runs at once, and
-- after a call its workspace has exactly one.
pub one_run :
    (s : Runs)
    → SyncReach s
    → ((w : ℕ) → runs_of w s.running < 2) × ((w : ℕ) → runs_of w (sync w s).1.running ≡ 1)
one_run s reached =
    let guarded = SyncReach-IsGuarded s reached in
    (
      λ w. ground (arith, guarded w),
      λ w. let (after, one) = sync-IsGuarded w s guarded in omega (arith, after w, one),
    )
