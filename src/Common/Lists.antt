-- ===== src/Common/Lists.antt =====
-- Lists measured and indexed by native numbers, under the library's names.
use Prim.Native.Nat.{ℕ, zero, suc, ◌<◌, ◌+◌, min}
use mathlib.Core.Path.{◌≡◌, refl, ap, subst, sym, ◌∙◌}
use mathlib.Core.Bool.{Bool, true, false, ◌&&◌, ◌||◌, false≢true}
use mathlib.Core.List.{List, [], ◌∷◌, ◌++◌}
use mathlib.Core.Option.{Option, none, some}
use mathlib.Core.Logic.{inl, inr}
use native.Mathlib.Omega.{arith}
use noorix_fin.Common.Tests.{Bool-cases, if◌then◌else◌}

module _ {ℓ} {A : Type ℓ} where
  abbrev pub length : List A → ℕ
  length [] = 0
  length (x ∷ xs) = suc (length xs)

  abbrev pub take : ℕ → List A → List A
  take zero xs = []
  take (suc n) [] = []
  take (suc n) (x ∷ xs) = x ∷ take n xs

  abbrev pub drop : ℕ → List A → List A
  drop zero xs = xs
  drop (suc n) [] = []
  drop (suc n) (x ∷ xs) = drop n xs

  -- `xs.at(-1)`
  abbrev pub last : List A → Option A
  last [] = none
  last (x ∷ []) = some x
  last (x ∷ y ∷ xs) = last (y ∷ xs)

  abbrev pub all : (A → Bool) → List A → Bool
  all p [] = true
  all p (x ∷ xs) = p x && all p xs

  abbrev pub any : (A → Bool) → List A → Bool
  any p [] = false
  any p (x ∷ xs) = p x || any p xs

  abbrev pub filter : (A → Bool) → List A → List A
  filter p [] = []
  filter p (x ∷ xs) = let rest = filter p xs in if p x then x ∷ rest else rest

  -- PostgREST's `.single()`: the row, if there is exactly one.
  abbrev pub single : List A → Option A
  single [] = none
  single (x ∷ []) = some x
  single (x ∷ y ∷ xs) = none

  abbrev pub find? : (A → Bool) → List A → Option A
  find? p [] = none
  find? p (x ∷ xs) = if p x then some x else find? p xs

  abbrev pub get_elem? : List A → ℕ → Option A
  get_elem? [] n = none
  get_elem? (x ∷ xs) zero = some x
  get_elem? (x ∷ xs) (suc n) = get_elem? xs n

  abbrev pub All {κ} : (A → Type κ) → List A → Type κ
  All P [] = Unit
  All P (x ∷ xs) = P x × All P xs

module _ {ℓ} {A : Type ℓ} where
  pub length-append : (xs ys : List A) → length (xs ++ ys) ≡ length xs + length ys
  length-append [] ys = omega arith
  length-append (x ∷ xs) ys = omega (arith, length-append xs ys)

  pub length-take : (n : ℕ) (xs : List A) → length (take n xs) ≡ min n (length xs)
  length-take zero xs = omega arith
  length-take (suc n) [] = omega arith
  length-take (suc n) (x ∷ xs) = omega (arith, length-take n xs)

  pub take-append-drop : (n : ℕ) (xs : List A) → take n xs ++ drop n xs ≡ xs
  take-append-drop zero xs = refl
  take-append-drop (suc n) [] = refl
  take-append-drop (suc n) (x ∷ xs) = ap (λ r. x ∷ r) (take-append-drop n xs)

pub All-map {ℓ κ μ} :
    {A : Type ℓ} {P : A → Type κ} {Q : A → Type μ}
    → ((x : A) → P x → Q x)
    → (xs : List A) → All P xs
    → All Q xs
All-map f [] h = tt
All-map f (x ∷ xs) h = (f x h.0, All-map f xs h.1)

module _ {ℓ} {A : Type ℓ} (p : A → Bool) where
  pub filter-All : (xs : List A) → All (λ x. p x ≡ true) (filter p xs)
  filter-All [] = tt
  filter-All (x ∷ xs) = elim (Bool-cases (p x)) [
    | inl kept ↦ rw kept (kept, filter-All xs)
    | inr dropped ↦ rw dropped (filter-All xs)
  ]

  pub filter-append : (xs ys : List A) → filter p (xs ++ ys) ≡ filter p xs ++ filter p ys
  filter-append [] ys = refl
  filter-append (x ∷ xs) ys = elim (Bool-cases (p x)) [
    | inl kept ↦ rw (kept, filter-append xs ys)
    | inr dropped ↦ rw (dropped, filter-append xs ys)
  ]

  pub filter-none : (xs : List A) → any p xs ≡ false → filter p xs ≡ []
  filter-none [] h = refl
  filter-none (x ∷ xs) h = ground (arith, filter-none xs)

  pub filter-every : (xs : List A) → all p xs ≡ true → filter p xs ≡ xs
  filter-every [] h = refl
  filter-every (x ∷ xs) h = ground (arith, filter-every xs)

  -- A single row of a filtered table passes the filter.
  pub single-filter : (xs : List A) {x : A} → single (filter p xs) ≡ some x → p x ≡ true
  single-filter xs h = only (filter p xs) (filter-All xs) h
    where
      only : (l : List A) {x : A} → All (λ y. p y ≡ true) l → single l ≡ some x → p x ≡ true
      only [] a h = cc
      only (y ∷ []) {x} (py, a) h = let e : y ≡ x = cc in subst (λ z. p z ≡ true) e py
      only (y ∷ z ∷ l) a h = cc

  pub all_of_All : (xs : List A) → All (λ x. p x ≡ true) xs → all p xs ≡ true
  all_of_All [] h = refl
  all_of_All (x ∷ xs) h = ground (arith, all_of_All xs h.1)

  -- If a test that implies `p` picks a single row, then some row passes `p`.
  pub any_of_single :
      (r : A → Bool)
      → ((x : A) → r x ≡ true → p x ≡ true)
      → (xs : List A) {x : A} → single (filter r xs) ≡ some x
      → any p xs ≡ true
  any_of_single r implies [] h = cc
  any_of_single r implies (y ∷ ys) {x} h = elim (Bool-cases (p y)) [
    | inl passes ↦ rw passes
    | inr fails ↦ rw fails (elim (Bool-cases (r y)) [
      | inl picked ↦ absurd (false≢true (sym fails ∙ implies y picked))
      | inr dropped ↦ any_of_single r implies ys {x = x} (rw dropped at h)
    ])
  ]

  pub any_none_of :
      (r : A → Bool)
      → ((x : A) → r x ≡ true → p x ≡ true)
      → (xs : List A) → any p xs ≡ false
      → any r xs ≡ false
  any_none_of r implies [] h = refl
  any_none_of r implies (x ∷ xs) h = elim (Bool-cases (r x)) [
    | inl picked ↦ ground (arith, implies x picked)
    | inr dropped ↦ ground (arith, any_none_of r implies xs)
  ]

module _ {A : Type 0} where
  take_eq : (m n : ℕ) (xs : List A) → m ≡ n → take m xs ≡ take n xs
  take_eq m n xs h = ap (λ k. take k xs) h

  pub take-take-min : (i j : ℕ) (xs : List A) → take i (take j xs) ≡ take (min i j) xs
  take-take-min zero j xs = take_eq 0 (min 0 j) xs (omega arith)
  take-take-min (suc i) zero xs = take_eq 0 (min (suc i) 0) xs (omega arith)
  take-take-min (suc i) (suc j) [] = take_eq (suc (min i j)) (min (suc i) (suc j)) [] (omega arith)
  take-take-min (suc i) (suc j) (x ∷ xs) =
      ap (λ l. x ∷ l) (take-take-min i j xs)
      ∙ take_eq (suc (min i j)) (min (suc i) (suc j)) (x ∷ xs) (omega arith)

  pub take-take : (k : ℕ) (xs : List A) → take k (take (k + 1) xs) ≡ take k xs
  take-take k xs = go k (k + 1) (omega arith) xs
    where
      go : (i j : ℕ) → i < j → (ys : List A) → take i (take j ys) ≡ take i ys
      go zero j h ys = refl
      go (suc i) zero h ys = absurd (omega (arith, h))
      go (suc i) (suc j) h [] = refl
      go (suc i) (suc j) h (y ∷ ys) = ap (λ l. y ∷ l) (go i j (omega (arith, h)) ys)
