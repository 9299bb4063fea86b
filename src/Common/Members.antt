-- ===== src/Common/Members.antt =====
-- Membership in a list, and what is found in one.
use mathlib.Core.Path.{◌≡◌, refl, ap, subst, sym, ◌∙◌}
use mathlib.Core.Bool.{Bool, true, false, not, false≢true}
use mathlib.Core.List.{List, [], ◌∷◌, ◌++◌, map}
use mathlib.Core.Option.{some}
use mathlib.Core.Logic.{◌⊎◌, inl, inr}
use native.Mathlib.Omega.{arith}
use noorix_fin.Common.Tests.{Bool-cases}
use noorix_fin.Common.Lists.{filter, any, all, find?, filter-every, all_of_All, filter-All}

module _ {A : Type 0} where
  abbrev pub Member : A → List A → Type 0
  Member x [] = ⊥
  Member x (y ∷ ys) = (y ≡ x) ⊎ Member x ys

module _ {A : Type 0} (p : A → Bool) where
  pub filter-Member : (xs : List A) {x : A} → Member x (filter p xs) → Member x xs × (p x ≡ true)
  filter-Member [] h = absurd h
  filter-Member (y ∷ ys) {x} h = elim (Bool-cases (p y)) [
    | inl kept ↦ elim (rw kept at h) [
      | inl here ↦ (inl here, subst (λ z. p z ≡ true) here kept)
      | inr there ↦ (inr (filter-Member ys {x = x} there).0, (filter-Member ys {x = x} there).1)
    ]
    | inr dropped ↦
        let there : Member x (filter p ys) = rw dropped at h in
        (inr (filter-Member ys {x = x} there).0, (filter-Member ys {x = x} there).1)
  ]

module _ {A : Type 0} where
  pub Member-left : (x : A) (xs ys : List A) → Member x xs → Member x (xs ++ ys)
  Member-left x [] ys h = absurd h
  Member-left x (y ∷ xs) ys (inl here) = inl here
  Member-left x (y ∷ xs) ys (inr there) = inr (Member-left x xs ys there)

  pub Member-right : (x : A) (xs ys : List A) → Member x ys → Member x (xs ++ ys)
  Member-right x [] ys h = h
  Member-right x (y ∷ xs) ys h = inr (Member-right x xs ys h)

  pub Member-split : (x : A) (xs ys : List A) → Member x (xs ++ ys) → Member x xs ⊎ Member x ys
  Member-split x [] ys h = inr h
  Member-split x (y ∷ xs) ys (inl here) = inl (inl here)
  Member-split x (y ∷ xs) ys (inr there) = elim (Member-split x xs ys there) [
    | inl left ↦ inl (inr left)
    | inr right ↦ inr right
  ]

  pub map-Member :
      (f : A → A) (xs : List A) {x : A} → Member x (map f xs) → (y : A) × Member y xs × (f y ≡ x)
  map-Member f [] h = absurd h
  map-Member f (y ∷ ys) (inl here) = (y, inl refl, here)
  map-Member f (y ∷ ys) {x} (inr there) =
      let (z, at, same) = map-Member f ys {x = x} there in (z, inr at, same)

module _ {ℓ} {A : Type ℓ} (p : A → Bool) where
  -- What is found passes the test, and is found in a longer list too.
  pub find?-true : (xs : List A) {x : A} → find? p xs ≡ some x → p x ≡ true
  find?-true [] h = cc
  find?-true (y ∷ ys) {x} h = elim (Bool-cases (p y)) [
    | inl passes ↦
        let e : some y ≡ some x = rw passes at h in
        let same : y ≡ x = cc in subst (λ z. p z ≡ true) same passes
    | inr fails ↦ find?-true ys {x = x} (rw fails at h)
  ]

  pub find?-append : (xs ys : List A) {x : A} → find? p xs ≡ some x → find? p (xs ++ ys) ≡ some x
  find?-append [] ys h = cc
  find?-append (y ∷ xs) ys {x} h = elim (Bool-cases (p y)) [
    | inl passes ↦ rw passes (rw passes at h)
    | inr fails ↦ rw fails (find?-append xs ys {x = x} (rw fails at h))
  ]

  pub any_last : (xs : List A) {x : A} → p x ≡ true → any p (xs ++ x ∷ []) ≡ true
  any_last [] h = ground arith
  any_last (y ∷ ys) {x} h = ground (arith, any_last ys {x = x} h)

  -- What only the last item passes is that item.
  pub find?-last :
      (xs : List A) {x : A} → any p xs ≡ false → p x ≡ true → find? p (xs ++ x ∷ []) ≡ some x
  find?-last [] h k = rw k
  find?-last (y ∷ ys) {x} h k = elim (Bool-cases (p y)) [
    | inl passes ↦ absurd (false≢true (sym h ∙ rw passes))
    | inr fails ↦ rw fails (find?-last ys {x = x} (rw fails at h) k)
  ]

  pub any_last_false :
      (xs : List A) {x : A} → any p xs ≡ false → p x ≡ false → any p (xs ++ x ∷ []) ≡ false
  any_last_false [] h k = ground arith
  any_last_false (y ∷ ys) {x} h k = ground (arith, any_last_false ys {x = x})

  pub any-all-not : (xs : List A) → all (λ x. not (p x)) xs ≡ true → any p xs ≡ false
  any-all-not [] h = refl
  any-all-not (x ∷ xs) h = ground (arith, any-all-not xs)

  pub all-any-not : (xs : List A) → any p xs ≡ false → all (λ x. not (p x)) xs ≡ true
  all-any-not [] h = refl
  all-any-not (x ∷ xs) h = ground (arith, all-any-not xs)

  -- A list split by a test: what fails it has nothing that passes.
  pub filter-filter-not : (xs : List A) → filter p (filter (λ x. not (p x)) xs) ≡ []
  filter-filter-not [] = refl
  filter-filter-not (x ∷ xs) = elim (Bool-cases (p x)) [
    | inl kept ↦ rw kept (filter-filter-not xs)
    | inr dropped ↦ rw (dropped, dropped) (filter-filter-not xs)
  ]

  pub filter_twice : (xs : List A) → filter p (filter p xs) ≡ filter p xs
  filter_twice xs = filter-every p (filter p xs) (all_of_All p (filter p xs) (filter-All p xs))

module _ {A : Type 0} (p : A → Bool) where
  pub any-Member : (xs : List A) → any p xs ≡ true → (x : A) × Member x xs × (p x ≡ true)
  any-Member [] h = absurd (false≢true h)
  any-Member (x ∷ xs) h = elim (Bool-cases (p x)) [
    | inl passes ↦ (x, inl refl, passes)
    | inr fails ↦ let (y, at, passes) = any-Member xs (rw fails at h) in (y, inr at, passes)
  ]

  pub any_of_Member : (xs : List A) {x : A} → Member x xs → p x ≡ true → any p xs ≡ true
  any_of_Member [] m h = absurd m
  any_of_Member (y ∷ ys) (inl here) h = let e : p y ≡ true = ap p here ∙ h in rw e
  any_of_Member (y ∷ ys) {x} (inr there) h = ground (arith, any_of_Member ys {x = x} there h)

  pub Member-filter : (xs : List A) {x : A} → Member x xs → p x ≡ true → Member x (filter p xs)
  Member-filter [] m h = absurd m
  Member-filter (y ∷ ys) (inl here) h = let e : p y ≡ true = ap p here ∙ h in rw e (inl here)
  Member-filter (y ∷ ys) {x} (inr there) h = elim (Bool-cases (p y)) [
    | inl kept ↦ rw kept (inr (Member-filter ys {x = x} there h))
    | inr dropped ↦ rw dropped (Member-filter ys {x = x} there h)
  ]

pub Member-map :
    {A B : Type 0} (f : A → B) (x : A) (xs : List A) → Member x xs → Member (f x) (map f xs)
Member-map f x [] m = absurd m
Member-map f x (y ∷ ys) (inl here) = inl (ap f here)
Member-map f x (y ∷ ys) (inr there) = inr (Member-map f x ys there)

pub Member-last :
    {A : Type 0} (s x : A) (xs : List A) → Member s (xs ++ x ∷ []) → Member s xs ⊎ (x ≡ s)
Member-last s x [] (inl here) = inr here
Member-last s x [] (inr there) = absurd there
Member-last s x (y ∷ xs) (inl here) = inl (inl here)
Member-last s x (y ∷ xs) (inr there) = elim (Member-last s x xs there) [
  | inl old ↦ inl (inr old)
  | inr new ↦ inr new
]
