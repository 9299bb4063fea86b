-- ===== src/Ledger/Entries/Order.antt =====
-- The order in which listTransactions reads the entries, and the first rows of it.
use noorix_fin.Common.{
  ℕ, zero, suc, ◌≤◌, ◌≡◌, refl, subst, ◌⊎◌, inl, inr, true, false, some, List, [], ◌∷◌, arith, ltb,
  length, take, last, Bool-cases, All, All-map, Member, if-elim,
}
use noorix_fin.Ledger.{EntryRow}
use noorix_fin.Ledger.Entries.{is_before, insert_row, newest_first}
use noorix_fin.Ledger.Items.{ListCall}

module _ (q : ListCall) where
  open q use {time}

  insert_row-Member :
      (d : EntryRow) (es : List EntryRow) (e : EntryRow)
      → (d ≡ e) ⊎ Member e es
      → Member e (insert_row q d es)
  insert_row-Member d [] e (inl new) = inl new
  insert_row-Member d [] e (inr old) = absurd old
  insert_row-Member d (x ∷ es) e (inl new) = elim (Bool-cases (is_before q d x)) [
    | inl first ↦ rw first (inl new)
    | inr later ↦ rw later (inr (insert_row-Member d es e (inl new)))
  ]
  insert_row-Member d (x ∷ es) e (inr old) = elim (Bool-cases (is_before q d x)) [
    | inl first ↦ rw first (inr old)
    | inr later ↦
        rw later (elim old [
          | inl here ↦ inl here
          | inr there ↦ inr (insert_row-Member d es e (inr there))
        ])
  ]

  pub newest_first-Member :
      (es : List EntryRow) (e : EntryRow) → Member e es → Member e (newest_first q es)
  newest_first-Member [] e m = m
  newest_first-Member (x ∷ es) e (inl here) = insert_row-Member x (newest_first q es) e (inl here)
  newest_first-Member (x ∷ es) e (inr there) =
      insert_row-Member x (newest_first q es) e (inr (newest_first-Member es e there))

  insert_row-All :
      (P : EntryRow → Type 0) (d : EntryRow) (es : List EntryRow)
      → P d
      → All P es
      → All P (insert_row q d es)
  insert_row-All P d [] h k = (h, tt)
  insert_row-All P d (e ∷ es) h (k, ks) =
      if-elim (All P) (is_before q d e) (λ _. (h, (k, ks))) (λ _. (k, insert_row-All P d es h ks))

  pub newest_first-All :
      (P : EntryRow → Type 0) (es : List EntryRow) → All P es → All P (newest_first q es)
  newest_first-All P [] h = tt
  newest_first-All P (e ∷ es) h =
      insert_row-All P e (newest_first q es) h.0 (newest_first-All P es h.1)

  -- No entry is newer than one before it.
  abbrev pub IsNewestFirst : List EntryRow → Type 0
  IsNewestFirst [] = Unit
  IsNewestFirst (e ∷ es) = All (λ d. time d.occurred_at ≤ time e.occurred_at) es × IsNewestFirst es

  is_before-time :
      (d e : EntryRow) → is_before q d e ≡ true → time e.occurred_at ≤ time d.occurred_at
  is_before-time d e h = ground arith

  not_before-time :
      (d e : EntryRow) → is_before q d e ≡ false → time d.occurred_at ≤ time e.occurred_at
  not_before-time d e h = ground arith

  insert_row-IsNewestFirst :
      (d : EntryRow) (es : List EntryRow) → IsNewestFirst es → IsNewestFirst (insert_row q d es)
  insert_row-IsNewestFirst d [] h = (tt, tt)
  insert_row-IsNewestFirst d (e ∷ es) (below, sorted) =
      if-elim IsNewestFirst (is_before q d e)
        (λ first.
          let older = is_before-time d e first in
          ((older, All-map (λ x k. omega (arith, k, older)) es below), (below, sorted)))
        (λ later. (
          insert_row-All _ d es (not_before-time d e later) below,
          insert_row-IsNewestFirst d es sorted,
        ))

  pub newest_first-IsNewestFirst : (es : List EntryRow) → IsNewestFirst (newest_first q es)
  newest_first-IsNewestFirst [] = tt
  newest_first-IsNewestFirst (e ∷ es) =
      insert_row-IsNewestFirst e (newest_first q es) (newest_first-IsNewestFirst es)

  All-Member :
      (P : EntryRow → Type 0) (es : List EntryRow) (e : EntryRow) → All P es → Member e es → P e
  All-Member P [] e h m = absurd m
  All-Member P (x ∷ es) e h (inl here) = subst P here h.0
  All-Member P (x ∷ es) e h (inr there) = All-Member P es e h.1 there

  -- An entry is among the first rows, or there are more rows and it is not newer than the last one.
  abbrev pub IsBeyond : ℕ → List EntryRow → EntryRow → Type 0
  IsBeyond n es e =
      (l : EntryRow) × (last (take n es) ≡ some l)
      × Member l es
      × (time e.occurred_at ≤ time l.occurred_at)
      × (ltb n (length es) ≡ true)

  IsBeyond-cons :
      (n : ℕ) (x y : EntryRow) (es : List EntryRow) (e : EntryRow)
      → IsBeyond (suc n) (y ∷ es) e
      → IsBeyond (suc (suc n)) (x ∷ y ∷ es) e
  IsBeyond-cons n x y es e (l, is_last, at, older, more) = (l, is_last, inr at, older, ground arith)

  pub take-split :
      (n : ℕ) (es : List EntryRow) (e : EntryRow)
      → IsNewestFirst es
      → Member e es
      → Member e (take (suc n) es) ⊎ IsBeyond (suc n) es e
  take-split n [] e sorted m = absurd m
  take-split n (x ∷ es) e sorted (inl here) = inl (inl here)
  take-split n (x ∷ []) e sorted (inr there) = absurd there
  take-split zero (x ∷ y ∷ es) e sorted (inr there) =
      inr (x, refl, inl refl, All-Member _ (y ∷ es) e sorted.0 there, ground arith)
  take-split (suc n) (x ∷ y ∷ es) e sorted (inr there) =
      elim (take-split n (y ∷ es) e sorted.1 there) [
        | inl early ↦ inl (inr early)
        | inr beyond ↦ inr (IsBeyond-cons n x y es e beyond)
      ]
