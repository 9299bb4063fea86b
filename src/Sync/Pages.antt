-- ===== src/Sync/Pages.antt =====
-- What one call of the delta endpoint returns for each source, and where its cursor goes on.
use noorix_fin.Common.{
  ℕ, zero, suc, ◌≡◌, refl, sym, ap, ◌∙◌, subst, Bool, true, some, List, [], ◌∷◌, ◌++◌, filter, take,
  drop, last, All, take-append-drop, filter-every, Bool-cases, inl, inr, all_of_All, filter-All,
}
use noorix_fin.Sync.{
  SourceName, source_table, key_count, Row, CursorPosition, in_scope, Database, selected,
  position_of,
}
use noorix_fin.Sync.Order.{
  is_after, after_filter_lem, is_after_trans, is_after-asym, is_after_irrefl,
}

module _ {A : Type 0} where
  filter-narrow :
      (f g : A → Bool)
      → ((x : A) → g x ≡ true → f x ≡ true)
      → (xs : List A) → filter g xs ≡ filter g (filter f xs)
  filter-narrow f g implies [] = refl
  filter-narrow f g implies (x ∷ xs) = elim (Bool-cases (g x)) [
    | inl picked ↦
        rw (picked, implies x picked) (rw picked (ap (λ l. x ∷ l) (filter-narrow f g implies xs)))
    | inr dropped ↦ elim (Bool-cases (f x)) [
      | inl kept ↦ rw (dropped, kept) (rw dropped (filter-narrow f g implies xs))
      | inr gone ↦ rw (dropped, gone) (filter-narrow f g implies xs)
    ]
  ]

  All-filter {κ} : (P : A → Type κ) (f : A → Bool) (xs : List A) → All P xs → All P (filter f xs)
  All-filter P f [] h = tt
  All-filter P f (x ∷ xs) h = elim (Bool-cases (f x)) [
    | inl kept ↦ rw kept (h.0, All-filter P f xs h.1)
    | inr gone ↦ rw gone (All-filter P f xs h.1)
  ]

  All-last {κ} :
      (P : A → Type κ) (k : ℕ) (xs : List A) {l : A} → All P xs → last (take k xs) ≡ some l → P l
  All-last P zero xs h e = absurd (cc)
  All-last P (suc k) [] h e = absurd (cc)
  All-last P (suc zero) (x ∷ xs) {l} h e = let same : x ≡ l = cc in subst P same h.0
  All-last P (suc (suc k)) (x ∷ []) {l} h e = let same : x ≡ l = cc in subst P same h.0
  All-last P (suc (suc k)) (x ∷ y ∷ xs) h e = All-last P (suc k) (y ∷ xs) h.1 e

-- The rows are in the order of the query, and no two have the same position.
abbrev pub IsOrdered : ℕ → List Row → Type 0
IsOrdered n [] = Unit
IsOrdered n (x ∷ xs) = All (λ y. is_after n (position_of x) y ≡ true) xs × IsOrdered n xs

filter-IsOrdered :
    (n : ℕ) (f : Row → Bool) (xs : List Row) → IsOrdered n xs → IsOrdered n (filter f xs)
filter-IsOrdered n f [] h = tt
filter-IsOrdered n f (x ∷ xs) h = elim (Bool-cases (f x)) [
  | inl kept ↦
      rw kept (
        All-filter (λ y. is_after n (position_of x) y ≡ true) f xs h.0,
        filter-IsOrdered n f xs h.1,
      )
  | inr gone ↦ rw gone (filter-IsOrdered n f xs h.1)
]

-- On ordered rows, what comes after the last row of a page is the rest.
after_last :
    (n k : ℕ) (xs : List Row) {l : Row}
    → IsOrdered n xs
    → last (take k xs) ≡ some l
    → filter (is_after n (position_of l)) xs ≡ drop k xs
after_last n zero xs h e = absurd (cc)
after_last n (suc k) [] h e = absurd (cc)
after_last n (suc zero) (x ∷ xs) {l} h e =
    let same : x ≡ l = cc in
    subst (λ m. filter (is_after n (position_of m)) (x ∷ xs) ≡ xs) same
      (rw (is_after_irrefl n x) (
        filter-every (is_after n (position_of x)) xs
          (all_of_All (is_after n (position_of x)) xs h.0)))
after_last n (suc (suc k)) (x ∷ []) {l} h e =
    let same : x ≡ l = cc in
    subst (λ m. filter (is_after n (position_of m)) (x ∷ []) ≡ []) same
      (rw (is_after_irrefl n x) refl)
after_last n (suc (suc k)) (x ∷ y ∷ xs) {l} h e =
    let before = All-last (λ z. is_after n (position_of x) z ≡ true) (suc k) (y ∷ xs) h.0 e in
    rw (is_after-asym n x l before) (after_last n (suc k) (y ∷ xs) h.1 e)

filter-cong :
    (f g : Row → Bool) → ((x : Row) → f x ≡ g x) → (xs : List Row) → filter f xs ≡ filter g xs
filter-cong f g same [] = refl
filter-cong f g same (x ∷ xs) = rw (same x, filter-cong f g same xs) refl

module _ (db : Database) (workspace : ℕ) (s : SourceName) where
  abbrev scoped : List Row
  scoped = filter (in_scope s workspace) (db.rows (source_table s))

  selected_lem :
      (p : CursorPosition) → selected db workspace s p ≡ filter (is_after (key_count s) p) scoped
  selected_lem p = filter-cong _ _ (after_filter_lem p (key_count s)) scoped

  -- A page that is not empty and what its last row's position selects make up what was selected.
  pub page-append :
      (p : CursorPosition) (k : ℕ) {l : Row}
      → IsOrdered (key_count s) (db.rows (source_table s))
      → last (take k (selected db workspace s p)) ≡ some l
      → take k (selected db workspace s p) ++ selected db workspace s (position_of l)
        ≡ selected db workspace s p
  page-append p k {l} ordered e =
      let n = key_count s in
      let xs = filter (is_after n p) scoped in
      let e' : last (take k xs) ≡ some l = ap (λ r. last (take k r)) (sym (selected_lem p)) ∙ e in
      let ordered' : IsOrdered n xs =
        filter-IsOrdered n (is_after n p) scoped
          (filter-IsOrdered n (in_scope s workspace) (db.rows (source_table s)) ordered) in
      let passes : is_after n p l ≡ true =
        All-last (λ y. is_after n p y ≡ true) k xs (filter-All (is_after n p) scoped) e' in
      let rest : selected db workspace s (position_of l) ≡ drop k xs =
        selected_lem (position_of l)
        ∙ filter-narrow (is_after n p) (is_after n (position_of l))
            (λ y after. is_after_trans n p l y passes after) scoped
        ∙ after_last n k xs ordered' e' in
      ap (λ r. take k r ++ selected db workspace s (position_of l)) (selected_lem p)
      ∙ ap (λ r. take k xs ++ r) rest
      ∙ take-append-drop k xs
      ∙ sym (selected_lem p)
