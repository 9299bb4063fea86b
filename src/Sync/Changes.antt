-- ===== src/Sync/Changes.antt =====
-- The rows that one call collects for each table.
use noorix_fin.Common.{
  Member-left, Member-right, Member-split, Bool, true, false, List, [], ◌∷◌, ◌++◌, ◌==◌, Bool-cases,
  inl, inr, if◌then◌else◌, Member, ==_refl,
}
use noorix_fin.Sync.{TableName, table_number, Row, Changes, add_changes}

-- The rows of a table in `changes`.
abbrev pub rows_in : TableName → Changes → List Row
rows_in t [] = []
rows_in t ((u, rows) ∷ rest) =
    if table_number u == table_number t then rows ++ rows_in t rest else rows_in t rest

widen :
    (r : Row) (b : Bool) (xs xs' ys ys' : List Row)
    → (Member r xs → Member r xs')
    → (Member r ys → Member r ys')
    → Member r (if b then xs ++ ys else ys)
    → Member r (if b then xs' ++ ys' else ys')
widen r false xs xs' ys ys' f g h = g h
widen r true xs xs' ys ys' f g h = elim (Member-split r xs ys h) [
  | inl left ↦ Member-left r xs' ys' (f left)
  | inr right ↦ Member-right r xs' ys' (g right)
]

pub rows_in-keeps :
    (r : Row) (t u : TableName) (rows : List Row) (c : Changes)
    → Member r (rows_in t c)
    → Member r (rows_in t (add_changes u rows c))
rows_in-keeps r t u rows [] h = absurd h
rows_in-keeps r t u rows ((v, old) ∷ c) h = elim (Bool-cases (table_number v == table_number u)) [
  | inl same ↦ rw same (
      widen r (table_number v == table_number t) old (old ++ rows) (rows_in t c) (rows_in t c)
        (λ x. Member-left r old rows x) (λ x. x) h)
  | inr differs ↦ rw differs (
      widen r (table_number v == table_number t) old old (rows_in t c)
        (rows_in t (add_changes u rows c)) (λ x. x) (rows_in-keeps r t u rows c) h)
]

pub rows_in-adds :
    (r : Row) (u : TableName) (rows : List Row) (c : Changes)
    → Member r rows
    → Member r (rows_in u (add_changes u rows c))
rows_in-adds r u rows [] h = rw (==_refl (table_number u)) (Member-left r rows [] h)
rows_in-adds r u rows ((v, old) ∷ c) h = elim (Bool-cases (table_number v == table_number u)) [
  | inl same ↦
      rw same (rw same (Member-left r (old ++ rows) (rows_in u c) (Member-right r old rows h)))
  | inr differs ↦ rw differs (rw differs (rows_in-adds r u rows c h))
]
