-- ===== src/Pagination/Pages.antt =====
-- The limits that are accepted, and the page that is built from one row more than the limit.
use noorix_fin.Common.{
  ℕ, zero, suc, ◌+◌, ◌≤◌, ◌≡◌, refl, ap, true, none, List, [], ◌∷◌, ltb, if◌then◌else◌, length,
  take, last, arith, Bool-cases, inl, inr, length-take, take-take,
}
use mathlib.Core.Option
use noorix_fin.Common.Int.{pos, negsuc}
use noorix_fin.Common.Text.{Text}
use noorix_fin.Pagination.{
  JsNumber, finite, not_finite, Limit, text, number, anything_else, clamp_number, clamp_limit,
  to_page,
}

clamp_number-bounds : (n : JsNumber) → (1 ≤ clamp_number n) × (clamp_number n ≤ 200)
clamp_number-bounds not_finite = (omega arith, omega arith)
clamp_number-bounds (finite (negsuc n)) = (omega arith, omega arith)
clamp_number-bounds (finite (pos zero)) = (omega arith, omega arith)
clamp_number-bounds (finite (pos (suc n))) = (omega arith, omega arith)

-- Whatever a caller supplies, the limit is at least 1 and at most 200.
pub clamp_limit-bounds :
    (to_number : Text → JsNumber) (limit : Limit)
    → (1 ≤ clamp_limit to_number limit) × (clamp_limit to_number limit ≤ 200)
unfolding clamp_limit
clamp_limit-bounds to_number (text t) = clamp_number-bounds (to_number t)
clamp_limit-bounds to_number (number n) = clamp_number-bounds n
clamp_limit-bounds to_number anything_else = (omega arith, omega arith)

module _ {A : Type 0} (cursor_of : A → Text) where
  short : (k : ℕ) (rows : List A) → length rows ≤ k → take k rows ≡ rows
  short zero [] h = refl
  short zero (x ∷ rows) h = absurd (omega (arith, h))
  short (suc k) [] h = refl
  short (suc k) (x ∷ rows) h = ap (λ l. x ∷ l) (short k rows (omega (arith, h)))

  -- Of any list of rows, the page that is built from the first limit + 1 rows has the first `limit`
  -- rows; it has more exactly if the list is longer, and then its cursor is that of its last item.
  pub to_page_lem :
      (rows : List A) (limit : ℕ)
      → 1 ≤ limit
      → to_page cursor_of (take (limit + 1) rows) limit ≡ record {
        items = take limit rows;
        next_cursor =
            if ltb limit (length rows) then Option.map cursor_of (last (take limit rows)) else none;
        has_more = ltb limit (length rows);
      }
  unfolding to_page
  to_page_lem rows limit positive = elim (Bool-cases (ltb limit (length rows))) [
    | inl longer ↦
        let n = length-take (limit + 1) rows in
        let m = length-take limit rows in
        let more : ltb limit (length (take (limit + 1) rows)) ≡ true = ground arith in
        let some_items : ltb 0 (length (take limit rows)) ≡ true = ground arith in
        rw (longer, more) (rw (take-take limit rows) (rw some_items refl))
    | inr fits ↦
        let whole : take (limit + 1) rows ≡ rows = short (limit + 1) rows (ground arith) in
        let whole' : take limit rows ≡ rows = short limit rows (ground arith) in
        rw (whole, whole') (rw fits refl)
  ]
