-- ===== src/Money/Arith.antt =====
-- Minor-unit arithmetic of packages/money/src/index.ts: addMinorUnits, subtractMinorUnits,
-- negateMinorUnits. Amounts are integers held in doubles.
use noorix_fin.Common.{◌≡◌, refl, ◌↔◌, List, [], ◌∷◌, arith, if◌then◌else◌, Bool-cases, inl, inr}
use noorix_fin.Common.Int.{ℤ, pos, neg, ◌+ℤ◌, ◌-ℤ◌}
use noorix_fin.Common.Outcome.{Outcome, ok, err}
use noorix_fin.Money.Number.{
  js_add, js_sub, IsSafe, is_unsafe, to_double_exact, is_unsafe-to_double,
}

pub data RangeError : Type 0 where
  addition_exceeds subtraction_exceeds : RangeError

-- the loop of `addMinorUnits`
add_from : ℤ → List ℤ → Outcome RangeError ℤ
add_from total [] = ok total
add_from total (amount ∷ amounts) =
    let rest = add_from (js_add total amount) amounts in
    if is_unsafe (js_add total amount) then err addition_exceeds else rest

unfoldable pub add_minor_units : List ℤ → Outcome RangeError ℤ
unfolding add_from js_add
add_minor_units amounts = add_from (pos 0) amounts

unfoldable pub subtract_minor_units : ℤ → ℤ → Outcome RangeError ℤ
unfolding js_sub
subtract_minor_units a b =
    let result = js_sub a b in if is_unsafe result then err subtraction_exceeds else ok result

unfoldable pub negate_minor_units : ℤ → ℤ
negate_minor_units amount = neg amount

-- The exact sum, and the condition that each partial sum, from the left, is a safe integer.
abbrev pub sum_from : ℤ → List ℤ → ℤ
sum_from total [] = total
sum_from total (amount ∷ amounts) = sum_from (total +ℤ amount) amounts

abbrev pub HasSafePrefixes : ℤ → List ℤ → Type 0
HasSafePrefixes total [] = Unit
HasSafePrefixes total (amount ∷ amounts) =
    IsSafe (total +ℤ amount) × HasSafePrefixes (total +ℤ amount) amounts

-- The rounding of the doubles never shows: a sum outside the safe range is still outside.
add_from-cons :
    (total amount : ℤ) (amounts : List ℤ)
    → add_from total (amount ∷ amounts) ≡ (
        if is_unsafe (total +ℤ amount)
        then err addition_exceeds
        else add_from (total +ℤ amount) amounts)
unfolding add_from js_add
add_from-cons total amount amounts = elim (Bool-cases (is_unsafe (total +ℤ amount))) [
  | inl big ↦ ground (arith, is_unsafe-to_double (total +ℤ amount))
  | inr small ↦ rw (to_double_exact (total +ℤ amount) (ground arith)) (rw small)
]

add_from-eq-ok :
    (total : ℤ) (amounts : List ℤ)
    → HasSafePrefixes total amounts
    → add_from total amounts ≡ ok (sum_from total amounts)
add_from-eq-ok total [] h = unfold add_from in refl
add_from-eq-ok total (amount ∷ amounts) (safe, h) =
    ground (arith, add_from-cons total amount amounts, add_from-eq-ok (total +ℤ amount) amounts h)

add_from-HasSafePrefixes :
    (total : ℤ) (amounts : List ℤ) {r : ℤ}
    → add_from total amounts ≡ ok r
    → HasSafePrefixes total amounts
add_from-HasSafePrefixes total [] h = tt
add_from-HasSafePrefixes total (amount ∷ amounts) {r} h = ground (
  arith,
  add_from-cons total amount amounts,
  add_from-HasSafePrefixes (total +ℤ amount) amounts {r = r},
)

-- `addMinorUnits` returns a result exactly when every partial sum is a safe integer, and then it
-- is the exact sum, although each addition is a rounded double addition.
pub add_minor_units_exact :
    (amounts : List ℤ) (r : ℤ)
    → (add_minor_units amounts ≡ ok r)
      ↔ (HasSafePrefixes (pos 0) amounts × (r ≡ sum_from (pos 0) amounts))
unfolding add_minor_units
add_minor_units_exact amounts r = (
  λ h.
      let safe = add_from-HasSafePrefixes (pos 0) amounts h in
      (safe, cc (add_from-eq-ok (pos 0) amounts safe)),
  λ (safe, e). cc (add_from-eq-ok (pos 0) amounts safe),
)

-- `subtractMinorUnits` returns the exact difference if that is a safe integer, and its error if
-- it is not.
pub subtract_minor_units_exact :
    (a b : ℤ)
    → subtract_minor_units a b
      ≡ (if is_unsafe (a -ℤ b) then err subtraction_exceeds else ok (a -ℤ b))
unfolding subtract_minor_units
subtract_minor_units_exact a b = elim (Bool-cases (is_unsafe (a -ℤ b))) [
  | inl big ↦ ground (arith, is_unsafe-to_double (a -ℤ b))
  | inr small ↦ rw (to_double_exact (a -ℤ b) (ground arith)) (rw small)
]

-- Adding the negated amount is subtracting it, with the same exact result; negating twice changes
-- nothing.
pub negate_minor_units_inverse :
    (a b : ℤ)
    → (a +ℤ negate_minor_units b ≡ a -ℤ b) × (negate_minor_units (negate_minor_units b) ≡ b)
unfolding negate_minor_units ◌+ℤ◌ ◌-ℤ◌
negate_minor_units_inverse a b = (ground arith, ground arith)
