-- ===== src/Money/Number.antt =====
-- The JavaScript numbers that packages/money/src/index.ts computes with: integers of a double.
-- A sum or a conversion is the exact integer rounded to 53 significant bits, ties to even.
use noorix_fin.Common.{
  ℕ, zero, suc, ◌+◌, ◌*◌, ◌/◌, ◌%◌, ◌≤◌, ◌<◌, ◌≡◌, Bool, arith, ltb, ◌==◌, if◌then◌else◌,
  Bool-cases, ==_iff, lt→ltb, inl, inr,
}
use native.Mathlib.Nat.{add-mul, le-div_iff_mul-le}
use noorix_fin.Common.Int.{ℤ, pos, negsuc, abs, sub_ℕ, ◌+ℤ◌, ◌-ℤ◌}

-- `Number.MAX_SAFE_INTEGER`
abbrev pub max_safe : ℕ
max_safe = 9007199254740991

-- The distance between neighbouring doubles at `n`: 1 below 2^53, doubled for each further bit.
spacing : ℕ → ℕ → ℕ → ℕ
spacing zero n d = d
spacing (suc fuel) n d =
    let rest = spacing fuel n (d * 2) in if ltb n (9007199254740992 * d) then d else rest

round_even : ℕ → ℕ → ℕ
round_even n d =
    let q = n / d in
    let r = n % d in
    if ltb (r * 2) d
    then q * d
    else if ltb d (r * 2)
    then (q + 1) * d
    else if q % 2 == 0
    then q * d
    else (q + 1) * d

-- The double nearest to a natural number below 2^1024.
unfoldable pub round53 : ℕ → ℕ
unfolding spacing round_even
round53 n = round_even n (spacing 1024 n 1)

spacing_one : (fuel n : ℕ) → n ≤ max_safe → spacing (suc fuel) n 1 ≡ 1
unfolding spacing
spacing_one fuel n h = rw (lt→ltb n 9007199254740992 (omega arith))

round_even_one : (n : ℕ) → round_even n 1 ≡ n
unfolding round_even
round_even_one n = ground arith

pub round53_exact : (n : ℕ) → n ≤ max_safe → round53 n ≡ n
unfolding round53
round53_exact n h = rw (spacing_one 1023 n h) (round_even_one n)

spacing-le : (fuel n d : ℕ) → 4503599627370496 * d ≤ n → 4503599627370496 * spacing fuel n d ≤ n
unfolding spacing
spacing-le zero n d h = h
spacing-le (suc fuel) n d h = elim (Bool-cases (ltb n (9007199254740992 * d))) [
  | inl small ↦ rw small h
  | inr large ↦ rw large (spacing-le fuel n (d * 2) (ground arith))
]

spacing-ge : (fuel n d : ℕ) → d ≤ spacing fuel n d
unfolding spacing
spacing-ge zero n d = omega arith
spacing-ge (suc fuel) n d = elim (Bool-cases (ltb n (9007199254740992 * d))) [
  | inl small ↦ rw small (omega arith)
  | inr large ↦ rw large (omega (arith, spacing-ge fuel n (d * 2)))
]

mul-le-round_even : (n d : ℕ) → n / d * d ≤ round_even n d
unfolding round_even
mul-le-round_even n d = ground (arith, add-mul (n / d) 1 d)

big_product : (q d : ℕ) → 4503599627370496 ≤ q → 2 ≤ d → max_safe < q * d
big_product q d h k = grind arith

round_even_large :
    (n d : ℕ) → 1 ≤ d → 4503599627370496 * d ≤ n → max_safe < n → max_safe < round_even n d
round_even_large n d p h big = elim (Bool-cases (d == 1)) [
  | inl one ↦ rw ((==_iff d 1).0 one) (rw round_even_one big)
  | inr more ↦ omega (
    arith,
    mul-le-round_even n d,
    big_product (n / d) d ((le-div_iff_mul-le p).1 h) (ground arith),
  )
]

-- Rounding never brings an unsafe integer back into the safe range.
pub round53_unsafe : (n : ℕ) → max_safe < n → max_safe < round53 n
unfolding round53
round53_unsafe n h =
    round_even_large n (spacing 1024 n 1) (spacing-ge 1024 n 1) (spacing-le 1024 n 1 (omega arith))
      h

-- The double nearest to an integer.
unfoldable pub to_double : ℤ → ℤ
to_double (pos n) = pos (round53 n)
to_double (negsuc n) = sub_ℕ 0 (round53 (suc n))

-- `a + b` and `a - b` of two integers held in doubles.
unfoldable pub js_add : ℤ → ℤ → ℤ
js_add a b = to_double (a +ℤ b)

unfoldable pub js_sub : ℤ → ℤ → ℤ
js_sub a b = to_double (a -ℤ b)

abbrev pub IsSafe : ℤ → Type 0
IsSafe a = abs a ≤ max_safe

-- `Math.abs(a) > Number.MAX_SAFE_INTEGER`
abbrev pub is_unsafe : ℤ → Bool
is_unsafe a = ltb max_safe (abs a)

-- A safe integer is its own nearest double.
pub to_double_exact : (a : ℤ) → IsSafe a → to_double a ≡ a
unfolding to_double
to_double_exact (pos n) h = rw (round53_exact n (omega arith))
to_double_exact (negsuc n) h = rw (round53_exact (suc n) (omega arith)) (ground arith)

-- The safe-range test on the rounded number decides the range of the exact one.
pub is_unsafe-to_double : (a : ℤ) → is_unsafe (to_double a) ≡ is_unsafe a
unfolding to_double
is_unsafe-to_double (pos n) = elim (Bool-cases (ltb max_safe n)) [
  | inl big ↦ ground (arith, round53_unsafe n)
  | inr safe ↦ ground (arith, round53_exact n)
]
is_unsafe-to_double (negsuc n) = elim (Bool-cases (ltb max_safe (suc n))) [
  | inl big ↦ ground (arith, round53_unsafe (suc n))
  | inr safe ↦ ground (arith, round53_exact (suc n))
]
