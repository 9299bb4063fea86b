-- ===== src/Money/Parse/RoundTrip.antt =====
-- parseMinorUnits against its specification, and the round trip with serializeMinorUnits.
use noorix_fin.Common.{
  ℕ, zero, suc, ◌+◌, ◌/◌, ◌%◌, ◌≤◌, ◌<◌, ◌≡◌, refl, ◌∙◌, true, false, ◌↔◌, [], ◌∷◌, arith, ltb,
  ◌==◌, Bool-cases, inl, inr, ==_iff, lt→ltb, ltb→lt, ◌≢◌,
}
use noorix_fin.Common.Int.{ℤ, pos, negsuc}
use noorix_fin.Common.Outcome.{ok, then_call}
use noorix_fin.Common.Text.{Text, are_digits, value, value_from}
use noorix_fin.Money.Number.{max_safe, IsSafe, round53_exact, round53_unsafe}
use noorix_fin.Money.Parse.{
  is_empty, unsigned, is_signed, with_sign, is_integer_text, infinity_bound, parse_minor_units,
  integer, digits_before, show_natural, show_integer, serialize_minor_units,
}

-- Reading the digits of `n` gives `n` back, whatever follows.
value_from-digits_before :
    (fuel n : ℕ) (acc : Text) → n < fuel → value (digits_before fuel n acc) ≡ value_from n acc
unfolding digits_before
value_from-digits_before zero n acc h = elim h [ ]
value_from-digits_before (suc fuel) n acc h = elim (Bool-cases (n / 10 == 0)) [
  | inl one ↦ rw one (ap_value (omega (arith, (==_iff (n / 10) 0).0 one)))
  | inr more ↦ rw more (
      value_from-digits_before fuel (n / 10) ((b'0' + n % 10) ∷ acc) (ground arith)
      ∙ ap_value (omega arith))
]
  where
    ap_value : {a b : ℕ} → a ≡ b → value_from a acc ≡ value_from b acc
    ap_value e = rw e

are_digits-digits_before :
    (fuel n : ℕ) (acc : Text) → are_digits acc ≡ true → are_digits (digits_before fuel n acc) ≡ true
unfolding digits_before
are_digits-digits_before zero n acc h = h
are_digits-digits_before (suc fuel) n acc h =
    ground (arith, are_digits-digits_before fuel (n / 10) ((b'0' + n % 10) ∷ acc))

is_empty-digits_before :
    (fuel n c : ℕ) (acc : Text) → is_empty (digits_before fuel n (c ∷ acc)) ≡ false
unfolding digits_before
is_empty-digits_before zero n c acc = refl
is_empty-digits_before (suc fuel) n c acc =
    ground (arith, is_empty-digits_before fuel (n / 10) (b'0' + n % 10) (c ∷ acc))

value-show_natural : (n : ℕ) → value (show_natural n) ≡ n
unfolding show_natural
value-show_natural n = value_from-digits_before (suc n) n [] (omega arith)

are_digits-show_natural : (n : ℕ) → are_digits (show_natural n) ≡ true
unfolding show_natural
are_digits-show_natural n = are_digits-digits_before (suc n) n [] refl

is_empty-show_natural : (n : ℕ) → is_empty (show_natural n) ≡ false
unfolding show_natural digits_before
is_empty-show_natural n = ground (arith, is_empty-digits_before n (n / 10) (b'0' + n % 10) [])

unsigned-of_digits : (s : Text) → are_digits s ≡ true → unsigned s ≡ s
unsigned-of_digits [] h = refl
unsigned-of_digits (c ∷ s) h = ground arith

is_signed-of_digits : (s : Text) → are_digits s ≡ true → is_signed s ≡ false
is_signed-of_digits [] h = refl
is_signed-of_digits (c ∷ s) h = ground arith

safe-lt-infinity : (n : ℕ) → n ≤ max_safe → ltb n infinity_bound ≡ true
unfolding infinity_bound
safe-lt-infinity n h = lt→ltb n infinity_bound (omega arith)

abbrev signed_value : Text → ℤ
signed_value s = with_sign (is_signed s) (value (unsigned s))

-- What `parseMinorUnits` returns, with the number read exactly and no rounding.
parse_of_safe :
    (s : Text)
    → is_integer_text s ≡ true
    → value (unsigned s) ≤ max_safe
    → parse_minor_units s ≡ ok (signed_value s)
unfolding parse_minor_units
parse_of_safe s h k =
    rw (h, safe-lt-infinity (value (unsigned s)) k, round53_exact (value (unsigned s)) k, le→leb k)
  where
    le→leb : value (unsigned s) ≤ max_safe → ltb max_safe (value (unsigned s)) ≡ false
    le→leb k = ground arith

parse_of_unsafe : (s : Text) (n : ℤ) → max_safe < value (unsigned s) → parse_minor_units s ≢ ok n
unfolding parse_minor_units
parse_of_unsafe s n k = ground (arith, round53_unsafe (value (unsigned s)) k)

parse_of_malformed : (s : Text) (n : ℤ) → is_integer_text s ≡ false → parse_minor_units s ≢ ok n
unfolding parse_minor_units
parse_of_malformed s n h = rw h (cc)

parse-eq-ok :
    (s : Text) (n : ℤ)
    → parse_minor_units s ≡ ok n
    → (is_integer_text s ≡ true) × (value (unsigned s) ≤ max_safe) × (n ≡ signed_value s)
parse-eq-ok s n e = elim (Bool-cases (is_integer_text s)) [
  | inl h ↦ elim (Bool-cases (ltb max_safe (value (unsigned s)))) [
    | inl big ↦ absurd (parse_of_unsafe s n (ltb→lt _ _ big) e)
    | inr small ↦
        let k : value (unsigned s) ≤ max_safe = ground arith in (h, k, cc (parse_of_safe s h k))
  ]
  | inr h ↦ absurd (parse_of_malformed s n h e)
]

-- `parseMinorUnits` accepts a text exactly when it is an optional minus sign and at least one
-- digit, and the integer that it denotes is safe; the result is that integer.
pub parse_minor_units_exact :
    (s : Text) (n : ℤ)
    → (parse_minor_units s ≡ ok n) ↔ (
        (is_integer_text s ≡ true)
        × (value (unsigned s) ≤ max_safe)
        × (n ≡ with_sign (is_signed s) (value (unsigned s))))
parse_minor_units_exact s n = (parse-eq-ok s n, λ (h, k, e). cc (parse_of_safe s h k))

pub parse-show_natural : (n : ℕ) → n ≤ max_safe → parse_minor_units (show_natural n) ≡ ok (pos n)
parse-show_natural n h = (parse_minor_units_exact (show_natural n) (pos n)).1 (
    rw
      (
        unsigned-of_digits (show_natural n) (are_digits-show_natural n),
        is_signed-of_digits (show_natural n) (are_digits-show_natural n),
        value-show_natural n,
        are_digits-show_natural n,
        is_empty-show_natural n,
      )
      (refl, h, refl))

parse-show_negative :
    (n : ℕ) → suc n ≤ max_safe → parse_minor_units (b'-' ∷ show_natural (suc n)) ≡ ok (negsuc n)
parse-show_negative n h = (parse_minor_units_exact (b'-' ∷ show_natural (suc n)) (negsuc n)).1 (
    rw (value-show_natural (suc n), are_digits-show_natural (suc n), is_empty-show_natural (suc n))
      (refl, h, ground arith))

-- Every safe integer survives serialisation and parsing.
pub parse-serialize :
    (n : ℤ) → IsSafe n → then_call parse_minor_units (serialize_minor_units (integer n)) ≡ ok n
unfolding serialize_minor_units show_integer
parse-serialize (pos n) h = parse-show_natural n (omega arith)
parse-serialize (negsuc n) h = parse-show_negative n (omega arith)
