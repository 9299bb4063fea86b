-- ===== src/Money/Parse/Major.antt =====
-- majorStringToMinorUnits: the result is the decimal that was written, with nothing rounded.
use native.Mathlib.Nat.{pow-zero, pow-suc, sub-zero, suc-sub-suc}
use noorix_fin.Common.{
  ℕ, zero, suc, ◌+◌, ◌-◌, ◌*◌, ◌^◌, ◌≤◌, ◌≡◌, refl, Bool, true, false, [], ◌∷◌, ◌++◌, arith, ltb,
  if◌then◌else◌, Bool-cases, Option-cases, inl, inr, ◌≢◌, length, String, some, none, Option, ap,
}
use noorix_fin.Common.Int.{ℤ}
use noorix_fin.Common.Outcome.{Outcome, ok, err}
use noorix_fin.Common.Text.{
  Text, value, value_from, pad_end, are_digits, digit_run, after_digits, digit_run-append,
  are_digits-digit_run,
}
use noorix_fin.Money.Number.{max_safe}
use noorix_fin.Money.Currency.{CurrencyInfo, CurrencyError, get_currency}
use noorix_fin.Money.Parse.{
  too_many_decimals, exceeds_safe_range, fraction_of, is_empty, is_signed, unsigned, with_sign,
  groups, match_major, in_currency, major_to_minor, after_match, major_string_to_minor_units,
}

-- Appending a run of digits shifts the number before it.
value_from-append :
    (acc : ℕ) (s t : Text) → value_from acc (s ++ t) ≡ value_from (value_from acc s) t
value_from-append acc [] t = refl
value_from-append acc (c ∷ s) t = value_from-append (acc * 10 + (c - b'0')) s t

value_from-shift : (acc : ℕ) (s : Text) → value_from acc s ≡ acc * 10 ^ length s + value s
value_from-shift acc [] = simp pow-zero (omega arith)
value_from-shift acc (c ∷ s) =
    rw
      (
        value_from-shift (acc * 10 + (c - b'0')) s,
        value_from-shift (0 * 10 + (c - b'0')) s,
        pow-suc,
      )
      (omega arith)

-- Padding with zeros on the right multiplies by a power of ten.
value-pad_end :
    (e acc : ℕ) (s : Text)
    → length s ≤ e
    → value_from acc (pad_end e s) ≡ value_from acc s * 10 ^ (e - length s)
value-pad_end zero acc [] h = omega arith
value-pad_end zero acc (c ∷ s) h = absurd (omega arith)
value-pad_end (suc e) acc [] h =
    rw (value-pad_end e (acc * 10 + 0) [] (omega arith)) (simp (sub-zero, pow-suc) (omega arith))
value-pad_end (suc e) acc (c ∷ s) h =
    rw suc-sub-suc (value-pad_end e (acc * 10 + (c - b'0')) s (omega arith))

-- The text of a signed decimal: a point stands before a fraction that is not empty.
abbrev pub point : Text → Text
point [] = []
point (c ∷ s) = b'.' ∷ c ∷ s

abbrev pub written : Bool → Text → Text → Text
written true whole fraction = b'-' ∷ (whole ++ point fraction)
written false whole fraction = whole ++ point fraction

-- A whole part of at least one digit and a fraction of any number of digits.
abbrev pub AreParts : Text → Text → Type 0
AreParts whole fraction =
    (are_digits whole ≡ true) × (is_empty whole ≡ false) × (are_digits fraction ≡ true)

digit_run-written :
    (whole fraction : Text) → are_digits whole ≡ true → digit_run (whole ++ point fraction) ≡ whole
digit_run-written [] [] h = refl
digit_run-written [] (c ∷ f) h = refl
digit_run-written (c ∷ w) f h = ground (arith, digit_run-written w f)

after_digits-written :
    (whole fraction : Text)
    → are_digits whole ≡ true
    → after_digits (whole ++ point fraction) ≡ point fraction
after_digits-written [] [] h = refl
after_digits-written [] (c ∷ f) h = refl
after_digits-written (c ∷ w) f h = ground (arith, after_digits-written w f)

fraction_of-point :
    (fraction : Text) → are_digits fraction ≡ true → fraction_of (point fraction) ≡ some fraction
unfolding fraction_of
fraction_of-point [] h = refl
fraction_of-point (c ∷ s) h = ground arith

fraction_of_sound :
    (s : Text) (fraction : Text)
    → fraction_of s ≡ some fraction
    → (s ≡ point fraction) × (are_digits fraction ≡ true)
unfolding fraction_of
fraction_of_sound [] f e = ground arith
fraction_of_sound (c ∷ []) f e = ground arith
fraction_of_sound (c ∷ d ∷ s) f e = ground arith

unsigned-written :
    (negative : Bool) (whole fraction : Text)
    → AreParts whole fraction
    → (unsigned (written negative whole fraction) ≡ whole ++ point fraction)
      × (is_signed (written negative whole fraction) ≡ negative)
unsigned-written true whole fraction h = (refl, refl)
unsigned-written false [] fraction h = absurd (cc (h.1))
unsigned-written false (c ∷ w) fraction h = (ground arith, ground arith)

match_major-written :
    (negative : Bool) (whole fraction : Text)
    → AreParts whole fraction
    → match_major (written negative whole fraction) ≡ some (whole, fraction)
unfolding match_major groups
match_major-written negative whole fraction h =
    simp
      (
        (unsigned-written negative whole fraction h).0,
        after_digits-written whole fraction h.0,
        digit_run-written whole fraction h.0,
        fraction_of-point fraction h.2,
      )
      (rw h.1)

length-pad_end : (e : ℕ) (s : Text) → length s ≤ e → length (pad_end e s) ≡ e
length-pad_end zero [] h = refl
length-pad_end zero (c ∷ s) h = absurd (omega arith)
length-pad_end (suc e) [] h = ap suc (length-pad_end e [] (omega arith))
length-pad_end (suc e) (c ∷ s) h = ap suc (length-pad_end e s (omega arith))

-- The digits with the point taken out, times the power of ten that the fraction falls short of.
abbrev pub scaled : ℕ → Text → Text → ℕ
scaled exponent whole fraction = value (whole ++ fraction) * 10 ^ (exponent - length fraction)

pub minor-eq-scaled :
    (e : ℕ) (whole fraction : Text)
    → length fraction ≤ e
    → value whole * 10 ^ e + value (pad_end e fraction) ≡ scaled e whole fraction
minor-eq-scaled e whole fraction h =
    rw (value_from-append 0 whole fraction, ← value-pad_end e (value whole) fraction h)
      (rw (value_from-shift (value whole) (pad_end e fraction), length-pad_end e fraction h))

major_to_minor_exact :
    (negative : Bool) (e : ℕ) (whole fraction : Text)
    → major_to_minor negative e whole fraction ≡ (
        if ltb e (length fraction)
        then err (too_many_decimals e)
        else if ltb max_safe (scaled e whole fraction)
        then err exceeds_safe_range
        else ok (with_sign negative (scaled e whole fraction)))
unfolding major_to_minor
major_to_minor_exact negative e whole fraction = elim (Bool-cases (ltb e (length fraction))) [
  | inl long ↦ rw long
  | inr fits ↦ rw (fits, minor-eq-scaled e whole fraction (ground arith))
]

-- For every decimal, a digit run with an optional sign and an optional point and fraction, in a
-- known currency, `majorStringToMinorUnits` refuses a fraction longer than the currency's exponent
-- and an amount outside the safe range, and otherwise returns exactly the written decimal in minor
-- units.
pub major_string_exact :
    (code : String) (currency : CurrencyInfo) (negative : Bool) (whole fraction : Text)
    → get_currency code ≡ ok currency
    → AreParts whole fraction
    → major_string_to_minor_units (written negative whole fraction) code ≡ (
        if ltb currency.exponent (length fraction)
        then err (too_many_decimals currency.exponent)
        else if ltb max_safe (scaled currency.exponent whole fraction)
        then err exceeds_safe_range
        else ok (with_sign negative (scaled currency.exponent whole fraction)))
unfolding major_string_to_minor_units
major_string_exact code currency negative whole fraction known h =
    rw
      (
        major_string_to_minor_units,
        known,
        in_currency,
        match_major-written negative whole fraction h,
        after_match,
        (unsigned-written negative whole fraction h).1,
      )
      (major_to_minor_exact negative currency.exponent whole fraction)

match_major_sound :
    (s whole fraction : Text)
    → match_major s ≡ some (whole, fraction)
    → AreParts whole fraction × (unsigned s ≡ whole ++ point fraction)
unfolding match_major groups
match_major_sound s whole fraction e = go (fraction_of (after_digits (unsigned s))) refl e
  where
    go :
        (o : Option Text)
        → fraction_of (after_digits (unsigned s)) ≡ o
        → groups (digit_run (unsigned s)) o ≡ some (whole, fraction)
        → AreParts whole fraction × (unsigned s ≡ whole ++ point fraction)
    go none found e = cc
    go (some f) found e =
        let (rest, digits) = fraction_of_sound (after_digits (unsigned s)) f found in
        ground
          (arith, rest, digits, are_digits-digit_run (unsigned s), digit_run-append (unsigned s))

after_match-none : (s : Text) (e : ℕ) (n : ℤ) → after_match s e none ≢ ok n
unfolding after_match
after_match-none s e n = cc

-- A text that `majorStringToMinorUnits` accepts is such a decimal, and its currency is known.
pub major_string_accepts :
    (s : Text) (code : String) (n : ℤ)
    → major_string_to_minor_units s code ≡ ok n
    → (whole : Text) × (fraction : Text) × (currency : CurrencyInfo) × AreParts whole fraction
      × (unsigned s ≡ whole ++ point fraction)
      × (get_currency code ≡ ok currency)
unfolding major_string_to_minor_units after_match
major_string_accepts s code n e = go (get_currency code) refl e
  where
    go :
        (c : Outcome CurrencyError CurrencyInfo)
        → get_currency code ≡ c
        → in_currency s c ≡ ok n
        → (whole : Text) × (fraction : Text) × (currency : CurrencyInfo) × AreParts whole fraction
          × (unsigned s ≡ whole ++ point fraction)
          × (get_currency code ≡ ok currency)
    go (err u) known e = cc
    go (ok currency) known e = elim (Option-cases (match_major s)) [
      | inl none_found ↦ absurd (after_match-none s currency.exponent n (rw none_found at e))
      | inr (m, matched) ↦
          let (parts, same) = match_major_sound s m.0 m.1 matched in
          (m.0, m.1, currency, parts, same, known)
    ]
