-- ===== src/Money/Parse.antt =====
-- Decimal texts and minor units, packages/money/src/index.ts: parseMinorUnits,
-- serializeMinorUnits, majorStringToMinorUnits. BigInt arithmetic is exact.
pub mod RoundTrip
pub mod Major
use noorix_fin.Common.{
  ℕ, zero, suc, ◌+◌, ◌-◌, ◌*◌, ◌/◌, ◌%◌, ◌^◌, ◌≤◌, ◌≡◌, refl, Bool, true, false, ◌&&◌, not, List,
  [], ◌∷◌, ◌++◌, arith, ltb, leb, ◌==◌, if◌then◌else◌, length, String, Option, some, none,
}
use noorix_fin.Common.Int.{ℤ, pos, negsuc, neg}
use noorix_fin.Common.Outcome.{Outcome, ok, err}
use noorix_fin.Common.Text.{
  Text, codes, is_digit, are_digits, value, pad_end, digit_run, after_digits,
}
use noorix_fin.Money.Number.{max_safe, round53, is_unsafe}
use noorix_fin.Money.Currency.{CurrencyInfo, CurrencyError, get_currency}

pub data AmountError : Type 0 where
  invalid_amount exceeds_safe_range not_an_integer unknown_code : AmountError
  too_many_decimals : ℕ → AmountError

abbrev pub is_empty : Text → Bool
is_empty [] = true
is_empty (c ∷ s) = false

-- `^-?\d+$`: the sign is taken off the front.
abbrev pub unsigned : Text → Text
unsigned [] = []
unsigned (c ∷ s) = if c == b'-' then s else c ∷ s

abbrev pub is_signed : Text → Bool
is_signed [] = false
is_signed (c ∷ s) = c == b'-'

abbrev pub with_sign : Bool → ℕ → ℤ
with_sign true n = neg (pos n)
with_sign false n = pos n

abbrev pub is_integer_text : Text → Bool
is_integer_text s = are_digits (unsigned s) && not (is_empty (unsigned s))

-- The least integer that `Number` turns into `Infinity`: halfway past the largest double.
pub infinity_bound : ℕ
infinity_bound = 2 ^ 1024 - 2 ^ 970

-- `Number(s)` of a text that the pattern accepts: the nearest double, or an infinity.
abbrev number_of : Text → Option ℕ
number_of s =
    if ltb (value (unsigned s)) infinity_bound then some (round53 (value (unsigned s))) else none

in_safe_range : Text → Option ℕ → Outcome AmountError ℤ
in_safe_range s none = err invalid_amount
in_safe_range s (some n) =
    if ltb max_safe n then err exceeds_safe_range else ok (with_sign (is_signed s) n)

unfoldable pub parse_minor_units : Text → Outcome AmountError ℤ
unfolding in_safe_range infinity_bound
parse_minor_units s =
    if is_integer_text s then in_safe_range s (number_of s) else err invalid_amount

-- A number argument: an integer, or a number that `Number.isInteger` rejects.
pub data Numeric : Type 0 where
  integer : ℤ → Numeric
  non_integer : Numeric

-- The decimal digits of a natural number, least significant last, before `acc`.
digits_before : ℕ → ℕ → Text → Text
digits_before zero n acc = acc
digits_before (suc fuel) n acc =
    let rest = digits_before fuel (n / 10) ((b'0' + n % 10) ∷ acc) in
    if n / 10 == 0 then (b'0' + n % 10) ∷ acc else rest

unfoldable pub show_natural : ℕ → Text
unfolding digits_before
show_natural n = digits_before (suc n) n []

-- `String(n)` of an integer below 10^21 in size, beyond which JavaScript writes an exponent.
unfoldable pub show_integer : ℤ → Text
unfolding show_natural
show_integer (pos n) = show_natural n
show_integer (negsuc n) = b'-' ∷ show_natural (suc n)

unfoldable pub serialize_minor_units : Numeric → Outcome AmountError Text
unfolding show_integer
serialize_minor_units non_integer = err not_an_integer
serialize_minor_units (integer n) = ok (show_integer n)

-- `^(-?)(\d+)(?:\.(\d+))?$`: the whole part and the fraction, empty if there is no point.
fraction_of : Text → Option Text
fraction_of [] = some []
fraction_of (c ∷ s) = if c == b'.' && are_digits s && not (is_empty s) then some s else none

-- The two groups of the match, once the text after the whole part is known.
groups : Text → Option Text → Option (Text × Text)
groups whole none = none
groups whole (some fraction) = if is_empty whole then none else some (whole, fraction)

match_major : Text → Option (Text × Text)
unfolding fraction_of groups
match_major s = groups (digit_run (unsigned s)) (fraction_of (after_digits (unsigned s)))

major_to_minor : Bool → ℕ → Text → Text → Outcome AmountError ℤ
major_to_minor negative exponent whole fraction =
    if ltb exponent (length fraction)
    then err (too_many_decimals exponent)
    else let minor = value whole * 10 ^ exponent + value (pad_end exponent fraction) in
      if ltb max_safe minor then err exceeds_safe_range else ok (with_sign negative minor)

after_match : Text → ℕ → Option (Text × Text) → Outcome AmountError ℤ
after_match s exponent none = err invalid_amount
after_match s exponent (some (whole, fraction)) =
    major_to_minor (is_signed s) exponent whole fraction

in_currency : Text → Outcome CurrencyError CurrencyInfo → Outcome AmountError ℤ
in_currency s (err e) = err unknown_code
in_currency s (ok currency) = after_match s currency.exponent (match_major s)

unfoldable pub major_string_to_minor_units : Text → String → Outcome AmountError ℤ
unfolding match_major major_to_minor after_match in_currency
major_string_to_minor_units s currency_code = in_currency s (get_currency currency_code)
