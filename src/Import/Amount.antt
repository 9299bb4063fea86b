-- ===== src/Import/Amount.antt =====
-- The amounts of apps/api/src/imports/imports.service.ts: the part of normalized that reads one, and
-- decimalToMinor. BigInt arithmetic is exact. `is_space` is the class `\s` of the JavaScript library.
pub mod Exact
use mathlib.Core.Option
use noorix_fin.Common.{
  ℕ, zero, suc, ◌+◌, ◌*◌, ◌^◌, ◌≡◌, Bool, true, false, not, ◌&&◌, ◌||◌, Option, none, some, List,
  [], ◌∷◌, ◌++◌, ◌==◌, ltb, if◌then◌else◌, filter, any, take, drop,
}
use noorix_fin.Common.Text.{
  Text, codes, is_digit, are_digits, value, pad_end, digit_run, after_digits, text_eq,
}
use noorix_fin.Common.Outcome.{Outcome, ok, err}
use noorix_fin.Money.Number.{max_safe}
use noorix_fin.Money.Currency.{CurrencyInfo, currencies}

pub data StatementError : Type 0 where
  invalid_amount invalid_date undefined_value missing_columns bad_csv : StatementError
  unknown_currency too_precise beyond_safe_range : StatementError

abbrev pub is_sign : ℕ → Bool
is_sign c = c == b'+' || c == b'-'

-- `replace(/^[+-]/, '')`
abbrev pub without_sign : Text → Text
without_sign [] = []
without_sign (c ∷ s) = if is_sign c then s else c ∷ s

-- `startsWith('-')`
abbrev pub is_negative : Text → Bool
is_negative [] = false
is_negative (c ∷ s) = c == b'-'

-- `(?:\.\d*)?$` behind a whole part, and `\.\d+$` without one: the digits after the point
abbrev pub fraction_after : Bool → Text → Option Text
fraction_after has_whole [] = if has_whole then some [] else none
fraction_after has_whole (c ∷ []) = if c == b'.' && has_whole then some [] else none
fraction_after has_whole (c ∷ d ∷ s) =
    if c == b'.' && are_digits (d ∷ s) then some (d ∷ s) else none

abbrev pub has_chars : Text → Bool
has_chars [] = false
has_chars (c ∷ s) = true

-- `/[1-9]/`
abbrev pub is_nonzero_digit : ℕ → Bool
is_nonzero_digit c = is_digit c && not (c == b'0')

-- `whole || '0'`
abbrev pub or_zero : Text → Text
or_zero [] = b'0' ∷ []
or_zero (c ∷ s) = c ∷ s

abbrev pub point_and : Text → Text
point_and [] = []
point_and (c ∷ s) = b'.' ∷ c ∷ s

abbrev pub amount_text : Bool → Text → Text → Text
amount_text negative whole fraction =
    (if negative then b'-' ∷ [] else []) ++ (or_zero whole ++ point_and fraction)

abbrev pub checked_amount : Bool → Text → Option Text → Outcome StatementError Text
checked_amount negative whole none = err invalid_amount
checked_amount negative whole (some fraction) =
    if any is_nonzero_digit (whole ++ fraction)
    then ok (amount_text negative whole fraction)
    else err invalid_amount

-- the amount, after commas and spaces were taken out
abbrev pub read_cleaned : Text → Outcome StatementError Text
read_cleaned cleaned =
    let body = without_sign cleaned in
    let whole = digit_run body in
    checked_amount (is_negative cleaned) whole
      (fraction_after (has_chars whole) (after_digits body))

unfoldable pub statement_amount : (ℕ → Bool) → Text → Outcome StatementError Text
statement_amount is_space s = read_cleaned (filter (λ c. not (c == b',' || is_space c)) s)

-- `split('.')`: the text before the first point, and the text from there to the next one
abbrev pub until_point : Text → Text
until_point [] = []
until_point (c ∷ s) = let rest = until_point s in if c == b'.' then [] else c ∷ rest

abbrev pub behind_point : Text → Text
behind_point [] = []
behind_point (c ∷ s) = let rest = behind_point s in if c == b'.' then until_point s else rest

abbrev pub safe_minor : ℕ → Outcome StatementError ℕ
safe_minor n = if ltb max_safe n then err beyond_safe_range else ok n

abbrev pub to_minor : ℕ → Text → Text → Outcome StatementError ℕ
to_minor exponent whole fraction =
    if any is_nonzero_digit (drop exponent fraction)
    then err too_precise
    else safe_minor
        (value whole * 10 ^ exponent + value (pad_end exponent (take exponent fraction)))

-- getCurrency of packages/money, for a code that is a text
abbrev pub exponent_of : Text → List CurrencyInfo → Option ℕ
exponent_of code [] = none
exponent_of code (c ∷ cs) =
    if text_eq (codes c.code) code then some c.exponent else exponent_of code cs

abbrev pub in_exponent : Text → Option ℕ → Outcome StatementError ℕ
in_exponent amount none = err unknown_currency
in_exponent amount (some exponent) =
    let body = without_sign amount in to_minor exponent (until_point body) (behind_point body)

unfoldable pub decimal_to_minor : Text → Text → Outcome StatementError ℕ
decimal_to_minor amount code = in_exponent amount (exponent_of code currencies)
