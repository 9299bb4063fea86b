-- ===== src/Money/Tests.antt =====
-- Amounts on which the theorems about packages/money/src/index.ts are applied.
use noorix_fin.Common.{
  ◌≤◌, ◌≡◌, refl, ◌↔◌, true, List, [], ◌∷◌, if◌then◌else◌, ltb, length, All, arith,
}
use noorix_fin.Common.Int.{ℤ, pos, negsuc}
use noorix_fin.Common.Text.{Text, codes, value}
use noorix_fin.Common.Outcome.{ok, err, then_call}
use noorix_fin.Money.Number.{max_safe}
use noorix_fin.Money.Arith.{add_minor_units, HasSafePrefixes, sum_from, add_minor_units_exact}
use noorix_fin.Money.Currency.{CurrencyInfo, get_currency}
use noorix_fin.Money.Parse.{
  too_many_decimals, exceeds_safe_range, is_integer_text, unsigned, is_signed, with_sign,
  parse_minor_units, integer, serialize_minor_units, major_string_to_minor_units,
}
use noorix_fin.Money.Parse.RoundTrip.{parse_minor_units_exact, parse-serialize}
use noorix_fin.Money.Parse.Major.{scaled, written, major_string_exact}
use noorix_fin.Money.Balance.{Posting, validate_balance}
use noorix_fin.Money.Balance.Exact.{IsOneSided, report, validate_balance_exact}

abbrev two_amounts : List ℤ
two_amounts = pos 100 ∷ negsuc 24 ∷ []

add_minor_units_exact_example :
    (add_minor_units two_amounts ≡ ok (pos 75))
    ↔ (HasSafePrefixes (pos 0) two_amounts × (pos 75 ≡ sum_from (pos 0) two_amounts))
add_minor_units_exact_example = add_minor_units_exact two_amounts (pos 75)

abbrev minus_forty_two : Text
minus_forty_two = codes "-42"

parse_minor_units_exact_example : (parse_minor_units minus_forty_two ≡ ok (negsuc 41)) ↔ (
    (is_integer_text minus_forty_two ≡ true)
    × (value (unsigned minus_forty_two) ≤ max_safe)
    × (negsuc 41 ≡ with_sign (is_signed minus_forty_two) (value (unsigned minus_forty_two))))
parse_minor_units_exact_example = parse_minor_units_exact minus_forty_two (negsuc 41)

parse-serialize_example :
    then_call parse_minor_units (serialize_minor_units (integer (negsuc 41))) ≡ ok (negsuc 41)
parse-serialize_example = parse-serialize (negsuc 41) (omega arith)

abbrev taka : CurrencyInfo
taka = record { code = "BDT"; exponent = 2 }

get_taka : get_currency "BDT" ≡ ok taka
unfolding get_currency
get_taka = refl

major_string_exact_example :
    major_string_to_minor_units (written true (codes "10") (codes "5")) "BDT" ≡ (
      if ltb 2 (length (codes "5"))
      then err (too_many_decimals 2)
      else if ltb max_safe (scaled 2 (codes "10") (codes "5"))
      then err exceeds_safe_range
      else ok (with_sign true (scaled 2 (codes "10") (codes "5"))))
major_string_exact_example =
    major_string_exact "BDT" taka true (codes "10") (codes "5") get_taka (refl, refl, refl)

ten_and_a_half : major_string_to_minor_units (codes "10.5") "BDT" ≡ ok (pos 1050)
unfolding major_string_to_minor_units get_currency
ten_and_a_half = refl

abbrev two_postings : List Posting
two_postings =
    record { debit_minor = pos 1050; credit_minor = pos 0 }
    ∷ record { debit_minor = pos 0; credit_minor = pos 1050 }
    ∷ []

validate_balance_exact_example :
    (validate_balance two_postings ≡ ok (report 1050 1050))
    ↔ (All IsOneSided two_postings × (report 1050 1050 ≡ report 1050 1050))
validate_balance_exact_example =
    validate_balance_exact two_postings (report 1050 1050) (omega arith) (omega arith)
