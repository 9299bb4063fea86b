-- ===== src/Import/Rows/Tests.antt =====
-- Small statements, and an amount to which the theorem about amounts is applied.
use noorix_fin.Common.{ℕ, ◌≡◌, refl, ◌==◌, Bool, true, some, none, [], ◌∷◌}
use noorix_fin.Common.Text.{codes, value}
use noorix_fin.Common.Outcome.{ok, err}
use noorix_fin.Money.Parse.{show_natural}
use noorix_fin.Import.Csv.{csv_records}
use noorix_fin.Import.Amount.{
  invalid_amount, undefined_value, too_precise, statement_amount, decimal_to_minor,
}
use noorix_fin.Import.Amount.Exact.{IsExact, cleaned, statement_amount-IsExact}
use noorix_fin.Import.Rows.{Library, parse_csv}

abbrev is_blank : ℕ → Bool
is_blank c = c == b' '

abbrev library : Library
library = record {
  is_space = is_blank;
  header_name = λ h. h;
  to_number = λ t. some (value t);
  is_day = λ t. true;
}

statement_read :
    parse_csv library (codes "date,amount,payee,note\n2024-05-01,\"-1,250.50\",,rent\n5/2/24,7,Joe")
    ≡ ok (
        record {
          date = codes "2024-05-01T12:00:00.000Z";
          amount = codes "-1250.50";
          payee = codes "Imported transaction";
          note = some (codes "rent");
        }
        ∷ record {
          date = codes "2024-05-02T12:00:00.000Z";
          amount = codes "7";
          payee = codes "Joe";
          note = none;
        }
        ∷ [])
unfolding parse_csv csv_records statement_amount show_natural
statement_read = refl

amount_missing : parse_csv library (codes "date,amount\n2024-05-01") ≡ err undefined_value
unfolding parse_csv csv_records statement_amount
amount_missing = refl

zero_refused : statement_amount is_blank (codes "-0.00") ≡ err invalid_amount
unfolding statement_amount
zero_refused = refl

mill_refused : decimal_to_minor (codes "1.005") (codes "BDT") ≡ err too_precise
unfolding decimal_to_minor
mill_refused = refl

rent_read : statement_amount is_blank (codes "-1,250.5") ≡ ok (codes "-1250.5")
unfolding statement_amount
rent_read = refl

rent_minor : decimal_to_minor (codes "-1250.5") (codes "BDT") ≡ ok 125050
unfolding decimal_to_minor
rent_minor = refl

statement_amount-IsExact_example :
    IsExact (cleaned is_blank (codes "-1,250.5")) (codes "-1250.5") (codes "BDT") 2
statement_amount-IsExact_example =
    statement_amount-IsExact is_blank (codes "-1,250.5") (codes "-1250.5") (codes "BDT") 2 rent_read
      refl
