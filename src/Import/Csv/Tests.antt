-- ===== src/Import/Csv/Tests.antt =====
-- Small CSV texts, and records to which the round trip is applied.
use noorix_fin.Common.{◌≡◌, refl, List, [], ◌∷◌}
use noorix_fin.Common.Text.{codes}
use noorix_fin.Common.Outcome.{ok, err}
use noorix_fin.Import.Csv.{unterminated, csv_records}
use noorix_fin.Import.Csv.RoundTrip.{Record, write_csv, csv_records-write_csv}

two_rows :
    csv_records (codes "date,amount\r\n2024-05-01,\"1,250.50\"")
    ≡ ok ((codes "date" ∷ codes "amount" ∷ []) ∷ (codes "2024-05-01" ∷ codes "1,250.50" ∷ []) ∷ [])
unfolding csv_records
two_rows = refl

open_quote : csv_records (codes "a,\"b") ≡ err unterminated
unfolding csv_records
open_quote = refl

abbrev records : List Record
records =
    (codes "payee", codes "amount" ∷ []) ∷ (codes "Joe's \"Cafe\", Dhaka", codes "5" ∷ []) ∷ []

csv_records-write_csv_example :
    csv_records (write_csv records)
    ≡ ok (
        (codes "payee" ∷ codes "amount" ∷ [])
        ∷ (codes "Joe's \"Cafe\", Dhaka" ∷ codes "5" ∷ [])
        ∷ [])
csv_records-write_csv_example = csv_records-write_csv records
