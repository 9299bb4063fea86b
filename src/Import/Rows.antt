-- ===== src/Import/Rows.antt =====
-- parseCsv and normalized of apps/api/src/imports/imports.service.ts: the rows of a statement.
-- `undefined` is `none`: a record may be shorter than the headers.
mod Tests
use mathlib.Core.Option
use noorix_fin.Common.{
  ℕ, zero, suc, ◌+◌, ◌-◌, ◌≡◌, Bool, true, false, not, ◌&&◌, ◌||◌, Option, none, some, List, [],
  ◌∷◌, ◌++◌, map, ◌==◌, ltb, if◌then◌else◌, filter, any, take, drop, length, get_elem?,
}
use noorix_fin.Common.Text.{Text, codes, is_digit, are_digits, contains}
use noorix_fin.Common.Outcome.{Outcome, ok, err, then_call}
use noorix_fin.Money.Parse.{show_natural}
use noorix_fin.Import.Csv.{CsvError, csv_records}
use noorix_fin.Import.Amount.{
  StatementError, invalid_date, undefined_value, missing_columns, bad_csv, has_chars,
  statement_amount,
}
use noorix_fin.Ledger.Request.{or_else}

-- a row of the statement, without the raw text that is kept beside it
pub record ParsedRow : Type 0 where
  pub date : Text
  pub amount : Text
  pub payee : Text
  pub note : Option Text

-- What the JavaScript library does here: the spaces, the form of a header (trim, lower case, spaces to
-- underscores), Number where it gives a natural number, and whether the UTC date of noon on a day
-- reads as that day again. A part that is no natural number never makes such a day.
pub record Library : Type 0 where
  pub is_space : ℕ → Bool
  pub header_name : Text → Text
  pub to_number : Text → Option ℕ
  pub is_day : Text → Bool

abbrev pub starts_with_digits : ℕ → Text → Bool
starts_with_digits zero s = true
starts_with_digits (suc n) [] = false
starts_with_digits (suc n) (c ∷ s) = let rest = starts_with_digits n s in is_digit c && rest

abbrev pub starts_with_dash : Text → Bool
starts_with_dash [] = false
starts_with_dash (c ∷ s) = c == b'-'

-- `/^\d{4}-\d{2}-\d{2}/`
abbrev pub is_iso_start : Text → Bool
is_iso_start s =
    starts_with_digits 4 s
    && (starts_with_dash (drop 4 s)
        && (starts_with_digits 2 (drop 5 s)
            && (starts_with_dash (drop 7 s) && starts_with_digits 2 (drop 8 s))))

-- `split(/[/'-]/)`
abbrev pub is_separator : ℕ → Bool
is_separator c = c == b'/' || (c == 39 || c == b'-')

abbrev pub on_first : ℕ → List Text → List Text
on_first c [] = (c ∷ []) ∷ []
on_first c (p ∷ ps) = (c ∷ p) ∷ ps

abbrev pub split_date : Text → List Text
split_date [] = [] ∷ []
split_date (c ∷ s) =
    let parts = split_date s in if is_separator c then [] ∷ parts else on_first c parts

-- `padStart(2, '0')`
abbrev pub two_digits : Text → Text
two_digits [] = b'0' ∷ b'0' ∷ []
two_digits (c ∷ []) = b'0' ∷ c ∷ []
two_digits (c ∷ d ∷ s) = c ∷ d ∷ s

abbrev pub full_year : ℕ → ℕ
full_year y = if ltb y 100 then 2000 + y else y

abbrev pub of_parts : List (Option ℕ) → Outcome StatementError Text
of_parts (some a ∷ some b ∷ some y ∷ []) = ok (
    show_natural (full_year y)
    ++ (b'-' ∷ (two_digits (show_natural a) ++ (b'-' ∷ two_digits (show_natural b)))))
of_parts parts = err invalid_date

module _ (lib : Library) where
  open lib use {is_space, header_name, to_number, is_day}

  abbrev pub iso_date : Text → Outcome StatementError Text
  iso_date s =
      if starts_with_digits 8 s
      then ok (take 4 s ++ (b'-' ∷ (take 2 (drop 4 s) ++ (b'-' ∷ take 2 (drop 6 s)))))
      else if is_iso_start s
      then ok (take 10 s)
      else of_parts (map to_number (split_date s))

  abbrev pub real_day : Text → Outcome StatementError Text
  real_day iso = if is_day iso then ok (iso ++ codes "T12:00:00.000Z") else err invalid_date

  abbrev pub row_date : Option Text → Outcome StatementError Text
  row_date none = err undefined_value
  row_date (some s) = then_call real_day (iso_date s)

  abbrev pub row_amount : Option Text → Outcome StatementError Text
  row_amount none = err undefined_value
  row_amount (some s) = statement_amount is_space s

  abbrev pub normalized :
      Option Text → Option Text → Option Text → Option Text → Outcome StatementError ParsedRow
  normalized date_value amount_value payee note =
      then_call
        (λ amount.
          then_call
            (λ date. ok (record {
              date = date;
              amount = amount;
              payee = or_else payee (codes "Imported transaction");
              note = note;
            }))
            (row_date date_value))
        (row_amount amount_value)

  abbrev pub find_index : (Text → Bool) → List Text → Option ℕ
  find_index p [] = none
  find_index p (x ∷ xs) =
      let rest = find_index p xs in if p x then some zero else Option.map suc rest

  -- `index >= 0 ? record[index] : ''`
  abbrev pub optional_field : Option ℕ → List Text → Option Text
  optional_field none fields = some []
  optional_field (some i) fields = get_elem? fields i

  -- a `map` whose function may throw
  abbrev pub map_rows :
      (List Text → Outcome StatementError ParsedRow)
      → List (List Text)
      → Outcome StatementError (List ParsedRow)
  map_rows f [] = ok []
  map_rows f (r ∷ rs) =
      let rest = map_rows f rs in then_call (λ row. then_call (λ rows. ok (row ∷ rows)) rest) (f r)

  abbrev pub with_columns :
      Option ℕ → Option ℕ → List Text → List (List Text) → Outcome StatementError (List ParsedRow)
  with_columns (some date) (some amount) headers records =
      let payee =
        find_index
          (contains (codes "payee" ∷ codes "description" ∷ codes "merchant" ∷ codes "name" ∷ []))
          headers in
      let note =
        find_index (contains (codes "note" ∷ codes "memo" ∷ codes "details" ∷ [])) headers in
      map_rows
        (λ fields.
          normalized (get_elem? fields date) (get_elem? fields amount) (optional_field payee fields)
            (optional_field note fields))
        (filter (λ fields. any has_chars fields) records)
  with_columns date amount headers records = err missing_columns

  abbrev pub of_records : List (List Text) → Outcome StatementError (List ParsedRow)
  of_records [] = ok []
  of_records (first ∷ []) = ok []
  of_records (first ∷ r ∷ rs) =
      let headers = map header_name first in
      with_columns
        (find_index (contains (codes "date" ∷ codes "transaction_date" ∷ codes "occurred_at" ∷ []))
          headers)
        (find_index (contains (codes "amount" ∷ codes "value" ∷ [])) headers) headers (r ∷ rs)

  -- `replace(/^\uFEFF/, '')`
  abbrev pub without_mark : Text → Text
  without_mark [] = []
  without_mark (c ∷ s) = if c == 65279 then s else c ∷ s

  abbrev pub of_csv : Outcome CsvError (List (List Text)) → Outcome StatementError (List ParsedRow)
  of_csv (err e) = err bad_csv
  of_csv (ok records) = of_records records

  unfoldable pub parse_csv : Text → Outcome StatementError (List ParsedRow)
  parse_csv content = of_csv (csv_records (without_mark content))
