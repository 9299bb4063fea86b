-- ===== src/Import/Csv.antt =====
-- csvRecords of apps/api/src/imports/imports.service.ts. The loop's index moves on by one more where
-- two characters are read as one; here the second one is then skipped.
pub mod RoundTrip
mod Tests
use noorix_fin.Common.{
  ℕ, ◌≡◌, Bool, true, false, not, ◌&&◌, ◌||◌, Option, none, some, List, [], ◌∷◌, ◌++◌, ◌==◌,
  if◌then◌else◌,
}
use noorix_fin.Common.Text.{Text}
use noorix_fin.Common.Outcome.{Outcome, ok, err}

pub data CsvError : Type 0 where
  unterminated : CsvError

-- the variables of the loop
pub record Reader : Type 0 where
  pub rows : List (List Text)
  pub row : List Text
  pub field : Text
  pub quoted : Bool
  pub skip : Bool

abbrev pub quote : ℕ
quote = b'"'

abbrev pub line_feed : ℕ
line_feed = 10

abbrev pub carriage_return : ℕ
carriage_return = 13

-- `content[i + 1] === c`
abbrev pub next_is : Text → ℕ → Bool
next_is [] c = false
next_is (d ∷ s) c = d == c

-- One round of the loop, with the text that follows the character.
abbrev pub read_char : Reader → ℕ → Text → Reader
read_char r c s =
    if r.skip
    then record r { skip = false }
    else if c == quote && (r.quoted && next_is s quote)
    then record r { field = r.field ++ quote ∷ []; skip = true }
    else if c == quote
    then record r { quoted = not r.quoted }
    else if c == b',' && not r.quoted
    then record r { row = r.row ++ r.field ∷ []; field = [] }
    else if (c == line_feed || c == carriage_return) && not r.quoted
    then record r {
      rows = r.rows ++ (r.row ++ r.field ∷ []) ∷ [];
      row = [];
      field = [];
      skip = c == carriage_return && next_is s line_feed;
    }
    else record r { field = r.field ++ c ∷ [] }

abbrev pub read_chars : Reader → Text → Reader
read_chars r [] = r
read_chars r (c ∷ s) = read_chars (read_char r c s) s

abbrev pub is_empty {ℓ} : {A : Type ℓ} → List A → Bool
is_empty [] = true
is_empty (x ∷ xs) = false

abbrev pub end_records : Reader → Outcome CsvError (List (List Text))
end_records r =
    let rows =
      if not (is_empty r.field) || not (is_empty r.row)
      then r.rows ++ (r.row ++ r.field ∷ []) ∷ []
      else r.rows in
    if r.quoted then err unterminated else ok rows

abbrev pub first_reader : Reader
first_reader = record { rows = []; row = []; field = []; quoted = false; skip = false }

unfoldable pub csv_records : Text → Outcome CsvError (List (List Text))
csv_records content = end_records (read_chars first_reader content)
