-- ===== src/Import/Csv/RoundTrip.antt =====
-- What is written as CSV is read back.
use noorix_fin.Common.{
  ℕ, ◌≡◌, refl, sym, ap, ◌∙◌, inl, inr, ◌||◌, map, Bool, true, false, ◌&&◌, List, [], ◌∷◌, ◌++◌,
  ◌==◌, if◌then◌else◌, Bool-cases, append_assoc, append-nil, ==_iff,
}
use noorix_fin.Common.Text.{Text}
use noorix_fin.Common.Outcome.{ok}
use noorix_fin.Import.Csv.{
  Reader, quote, line_feed, carriage_return, read_char, read_chars, end_records, csv_records,
}

-- A field between quotes, with each of its own quotes twice.
abbrev pub escape : Text → Text
escape [] = []
escape (c ∷ s) = let rest = escape s in if c == quote then quote ∷ quote ∷ rest else c ∷ rest

-- the reader between two fields, and inside of a quoted one
abbrev at_field : List (List Text) → List Text → Text → Reader
at_field rows row field = record {
  rows = rows;
  row = row;
  field = field;
  quoted = false;
  skip = false;
}

abbrev in_quotes : List (List Text) → List Text → Text → Reader
in_quotes rows row field = record {
  rows = rows;
  row = row;
  field = field;
  quoted = true;
  skip = false;
}

and_false : (b : Bool) → (b && false) ≡ false
and_false true = refl
and_false false = refl

escape-quote : (x : ℕ) (f : Text) → (x == quote) ≡ true → escape (x ∷ f) ≡ quote ∷ quote ∷ escape f
escape-quote x f quotes = rw quotes

escape_plain : (x : ℕ) (f : Text) → (x == quote) ≡ false → escape (x ∷ f) ≡ x ∷ escape f
escape_plain x f plain = rw plain

-- The reader that has one more character of the field goes on like the one that has the rest.
push_field :
    (rows : List (List Text)) (row : List Text) (f field : Text) (x : ℕ) (t : Text)
    → read_chars (at_field rows row ((field ++ x ∷ []) ++ f)) t
      ≡ read_chars (at_field rows row (field ++ x ∷ f)) t
push_field rows row f field x t =
    ap (λ l. read_chars (at_field rows row l) t) (append_assoc field (x ∷ []) f)

quoted_char :
    (rows : List (List Text)) (row : List Text) (field s : Text) (x : ℕ)
    → (x == quote) ≡ false
    → read_char (in_quotes rows row field) x s ≡ in_quotes rows row (field ++ x ∷ [])
quoted_char rows row field s x plain =
    rw plain (rw (and_false (x == b',')) (rw (and_false (x == line_feed || x == carriage_return))))

read_field :
    (rows : List (List Text)) (row : List Text) (f field : Text) (c : ℕ) (t : Text)
    → (c == quote) ≡ false
    → read_chars (in_quotes rows row field) (escape f ++ quote ∷ c ∷ t)
      ≡ read_chars (at_field rows row (field ++ f)) (c ∷ t)
read_field rows row [] field c t other = rw (other, append-nil field)
read_field rows row (x ∷ f) field c t other = elim (Bool-cases (x == quote)) [
  | inl quotes ↦
      let same : x ≡ quote = (==_iff x quote).0 quotes in
      ap (λ e. read_chars (in_quotes rows row field) (e ++ quote ∷ c ∷ t)) (escape-quote x f quotes)
      ∙ read_field rows row f (field ++ quote ∷ []) c t other
      ∙ push_field rows row f field quote (c ∷ t)
      ∙ ap (λ y. read_chars (at_field rows row (field ++ y ∷ f)) (c ∷ t)) (sym same)
  | inr plain ↦
      ap (λ e. read_chars (in_quotes rows row field) (e ++ quote ∷ c ∷ t)) (escape_plain x f plain)
      ∙ ap (λ r. read_chars r (escape f ++ quote ∷ c ∷ t))
          (quoted_char rows row field (escape f ++ quote ∷ c ∷ t) x plain)
      ∙ read_field rows row f (field ++ x ∷ []) c t other
      ∙ push_field rows row f field x (c ∷ t)
]

-- A record is a field and the fields after it.
abbrev pub Record : Type 0
Record = Text × List Text

abbrev pub fields : Record → List Text
fields (f, fs) = f ∷ fs

abbrev pub write_field : Text → Text → Text
write_field f t = quote ∷ (escape f ++ quote ∷ t)

abbrev pub write_record : Text → List Text → Text → Text
write_record f [] t = write_field f (line_feed ∷ t)
write_record f (g ∷ gs) t = write_field f (b',' ∷ write_record g gs t)

abbrev pub write_csv : List Record → Text
write_csv [] = []
write_csv (r ∷ rs) = write_record r.0 r.1 (write_csv rs)

read_record :
    (rows : List (List Text)) (row : List Text) (f : Text) (fs : List Text) (t : Text)
    → read_chars (at_field rows row []) (write_record f fs t)
      ≡ read_chars (at_field (rows ++ (row ++ f ∷ fs) ∷ []) [] []) t
read_record rows row f [] t = read_field rows row f [] line_feed t refl
read_record rows row f (g ∷ gs) t =
    read_field rows row f [] b',' (write_record g gs t) refl
    ∙ read_record rows (row ++ f ∷ []) g gs t
    ∙ ap (λ l. read_chars (at_field (rows ++ l ∷ []) [] []) t) (append_assoc row (f ∷ []) (g ∷ gs))

read_csv :
    (rows : List (List Text)) (rs : List Record)
    → read_chars (at_field rows [] []) (write_csv rs) ≡ at_field (rows ++ map fields rs) [] []
read_csv rows [] = ap (λ l. at_field l [] []) (sym (append-nil rows))
read_csv rows ((f, fs) ∷ rs) =
    read_record rows [] f fs (write_csv rs)
    ∙ read_csv (rows ++ (f ∷ fs) ∷ []) rs
    ∙ ap (λ l. at_field l [] []) (append_assoc rows ((f ∷ fs) ∷ []) (map fields rs))

-- Records whose fields are written between quotes, with their own quotes doubled, separated by
-- commas, and each record ended by a line feed, are read back as they were, whatever characters
-- the fields have: quotes, commas and line ends, too.
pub csv_records-write_csv : (rs : List Record) → csv_records (write_csv rs) ≡ ok (map fields rs)
unfolding csv_records
csv_records-write_csv rs = ap end_records (read_csv [] rs)
