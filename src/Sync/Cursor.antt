-- ===== src/Sync/Cursor.antt =====
-- decodeCursor of apps/api/src/sync/sync.service.ts. Here timestamps and UUIDs are texts, as they
-- are in the cursor and in the filter that is made of it.
pub mod Valid
mod Tests
use noorix_fin.Common.{
  ℕ, zero, suc, ◌+◌, ◌≡◌, Bool, true, false, not, ◌&&◌, ◌||◌, Option, some, none, List, [], ◌∷◌,
  ◌++◌, map, ◌==◌, leb, if◌then◌else◌, all, length,
}
use noorix_fin.Common.Text.{Text, codes, is_digit}
use noorix_fin.Common.Outcome.{Outcome, ok, err}
use noorix_fin.Sync.{SourceName, key_count, sources}

-- `[0-9a-f]` without regard to case
abbrev pub is_hex : ℕ → Bool
is_hex c = is_digit c || (leb b'a' c && leb c b'f' || leb b'A' c && leb c b'F')

-- A template of a pattern: `d` stands for a digit, `x` for a hexadecimal one, and any other
-- character for itself.
abbrev pub fits : ℕ → ℕ → Bool
fits t c = if t == b'd' then is_digit c else if t == b'x' then is_hex c else c == t

-- What follows the template at the front of a text.
abbrev pub after_template : Text → Text → Option Text
after_template [] s = some s
after_template (t ∷ ts) [] = none
after_template (t ∷ ts) (c ∷ s) = let rest = after_template ts s in if fits t c then rest else none

abbrev pub is_end : Option Text → Bool
is_end none = false
is_end (some []) = true
is_end (some (c ∷ s)) = false

abbrev pub uuid_template : Text
uuid_template = codes "xxxxxxxx-xxxx-xxxx-xxxx-xxxxxxxxxxxx"

unfoldable pub is_uuid : Text → Bool
is_uuid s = is_end (after_template uuid_template s)

-- `\d{1,6}Z` at the end: `n` more digits may come
abbrev pub ends_in_z : ℕ → Text → Bool
ends_in_z n [] = false
ends_in_z zero (c ∷ s) = false
ends_in_z (suc n) (c ∷ []) = false
ends_in_z (suc n) (c ∷ d ∷ s) =
    let rest = ends_in_z n (d ∷ s) in
    is_digit c && (is_end (after_template (codes "Z") (d ∷ s)) || rest)

abbrev pub is_zone : Option Text → Bool
is_zone none = false
is_zone (some []) = false
is_zone (some (c ∷ s)) = is_end (after_template (codes "Z") (c ∷ s)) || (c == b'.' && ends_in_z 6 s)

-- `^\d{4}-\d{2}-\d{2}T\d{2}:\d{2}:\d{2}(?:\.\d{1,6})?Z$`
unfoldable pub is_iso_timestamp : Text → Bool
is_iso_timestamp s = is_zone (after_template (codes "dddd-dd-ddTdd:dd:dd") s)

pub record Position : Type 0 where
  pub updated_at : Text
  pub key : List Text

-- A position as it stands in the JSON; the key is none where it is not an array.
pub record RawPosition : Type 0 where
  pub updated_at : Text
  pub key : Option (List Text)

-- The JSON of a cursor; `sources` is none where it is not an object.
pub record RawCursor : Type 0 where
  pub version : Option ℕ
  pub sources : Option (SourceName → Option RawPosition)

abbrev pub zero_uuid : Text
zero_uuid = codes "00000000-0000-0000-0000-000000000000"

abbrev pub zero_key : ℕ → List Text
zero_key zero = []
zero_key (suc n) = zero_uuid ∷ zero_key n

-- the error SYNC_CURSOR_STALLED
pub data CursorError : Type 0 where
  cursor_stalled : CursorError

abbrev pub DecodedCursor : Type 0
DecodedCursor = List (SourceName × Position)

-- `parse` is the base64url decoding and JSON.parse, `is_date` says that Date.parse gives a number.
module _ (parse : Text → Option RawCursor) (is_date : Text → Bool) where
  abbrev pub is_valid_time : Text → Bool
  is_valid_time t = is_iso_timestamp t && is_date t

  abbrev pub checked_key : SourceName → Text → Option (List Text) → Outcome CursorError Position
  checked_key s t none = err cursor_stalled
  checked_key s t (some key) =
      if is_valid_time t && (length key == key_count s && all is_uuid key)
      then ok (record { updated_at = t; key = key })
      else err cursor_stalled

  abbrev pub add_position :
      SourceName
      → Outcome CursorError Position
      → Outcome CursorError DecodedCursor
      → Outcome CursorError DecodedCursor
  add_position s (err e) rest = err e
  add_position s (ok p) (err e) = err e
  add_position s (ok p) (ok rest) = ok ((s, p) ∷ rest)

  abbrev pub checked :
      SourceName
      → Option RawPosition
      → Outcome CursorError DecodedCursor
      → Outcome CursorError DecodedCursor
  checked s none rest = rest
  checked s (some p) rest = add_position s (checked_key s p.updated_at p.key) rest

  -- the loop over the sources
  abbrev pub check_sources :
      (SourceName → Option RawPosition) → List SourceName → Outcome CursorError DecodedCursor
  check_sources positions [] = ok []
  check_sources positions (s ∷ ss) = checked s (positions s) (check_sources positions ss)

  abbrev pub check_version :
      Option ℕ → Option (SourceName → Option RawPosition) → Outcome CursorError DecodedCursor
  check_version none positions = err cursor_stalled
  check_version (some v) none = err cursor_stalled
  check_version (some v) (some positions) =
      if v == 1 then check_sources positions sources else err cursor_stalled

  abbrev pub check_cursor : Option RawCursor → Outcome CursorError DecodedCursor
  check_cursor none = err cursor_stalled
  check_cursor (some c) = check_version c.version c.sources

  abbrev pub legacy : Text → List SourceName → DecodedCursor
  legacy t [] = []
  legacy t (s ∷ ss) = (s, record { updated_at = t; key = zero_key (key_count s) }) ∷ legacy t ss

  abbrev pub decode_since : Option Text → Outcome CursorError DecodedCursor
  decode_since none = ok []
  decode_since (some []) = ok []
  decode_since (some (c ∷ s)) =
      if is_valid_time (c ∷ s) then ok (legacy (c ∷ s) sources) else check_cursor (parse (c ∷ s))

  -- `raw ?? legacySince`: an empty `raw` is a candidate, too, and gives the empty cursor.
  unfoldable pub decode_cursor : Option Text → Option Text → Outcome CursorError DecodedCursor
  decode_cursor none since = decode_since since
  decode_cursor (some []) since = ok []
  decode_cursor (some (c ∷ s)) since = check_cursor (parse (c ∷ s))
