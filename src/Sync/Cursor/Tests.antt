-- ===== src/Sync/Cursor/Tests.antt =====
-- A cursor with one position, on which the theorem about decodeCursor is applied.
use noorix_fin.Common.{◌≡◌, refl, Bool, true, Option, some, none, [], ◌∷◌, length, all, All}
use noorix_fin.Common.Text.{Text, codes}
use noorix_fin.Common.Outcome.{ok}
use noorix_fin.Sync.{SourceName, table, tags, key_count}
use noorix_fin.Sync.Cursor.{
  is_uuid, is_iso_timestamp, Position, RawPosition, RawCursor, DecodedCursor, decode_cursor,
}
use noorix_fin.Sync.Cursor.Valid.{decode_cursor_lem}

abbrev first_uuid : Text
first_uuid = codes "0b5fA3c4-1111-4222-8333-9abcdef01234"

abbrev noon : Text
noon = codes "2026-08-04T12:00:00.125Z"

abbrev tag_positions : SourceName → Option RawPosition
tag_positions (table tags) = some (record { updated_at = noon; key = some (first_uuid ∷ []) })
tag_positions s = none

abbrev parse_any : Text → Option RawCursor
parse_any t = some (record { version = some 1; sources = some tag_positions })

abbrev is_date : Text → Bool
is_date t = true

abbrev tag_cursor : DecodedCursor
tag_cursor = (table tags, record { updated_at = noon; key = first_uuid ∷ [] }) ∷ []

decoded : decode_cursor parse_any is_date (some (codes "e30")) none ≡ ok tag_cursor
unfolding decode_cursor is_iso_timestamp is_uuid
decoded = refl

decode_cursor_lem_example :
    All
      (λ (x : SourceName × Position).
        (is_iso_timestamp x.1.updated_at ≡ true)
        × (length x.1.key ≡ key_count x.0)
        × (all is_uuid x.1.key ≡ true))
      tag_cursor
decode_cursor_lem_example =
    decode_cursor_lem parse_any is_date (some (codes "e30")) none tag_cursor decoded
