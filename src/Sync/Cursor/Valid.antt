-- ===== src/Sync/Cursor/Valid.antt =====
-- What a decoded cursor may hold.
use noorix_fin.Common.{
  ℕ, zero, suc, ◌≡◌, refl, subst, ap, Bool, true, ◌&&◌, Option, some, none, List, [], ◌∷◌, ◌==◌,
  all, length, All, arith, if-elim,
}
use noorix_fin.Common.Text.{Text}
use noorix_fin.Common.Outcome.{Outcome, ok, err}
use noorix_fin.Sync.{SourceName, key_count, sources}
use noorix_fin.Sync.Cursor.{
  is_uuid, is_iso_timestamp, Position, RawPosition, RawCursor, zero_key, CursorError, DecodedCursor,
  is_valid_time, checked_key, add_position, checked, check_sources, check_version, check_cursor,
  legacy, decode_since, decode_cursor,
}

-- A timestamp and as many UUIDs as the source has keys.
abbrev IsSafePosition : SourceName × Position → Type 0
IsSafePosition x =
    (is_iso_timestamp x.1.updated_at ≡ true)
    × (length x.1.key ≡ key_count x.0)
    × (all is_uuid x.1.key ≡ true)

abbrev IsSafe : Outcome CursorError DecodedCursor → Type 0
IsSafe (err e) = Unit
IsSafe (ok c) = All IsSafePosition c

module _ (parse : Text → Option RawCursor) (is_date : Text → Bool) where
  checked_key-IsSafe :
      (s : SourceName) (t : Text) (key : List Text) (rest : DecodedCursor)
      → All IsSafePosition rest
      → IsSafe (add_position parse is_date s (checked_key parse is_date s t (some key)) (ok rest))
  checked_key-IsSafe s t key rest h =
      if-elim (λ o. IsSafe (add_position parse is_date s o (ok rest)))
        (is_valid_time parse is_date t && (length key == key_count s && all is_uuid key))
        (λ valid. ((ground arith, ground arith, ground arith), h)) (λ invalid. tt)

  add_position-err :
      (s : SourceName) (o : Outcome CursorError Position) (e : CursorError)
      → IsSafe (add_position parse is_date s o (err e))
  add_position-err s (err d) e = tt
  add_position-err s (ok p) e = tt

  checked-IsSafe :
      (s : SourceName) (o : Option RawPosition) (rest : Outcome CursorError DecodedCursor)
      → IsSafe rest
      → IsSafe (checked parse is_date s o rest)
  checked-IsSafe s none rest h = h
  checked-IsSafe s (some p) (err e) h =
      add_position-err s (checked_key parse is_date s p.updated_at p.key) e
  checked-IsSafe s (some p) (ok rest) h = keyed p.key
    where
      keyed :
          (k : Option (List Text))
          → IsSafe
              (add_position parse is_date s (checked_key parse is_date s p.updated_at k) (ok rest))
      keyed none = tt
      keyed (some key) = checked_key-IsSafe s p.updated_at key rest h

  check_sources-IsSafe :
      (positions : SourceName → Option RawPosition) (ss : List SourceName)
      → IsSafe (check_sources parse is_date positions ss)
  check_sources-IsSafe positions [] = tt
  check_sources-IsSafe positions (s ∷ ss) =
      checked-IsSafe s (positions s) (check_sources parse is_date positions ss)
        (check_sources-IsSafe positions ss)

  check_cursor-IsSafe : (c : Option RawCursor) → IsSafe (check_cursor parse is_date c)
  check_cursor-IsSafe none = tt
  check_cursor-IsSafe (some c) = versioned c.version c.sources
    where
      versioned :
          (v : Option ℕ) (o : Option (SourceName → Option RawPosition))
          → IsSafe (check_version parse is_date v o)
      versioned none o = tt
      versioned (some v) none = tt
      versioned (some v) (some positions) =
          if-elim IsSafe (v == 1) (λ h. check_sources-IsSafe positions sources) (λ h. tt)

  zero_key-length : (n : ℕ) → (length (zero_key n) ≡ n) × (all is_uuid (zero_key n) ≡ true)
  unfolding is_uuid
  zero_key-length zero = (refl, refl)
  zero_key-length (suc n) = (ap suc (zero_key-length n).0, (zero_key-length n).1)

  legacy-IsSafe :
      (t : Text) (ss : List SourceName)
      → is_iso_timestamp t ≡ true
      → All IsSafePosition (legacy parse is_date t ss)
  legacy-IsSafe t [] h = tt
  legacy-IsSafe t (s ∷ ss) h = (
    (h, (zero_key-length (key_count s)).0, (zero_key-length (key_count s)).1),
    legacy-IsSafe t ss h,
  )

  decode_since-IsSafe : (since : Option Text) → IsSafe (decode_since parse is_date since)
  decode_since-IsSafe none = tt
  decode_since-IsSafe (some []) = tt
  decode_since-IsSafe (some (c ∷ s)) =
      if-elim IsSafe (is_valid_time parse is_date (c ∷ s))
        (λ valid. legacy-IsSafe (c ∷ s) sources (ground arith))
        (λ invalid. check_cursor-IsSafe (parse (c ∷ s)))

  decode_cursor-IsSafe : (raw since : Option Text) → IsSafe (decode_cursor parse is_date raw since)
  unfolding decode_cursor
  decode_cursor-IsSafe none since = decode_since-IsSafe since
  decode_cursor-IsSafe (some []) since = tt
  decode_cursor-IsSafe (some (c ∷ s)) since = check_cursor-IsSafe (parse (c ∷ s))

  -- Whatever a caller sends as a cursor, each position that is accepted is a timestamp of the
  -- pattern and as many UUIDs as its source has keys.
  pub decode_cursor_lem :
      (raw since : Option Text) (c : DecodedCursor)
      → decode_cursor parse is_date raw since ≡ ok c
      → All
          (λ (x : SourceName × Position).
            (is_iso_timestamp x.1.updated_at ≡ true)
            × (length x.1.key ≡ key_count x.0)
            × (all is_uuid x.1.key ≡ true))
          c
  decode_cursor_lem raw since c h = subst IsSafe h (decode_cursor-IsSafe raw since)
