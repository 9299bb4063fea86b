-- ===== src/Common/Text.antt =====
-- Texts that a program walks: lists of UTF-16 code units.
use Prim.Native.Char.{code}
use noorix_fin.Common.{
  ℕ, zero, suc, ◌+◌, ◌-◌, ◌*◌, ◌≡◌, refl, Bool, true, false, ◌&&◌, ◌||◌, List, [], ◌∷◌, ◌++◌, arith,
  leb, ◌==◌, if◌then◌else◌, all, String,
}

abbrev pub Text : Type 0
Text = List ℕ

-- The code units of a text in the basic plane.
abbrev pub codes : String → Text
codes String.[] = []
codes (String.◌∷◌ c s) = code c ∷ codes s

-- `\d`
abbrev pub is_digit : ℕ → Bool
is_digit c = leb b'0' c && leb c b'9'

abbrev pub are_digits : Text → Bool
are_digits s = all is_digit s

-- The number that a run of digits denotes, after the digits read so far.
abbrev pub value_from : ℕ → Text → ℕ
value_from acc [] = acc
value_from acc (c ∷ s) = value_from (acc * 10 + (c - b'0')) s

abbrev pub value : Text → ℕ
value s = value_from 0 s

-- `padEnd(n, '0')`
abbrev pub pad_end : ℕ → Text → Text
pad_end zero s = s
pad_end (suc n) [] = b'0' ∷ pad_end n []
pad_end (suc n) (c ∷ s) = c ∷ pad_end n s

-- `\d+` at the front of a text: the longest run of digits and what follows it.
abbrev pub digit_run : Text → Text
digit_run [] = []
digit_run (c ∷ s) = let rest = digit_run s in if is_digit c then c ∷ rest else []

abbrev pub after_digits : Text → Text
after_digits [] = []
after_digits (c ∷ s) = let rest = after_digits s in if is_digit c then rest else c ∷ s

pub digit_run-append : (s : Text) → digit_run s ++ after_digits s ≡ s
digit_run-append [] = refl
digit_run-append (c ∷ s) = ground (arith, digit_run-append s)

pub are_digits-digit_run : (s : Text) → are_digits (digit_run s) ≡ true
are_digits-digit_run [] = refl
are_digits-digit_run (c ∷ s) = ground (arith, are_digits-digit_run s)

pub digit_run_self : (s : Text) → are_digits s ≡ true → digit_run s ≡ s
digit_run_self [] h = refl
digit_run_self (c ∷ s) h = ground (arith, digit_run_self s)

pub after_digits_self : (s : Text) → are_digits s ≡ true → after_digits s ≡ []
after_digits_self [] h = refl
after_digits_self (c ∷ s) h = ground (arith, after_digits_self s)

-- `===` on texts
abbrev pub text_eq : Text → Text → Bool
text_eq [] [] = true
text_eq [] (d ∷ t) = false
text_eq (c ∷ s) [] = false
text_eq (c ∷ s) (d ∷ t) = c == d && text_eq s t

pub text_eq_refl : (s : Text) → text_eq s s ≡ true
text_eq_refl [] = refl
text_eq_refl (c ∷ s) = ground (arith, text_eq_refl s)

pub text_eq_sound : (s t : Text) → text_eq s t ≡ true → s ≡ t
text_eq_sound [] [] h = refl
text_eq_sound [] (d ∷ t) h = absurd (cc)
text_eq_sound (c ∷ s) [] h = absurd (cc)
text_eq_sound (c ∷ s) (d ∷ t) h = ground (arith, text_eq_sound s t)

abbrev pub contains : List Text → Text → Bool
contains [] t = false
contains (s ∷ ss) t = text_eq s t || contains ss t

-- `[...new Set(texts)]`: each text once, at its first place; `seen` stands before.
abbrev pub distinct_after : List Text → List Text → List Text
distinct_after seen [] = []
distinct_after seen (s ∷ ss) =
    let again = distinct_after seen ss in
    let first = distinct_after (s ∷ seen) ss in if contains seen s then again else s ∷ first

abbrev pub distinct : List Text → List Text
distinct ss = distinct_after [] ss
