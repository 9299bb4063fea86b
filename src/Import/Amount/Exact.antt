-- ===== src/Import/Amount/Exact.antt =====
-- The minor units that a statement's amount becomes.
use noorix_fin.Common.{
  ℕ, zero, suc, all, ◌<◌, ◌≤◌, ltb, Bool-cases, ltb→lt, ◌+◌, ◌*◌, ◌^◌, ◌≡◌, refl, sym, ap, ◌∙◌,
  subst, ◌⊎◌, inl, inr, Bool, true, false, not, ◌&&◌, ◌||◌, Option, none, some, [], ◌∷◌, ◌++◌,
  arith, ◌==◌, if◌then◌else◌, filter, any, take, drop, length-take, false≢true, ==_iff, append-nil,
}
use noorix_fin.Common.Text.{
  Text, is_digit, are_digits, value, pad_end, digit_run, after_digits, digit_run-append,
  are_digits-digit_run,
}
use noorix_fin.Common.Outcome.{Outcome, ok, err, ok-injective}
use noorix_fin.Money.Number.{max_safe}
use noorix_fin.Money.Currency.{currencies}
use noorix_fin.Money.Parse.Major.{scaled, minor-eq-scaled}
use noorix_fin.Import.Amount.{
  StatementError, invalid_amount, too_precise, beyond_safe_range, without_sign, is_negative,
  fraction_after, has_chars, is_nonzero_digit, or_zero, point_and, amount_text, checked_amount,
  statement_amount, until_point, behind_point, safe_minor, to_minor, exponent_of, in_exponent,
  decimal_to_minor,
}

-- An unsigned amount is its digits before the point and those behind it.
abbrev pub IsWritten : Text → Text → Text → Type 0
IsWritten body whole fraction =
    ((body ≡ whole) × (fraction ≡ [])) ⊎ (body ≡ whole ++ b'.' ∷ fraction)

abbrev IsFraction : Text → Text → Type 0
IsFraction rest fraction =
    (are_digits fraction ≡ true) × (((rest ≡ []) × (fraction ≡ [])) ⊎ (rest ≡ b'.' ∷ fraction))

picked : (b : Bool) (x f : Text) → (if b then some x else none) ≡ some f → (b ≡ true) × (x ≡ f)
picked true x f h = (refl, cc)
picked false x f h = absurd (cc)

both : (b c : Bool) → (b && c) ≡ true → (b ≡ true) × (c ≡ true)
both true c h = (refl, h)
both false c h = absurd (false≢true h)

fraction_after-IsFraction :
    (has_whole : Bool) (rest fraction : Text)
    → fraction_after has_whole rest ≡ some fraction
    → IsFraction rest fraction
fraction_after-IsFraction has_whole [] f h =
    subst (IsFraction []) (picked has_whole [] f h).1 (refl, inl (refl, refl))
fraction_after-IsFraction has_whole (c ∷ []) f h =
    let (test, same) = picked (c == b'.' && has_whole) [] f h in
    subst (IsFraction (c ∷ [])) same
      (refl, inr (ap (λ x. x ∷ []) ((==_iff c b'.').0 (both (c == b'.') has_whole test).0)))
fraction_after-IsFraction has_whole (c ∷ d ∷ s) f h =
    let (test, same) = picked (c == b'.' && are_digits (d ∷ s)) (d ∷ s) f h in
    let (point, digits) = both (c == b'.') (are_digits (d ∷ s)) test in
    subst (IsFraction (c ∷ d ∷ s)) same
      (digits, inr (ap (λ x. x ∷ d ∷ s) ((==_iff c b'.').0 point)))

-- What was read is put together and taken apart again.
is_negative-digits :
    (w f : Text) → are_digits w ≡ true → is_negative (or_zero w ++ point_and f) ≡ false
is_negative-digits [] f h = refl
is_negative-digits (c ∷ w) f h = ground arith

is_negative-amount_text :
    (negative : Bool) (w f : Text)
    → are_digits w ≡ true
    → is_negative (amount_text negative w f) ≡ negative
is_negative-amount_text true w f h = refl
is_negative-amount_text false w f h = is_negative-digits w f h

without_sign-digits :
    (w f : Text)
    → are_digits w ≡ true
    → without_sign (or_zero w ++ point_and f) ≡ or_zero w ++ point_and f
without_sign-digits [] f h = refl
without_sign-digits (c ∷ w) f h = ground arith

without_sign-amount_text :
    (negative : Bool) (w f : Text)
    → are_digits w ≡ true
    → without_sign (amount_text negative w f) ≡ or_zero w ++ point_and f
without_sign-amount_text true w f h = refl
without_sign-amount_text false w f h = without_sign-digits w f h

until_point-digits : (w f : Text) → are_digits w ≡ true → until_point (w ++ point_and f) ≡ w
until_point-digits [] [] h = refl
until_point-digits [] (d ∷ f) h = refl
until_point-digits (c ∷ w) f h =
    let (digit, digits) = both (is_digit c) (are_digits w) h in
    let plain : (c == b'.') ≡ false = ground arith in
    rw plain (ap (λ l. c ∷ l) (until_point-digits w f digits))

until_point_self : (f : Text) → are_digits f ≡ true → until_point f ≡ f
until_point_self [] h = refl
until_point_self (c ∷ f) h =
    let (digit, digits) = both (is_digit c) (are_digits f) h in
    let plain : (c == b'.') ≡ false = ground arith in
    rw plain (ap (λ l. c ∷ l) (until_point_self f digits))

behind_point-digits :
    (w f : Text) → are_digits w ≡ true → are_digits f ≡ true → behind_point (w ++ point_and f) ≡ f
behind_point-digits [] [] h k = refl
behind_point-digits [] (d ∷ f) h k = until_point_self (d ∷ f) k
behind_point-digits (c ∷ w) f h k =
    let (digit, digits) = both (is_digit c) (are_digits w) h in
    let plain : (c == b'.') ≡ false = ground arith in rw plain (behind_point-digits w f digits k)

are_digits-or_zero : (w : Text) → are_digits w ≡ true → are_digits (or_zero w) ≡ true
are_digits-or_zero [] h = refl
are_digits-or_zero (c ∷ w) h = h

value-or_zero : (w : Text) → value (or_zero w) ≡ value w
value-or_zero [] = refl
value-or_zero (c ∷ w) = refl

abbrev minor_of : ℕ → Text → Text → Outcome StatementError ℕ
minor_of exponent whole fraction =
    if any is_nonzero_digit (drop exponent fraction)
    then err too_precise
    else safe_minor (scaled exponent whole (take exponent fraction))

to_minor-scaled : (e : ℕ) (w f : Text) → to_minor e (or_zero w) f ≡ minor_of e w f
to_minor-scaled e w f =
    ap (λ n. if any is_nonzero_digit (drop e f) then err too_precise else safe_minor n)
      (ap (λ v. v * 10 ^ e + value (pad_end e (take e f))) (value-or_zero w)
        ∙ minor-eq-scaled e w (take e f) (omega (arith, length-take e f)))

decimal_to_minor-amount_text :
    (negative : Bool) (w f code : Text) (e : ℕ)
    → are_digits w ≡ true
    → are_digits f ≡ true
    → exponent_of code currencies ≡ some e
    → decimal_to_minor (amount_text negative w f) code ≡ minor_of e w f
unfolding decimal_to_minor
decimal_to_minor-amount_text negative w f code e hw hf known =
    ap (in_exponent (amount_text negative w f)) known
    ∙ ap (λ b. to_minor e (until_point b) (behind_point b))
        (without_sign-amount_text negative w f hw)
    ∙ ap (λ u. to_minor e u (behind_point (or_zero w ++ point_and f)))
        (until_point-digits (or_zero w) f (are_digits-or_zero w hw))
    ∙ ap (to_minor e (or_zero w)) (behind_point-digits (or_zero w) f (are_digits-or_zero w hw) hf)
    ∙ to_minor-scaled e w f

-- the amount without its commas and spaces
abbrev pub cleaned : (ℕ → Bool) → Text → Text
cleaned is_space s = filter (λ c. not (c == b',' || is_space c)) s

abbrev pub are_zeros : Text → Bool
are_zeros t = all (λ c. c == b'0') t

are_digits-drop : (n : ℕ) (t : Text) → are_digits t ≡ true → are_digits (drop n t) ≡ true
are_digits-drop zero t h = h
are_digits-drop (suc n) [] h = h
are_digits-drop (suc n) (c ∷ t) h = are_digits-drop n t (both (is_digit c) (are_digits t) h).1

are_zeros-not : (t : Text) → are_digits t ≡ true → are_zeros t ≡ not (any is_nonzero_digit t)
are_zeros-not [] h = refl
are_zeros-not (c ∷ t) h =
    let (digit, digits) = both (is_digit c) (are_digits t) h in
    ground (arith, digit, are_zeros-not t digits)

-- Too many decimals, too large, or exactly the digits as they were written.
abbrev pub IsMinor : ℕ → Text → Text → Outcome StatementError ℕ → Type 0
IsMinor e w f r =
    ((are_zeros (drop e f) ≡ false) × (r ≡ err too_precise))
    ⊎ ((are_zeros (drop e f) ≡ true)
        × (((max_safe < scaled e w (take e f)) × (r ≡ err beyond_safe_range))
            ⊎ ((scaled e w (take e f) ≤ max_safe) × (r ≡ ok (scaled e w (take e f))))))

safe_minor-cases :
    (n : ℕ)
    → ((max_safe < n) × (safe_minor n ≡ err beyond_safe_range))
      ⊎ ((n ≤ max_safe) × (safe_minor n ≡ ok n))
safe_minor-cases n = elim (Bool-cases (ltb max_safe n)) [
  | inl beyond ↦ inl (ltb→lt max_safe n beyond, rw beyond refl)
  | inr within ↦ inr (ground arith, rw within refl)
]

minor_of-IsMinor : (e : ℕ) (w f : Text) → are_digits f ≡ true → IsMinor e w f (minor_of e w f)
minor_of-IsMinor e w f digits =
    let zeros = are_zeros-not (drop e f) (are_digits-drop e f digits) in
    elim (Bool-cases (any is_nonzero_digit (drop e f))) [
      | inl more ↦ inl (zeros ∙ ap not more, rw more refl)
      | inr none_left ↦
          inr (zeros ∙ ap not none_left, rw none_left (safe_minor-cases (scaled e w (take e f))))
    ]

-- The digits of an amount that was accepted, and what it becomes.
abbrev pub IsExact : Text → Text → Text → ℕ → Type 0
IsExact text a code e =
    (w : Text) × (f : Text) × (are_digits w ≡ true)
    × (are_digits f ≡ true)
    × IsWritten (without_sign text) w f
    × (is_negative a ≡ is_negative text)
    × IsMinor e w f (decimal_to_minor a code)

IsWritten-rest :
    (body rest w f : Text)
    → w ++ rest ≡ body
    → ((rest ≡ []) × (f ≡ [])) ⊎ (rest ≡ b'.' ∷ f)
    → IsWritten body w f
IsWritten-rest body rest w f whole (inl (none_left, no_fraction)) =
    inl (sym whole ∙ ap (λ r. w ++ r) none_left ∙ append-nil w, no_fraction)
IsWritten-rest body rest w f whole (inr point) = inr (sym whole ∙ ap (λ r. w ++ r) point)

checked-IsExact :
    (text a code : Text) (e : ℕ) (o : Option Text)
    → fraction_after (has_chars (digit_run (without_sign text))) (after_digits (without_sign text))
      ≡ o
    → checked_amount (is_negative text) (digit_run (without_sign text)) o ≡ ok a
    → exponent_of code currencies ≡ some e
    → IsExact text a code e
checked-IsExact text a code e none found accepted known = absurd (cc)
checked-IsExact text a code e (some f) found accepted known =
    let body = without_sign text in
    let w = digit_run body in
    let (digits, rest) = fraction_after-IsFraction (has_chars w) (after_digits body) f found in
    let whole = are_digits-digit_run body in
    let same : amount_text (is_negative text) w f ≡ a = built accepted in
    (
      w,
      f,
      whole,
      digits,
      IsWritten-rest body (after_digits body) w f (digit_run-append body) rest,
      ap is_negative (sym same) ∙ is_negative-amount_text (is_negative text) w f whole,
      subst (IsMinor e w f)
          (sym (
            ap (λ x. decimal_to_minor x code) (sym same)
            ∙ decimal_to_minor-amount_text (is_negative text) w f code e whole digits known))
          (minor_of-IsMinor e w f digits),
    )
  where
    chosen :
        (b : Bool) (x y : Text)
        → ◌≡◌ {A = Outcome StatementError Text} (if b then ok x else err invalid_amount) (ok y)
        → x ≡ y
    chosen true x y h = ok-injective h
    chosen false x y h = absurd (cc)

    built :
        checked_amount (is_negative text) (digit_run (without_sign text)) (some f) ≡ ok a
        → amount_text (is_negative text) (digit_run (without_sign text)) f ≡ a
    built h = chosen (any is_nonzero_digit (digit_run (without_sign text) ++ f)) _ _ h

-- A statement's amount that is accepted, in a known currency: without its commas, its spaces and its
-- sign it is a run of digits with or without a point and digits behind it, the result keeps its
-- sign, and decimalToMinor refuses it if a digit beyond the currency's decimals is not zero or the
-- amount is beyond the safe integers, and otherwise returns exactly the written decimal in minor units.
pub statement_amount-IsExact :
    (is_space : ℕ → Bool) (s a code : Text) (e : ℕ)
    → statement_amount is_space s ≡ ok a
    → exponent_of code currencies ≡ some e
    → IsExact (cleaned is_space s) a code e
unfolding statement_amount
statement_amount-IsExact is_space s a code e accepted known =
    checked-IsExact (cleaned is_space s) a code e _ refl accepted known
