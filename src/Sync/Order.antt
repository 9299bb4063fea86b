-- ===== src/Sync/Order.antt =====
-- What the filter of a cursor position selects: the rows after it in the order of the query.
use noorix_fin.Common.{
  ℕ, zero, suc, ◌≡◌, refl, Bool, true, false, ◌&&◌, ◌||◌, List, [], ◌∷◌, ◌++◌, ◌==◌, ltb, arith,
  all,
}
use noorix_fin.Sync.{
  Row, CursorPosition, key_at, key_gt, key_eq, equal_prefix, disjuncts, after_filter, meets,
  satisfies, position_of,
}

-- The `n` keys from the index `i` on are greater, in the order of the dictionary.
abbrev pub keys_after : List ℕ → List ℕ → ℕ → ℕ → Bool
keys_after ks ps i zero = false
keys_after ks ps i (suc n) =
    ltb (key_at ps i) (key_at ks i) || (key_at ks i == key_at ps i && keys_after ks ps (suc i) n)

abbrev pub is_after : ℕ → CursorPosition → Row → Bool
is_after n p r =
    ltb p.updated_at r.updated_at || (r.updated_at == p.updated_at && keys_after r.key p.key 0 n)

all-append :
    {A : Type 0} (f : A → Bool) (xs ys : List A) → all f (xs ++ ys) ≡ (all f xs && all f ys)
all-append f [] ys = refl
all-append f (x ∷ xs) ys = ground (arith, all-append f xs ys)

disjuncts_lem :
    (p : CursorPosition) (r : Row) (i n : ℕ)
    → satisfies (disjuncts p i n) r ≡ (
        (r.updated_at == p.updated_at)
        && (all (meets r) (equal_prefix p i) && keys_after r.key p.key i n))
disjuncts_lem p r i zero = ground arith
disjuncts_lem p r i (suc n) = ground (
  arith,
  disjuncts_lem p r (suc i) n,
  all-append (meets r) (equal_prefix p i) (key_gt i (key_at p.key i) ∷ []),
  all-append (meets r) (equal_prefix p i) (key_eq i (key_at p.key i) ∷ []),
)

-- The disjunction that is sent to the database is the order of `updated_at` and then the keys, for
-- any number of keys: exactly the rows after the position pass it.
pub after_filter_lem :
    (p : CursorPosition) (n : ℕ) (r : Row) → satisfies (after_filter p n) r ≡ is_after n p r
unfolding after_filter
after_filter_lem p n r = ground (arith, disjuncts_lem p r 0 n)

keys_after_trans :
    (xs ys zs : List ℕ) (i n : ℕ)
    → keys_after ys xs i n ≡ true
    → keys_after zs ys i n ≡ true
    → keys_after zs xs i n ≡ true
keys_after_trans xs ys zs i zero h k = h
keys_after_trans xs ys zs i (suc n) h k = ground (arith, keys_after_trans xs ys zs (suc i) n)

keys_after-asym :
    (xs ys : List ℕ) (i n : ℕ) → keys_after ys xs i n ≡ true → keys_after xs ys i n ≡ false
keys_after-asym xs ys i zero h = refl
keys_after-asym xs ys i (suc n) h = ground (arith, keys_after-asym xs ys (suc i) n)

keys_after_irrefl : (xs : List ℕ) (i n : ℕ) → keys_after xs xs i n ≡ false
keys_after_irrefl xs i zero = refl
keys_after_irrefl xs i (suc n) = ground (arith, keys_after_irrefl xs (suc i) n)

pub is_after_trans :
    (n : ℕ) (p : CursorPosition) (x y : Row)
    → is_after n p x ≡ true
    → is_after n (position_of x) y ≡ true
    → is_after n p y ≡ true
is_after_trans n p x y h k = ground (arith, keys_after_trans p.key x.key y.key 0 n)

pub is_after-asym :
    (n : ℕ) (x y : Row) → is_after n (position_of x) y ≡ true → is_after n (position_of y) x ≡ false
is_after-asym n x y h = ground (arith, keys_after-asym x.key y.key 0 n)

pub is_after_irrefl : (n : ℕ) (x : Row) → is_after n (position_of x) x ≡ false
is_after_irrefl n x = ground (arith, keys_after_irrefl x.key 0 n)
