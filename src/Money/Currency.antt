-- ===== src/Money/Currency.antt =====
-- The currency registry of packages/money/src/index.ts: CURRENCIES and getCurrency. Names and
-- symbols are for display only and are left out. A code is one of the registry's own keys or no
-- key at all: the names that every JavaScript object inherits are outside the model.
use noorix_fin.Common.{ℕ, String, List, [], ◌∷◌, str_eq, if◌then◌else◌}
use noorix_fin.Common.Outcome.{Outcome, ok, err}

pub record CurrencyInfo : Type 0 where
  pub code : String
  pub exponent : ℕ

abbrev pub currencies : List CurrencyInfo
currencies =
    record { code = "BDT"; exponent = 2 }
    ∷ record { code = "SAR"; exponent = 2 }
    ∷ record { code = "USD"; exponent = 2 }
    ∷ record { code = "EUR"; exponent = 2 }
    ∷ record { code = "GBP"; exponent = 2 }
    ∷ record { code = "INR"; exponent = 2 }
    ∷ record { code = "JPY"; exponent = 0 }
    ∷ record { code = "KWD"; exponent = 3 }
    ∷ record { code = "AED"; exponent = 2 }
    ∷ record { code = "MYR"; exponent = 2 }
    ∷ []

pub data CurrencyError : Type 0 where
  unknown_currency : String → CurrencyError

find_currency : String → List CurrencyInfo → Outcome CurrencyError CurrencyInfo
find_currency code [] = err (unknown_currency code)
find_currency code (c ∷ cs) = if str_eq c.code code then ok c else find_currency code cs

unfoldable pub get_currency : String → Outcome CurrencyError CurrencyInfo
unfolding find_currency
get_currency code = find_currency code currencies
