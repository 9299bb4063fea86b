-- ===== src/Pagination.antt =====
-- packages/domain/src/pagination.ts: the page envelope of the list endpoints.
pub mod Pages
mod Tests
use noorix_fin.Common.{
  ℕ, zero, suc, ◌≡◌, Bool, true, false, not, ◌&&◌, Option, some, none, List, [], ◌∷◌, ltb, ◌==◌,
  if◌then◌else◌, length, take, last,
}
use mathlib.Core.Option
use Prim.Native.Nat.{min}
use noorix_fin.Common.Int.{ℤ, pos, negsuc}
use noorix_fin.Common.Text.{Text}

pub record Page (A : Type 0) : Type 0 where
  pub items : List A
  pub next_cursor : Option Text
  pub has_more : Bool

abbrev pub page_limit_default : ℕ
page_limit_default = 50

abbrev pub page_limit_max : ℕ
page_limit_max = 200

-- A JavaScript number, of which only its floor matters: NaN and the infinities are not finite.
pub data JsNumber : Type 0 where
  finite : ℤ → JsNumber
  not_finite : JsNumber

-- `limit: unknown`
pub data Limit : Type 0 where
  text : Text → Limit
  number : JsNumber → Limit
  anything_else : Limit

abbrev pub clamp_number : JsNumber → ℕ
clamp_number not_finite = page_limit_default
clamp_number (finite (negsuc n)) = page_limit_default
clamp_number (finite (pos zero)) = page_limit_default
clamp_number (finite (pos (suc n))) = min (suc n) page_limit_max

-- `to_number` is `Number` on a string.
unfoldable pub clamp_limit : (Text → JsNumber) → Limit → ℕ
clamp_limit to_number (text t) = clamp_number (to_number t)
clamp_limit to_number (number n) = clamp_number n
clamp_limit to_number anything_else = page_limit_default

module _ {A : Type 0} (cursor_of : A → Text) where
  unfoldable pub to_page : List A → ℕ → Page A
  to_page rows limit =
      let more = ltb limit (length rows) in
      let items = if more then take limit rows else rows in
      record {
        items = items;
        next_cursor =
            if more && ltb 0 (length items) then Option.map cursor_of (last items) else none;
        has_more = more;
      }
