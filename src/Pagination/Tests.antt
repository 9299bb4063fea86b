-- ===== src/Pagination/Tests.antt =====
-- Three rows and pages of two.
use noorix_fin.Common.{ℕ, ◌≡◌, refl, true, some, [], ◌∷◌}
use noorix_fin.Common.Text.{Text, codes}
use noorix_fin.Pagination.{JsNumber, not_finite, text, clamp_limit, to_page}

abbrev unreadable : Text → JsNumber
unreadable t = not_finite

default_limit : clamp_limit unreadable (text (codes "many")) ≡ 50
unfolding clamp_limit
default_limit = refl

abbrev as_cursor : ℕ → Text
as_cursor n = n ∷ []

page_of_two :
    to_page as_cursor (7 ∷ 8 ∷ 9 ∷ []) 2
    ≡ record { items = 7 ∷ 8 ∷ []; next_cursor = some (8 ∷ []); has_more = true }
unfolding to_page
page_of_two = refl
