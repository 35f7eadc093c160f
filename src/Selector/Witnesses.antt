-- ===== src/Selector/Witnesses.antt =====
-- Concrete selectors and package lists.
use flux_rs.Base.{◌≡◌, refl, [], ◌∷◌}
use flux_rs.Base.Text.{Text}
use flux_rs.Selector.{ok, AppSelector, Selection, parse_selector}

-- "a 10123\nb 10123\n".
abbrev packages : Text
packages = 97 ∷ 32 ∷ 49 ∷ 48 ∷ 49 ∷ 50 ∷ 51 ∷ 10 ∷ 98 ∷ 32 ∷ 49 ∷ 48 ∷ 49 ∷ 50 ∷ 51 ∷ 10 ∷ []

abbrev work_app : AppSelector
work_app = record { user_id = 10; package_name = 98 ∷ [] }

abbrev selection : Selection
selection = record { user_id = 10; package_name = 98 ∷ []; uid = 1010123 }

-- "10:b".
parsed : parse_selector (49 ∷ 48 ∷ 58 ∷ 98 ∷ []) ≡ ok work_app
unfolding parse_selector
parsed = refl
