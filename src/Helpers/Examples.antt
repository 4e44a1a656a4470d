-- ===== src/Helpers/Examples.antt =====
-- Two components that ask before the reply and one after it; a form that is sent too often.
use whiparc.Prelude.{◌≤◌, ◌≡◌, refl, true, false, none, some, List, [], ◌∷◌, All}
use whiparc.Canvas.Json.{bool, field, end, lookup, truthy?}
use whiparc.Helpers.Plan.{Event, asked, replied, finished, answered, run, unasked, asked_once}
use whiparc.Helpers.Capture.{Fetched, responded}

abbrev page_load : List Event
page_load =
    asked
    ∷ asked
    ∷ replied (answered true (field "plan_enforcement" (bool true) end))
    ∷ asked
    ∷ finished
    ∷ asked
    ∷ []

page_load_test :
    ((run page_load unasked).requests ≡ 1)
    × ((run page_load unasked).answers ≡ true ∷ true ∷ true ∷ true ∷ [])
unfolding run truthy? lookup
page_load_test = (refl, refl)

asked_once_example :
    ((run page_load unasked).requests ≤ 1)
    × All (λ a. (run page_load unasked).cached ≡ some a) (run page_load unasked).answers
asked_once_example = asked_once page_load

abbrev too_many : Fetched
too_many = responded false 429 none
