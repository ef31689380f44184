-- ===== src/Glossary.antt =====
-- utils/glossary.js, the explanations of the metrics, and components/ui/InfoButton.jsx, which shows
-- one of them in a modal. Styling is left out.
pub mod Shape
mod Frontier
mod Account
mod Surface
mod Forecast
pub mod Placements
pub mod Buttons
use algorithmic_trading_simu.Prelude.{
  Bool, true, false, not, Option, none, some, String, str_eq, List, [], ◌∷◌, ◌++◌, if◌then◌else◌,
}
use Shape.{Entry}
use Frontier.{frontier_entries}
use Account.{account_entries}
use Surface.{surface_entries}
use Forecast.{forecast_entries}

abbrev pub glossary : List (String × Entry)
glossary = frontier_entries ++ account_entries ++ surface_entries ++ forecast_entries

-- `GLOSSARY[key]`.
unfoldable pub entry_of : String → List (String × Entry) → Option Entry
entry_of k [] = none
entry_of k ((j, e) ∷ es) = if str_eq j k then some e else entry_of k es

-- The parts of the modal's body.
pub data Section : Type 0 where
  what formula interpretation : String → Section
  points : List String → Section

-- The body of the modal: a part for each field that is truthy, and for points if there are any.
unfoldable pub text_section : (String → Section) → Option String → List Section
text_section part none = []
text_section part (some s) = if str_eq s "" then [] else part s ∷ []

unfoldable pub points_section : List String → List Section
points_section [] = []
points_section (p ∷ ps) = points (p ∷ ps) ∷ []

unfoldable pub sections : Entry → List Section
unfolding text_section points_section
sections e =
    text_section what (some e.what)
    ++ text_section formula e.formula
    ++ points_section e.points
    ++ text_section interpretation e.interpretation

-- What the component renders: nothing without an entry, otherwise the button, which is labelled with
-- the entry's title, and the modal with its title and body, which is open or not.
pub record Panel : Type 0 where
  pub is_open : Bool
  pub title : String
  pub subtitle : Option String
  pub body : List Section

unfoldable pub info_button : Option Entry → Bool → Option Panel
unfolding sections
info_button none is_open = none
info_button (some e) is_open =
    some record { is_open = is_open; title = e.title; subtitle = e.subtitle; body = sections e }
