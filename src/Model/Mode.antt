-- ===== src/Model/Mode.antt =====
-- src/model/Flight_Mode.cpp and the mode's database mapping in src/model/Flight.cpp.
use startkladde.Prelude.{
  Bool, String, ◌≡◌, refl, ◌||◌, ◌==◌, ℕ, List, [], ◌∷◌, if◌then◌else◌, str_eq,
}

pub data Mode : Type 0 where
  mode_local mode_coming mode_leaving : Mode

-- The enum's value, by which C++ compares.
abbrev pub mode_index : Mode → ℕ
mode_index mode_local = 0
mode_index mode_coming = 1
mode_index mode_leaving = 2

abbrev pub mode_eq : Mode → Mode → Bool
mode_eq a b = mode_index a == mode_index b

abbrev pub lands_here : Mode → Bool
lands_here mode = mode_eq mode mode_local || mode_eq mode mode_coming

abbrev pub departs_here : Mode → Bool
departs_here mode = mode_eq mode mode_local || mode_eq mode mode_leaving

pub list_modes : List Mode
list_modes = mode_local ∷ mode_coming ∷ mode_leaving ∷ []

pub list_tow_modes : List Mode
list_tow_modes = mode_local ∷ mode_leaving ∷ []

unfoldable pub mode_to_db : Mode → String
mode_to_db mode_local = "local"
mode_to_db mode_coming = "coming"
mode_to_db mode_leaving = "leaving"

pub mode_from_db : String → Mode
mode_from_db mode =
    if str_eq mode "local"
    then mode_local
    else if str_eq mode "coming"
    then mode_coming
    else if str_eq mode "leaving"
    then mode_leaving
    else mode_local

-- Every mode is read back from the text that is stored for it.
pub mode_from_db-mode_to_db : (mode : Mode) → mode_from_db (mode_to_db mode) ≡ mode
unfolding mode_from_db mode_to_db
mode_from_db-mode_to_db mode_local = refl
mode_from_db-mode_to_db mode_coming = refl
mode_from_db-mode_to_db mode_leaving = refl
