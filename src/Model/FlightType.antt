-- ===== src/Model/FlightType.antt =====
-- src/model/Flight_Type.cpp and the flight type's database mapping in src/model/Flight.cpp.
use startkladde.Prelude.{
  Bool, true, false, String, ◌≡◌, refl, ◌⊎◌, ◌==◌, ℕ, List, [], ◌∷◌, ◌++◌, arith, if◌then◌else◌,
  str_eq, str_eq_iff,
}

pub data FlightType : Type 0 where
  type_none type_normal type_training2 type_training1 type_auffrischung : FlightType
  type_guest_private type_guest_external type_tow : FlightType

-- The enum's value, by which C++ compares.
abbrev pub type_index : FlightType → ℕ
type_index type_none = 0
type_index type_normal = 1
type_index type_training2 = 2
type_index type_training1 = 3
type_index type_auffrischung = 4
type_index type_guest_private = 5
type_index type_guest_external = 6
type_index type_tow = 7

abbrev pub type_eq : FlightType → FlightType → Bool
type_eq a b = type_index a == type_index b

-- The first part of `listTypes`, which the call with `false` returns.
proper_types : List FlightType
proper_types =
    type_normal ∷ type_training2 ∷ type_training1 ∷ type_auffrischung ∷ type_guest_private
    ∷ type_guest_external ∷ []

pub list_types : Bool → List FlightType
unfolding proper_types
list_types true = proper_types ++ type_none ∷ []
list_types false = proper_types

abbrev pub type_copilot_recorded : FlightType → Bool
type_copilot_recorded type_none = true
type_copilot_recorded type_normal = true
type_copilot_recorded type_training2 = true
type_copilot_recorded type_training1 = false
type_copilot_recorded type_auffrischung = true
type_copilot_recorded type_tow = true
type_copilot_recorded type_guest_private = false
type_copilot_recorded type_guest_external = false

abbrev pub type_supervisor_recorded : FlightType → Bool
type_supervisor_recorded type = type_eq type type_training1

abbrev pub type_always_has_copilot : FlightType → Bool
type_always_has_copilot type_none = false
type_always_has_copilot type_normal = false
type_always_has_copilot type_training2 = true
type_always_has_copilot type_training1 = false
type_always_has_copilot type_auffrischung = true
type_always_has_copilot type_tow = false
type_always_has_copilot type_guest_private = true
type_always_has_copilot type_guest_external = true

abbrev pub type_is_guest : FlightType → Bool
type_is_guest type_none = false
type_is_guest type_normal = false
type_is_guest type_training2 = false
type_is_guest type_training1 = false
type_is_guest type_auffrischung = false
type_is_guest type_tow = false
type_is_guest type_guest_private = true
type_is_guest type_guest_external = true

abbrev pub type_is_training : FlightType → Bool
type_is_training type_none = false
type_is_training type_normal = false
type_is_training type_training2 = true
type_is_training type_training1 = true
type_is_training type_auffrischung = true
type_is_training type_tow = false
type_is_training type_guest_private = false
type_is_training type_guest_external = false

pub type_to_db : FlightType → String
type_to_db type_none = "?"
type_to_db type_normal = "normal"
type_to_db type_training2 = "training_2"
type_to_db type_training1 = "training_1"
type_to_db type_auffrischung = "refresh_2"
type_to_db type_tow = "tow"
type_to_db type_guest_private = "guest_private"
type_to_db type_guest_external = "guest_external"

pub type_from_db : String → FlightType
type_from_db type =
    if str_eq type "normal"
    then type_normal
    else if str_eq type "training_2"
    then type_training2
    else if str_eq type "training_1"
    then type_training1
    else if str_eq type "refresh_2"
    then type_auffrischung
    else if str_eq type "tow"
    then type_tow
    else if str_eq type "guest_private"
    then type_guest_private
    else if str_eq type "guest_external"
    then type_guest_external
    else type_none

-- Every type is read back from the text that is stored for it.
pub type_from_db-type_to_db : (type : FlightType) → type_from_db (type_to_db type) ≡ type
unfolding type_from_db type_to_db
type_from_db-type_to_db type_none = refl
type_from_db-type_to_db type_normal = refl
type_from_db-type_to_db type_training2 = refl
type_from_db-type_to_db type_training1 = refl
type_from_db-type_to_db type_auffrischung = refl
type_from_db-type_to_db type_guest_private = refl
type_from_db-type_to_db type_guest_external = refl
type_from_db-type_to_db type_tow = refl

-- A text that is read as a proper type is the text stored for that type.
pub type_to_db-type_from_db :
    (s : String) → (type_to_db (type_from_db s) ≡ s) ⊎ (type_from_db s ≡ type_none)
unfolding type_from_db type_to_db
type_to_db-type_from_db s = ground (
  arith,
  str_eq_iff s "normal",
  str_eq_iff s "training_2",
  str_eq_iff s "training_1",
  str_eq_iff s "refresh_2",
  str_eq_iff s "tow",
  str_eq_iff s "guest_private",
  str_eq_iff s "guest_external",
)
