-- ===== src/Model/LaunchMethod.antt =====
-- src/model/LaunchMethod.cpp: launch methods, without their display; Row has their database row.
pub mod Row
use startkladde.Prelude.{
  Bool, true, String, ◌≡◌, refl, ◌==◌, ℕ, not, List, [], ◌∷◌, if◌then◌else◌, str_eq,
}
use startkladde.DbId.{invalid_id}

pub data LaunchMethodType : Type 0 where
  type_winch type_airtow type_self type_other : LaunchMethodType

-- The enum's value, by which C++ compares.
abbrev pub type_index : LaunchMethodType → ℕ
type_index type_winch = 0
type_index type_airtow = 1
type_index type_self = 2
type_index type_other = 3

abbrev pub type_eq : LaunchMethodType → LaunchMethodType → Bool
type_eq a b = type_index a == type_index b

pub record LaunchMethod : Type 0 where
  pub id : ℕ
  pub name : String
  pub short_name : String
  pub log_string : String
  pub keyboard_shortcut : String
  pub type : LaunchMethodType
  pub towplane_registration : String
  pub person_required : Bool
  pub comments : String

-- The default constructor, for the variable that a lookup fills.
abbrev pub launch_method : LaunchMethod
launch_method = record {
  id = invalid_id;
  name = "---";
  short_name = "-";
  log_string = "-";
  keyboard_shortcut = "";
  type = type_other;
  towplane_registration = "";
  person_required = true;
  comments = "";
}

abbrev pub is_airtow : LaunchMethod → Bool
is_airtow l = type_eq l.type type_airtow

abbrev pub towplane_known : LaunchMethod → Bool
towplane_known l = not (str_eq l.towplane_registration "")

pub list_types : List LaunchMethodType
list_types = type_winch ∷ type_airtow ∷ type_self ∷ type_other ∷ []

pub type_to_db : LaunchMethodType → String
type_to_db type_winch = "winch"
type_to_db type_airtow = "airtow"
type_to_db type_self = "self"
type_to_db type_other = "other"

pub type_from_db : String → LaunchMethodType
type_from_db type =
    if str_eq type "winch"
    then type_winch
    else if str_eq type "airtow"
    then type_airtow
    else if str_eq type "self"
    then type_self
    else if str_eq type "other"
    then type_other
    else type_other

-- Every launch method type is read back from the text that is stored for it.
pub type_from_db-type_to_db : (type : LaunchMethodType) → type_from_db (type_to_db type) ≡ type
unfolding type_from_db type_to_db
type_from_db-type_to_db type_winch = refl
type_from_db-type_to_db type_airtow = refl
type_from_db-type_to_db type_self = refl
type_from_db-type_to_db type_other = refl
