-- ===== src/Model/Plane.antt =====
-- src/model/Plane.cpp: planes and their categories, without their display; Row has their database row.
pub mod Row
use startkladde.Prelude.{Bool, String, ◌≡◌, refl, ◌==◌, ◌||◌, ℕ, if◌then◌else◌, str_eq}
use startkladde.Prelude.Int.{ℤ, pos, negsuc}

pub data Category : Type 0 where
  category_none category_airplane category_glider category_motorglider : Category
  category_ultralight category_helicopter category_other : Category

-- The enum's value, by which C++ compares.
abbrev pub category_index : Category → ℕ
category_index category_none = 0
category_index category_airplane = 1
category_index category_glider = 2
category_index category_motorglider = 3
category_index category_ultralight = 4
category_index category_helicopter = 5
category_index category_other = 6

abbrev pub category_eq : Category → Category → Bool
category_eq a b = category_index a == category_index b

pub record Plane : Type 0 where
  pub id : ℕ
  pub registration : String
  pub club : String
  pub num_seats : ℤ
  pub type : String
  pub category : Category
  pub callsign : String
  pub flarm_id : String
  pub comments : String

pub self_launch_only : Plane → Bool
self_launch_only p =
    category_eq p.category category_airplane || category_eq p.category category_ultralight

pub category_max_seats : Category → ℤ
category_max_seats category_none = negsuc 0
category_max_seats category_airplane = negsuc 0
category_max_seats category_glider = pos 2
category_max_seats category_motorglider = pos 2
category_max_seats category_ultralight = pos 2
category_max_seats category_helicopter = negsuc 0
category_max_seats category_other = negsuc 0

pub category_to_db : Category → String
category_to_db category_none = "?"
category_to_db category_airplane = "airplane"
category_to_db category_glider = "glider"
category_to_db category_motorglider = "motorglider"
category_to_db category_ultralight = "ultralight"
category_to_db category_helicopter = "helicopter"
category_to_db category_other = "other"

pub category_from_db : String → Category
category_from_db category =
    if str_eq category "airplane"
    then category_airplane
    else if str_eq category "glider"
    then category_glider
    else if str_eq category "motorglider"
    then category_motorglider
    else if str_eq category "ultralight"
    then category_ultralight
    else if str_eq category "helicopter"
    then category_helicopter
    else if str_eq category "other"
    then category_other
    else category_none

-- Every category is read back from the text that is stored for it.
pub category_from_db-category_to_db :
    (category : Category) → category_from_db (category_to_db category) ≡ category
unfolding category_from_db category_to_db
category_from_db-category_to_db category_none = refl
category_from_db-category_to_db category_airplane = refl
category_from_db-category_to_db category_glider = refl
category_from_db-category_to_db category_motorglider = refl
category_from_db-category_to_db category_ultralight = refl
category_from_db-category_to_db category_helicopter = refl
category_from_db-category_to_db category_other = refl
