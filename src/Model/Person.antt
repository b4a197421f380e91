-- ===== src/Model/Person.antt =====
-- src/model/Person.cpp: people, without their display. `D` is QDate.
pub mod Row
use startkladde.Prelude.{ℕ, Bool, String}

pub record Person (D : Type 0) : Type 0 where
  pub id : ℕ
  pub last_name : String
  pub first_name : String
  pub nickname : String
  pub club : String
  pub club_id : String
  pub vfid : ℕ
  pub check_medical : Bool
  pub medical_validity : D
  pub comments : String
