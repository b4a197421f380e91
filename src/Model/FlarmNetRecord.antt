-- ===== src/Model/FlarmNetRecord.antt =====
-- src/flarm/flarmNet/FlarmNetRecord.cpp: an aircraft of the FlarmNet database.
pub mod Row
use startkladde.Prelude.{ℕ, String}

pub record FlarmNetRecord : Type 0 where
  pub id : ℕ
  pub flarm_id : String
  pub registration : String
  pub owner : String
  pub airfield : String
  pub type : String
  pub callsign : String
  pub frequency : String
  pub comments : String
