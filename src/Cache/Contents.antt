-- ===== src/Cache/Contents.antt =====
-- The people and the FlarmNet records of the cache, beside its planes and launch methods
-- (src/db/cache/Cache.h).
use startkladde.Prelude.{ℕ, String, List}
use startkladde.Prelude.Int.{ℤ}
use startkladde.Qt.{Qt}
use startkladde.Container.{Hash, string_eq, pair_eq}
use startkladde.Model.Person.{Person}
use startkladde.Model.FlarmNetRecord.{FlarmNetRecord}
use startkladde.Cache.Objects.{Objects}

module _ ⦃q : Qt⦄ where
  open q use {Date}

  pub record Contents : Type 0 where
    pub objects : Objects
    pub open objects use *
    pub people : List (Person Date)
    -- with the sort keys
    pub people_sorted_by_frequency : List (Person Date × ℤ)
    pub people_by_id : Hash ℕ (Person Date)
    pub person_last_names : List String
    pub person_first_names : List String
    pub last_names_by_first_name : Hash String String
    pub first_names_by_last_name : Hash String String
    pub person_ids_by_last_name : Hash String ℕ
    pub person_ids_by_first_name : Hash String ℕ
    pub person_ids_by_name : Hash (String × String) ℕ
    pub flarm_net_records : List FlarmNetRecord
    pub flarm_net_records_by_id : Hash ℕ FlarmNetRecord
    pub flarm_net_record_ids_by_flarm_id : Hash String ℕ
