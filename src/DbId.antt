-- ===== src/DbId.antt =====
-- src/db/dbId.cpp: database identifiers, `quint32`, with 0 for "no object".
use startkladde.Prelude.{ℕ, ◌==◌, Bool, not}

abbrev pub invalid_id : ℕ
invalid_id = 0

abbrev pub id_invalid : ℕ → Bool
id_invalid id = id == 0

abbrev pub id_valid : ℕ → Bool
id_valid id = not (id_invalid id)
