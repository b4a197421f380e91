-- ===== src/Flarm/FlarmList.antt =====
-- src/flarm/FlarmList.cpp: the aircraft that are seen, by their FLARM identifiers, which are of any
-- type with an equality. A QPersistentModelIndex follows its row when rows before it are removed.
-- Looking up the plane, src/flarm/algorithms/PlaneLookup.cpp, is an argument: the category that it
-- finds, if it does.
pub mod Rows
pub mod Consistency
use startkladde.Prelude.{
  ℕ, zero, suc, ◌-◌, ltb, Bool, true, false, List, [], ◌∷◌, ◌++◌, Option, none, some, if◌then◌else◌,
}
use startkladde.Prelude.Int.{ℤ}
use startkladde.Prelude.Lists.{length, get_elem?, set, erase_idx}
use startkladde.Container.{Eq, Hash, value, insert, remove}
use startkladde.Model.Plane.{Category}
use startkladde.Flarm.Record.{FlarmRecord, Sentence, Signal, new, process_pflaa_sentence}

pub record FlarmList (K : Type 0) : Type 0 where
  pub flarm_records : List (K × FlarmRecord)
  -- the row of a valid index
  pub by_flarm_id : Hash K ℕ

-- setCategory, when a plane is found
abbrev pub categorised : Option Category → FlarmRecord → FlarmRecord
categorised none r = r
categorised (some category) r = record r { category = category }

module _ {K : Type 0} ⦃k_eq : Eq K⦄ where
  -- A sentence for the record in a row; the signals are its record's.
  abbrev processed :
      ℤ → ℕ → Sentence → Option (K × FlarmRecord) → FlarmList K → FlarmList K × List Signal
  processed range row sentence none l = (l, [])
  processed range row sentence (some (key, r)) l =
      let (r', signals) = process_pflaa_sentence range sentence r in
      (record l { flarm_records = set l.flarm_records row (key, r') }, signals)

  abbrev pub pflaa_sentence_at :
      ℤ → (K → Option Category) → K → Sentence → Option ℕ → FlarmList K → FlarmList K × List Signal
  pflaa_sentence_at range lookup id sentence (some row) l =
      processed range row sentence (get_elem? l.flarm_records row) l
  pflaa_sentence_at range lookup id sentence none l =
      let (r, signals) = process_pflaa_sentence range sentence new in
      (
        record l {
          flarm_records = l.flarm_records ++ (id, categorised (lookup id) r) ∷ [];
          by_flarm_id = insert id (length l.flarm_records) l.by_flarm_id;
        },
        signals,
      )

  -- pflaaSentence, of a valid sentence
  unfoldable pub pflaa_sentence :
      ℤ → (K → Option Category) → K → Sentence → FlarmList K → FlarmList K × List Signal
  unfolding insert
  pflaa_sentence range lookup id sentence l =
      pflaa_sentence_at range lookup id sentence (value id l.by_flarm_id) l

  -- The indices after a row has been removed.
  unfoldable pub shift_rows : ℕ → Hash K ℕ → Hash K ℕ
  shift_rows row [] = []
  shift_rows row ((k, i) ∷ rows) = (k, if ltb row i then i - 1 else i) ∷ shift_rows row rows

  abbrev pub remove_at_row : K → Option ℕ → FlarmList K → FlarmList K
  remove_at_row id none l = l
  remove_at_row id (some row) l = record {
    flarm_records = erase_idx l.flarm_records row;
    by_flarm_id = shift_rows row (remove id l.by_flarm_id);
  }

  unfoldable pub remove_flarm_record : K → FlarmList K → FlarmList K
  unfolding shift_rows remove
  remove_flarm_record id l = remove_at_row id (value id l.by_flarm_id) l
