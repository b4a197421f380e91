-- ===== src/Flarm/FlarmList/Consistency.antt =====
-- The hash of src/flarm/FlarmList.cpp finds the rows of its list.
use startkladde.Prelude.{◌≡◌, sym, ◌∙◌, List, [], ◌∷◌, Option, arith, Option-cases, inl, inr}
use startkladde.Prelude.Int.{ℤ}
use startkladde.Prelude.Lists.{length}
use startkladde.Container.{Eq, value, remove}
use startkladde.Container.Laws.{value-insert, value-remove}
use startkladde.Model.Plane.{Category}
use startkladde.Flarm.Record.{Sentence, new, process_pflaa_sentence}
use startkladde.Flarm.FlarmList.{FlarmList, pflaa_sentence, remove_flarm_record, categorised}
use startkladde.Flarm.FlarmList.Rows.{
  row_of, IsUnique, row_of-snoc, row_of-set, row_of-get, row_of-erase_idx, IsUnique-snoc,
  IsUnique-set, IsUnique-erase_idx, value-shift_rows,
}

-- What happens to the list.
pub data Change (K : Type 0) : Type 0 where
  seen_sentence : K → Sentence → Change K
  removal : K → Change K

module _ {K : Type 0} ⦃k_eq : Eq K⦄ where
  pub record IsConsistent (l : FlarmList K) : Type 0 where
    pub rows : (k : K) → value k l.by_flarm_id ≡ row_of k 0 l.flarm_records
    pub unique : IsUnique l.flarm_records

  remove_flarm_record-IsConsistent :
      (id : K) (l : FlarmList K) → IsConsistent l → IsConsistent (remove_flarm_record id l)
  unfolding remove_flarm_record
  remove_flarm_record-IsConsistent id l c = elim (Option-cases (value id l.by_flarm_id)) [
    | inl e ↦ rw e c
    | inr (row, e) ↦
        let (r, here) = row_of-get id row l.flarm_records (sym (c.rows id) ∙ e) in
        rw e (record {
          rows = λ k. ground (
            arith,
            value-shift_rows k row (remove id l.by_flarm_id),
            value-remove id k l.by_flarm_id,
            row_of-erase_idx k id 0 row r l.flarm_records here c.unique,
            c.rows k,
          );
          unique = IsUnique-erase_idx row l.flarm_records c.unique;
        })
  ]

  pflaa_sentence-IsConsistent :
      (range : ℤ) (lookup : K → Option Category) (id : K) (s : Sentence) (l : FlarmList K)
      → IsConsistent l
      → IsConsistent (pflaa_sentence range lookup id s l).0
  unfolding pflaa_sentence
  pflaa_sentence-IsConsistent range lookup id s l c = elim (Option-cases (value id l.by_flarm_id)) [
    | inl e ↦
        let absent = sym (c.rows id) ∙ e in
        rw e (record {
          rows = λ k. ground (
            arith,
            value-insert id k (length l.flarm_records) l.by_flarm_id,
            row_of-snoc k id 0 (categorised (lookup id) (process_pflaa_sentence range s new).0)
                l.flarm_records absent,
            c.rows k,
          );
          unique =
              IsUnique-snoc id (categorised (lookup id) (process_pflaa_sentence range s new).0)
                l.flarm_records absent c.unique;
        })
    | inr (row, e) ↦
        let (r, here) = row_of-get id row l.flarm_records (sym (c.rows id) ∙ e) in
        let r' = (process_pflaa_sentence range s r).0 in
        rw (e, here)
          (record {
            rows = λ k. c.rows k ∙ sym (row_of-set k id 0 row r r' l.flarm_records here);
            unique = IsUnique-set id row r r' l.flarm_records here c.unique;
          })
  ]

  abbrev pub after_change : ℤ → (K → Option Category) → Change K → FlarmList K → FlarmList K
  after_change range lookup (seen_sentence id s) l = (pflaa_sentence range lookup id s l).0
  after_change range lookup (removal id) l = remove_flarm_record id l

  abbrev pub after_changes : ℤ → (K → Option Category) → List (Change K) → FlarmList K → FlarmList K
  after_changes range lookup [] l = l
  after_changes range lookup (change ∷ changes) l =
      after_changes range lookup changes (after_change range lookup change l)

  -- From a consistent list, whatever sentences and removals come in whatever order: the hash finds
  -- for every identifier the row of its record, and none for an identifier without a record; and no
  -- identifier has two records.
  pub after_changes-IsConsistent :
      (range : ℤ) (lookup : K → Option Category) (changes : List (Change K)) (l : FlarmList K)
      → IsConsistent l
      → IsConsistent (after_changes range lookup changes l)
  after_changes-IsConsistent range lookup [] l c = c
  after_changes-IsConsistent range lookup (seen_sentence id s ∷ changes) l c =
      after_changes-IsConsistent range lookup changes (pflaa_sentence range lookup id s l).0
        (pflaa_sentence-IsConsistent range lookup id s l c)
  after_changes-IsConsistent range lookup (removal id ∷ changes) l c =
      after_changes-IsConsistent range lookup changes (remove_flarm_record id l)
        (remove_flarm_record-IsConsistent id l c)
