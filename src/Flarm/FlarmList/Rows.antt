-- ===== src/Flarm/FlarmList/Rows.antt =====
-- The rows of identifiers in the list of src/flarm/FlarmList.cpp.
use startkladde.Prelude.{
  ℕ, zero, suc, ◌+◌, ◌-◌, ◌≤◌, ltb, false, ◌≡◌, refl, sym, ◌∙◌, List, [], ◌∷◌, ◌++◌, Option, none,
  some, arith, Bool-cases, inl, inr, if◌then◌else◌,
}
use mathlib.Core.Path.{subst}
use startkladde.Prelude.Lists.{length, get_elem?, set, erase_idx}
use startkladde.Container.{Eq, Hash, value}
use startkladde.Flarm.Record.{FlarmRecord}
use startkladde.Flarm.FlarmList.{shift_rows}

-- The row of an identifier after a row has been removed.
abbrev shifted : ℕ → Option ℕ → Option ℕ
shifted row none = none
shifted row (some j) = some (if ltb row j then j - 1 else j)

module _ {K : Type 0} ⦃k_eq : Eq K⦄ where
  -- The row of an identifier, from row `i` on.
  abbrev pub row_of : K → ℕ → List (K × FlarmRecord) → Option ℕ
  row_of k i [] = none
  row_of k i ((key, r) ∷ records) =
      let further = row_of k (suc i) records in if k_eq.eq key k then some i else further

  -- No identifier is in two rows.
  abbrev pub IsUnique : List (K × FlarmRecord) → Type 0
  IsUnique [] = Unit
  IsUnique ((key, r) ∷ records) = (row_of key 0 records ≡ none) × IsUnique records

  row_of-none :
      (k : K) (i j : ℕ) (records : List (K × FlarmRecord))
      → row_of k i records ≡ none
      → row_of k j records ≡ none
  row_of-none k i j [] h = refl
  row_of-none k i j ((key, r) ∷ records) h = ground (arith, row_of-none k (suc i) (suc j) records)

  pub row_of-snoc :
      (k id : K) (i : ℕ) (r : FlarmRecord) (records : List (K × FlarmRecord))
      → row_of id i records ≡ none
      → row_of k i (records ++ (id, r) ∷ [])
        ≡ (if k_eq.eq id k then some (i + length records) else row_of k i records)
  row_of-snoc k id i r [] h = ground arith
  row_of-snoc k id i r ((key, s) ∷ records) h = ground (
    arith,
    row_of-snoc k id (suc i) r records,
    k_eq.eq_iff key id,
    k_eq.eq_iff key k,
    k_eq.eq_iff id k,
  )

  pub row_of-set :
      (k id : K) (i row : ℕ) (r r' : FlarmRecord) (records : List (K × FlarmRecord))
      → get_elem? records row ≡ some (id, r)
      → row_of k i (set records row (id, r')) ≡ row_of k i records
  row_of-set k id i row r r' [] h = refl
  row_of-set k id i zero r r' ((key, s) ∷ records) h = let same : key ≡ id = cc in rw same refl
  row_of-set k id i (suc row) r r' ((key, s) ∷ records) h =
      ground (arith, row_of-set k id (suc i) row r r' records h)

  row_of-some :
      (k : K) (i j : ℕ) (records : List (K × FlarmRecord))
      → row_of k i records ≡ some j
      → (row : ℕ) × ((j ≡ i + row) × ((r : FlarmRecord) × (get_elem? records row ≡ some (k, r))))
  row_of-some k i j [] h = ground arith
  row_of-some k i j ((key, r) ∷ records) h = elim (Bool-cases (k_eq.eq key k)) [
    | inl e ↦ let same = (k_eq.eq_iff key k).0 e in (0, (ground arith, (r, rw same refl)))
    | inr e ↦
        let (row, (at, found)) = row_of-some k (suc i) j records (ground arith) in
        (suc row, (omega arith, found))
  ]

  pub row_of-get :
      (k : K) (row : ℕ) (records : List (K × FlarmRecord))
      → row_of k 0 records ≡ some row
      → (r : FlarmRecord) × (get_elem? records row ≡ some (k, r))
  row_of-get k row records h =
      let (row', (at, (r, found))) = row_of-some k 0 row records h in
      let same : row' ≡ row = omega arith in
      (r, subst (λ n. get_elem? records n ≡ some (k, r)) same found)

  row_of-absent :
      (k id : K) (i row : ℕ) (r : FlarmRecord) (records : List (K × FlarmRecord))
      → row_of k i records ≡ none
      → get_elem? records row ≡ some (id, r)
      → k_eq.eq id k ≡ false
  row_of-absent k id i row r [] h g = ground arith
  row_of-absent k id i zero r ((key, s) ∷ records) h g =
      let same : key ≡ id = cc in rw⁻¹ same (ground arith)
  row_of-absent k id i (suc row) r ((key, s) ∷ records) h g =
      row_of-absent k id (suc i) row r records (ground arith) g

  pub IsUnique-snoc :
      (id : K) (r : FlarmRecord) (records : List (K × FlarmRecord))
      → row_of id 0 records ≡ none
      → IsUnique records
      → IsUnique (records ++ (id, r) ∷ [])
  IsUnique-snoc id r [] h u = (refl, tt)
  IsUnique-snoc id r ((key, s) ∷ records) h u =
      let absent = row_of-none id 1 0 records (ground arith) in
      (
        ground
            (arith, row_of-snoc key id 0 r records absent, k_eq.eq_iff key id, k_eq.eq_iff id key),
        IsUnique-snoc id r records absent u.1,
      )

  pub IsUnique-set :
      (id : K) (row : ℕ) (r r' : FlarmRecord) (records : List (K × FlarmRecord))
      → get_elem? records row ≡ some (id, r)
      → IsUnique records
      → IsUnique (set records row (id, r'))
  IsUnique-set id row r r' [] h u = tt
  IsUnique-set id zero r r' ((key, s) ∷ records) h u =
      let same : key ≡ id = cc in (rw⁻¹ same u.0, u.1)
  IsUnique-set id (suc row) r r' ((key, s) ∷ records) h u =
      (row_of-set key id 0 row r r' records h ∙ u.0, IsUnique-set id row r r' records h u.1)

  row_of-shifted :
      (k : K) (row i : ℕ) (records : List (K × FlarmRecord))
      → row ≤ i
      → shifted row (row_of k (suc i) records) ≡ row_of k i records
  row_of-shifted k row i [] h = refl
  row_of-shifted k row i ((key, r) ∷ records) h =
      ground (arith, row_of-shifted k row (suc i) records (omega arith))

  pub row_of-erase_idx :
      (k id : K) (i row : ℕ) (r : FlarmRecord) (records : List (K × FlarmRecord))
      → get_elem? records row ≡ some (id, r)
      → IsUnique records
      → row_of k i (erase_idx records row)
        ≡ (if k_eq.eq id k then none else shifted (i + row) (row_of k i records))
  row_of-erase_idx k id i row r [] h u = ground arith
  row_of-erase_idx k id i zero r ((key, s) ∷ records) h u =
      let same : key ≡ id = cc in
      let absent = row_of-none id 0 i records (rw⁻¹ same u.0) in
      elim (Bool-cases (k_eq.eq id k)) [
        | inl e ↦ rw (same, e, sym ((k_eq.eq_iff id k).0 e)) absent
        | inr e ↦ rw (same, e) (sym (row_of-shifted k (i + 0) i records (omega arith)))
      ]
  row_of-erase_idx k id i (suc row) r ((key, s) ∷ records) h u =
      let different = row_of-absent key id 0 row r records u.0 h in
      let rest = row_of-erase_idx k id (suc i) row r records h u.1 in
      ground (arith, k_eq.eq_iff key k, k_eq.eq_iff id k, k_eq.eq_iff id key)

  row_of-erase_idx-none :
      (k : K) (i row : ℕ) (records : List (K × FlarmRecord))
      → row_of k i records ≡ none
      → row_of k i (erase_idx records row) ≡ none
  row_of-erase_idx-none k i row [] h = refl
  row_of-erase_idx-none k i zero ((key, s) ∷ records) h =
      row_of-none k (suc i) i records (ground arith)
  row_of-erase_idx-none k i (suc row) ((key, s) ∷ records) h =
      ground (arith, row_of-erase_idx-none k (suc i) row records)

  pub IsUnique-erase_idx :
      (row : ℕ) (records : List (K × FlarmRecord))
      → IsUnique records
      → IsUnique (erase_idx records row)
  IsUnique-erase_idx row [] u = tt
  IsUnique-erase_idx zero ((key, s) ∷ records) u = u.1
  IsUnique-erase_idx (suc row) ((key, s) ∷ records) u =
      (row_of-erase_idx-none key 0 row records u.0, IsUnique-erase_idx row records u.1)

  pub value-shift_rows :
      (k : K) (row : ℕ) (rows : Hash K ℕ)
      → value k (shift_rows row rows) ≡ shifted row (value k rows)
  unfolding value shift_rows
  value-shift_rows k row [] = refl
  value-shift_rows k row ((key, i) ∷ rows) = ground (arith, value-shift_rows k row rows)
