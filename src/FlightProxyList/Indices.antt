-- ===== src/FlightProxyList/Indices.antt =====
-- The indices of a flight and its towflight (src/model/flightList/FlightProxyList.cpp).
use mathlib.Core.Path.{subst}
use startkladde.Prelude.{
  ℕ, ◌+◌, ◌-◌, ◌≤◌, ◌<◌, Bool, true, false, ◌≡◌, refl, sym, ◌∙◌, ap, List, some, arith, Bool-cases,
  Option-cases, inl, inr, ltb,
}
use startkladde.Prelude.All.{All}
use startkladde.Prelude.Int.{ℤ, pos, negsuc}
use startkladde.Prelude.Lists.{length, get_elem?}
use startkladde.DbId.{id_valid}
use startkladde.Cache.EntityList.{find_by_id, count_id}
use startkladde.Flight.{Flight, is_towflight}
use startkladde.FlightReference.{FlightReference, reference_to}
use startkladde.FlightProxyList.{
  FlightProxyList, at, find_towref, find_model_index, get_flight_reference, towref_of, find_flight,
  find_towflight, model_index_is_flight, model_index_is_towflight, model_index_to_towflight_index,
  towflight_index_to_model_index,
}
use startkladde.Cache.EntityList.Search.{
  find_by_id-get_elem?, get_elem?-find_by_id, lt-get_elem?, All-get_elem?,
}

-- The model index for a towflight index, or -1.
abbrev by_towflight : ℤ → ℕ → ℤ
by_towflight (pos j) n = pos (j + n)
by_towflight (negsuc j) n = negsuc 0

-- An index that the search found, or -1.
abbrev by_flight : ℤ → ℤ
by_flight (pos j) = pos j
by_flight (negsuc j) = negsuc 0

by_towflight-pos :
    (z : ℤ) (n j : ℕ) → by_towflight z n ≡ pos j → (k : ℕ) × (z ≡ pos k) × (k + n ≡ j)
by_towflight-pos (pos k) n j h = (k, refl, cc)
by_towflight-pos (negsuc k) n j h = cc

by_flight-pos : (z : ℤ) (j : ℕ) → by_flight z ≡ pos j → z ≡ pos j
by_flight-pos (pos k) j h = h
by_flight-pos (negsuc k) j h = cc

module _ {D : Type 0} where
  abbrev proxy_of : List (Flight D) → List (Flight D) → FlightProxyList D
  proxy_of flights towflights = record { source_model = some flights; towflights = towflights }

  -- Flights with valid identifiers that are towflights or not, no identifier twice.
  pub record IsProper (tow : Bool) (flights : List (Flight D)) : Type 0 where
    pub each : All (λ f. (id_valid f.id ≡ true) × (is_towflight f ≡ tow)) flights
    pub unique : (a : ℕ) → count_id (λ f. f.id) a flights ≤ 1

  module _ (flights towflights : List (Flight D)) where
    -- The index of a flight is one of the source model or, behind its end, of a towflight.
    data Located (i : ℕ) (f : Flight D) : Type 0 where
      as_flight : i < length flights → get_elem? flights i ≡ some f → Located i f
      as_towflight :
          length flights ≤ i → get_elem? towflights (i - length flights) ≡ some f → Located i f

    at-Located :
        (i : ℕ) (f : Flight D) → at (pos i) (proxy_of flights towflights) ≡ some f → Located i f
    unfolding at
    at-Located i f h = elim (Bool-cases (ltb i (length flights))) [
      | inl below ↦ as_flight (ground arith) (ground arith)
      | inr behind ↦ as_towflight (ground arith) (ground arith)
    ]

    at-flight :
        (i : ℕ) (f : Flight D)
        → get_elem? flights i ≡ some f
        → at (pos i) (proxy_of flights towflights) ≡ some f
    unfolding at
    at-flight i f h = ground (arith, lt-get_elem? flights i f h)

    at-towflight :
        (j : ℕ) (f : Flight D)
        → get_elem? towflights j ≡ some f
        → at (pos (j + length flights)) (proxy_of flights towflights) ≡ some f
    unfolding at
    at-towflight j f h =
        let e : j + length flights - length flights ≡ j = omega arith in
        ground (arith, ap (λ k. get_elem? towflights k) e)

    module _ (unique : (a : ℕ) → count_id (λ (f : Flight D). f.id) a flights ≤ 1)
        (unique_tow : (a : ℕ) → count_id (λ (f : Flight D). f.id) a towflights ≤ 1) where
      find_flight-at :
          (i : ℕ) (f : Flight D)
          → get_elem? flights i ≡ some f
          → find_flight f.id (proxy_of flights towflights) ≡ pos i
      unfolding find_flight
      find_flight-at i f h = find_by_id-get_elem? (λ g. g.id) flights i f h (unique f.id)

      find_towflight-at :
          (i : ℕ) (f : Flight D)
          → get_elem? towflights i ≡ some f
          → find_towflight f.id (proxy_of flights towflights) ≡ pos i
      unfolding find_towflight
      find_towflight-at i f h = find_by_id-get_elem? (λ g. g.id) towflights i f h (unique_tow f.id)

      -- The towref of a flight of the source model, and of a towflight.
      towref_of-flight :
          (i : ℕ) (id : ℕ)
          → i < length flights
          → towref_of (pos i) (proxy_of flights towflights) id
            ≡ by_towflight (find_towflight id (proxy_of flights towflights)) (length flights)
      unfolding model_index_is_flight towflight_index_to_model_index
      towref_of-flight i id lt = ground arith

      towref_of-towflight :
          (i : ℕ) (id : ℕ)
          → length flights ≤ i
          → i - length flights < length towflights
          → towref_of (pos i) (proxy_of flights towflights) id
            ≡ by_flight (find_flight id (proxy_of flights towflights))
      unfolding model_index_is_flight model_index_is_towflight model_index_to_towflight_index
      towref_of-towflight i id le lt = ground arith

      find_towref-at :
          (j : ℕ) (t : Flight D)
          → at (pos j) (proxy_of flights towflights) ≡ some t
          → find_towref (pos j) (proxy_of flights towflights)
            ≡ some (towref_of (pos j) (proxy_of flights towflights) t.id)
      unfolding find_towref
      find_towref-at j t h = rw (find_towref, h) refl

      -- From a towflight to the flight of the same identifier, and the other way round.
      find_towref-towflight :
          (i k : ℕ) (f t : Flight D)
          → get_elem? flights i ≡ some f
          → get_elem? towflights k ≡ some t
          → t.id ≡ f.id
          → find_towref (pos (k + length flights)) (proxy_of flights towflights) ≡ some (pos i)
      find_towref-towflight i k f t at_i at_k same =
          let found : find_flight t.id (proxy_of flights towflights) ≡ pos i =
            rw same (find_flight-at i f at_i) in
          find_towref-at (k + length flights) t (at-towflight k t at_k)
          ∙ ap some (
              towref_of-towflight (k + length flights) t.id (omega arith)
                (omega (arith, lt-get_elem? towflights k t at_k))
              ∙ ap by_flight found)

      find_towref-flight :
          (i k : ℕ) (f t : Flight D)
          → get_elem? flights i ≡ some f
          → get_elem? towflights k ≡ some t
          → f.id ≡ t.id
          → find_towref (pos i) (proxy_of flights towflights) ≡ some (pos (k + length flights))
      find_towref-flight i k f t at_i at_k same =
          let found : find_towflight f.id (proxy_of flights towflights) ≡ pos k =
            rw same (find_towflight-at k t at_k) in
          find_towref-at i f (at-flight i f at_i)
          ∙ ap some (
              towref_of-flight i f.id (lt-get_elem? flights i f at_i)
              ∙ ap (λ z. by_towflight z (length flights)) found)

      find_towref-back :
          (i j : ℕ) (f : Flight D)
          → Located i f
          → towref_of (pos i) (proxy_of flights towflights) f.id ≡ pos j
          → find_towref (pos j) (proxy_of flights towflights) ≡ some (pos i)
      unfolding find_flight find_towflight
      find_towref-back i j f (as_flight lt at_i) h =
          let (k, found, e) =
            by_towflight-pos (find_by_id (λ g. g.id) f.id towflights) (length flights) j
              (sym (towref_of-flight i f.id lt) ∙ h) in
          let (t, at_k, same) = get_elem?-find_by_id (λ g. g.id) f.id k towflights found in
          subst (λ m. find_towref (pos m) (proxy_of flights towflights) ≡ some (pos i)) e
            (find_towref-towflight i k f t at_i at_k same)
      find_towref-back i j f (as_towflight le at_i) h =
          let found = by_flight-pos (find_by_id (λ g. g.id) f.id flights) j (
            sym
              (towref_of-towflight i f.id le (lt-get_elem? towflights (i - length flights) f at_i))
            ∙ h) in
          let (g, at_j, same) = get_elem?-find_by_id (λ g. g.id) f.id j flights found in
          find_towref-flight j (i - length flights) g f at_j at_i same
          ∙ ap (λ m. some (pos m)) (omega arith)

      -- The towref of the towref of an index is that index, where no two flights and no two
      -- towflights share an identifier: a flight and its towflight find each other.
      pub find_towref-find_towref :
          (i j : ℕ)
          → find_towref (pos i) (proxy_of flights towflights) ≡ some (pos j)
          → find_towref (pos j) (proxy_of flights towflights) ≡ some (pos i)
      unfolding find_towref
      find_towref-find_towref i j h =
          elim (Option-cases (at (pos i) (proxy_of flights towflights))) [
            | inl out ↦ ground arith
            | inr (f, e) ↦
                let towref : towref_of (pos i) (proxy_of flights towflights) f.id ≡ pos j =
                  ground arith in
                find_towref-back i j f (at-Located i f e) towref
          ]

    find_model_index-Located :
        IsProper false flights
        → IsProper true towflights
        → (i : ℕ) (f : Flight D) → Located i f
        → find_model_index (reference_to f) (proxy_of flights towflights) ≡ pos i
    unfolding find_model_index
    find_model_index-Located proper proper_tow i f (as_flight lt at_i) =
        let own =
          All-get_elem? (λ g. (id_valid g.id ≡ true) × (is_towflight g ≡ false)) flights i f
            proper.each at_i in
        let (valid, not_tow) = own in
        let found = find_flight-at proper.unique proper_tow.unique i f at_i in
        rw (find_model_index, valid, not_tow) found
    find_model_index-Located proper proper_tow i f (as_towflight le at_i) =
        let own =
          All-get_elem? (λ g. (id_valid g.id ≡ true) × (is_towflight g ≡ true)) towflights
            (i - length flights) f proper_tow.each at_i in
        let found = find_towflight-at proper.unique proper_tow.unique (i - length flights) f at_i in
        let (valid, tow) = own in
        let e : i - length flights + length flights ≡ i = omega arith in
        rw (find_model_index, valid, tow, towflight_index_to_model_index, found) (ap pos e)

    -- The model index of the reference to the flight at an index is that index, where the source
    -- model holds flights with valid identifiers that are not towflights, the towflights are
    -- towflights with valid identifiers, and no identifier stands twice in either.
    pub find_model_index-get_flight_reference :
        IsProper false flights
        → IsProper true towflights
        → (i : ℕ) (r : FlightReference)
        → get_flight_reference (pos i) (proxy_of flights towflights) ≡ some r
        → find_model_index r (proxy_of flights towflights) ≡ pos i
    unfolding get_flight_reference find_model_index
    find_model_index-get_flight_reference proper proper_tow i r h =
        elim (Option-cases (at (pos i) (proxy_of flights towflights))) [
          | inl out ↦ ground arith
          | inr (f, e) ↦
              let same : reference_to f ≡ r = ground arith in
              subst (λ r. find_model_index r (proxy_of flights towflights) ≡ pos i) same
                (find_model_index-Located proper proper_tow i f (at-Located i f e))
        ]
