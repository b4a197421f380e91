-- ===== src/Statistics/PlaneLog/Entries.antt =====
-- How the plane log (src/statistics/PlaneLog.cpp) parts flights into entries.
use startkladde.Prelude.{
  true, false, ◌≡◌, refl, ap, ◌∙◌, List, [], ◌∷◌, ◌++◌, Option, none, some, Bool-cases, inl, inr,
}
use mathlib.Core.List.{append_assoc}
use startkladde.Prelude.All.{All}
use startkladde.Prelude.Lists.{concat}
use startkladde.Qt.{Qt}
use startkladde.Model.Plane.{Plane}
use startkladde.Flight.{Flight}
use startkladde.Statistics.PlaneLog.{collective_log_entry_possible, entry_flights, last_of}

module _ ⦃q : Qt⦄ (plane : Option Plane) where
  open q use {DateTime}

  -- At least one flight, and each can be merged with the one before.
  abbrev pub IsEntry : List (Flight DateTime) → Type 0
  IsEntry [] = ⊥
  IsEntry (f ∷ []) = Unit
  IsEntry (f ∷ g ∷ flights) =
      (collective_log_entry_possible g f plane ≡ true) × IsEntry (g ∷ flights)

  IsEntry-snoc :
      (init : List (Flight DateTime)) (p f : Flight DateTime)
      → IsEntry (init ++ p ∷ [])
      → collective_log_entry_possible f p plane ≡ true
      → IsEntry ((init ++ p ∷ []) ++ f ∷ [])
  IsEntry-snoc [] p f h e = (e, tt)
  IsEntry-snoc (a ∷ []) p f h e = (h.0, (e, tt))
  IsEntry-snoc (a ∷ b ∷ init) p f h e = (h.0, IsEntry-snoc (b ∷ init) p f h.1 e)

  concat-entry_flights :
      (gathered : List (Flight DateTime)) (p : Option (Flight DateTime))
      (flights : List (Flight DateTime))
      → concat (entry_flights plane gathered p flights) ≡ gathered ++ flights
  unfolding entry_flights
  concat-entry_flights gathered p [] = refl
  concat-entry_flights gathered none (f ∷ flights) =
      concat-entry_flights (gathered ++ f ∷ []) (some f) flights
      ∙ append_assoc gathered (f ∷ []) flights
  concat-entry_flights gathered (some p) (f ∷ flights) =
      elim (Bool-cases (collective_log_entry_possible f p plane)) [
        | inl e ↦ rw e (
            concat-entry_flights (gathered ++ f ∷ []) (some f) flights
            ∙ append_assoc gathered (f ∷ []) flights)
        | inr e ↦ rw e (ap (λ fs. gathered ++ fs) (concat-entry_flights (f ∷ []) (some f) flights))
      ]

  entry_flights-IsEntry :
      (init : List (Flight DateTime)) (p : Flight DateTime) (flights : List (Flight DateTime))
      → IsEntry (init ++ p ∷ [])
      → All IsEntry (entry_flights plane (init ++ p ∷ []) (some p) flights)
  unfolding entry_flights
  entry_flights-IsEntry init p [] h = (h, tt)
  entry_flights-IsEntry init p (f ∷ flights) h =
      elim (Bool-cases (collective_log_entry_possible f p plane)) [
        | inl e ↦
            rw e (entry_flights-IsEntry (init ++ p ∷ []) f flights (IsEntry-snoc init p f h e))
        | inr e ↦ rw e (h, entry_flights-IsEntry [] f flights tt)
      ]

  -- The first of the entries cannot be merged with the flight `p`.
  abbrev IsApart : Flight DateTime → List (List (Flight DateTime)) → Type 0
  IsApart p [] = Unit
  IsApart p ([] ∷ rest) = ⊥
  IsApart p ((f ∷ flights) ∷ rest) = collective_log_entry_possible f p plane ≡ false

  abbrev IsApartFrom : List (Flight DateTime) → List (List (Flight DateTime)) → Type 0
  IsApartFrom [] rest = ⊥
  IsApartFrom (f ∷ flights) rest = IsApart (last_of f flights) rest

  -- No entry can be merged with the one before.
  abbrev pub IsSplit : List (List (Flight DateTime)) → Type 0
  IsSplit [] = Unit
  IsSplit (flights ∷ rest) = IsApartFrom flights rest × IsSplit rest

  IsApartFrom-last :
      (init : List (Flight DateTime)) (p : Flight DateTime) (rest : List (List (Flight DateTime)))
      → IsApart p rest
      → IsApartFrom (init ++ p ∷ []) rest
  IsApartFrom-last [] p rest h = h
  IsApartFrom-last (a ∷ []) p rest h = h
  IsApartFrom-last (a ∷ b ∷ init) p rest h = IsApartFrom-last (b ∷ init) p rest h

  -- The first entry starts with the first flight gathered.
  entry_flights-IsApart :
      (g p : Flight DateTime) (gathered : List (Flight DateTime)) (previous : Flight DateTime)
      (flights : List (Flight DateTime))
      → collective_log_entry_possible g p plane ≡ false
      → IsApart p (entry_flights plane (g ∷ gathered) (some previous) flights)
  unfolding entry_flights
  entry_flights-IsApart g p gathered previous [] h = h
  entry_flights-IsApart g p gathered previous (f ∷ flights) h =
      elim (Bool-cases (collective_log_entry_possible f previous plane)) [
        | inl e ↦ rw e (entry_flights-IsApart g p (gathered ++ f ∷ []) f flights h)
        | inr e ↦ rw e h
      ]

  entry_flights-IsSplit :
      (init : List (Flight DateTime)) (p : Flight DateTime) (flights : List (Flight DateTime))
      → IsSplit (entry_flights plane (init ++ p ∷ []) (some p) flights)
  unfolding entry_flights
  entry_flights-IsSplit init p [] = (IsApartFrom-last init p [] tt, tt)
  entry_flights-IsSplit init p (f ∷ flights) =
      elim (Bool-cases (collective_log_entry_possible f p plane)) [
        | inl e ↦ rw e (entry_flights-IsSplit (init ++ p ∷ []) f flights)
        | inr e ↦ rw e (
          IsApartFrom-last init p _ (entry_flights-IsApart f p [] f flights e),
          entry_flights-IsSplit [] f flights,
        )
      ]

  -- The log of a plane parts its flights, which are not none: in order they are the flights of its
  -- entries; an entry has at least one flight, and each of its flights can be merged with the one
  -- before; and an entry cannot be merged with the one before it.
  pub entry_flights_lem :
      (f : Flight DateTime) (flights : List (Flight DateTime))
      → (concat (entry_flights plane [] none (f ∷ flights)) ≡ f ∷ flights)
        × (All IsEntry (entry_flights plane [] none (f ∷ flights))
            × IsSplit (entry_flights plane [] none (f ∷ flights)))
  unfolding entry_flights
  entry_flights_lem f flights = (
    concat-entry_flights (f ∷ []) (some f) flights,
    (entry_flights-IsEntry [] f flights tt, entry_flights-IsSplit [] f flights),
  )
