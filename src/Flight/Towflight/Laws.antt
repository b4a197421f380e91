-- ===== src/Flight/Towflight/Laws.antt =====
-- The towflight as a view of the towed flight.
use startkladde.Prelude.{
  ℕ, true, false, String, ◌≡◌, refl, List, [], ◌∷◌, arith, map, if◌then◌else◌, Bool-cases, inl, inr,
  ap,
}
use startkladde.Qt.{Qt}
use startkladde.Model.Mode.{mode_local}
use startkladde.Cache.Objects.{Objects}
use startkladde.Flight.{Flight, departs_here, is_flying, finished, is_towplane_flying}
use startkladde.Flight.Actions.{land_now, land_towflight_now}
use startkladde.Flight.Towflight.{
  TowflightContext, flight_is_airtow, make_towflight, make_towflights, make_each,
}

module _ ⦃q : Qt⦄ where
  open q use {DateTime}

  -- Landing the towflight of a flight that departs here with a local towflight, and then showing
  -- it as a flight of its own, is the same as showing it and landing that flight: the result, the
  -- refusals, the count of landings, the time and the location agree.
  pub land_now-make_towflight :
      (context : TowflightContext) (now : DateTime) (here : String) (f : Flight DateTime)
      (plane launch : ℕ)
      → departs_here f ≡ true
      → f.towflight_mode ≡ mode_local
      → let landed = land_towflight_now now here false f in
        land_now now here false (make_towflight context f plane launch)
        ≡ (landed.0, make_towflight context landed.1 plane launch)
  unfolding land_now land_towflight_now make_towflight
  land_now-make_towflight context now here f plane launch d m = ground arith

  -- The status of a towflight is that of the towing: it is flying exactly when the towed flight
  -- has departed and the towplane, which lands here, has not landed; it is finished when the
  -- towplane has landed.
  pub towflight_status :
      (context : TowflightContext) (f : Flight DateTime) (plane launch : ℕ)
      → departs_here f ≡ true
      → let t = make_towflight context f plane launch in
        (is_flying t ≡ is_towplane_flying f) × (finished t ≡ f.towflight_landed)
  unfolding make_towflight is_flying is_towplane_flying finished
  towflight_status context f plane launch d = ground arith

  abbrev airtows : Objects → List (Flight DateTime) → List (Flight DateTime)
  airtows cache [] = []
  airtows cache (f ∷ flights) =
      if flight_is_airtow cache f then f ∷ airtows cache flights else airtows cache flights

  ids-make_each :
      (context : TowflightContext) (cache : Objects) (launch : ℕ) (flights : List (Flight DateTime))
      → map (λ t. t.id) (make_each context cache launch flights)
        ≡ map (λ f. f.id) (airtows cache flights)
  unfolding make_each make_towflight
  ids-make_each context cache launch [] = refl
  ids-make_each context cache launch (f ∷ flights) = elim (Bool-cases (flight_is_airtow cache f)) [
    | inl yes_tow ↦ rw yes_tow (ap (λ ids. f.id ∷ ids) (ids-make_each context cache launch flights))
    | inr no_tow ↦ rw no_tow (ids-make_each context cache launch flights)
  ]

  -- `makeTowflights` makes one towflight for each airtow of the list, in the list's order and with
  -- the airtow's identifier.
  pub ids-make_towflights :
      (context : TowflightContext) (cache : Objects) (flights : List (Flight DateTime))
      → map (λ t. t.id) (make_towflights context cache flights)
        ≡ map (λ f. f.id) (airtows cache flights)
  unfolding make_towflights
  ids-make_towflights context cache flights = ids-make_each context cache _ flights
