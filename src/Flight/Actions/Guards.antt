-- ===== src/Flight/Actions/Guards.antt =====
-- The guards of the actions (src/model/Flight.cpp), once an action has been made.
use startkladde.Prelude.{true, false, not, ◌&&◌, String, ◌≡◌, arith}
use startkladde.Prelude.Int.{pos, ◌+ℤ◌}
use startkladde.Qt.{Qt}
use startkladde.Clock.{null_seconds}
use startkladde.Flight.{Flight, departs_here, is_flying}
use startkladde.Flight.Actions.{depart_now, land_now}

module _ ⦃q : Qt⦄ where
  open q use {DateTime}

  -- An unforced departure that is made is at the time of the clock, touches no landing field, and
  -- cannot be repeated: the flight has departed, and the next unforced departure is refused and
  -- changes nothing.
  pub depart_now_twice :
      (now later : DateTime) (f : Flight DateTime)
      → (depart_now now false f).0 ≡ true
      → let g = (depart_now now false f).1 in
        (g.departed ≡ true)
        × (g.departure_time ≡ null_seconds now)
        × (g.landed ≡ f.landed)
        × (g.num_landings ≡ f.num_landings)
        × (depart_now later false g ≡ (false, g))
  unfolding depart_now
  depart_now_twice now later f h = ground arith

  -- An unforced landing that is made counts one landing, ends the flight and cannot be repeated;
  -- a local flight that made it had departed.
  pub land_now_twice :
      (now later : DateTime) (here : String) (f : Flight DateTime)
      → (land_now now here false f).0 ≡ true
      → let g = (land_now now here false f).1 in
        (g.landed ≡ true)
        × (is_flying g ≡ false)
        × (g.num_landings ≡ f.num_landings +ℤ pos 1)
        × ((departs_here f && not g.departed) ≡ false)
        × (land_now later here false g ≡ (false, g))
  unfolding land_now is_flying
  land_now_twice now later here f h = ground arith
