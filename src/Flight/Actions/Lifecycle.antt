-- ===== src/Flight/Actions/Lifecycle.antt =====
-- The life of a flight under its unforced actions and a clock that does not go back.
use startkladde.Prelude.{ℕ, ◌+◌, true, false, not, ◌&&◌, String, ◌≡◌, arith, if◌then◌else◌}
use startkladde.Prelude.Int.{pos, ltb_ℤ, ◌==ℤ◌}
use startkladde.Qt.{Qt, IsTimeOrder}
use startkladde.Clock.{null_seconds}
use startkladde.Flight.{Flight, departs_here, lands_here, is_prepared, happened}
use startkladde.Flight.Actions.{depart_now, land_now, land_towflight_now, perform_touchngo}

-- A flight and the last time that was read from the clock, in UTC.
pub record Situation (D : Type 0) : Type 0 where
  pub flight : Flight D
  pub now : D

-- Cutting off the seconds of UTC times keeps their order.
pub record KeepsOrder (q : Qt) : Type 0 where
  pub order : IsTimeOrder q
  pub cut :
      (a b : q.DateTime)
      → q.time_zone a ≡ q.utc
      → q.time_zone b ≡ q.utc
      → q.before b a ≡ false
      → q.before (null_seconds ⦃q = q⦄ b) (null_seconds ⦃q = q⦄ a) ≡ false

module _ ⦃q : Qt⦄ where
  open q use {DateTime, before, time_zone, utc}

  -- Time passes, or an action is tried, which may be refused.
  pub data Step (s : Situation DateTime) : Situation DateTime → Type 0 where
    wait :
        (t : DateTime) → time_zone t ≡ utc → before t s.now ≡ false → Step s (record s { now = t })
    depart : Step s (record s { flight = (depart_now s.now false s.flight).1 })
    land : (here : String) → Step s (record s { flight = (land_now s.now here false s.flight).1 })
    land_towflight :
        (here : String)
        → Step s (record s { flight = (land_towflight_now s.now here false s.flight).1 })
    touch_and_go : Step s (record s { flight = (perform_touchngo false s.flight).1 })

  pub data Reach (s : Situation DateTime) : Situation DateTime → Type 0 where
    start : Reach s s
    next : {t u : Situation DateTime} → Reach s t → Step t u → Reach s u

  -- The landings and touch-and-goes that were not refused.
  abbrev pub landings : {s t : Situation DateTime} → Step s t → ℕ
  landings (wait t z h) = 0
  landings depart = 0
  landings {s = s} (land here) = if (land_now s.now here false s.flight).0 then 1 else 0
  landings (land_towflight here) = 0
  landings {s = s} touch_and_go = if (perform_touchngo false s.flight).0 then 1 else 0

  abbrev pub all_landings : {s t : Situation DateTime} → Reach s t → ℕ
  all_landings start = 0
  all_landings (next r step) = all_landings r + landings step

  -- A prepared flight, whose number of landings is still 0, at a UTC time.
  pub record IsFresh (s : Situation DateTime) : Type 0 where
    pub prepared : is_prepared s.flight ≡ true
    pub no_landings : s.flight.num_landings ≡ pos 0
    pub in_utc : time_zone s.now ≡ utc

  -- None of the error conditions on the course of the flight holds.
  pub record IsConsistent (f : Flight DateTime) : Type 0 where
    pub landing_after_departure :
        (f.landed && lands_here f && departs_here f && not f.departed) ≡ false
    pub landings_count : ltb_ℤ f.num_landings (pos 0) ≡ false
    pub landings_after_departure :
        (departs_here f && not f.departed && ltb_ℤ (pos 0) f.num_landings) ≡ false
    pub landed_counts : (f.landed && lands_here f && (f.num_landings ==ℤ pos 0)) ≡ false
    pub in_order :
        (departs_here f
          && lands_here f
          && f.departed
          && f.landed
          && before f.landing_time f.departure_time)
        ≡ false

  -- With what the induction needs: a departure is not in the future.
  record Holds (s : Situation DateTime) : Type 0 where
    consistent : IsConsistent s.flight
    departed_by_now :
        (s.flight.departed
          && departs_here s.flight
          && before (null_seconds s.now) s.flight.departure_time)
        ≡ false
    in_utc : time_zone s.now ≡ utc

  IsFresh-Holds : {s : Situation DateTime} → IsFresh s → Holds s
  unfolding is_prepared happened
  IsFresh-Holds h = ground arith

  -- A step adds its landings to the number of landings.
  Step-landings :
      {s t : Situation DateTime} (step : Step s t) (n : ℕ)
      → s.flight.num_landings ≡ pos n
      → t.flight.num_landings ≡ pos (n + landings step)
  Step-landings (wait t z h) n e = ground arith
  Step-landings depart n e = unfold depart_now in ground arith
  Step-landings (land here) n e = unfold land_now in ground arith
  Step-landings (land_towflight here) n e = unfold land_towflight_now in ground arith
  Step-landings touch_and_go n e = unfold perform_touchngo in ground arith

  Reach-landings :
      {s t : Situation DateTime}
      → s.flight.num_landings ≡ pos 0
      → (r : Reach s t) → t.flight.num_landings ≡ pos (all_landings r)
  Reach-landings h start = h
  Reach-landings h (next r step) = Step-landings step (all_landings r) (Reach-landings h r)

  module _ (laws : KeepsOrder q) where
    not_before_trans :
        (a b c : DateTime) → before b a ≡ false → before c b ≡ false → before c a ≡ false
    not_before_trans a b c h k = ground (arith, laws.order.weak c b a)

    Step-Holds : {s t : Situation DateTime} → Step s t → Holds s → Holds t
    Step-Holds {s = s} (wait t z h) k = record {
      consistent = k.consistent;
      departed_by_now =
          let cut : before (null_seconds t) (null_seconds s.now) ≡ false =
            laws.cut s.now t k.in_utc z h in
          ground
            (arith, not_before_trans s.flight.departure_time (null_seconds s.now) (null_seconds t));
      in_utc = z;
    }
    Step-Holds {s = s} depart k =
        unfold depart_now in ground (arith, laws.order.irrefl (null_seconds s.now))
    Step-Holds (land here) k = unfold land_now in ground arith
    Step-Holds (land_towflight here) k = unfold land_towflight_now in ground arith
    Step-Holds touch_and_go k = unfold perform_touchngo in ground arith

    Reach-Holds : {s t : Situation DateTime} → Holds s → Reach s t → Holds t
    Reach-Holds h start = h
    Reach-Holds h (next r step) = Step-Holds step (Reach-Holds h r)

    -- From a prepared flight whose number of landings is 0, whatever unforced departures, landings,
    -- towflight landings and touch-and-goes are tried, in any order and at UTC times that do not go
    -- back, the number of landings is that of the landings and touch-and-goes that were not refused.
    -- A flight that departs here has none before its departure; one that lands here has at least one
    -- once it has landed; and one that does both has departed when it has landed, and not landed
    -- before it departed.
    pub Reach-IsConsistent :
        {s t : Situation DateTime}
        → IsFresh s
        → (r : Reach s t) → (t.flight.num_landings ≡ pos (all_landings r)) × IsConsistent t.flight
    Reach-IsConsistent h r =
        (Reach-landings h.no_landings r, (Reach-Holds (IsFresh-Holds h) r).consistent)
