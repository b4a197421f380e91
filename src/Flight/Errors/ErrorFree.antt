-- ===== src/Flight/Errors/ErrorFree.antt =====
-- Which flights the error check accepts.
use startkladde.Prelude.{
  ℕ, ◌==◌, Bool, true, false, not, ◌&&◌, ◌||◌, String, ◌≡◌, ◌≢◌, ◌↔◌, ◌⊎◌, [], Option, none, some,
  arith, str_eq,
}
use startkladde.Prelude.Int.{pos, ltb_ℤ}
use startkladde.Prelude.Lists.{append-eq-nil, nil-append}
use startkladde.DbId.{id_valid}
use startkladde.Qt.{Qt}
use startkladde.Text.{is_blank, is_none}
use startkladde.Model.FlightType.{
  type_eq, type_none, type_training2, type_guest_private, type_guest_external,
  type_copilot_recorded, type_supervisor_recorded,
}
use startkladde.Model.Plane.{Plane, category_eq, category_glider}
use startkladde.Model.LaunchMethod as LaunchMethod
use startkladde.Model.LaunchMethod.{LaunchMethod, is_airtow, towplane_known, type_self}
use startkladde.Model.FlightError.{FlightError}
use startkladde.Cache.Objects.{Objects, get_plane, get_launch_method}
use startkladde.Flight.{Flight, departs_here, lands_here, towflight_lands_here, is_towflight}
use startkladde.Flight.Errors.{
  Settings, is_some_and, copilot_specified, check_person, basic_errors, pilot_errors,
  copilot_errors, towpilot_errors, plane_errors, status_errors, departure_errors, landing_errors,
  location_errors, towflight_errors, get_errors_impl,
}

module _ ⦃q : Qt⦄ where
  open q use {DateTime, before}

  -- A person is in order if the settings allow anonymous flights, if it has an identifier, or if
  -- nothing is said of it and it is not required.
  abbrev pub IsPersonInOrder : Settings → ℕ → String → String → Bool → Type 0
  IsPersonInOrder settings id last first required =
      (settings.anonymous_mode ≡ true)
      ⊎ ((id_valid id ≡ true)
          ⊎ ((is_blank last ≡ true) × (is_blank first ≡ true) × (required ≡ false)))

  check_person-eq-nil :
      (settings : Settings) (id : ℕ) (last first : String) (required : Bool) (a b c d : FlightError)
      → (check_person settings id last first required a b c d ≡ [])
        ↔ IsPersonInOrder settings id last first required
  unfolding check_person
  check_person-eq-nil settings id last first required a b c d = ground arith

  abbrev pub IsCopilotInOrder : Settings → Flight DateTime → Type 0
  IsCopilotInOrder settings f =
      (type_copilot_recorded f.type || type_supervisor_recorded f.type) ≡ true
      → IsPersonInOrder settings f.copilot_id f.copilot_last_name f.copilot_first_name false
        × ((id_valid f.pilot_id
              && (f.pilot_id == f.copilot_id)
              && not (type_supervisor_recorded f.type))
            ≡ false)
        × ((type_eq f.type type_training2 ≡ true) → copilot_specified f ≡ true)

  abbrev pub IsTowpilotInOrder : Settings → Option LaunchMethod → Flight DateTime → Type 0
  IsTowpilotInOrder settings launch_method f =
      (settings.record_towpilot && is_some_and launch_method is_airtow) ≡ true
      → IsPersonInOrder settings f.towpilot_id f.towpilot_last_name f.towpilot_first_name false
        × ((id_valid f.towpilot_id && (f.pilot_id == f.towpilot_id)) ≡ false)

  -- A plane that the cache knows: what a single-seater and a glider may do.
  abbrev pub IsPlaneInOrder : Plane → Option LaunchMethod → Flight DateTime → Type 0
  IsPlaneInOrder plane launch_method f =
      ((plane.num_seats ≡ pos 1)
        → (type_eq f.type type_training2 ≡ false)
          × (type_eq f.type type_guest_private ≡ false)
          × (type_eq f.type type_guest_external ≡ false)
          × ((type_copilot_recorded f.type && copilot_specified f) ≡ false))
      × (category_eq plane.category category_glider ≡ true
          → (is_some_and launch_method (λ l. LaunchMethod.type_eq l.type type_self) ≡ false)
            × (is_some_and launch_method (λ l. not (is_airtow l)) ≡ true
                → (ltb_ℤ (pos 1) f.num_landings ≡ false)
                  × ((ltb_ℤ (pos 0) f.num_landings && not f.landed) ≡ false)))

  abbrev pub AreSeatsInOrder : Option Plane → Option LaunchMethod → Flight DateTime → Type 0
  AreSeatsInOrder none launch_method f = Unit {0}
  AreSeatsInOrder (some plane) launch_method f = IsPlaneInOrder plane launch_method f

  abbrev pub IsStatusInOrder : Flight DateTime → Type 0
  IsStatusInOrder f =
      (ltb_ℤ f.num_landings (pos 0) ≡ false)
      × (departs_here f ≢ lands_here f → str_eq f.departure_location f.landing_location ≡ false)
      × (departs_here f ≡ true
          → lands_here f ≡ true
          → (f.landed ≡ true → f.departed ≡ true)
            × ((f.departed && f.landed && before f.landing_time f.departure_time) ≡ false))

  abbrev pub IsDepartureInOrder : Flight DateTime → Type 0
  IsDepartureInOrder f =
      departs_here f ≡ true
      → (f.departed ≡ true → is_towflight f ≡ false → id_valid f.launch_method_id ≡ true)
        × (f.departed ≡ false → ltb_ℤ (pos 0) f.num_landings ≡ false)

  abbrev pub AreLocationsInOrder : Flight DateTime → Type 0
  AreLocationsInOrder f =
      ((f.departed || not (departs_here f)) ≡ true → is_none f.departure_location ≡ false)
      × ((f.landed || not (lands_here f)) ≡ true → is_none f.landing_location ≡ false)

  abbrev pub IsTowflightInOrder :
      Bool → Option Plane → Option LaunchMethod → Flight DateTime → Type 0
  IsTowflightInOrder include towplane none f = Unit {0}
  IsTowflightInOrder include towplane (some l) f =
      (include && is_airtow l) ≡ true
      → ((f.towflight_landed || not (towflight_lands_here f)) ≡ true
          → is_none f.towflight_landing_location ≡ false)
        × (towplane_known l ≡ false
            → (id_valid f.towplane_id ≡ true)
              × (is_some_and towplane (λ p. category_eq p.category category_glider) ≡ false))

  copilot_errors-eq-nil :
      (settings : Settings) (f : Flight DateTime)
      → (copilot_errors settings f ≡ []) ↔ IsCopilotInOrder settings f
  unfolding copilot_errors check_person
  copilot_errors-eq-nil settings f = ground arith

  towpilot_errors-eq-nil :
      (settings : Settings) (launch_method : Option LaunchMethod) (f : Flight DateTime)
      → (towpilot_errors settings launch_method f ≡ []) ↔ IsTowpilotInOrder settings launch_method f
  unfolding towpilot_errors check_person
  towpilot_errors-eq-nil settings launch_method f = ground arith

  plane_errors-eq-nil :
      (plane : Option Plane) (launch_method : Option LaunchMethod) (f : Flight DateTime)
      → (plane_errors plane launch_method f ≡ [])
        ↔ ((id_valid f.plane_id ≡ true) × AreSeatsInOrder plane launch_method f)
  unfolding plane_errors
  plane_errors-eq-nil none launch_method f = ground arith
  plane_errors-eq-nil (some plane) launch_method f = ground arith

  status_errors-eq-nil : (f : Flight DateTime) → (status_errors f ≡ []) ↔ IsStatusInOrder f
  unfolding status_errors
  status_errors-eq-nil f = ground arith

  departure_errors-eq-nil : (f : Flight DateTime) → (departure_errors f ≡ []) ↔ IsDepartureInOrder f
  unfolding departure_errors
  departure_errors-eq-nil f = ground arith

  location_errors-eq-nil : (f : Flight DateTime) → (location_errors f ≡ []) ↔ AreLocationsInOrder f
  unfolding location_errors
  location_errors-eq-nil f = ground arith

  towflight_errors-eq-nil :
      (include : Bool) (towplane : Option Plane) (launch_method : Option LaunchMethod)
      (f : Flight DateTime)
      → (towflight_errors include towplane launch_method f ≡ [])
        ↔ IsTowflightInOrder include towplane launch_method f
  unfolding towflight_errors
  towflight_errors-eq-nil include towplane none f = ground arith
  towflight_errors-eq-nil include towplane (some l) f = ground arith

  -- What an accepted flight is like, section by section.
  pub record IsErrorFree (settings : Settings) (cache : Objects) (include : Bool)
      (f : Flight DateTime) : Type 0 where
    pub has_id : id_valid f.id ≡ true
    pub has_type : f.type ≢ type_none
    pub pilot :
        IsPersonInOrder settings f.pilot_id f.pilot_last_name f.pilot_first_name
          (is_some_and (get_launch_method cache f.launch_method_id) (λ l. l.person_required))
    pub copilot : IsCopilotInOrder settings f
    pub towpilot : IsTowpilotInOrder settings (get_launch_method cache f.launch_method_id) f
    pub has_plane : id_valid f.plane_id ≡ true
    pub seats :
        AreSeatsInOrder (get_plane cache f.plane_id) (get_launch_method cache f.launch_method_id) f
    pub status : IsStatusInOrder f
    pub departure : IsDepartureInOrder f
    pub landing : lands_here f ≡ true → f.landed ≡ true → f.num_landings ≢ pos 0
    pub locations : AreLocationsInOrder f
    pub towflight :
        IsTowflightInOrder include
          (get_plane cache f.towplane_id)
          (get_launch_method cache f.launch_method_id)
          f

  basic_errors-eq-nil :
      (f : Flight DateTime)
      → (basic_errors f ≡ []) ↔ ((id_valid f.id ≡ true) × (f.type ≢ type_none))
  unfolding basic_errors
  basic_errors-eq-nil f = ground arith

  landing_errors-eq-nil :
      (f : Flight DateTime)
      → (landing_errors f ≡ []) ↔ (lands_here f ≡ true → f.landed ≡ true → f.num_landings ≢ pos 0)
  unfolding landing_errors
  landing_errors-eq-nil f = ground arith

  module _ (settings : Settings) (cache : Objects) (include : Bool) (f : Flight DateTime) where
    eq-nil-IsErrorFree :
        get_errors_impl settings cache include f ≡ [] → IsErrorFree settings cache include f
    unfolding get_errors_impl pilot_errors
    eq-nil-IsErrorFree h =
        let l : Option LaunchMethod = get_launch_method cache f.launch_method_id in
        let (h0, r0) = append-eq-nil (basic_errors f) _ h in
        let (h1, r1) = append-eq-nil (pilot_errors settings l f) _ r0 in
        let (h2, r2) = append-eq-nil (copilot_errors settings f) _ r1 in
        let (h3, r3) = append-eq-nil (towpilot_errors settings l f) _ r2 in
        let (h4, r4) = append-eq-nil (plane_errors (get_plane cache f.plane_id) l f) _ r3 in
        let (h5, r5) = append-eq-nil (status_errors f) _ r4 in
        let (h6, r6) = append-eq-nil (departure_errors f) _ r5 in
        let (h7, r7) = append-eq-nil (landing_errors f) _ r6 in
        let (h8, h9) = append-eq-nil (location_errors f) _ r7 in
        record {
          has_id = ((basic_errors-eq-nil f).0 h0).0;
          has_type = ((basic_errors-eq-nil f).0 h0).1;
          pilot = (check_person-eq-nil settings _ _ _ _ _ _ _ _).0 h1;
          copilot = (copilot_errors-eq-nil settings f).0 h2;
          towpilot = (towpilot_errors-eq-nil settings l f).0 h3;
          has_plane = ((plane_errors-eq-nil _ l f).0 h4).0;
          seats = ((plane_errors-eq-nil _ l f).0 h4).1;
          status = (status_errors-eq-nil f).0 h5;
          departure = (departure_errors-eq-nil f).0 h6;
          landing = (landing_errors-eq-nil f).0 h7;
          locations = (location_errors-eq-nil f).0 h8;
          towflight = (towflight_errors-eq-nil include _ l f).0 h9;
        }

    IsErrorFree-eq-nil :
        IsErrorFree settings cache include f → get_errors_impl settings cache include f ≡ []
    unfolding get_errors_impl pilot_errors
    IsErrorFree-eq-nil e =
        let l : Option LaunchMethod = get_launch_method cache f.launch_method_id in
        nil-append ((basic_errors-eq-nil f).1 (e.has_id, e.has_type)) (
          nil-append ((check_person-eq-nil settings _ _ _ _ _ _ _ _).1 e.pilot) (
            nil-append ((copilot_errors-eq-nil settings f).1 e.copilot) (
              nil-append ((towpilot_errors-eq-nil settings l f).1 e.towpilot) (
                nil-append ((plane_errors-eq-nil _ l f).1 (e.has_plane, e.seats)) (
                  nil-append ((status_errors-eq-nil f).1 e.status) (
                    nil-append ((departure_errors-eq-nil f).1 e.departure) (
                      nil-append ((landing_errors-eq-nil f).1 e.landing) (
                        nil-append ((location_errors-eq-nil f).1 e.locations)
                          ((towflight_errors-eq-nil include _ l f).1 e.towflight)))))))))

  -- The error check reports nothing exactly on the flights that are in order in every respect that
  -- it looks at: identifier, type, pilot, copilot or supervisor where one is recorded, towpilot
  -- where one is recorded, plane, seats and glider rules, landings, order of times, launch method,
  -- locations and, if asked for, the towflight.
  pub get_errors_impl-eq-nil :
      (settings : Settings) (cache : Objects) (include : Bool) (f : Flight DateTime)
      → (get_errors_impl settings cache include f ≡ []) ↔ IsErrorFree settings cache include f
  get_errors_impl-eq-nil settings cache include f =
      (eq-nil-IsErrorFree settings cache include f, IsErrorFree-eq-nil settings cache include f)
