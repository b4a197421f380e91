-- ===== src/Database/Flights.antt =====
-- Database::getPreparedFlights (src/db/Database.cpp), whose condition on the columns stands for
-- Flight::isPrepared.
use startkladde.Prelude.{
  ℕ, Bool, not, ◌&&◌, String, ◌≡◌, refl, ap, Bool-cases, inl, inr, List, [], ◌∷◌, map, arith,
  str_eq,
}
use startkladde.Prelude.Lists.{filter}
use startkladde.Container.{string_eq}
use startkladde.Qt.{Qt}
use startkladde.Database.Sql.{column, Values, IsFaithful, zip, cell}
use startkladde.Model.Mode.{Mode, mode_local, mode_coming, mode_leaving, mode_to_db, mode_eq}
use startkladde.Flight.{Flight, happened, is_prepared}
use startkladde.Flight.Row.{
  select_column_list, insert_column_list, bind_values, create_from_result, kept,
  create_from_result-bind_values,
}

-- Modes are compared by the texts that are stored for them.
str_eq-mode_to_db : (a b : Mode) → str_eq (mode_to_db a) (mode_to_db b) ≡ mode_eq a b
unfolding mode_to_db
str_eq-mode_to_db mode_local mode_local = refl
str_eq-mode_to_db mode_local mode_coming = refl
str_eq-mode_to_db mode_local mode_leaving = refl
str_eq-mode_to_db mode_coming mode_local = refl
str_eq-mode_to_db mode_coming mode_coming = refl
str_eq-mode_to_db mode_coming mode_leaving = refl
str_eq-mode_to_db mode_leaving mode_local = refl
str_eq-mode_to_db mode_leaving mode_coming = refl
str_eq-mode_to_db mode_leaving mode_leaving = refl

module _ ⦃q : Qt⦄ ⦃v : Values q⦄ where
  open q use {DateTime}
  open v use {Value, to_text, to_bool}

  -- !(mode=? AND !(departed=0 AND landed=0)) AND !(mode=? AND departed!=0)
  -- AND !(mode=? AND landed!=0), with the modes local, leaving and coming bound.
  unfoldable pub prepared_condition : List (String × Value) → Bool
  prepared_condition row =
      let mode = to_text (cell v row (column "mode")) in
      let departed = to_bool (cell v row (column "departed")) in
      let landed = to_bool (cell v row (column "landed")) in
      not (str_eq mode (mode_to_db mode_local) && not (not departed && not landed))
      && not (str_eq mode (mode_to_db mode_leaving) && departed)
      && not (str_eq mode (mode_to_db mode_coming) && landed)

  -- getObjects of the flights in the rows of the table that meet a condition
  abbrev get_objects :
      (List (String × Value) → Bool) → List (List (String × Value)) → List (Flight DateTime)
  get_objects condition rows =
      map (λ row. create_from_result (map (cell v row) select_column_list)) (filter condition rows)

  unfoldable pub get_prepared_flights : List (List (String × Value)) → List (Flight DateTime)
  unfolding prepared_condition
  get_prepared_flights rows = get_objects prepared_condition rows

  abbrev pub row_of : ℕ × Flight DateTime → List (String × Value)
  row_of (id, f) = ("id", v.of_id id) ∷ zip v insert_column_list (bind_values f)

  prepared_condition_lem :
      IsFaithful q v → (p : ℕ × Flight DateTime) → prepared_condition (row_of p) ≡ is_prepared p.1
  unfolding prepared_condition cell bind_values is_prepared happened
  prepared_condition_lem h (id, f) =
      rw
        (
          h.text (mode_to_db f.mode),
          h.bool f.departed,
          h.bool f.landed,
          str_eq-mode_to_db f.mode mode_local,
          str_eq-mode_to_db f.mode mode_leaving,
          str_eq-mode_to_db f.mode mode_coming,
        )
        (ground arith)

  -- For values that are read back as they were stored: of a table with the rows of some flights,
  -- getPreparedFlights reads exactly the flights that are prepared (that have neither departed nor
  -- landed here), in their order, each with the identifier of its row, its times in UTC and its
  -- caches empty.
  pub get_prepared_flights_lem :
      IsFaithful q v
      → (flights : List (ℕ × Flight DateTime))
      → get_prepared_flights (map row_of flights)
        ≡ map (λ p. kept (record p.1 { id = p.0 })) (filter (λ p. is_prepared p.1) flights)
  unfolding get_prepared_flights
  get_prepared_flights_lem h [] = refl
  get_prepared_flights_lem h (p ∷ flights) = elim (Bool-cases (is_prepared p.1)) [
    | inl e ↦
        rw (prepared_condition_lem h p, e, create_from_result-bind_values h p.0 p.1)
          (ap (λ fs. kept (record p.1 { id = p.0 }) ∷ fs) (get_prepared_flights_lem h flights))
    | inr e ↦ rw (prepared_condition_lem h p, e) (get_prepared_flights_lem h flights)
  ]
