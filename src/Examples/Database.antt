-- ===== src/Examples/Database.antt =====
-- Flights in the memory server.
use startkladde.Prelude.{ℕ, ◌≡◌, refl, true, [], ◌∷◌, map}
use startkladde.Prelude.Lists.{filter}
use startkladde.Container.{string_eq, nat_eq, insert, remove}
use startkladde.Database.Sql.{zip, cell}
use startkladde.Database.{found, added, get_object, create_object}
use startkladde.Database.Objects.{create_object-get_object}
use startkladde.Database.Flights.{row_of, get_prepared_flights, get_prepared_flights_lem}
use startkladde.Flight.{Flight, is_prepared}
use startkladde.Flight.Row as Row
use startkladde.Flight.Row.{
  select_column_list, insert_column_list, bind_values, create_from_result, kept,
  create_from_result-bind_values,
}
use startkladde.Examples.Setting.{seconds, prepared, airborne}
use startkladde.Examples.Server.{
  stored_values, stored_values-IsFaithful, Memory, memory, memory-IsServer,
}

abbrev first_flight : Flight ℕ
first_flight = airborne 0 1000

-- The server with the first flight, whose identifier is 7.
abbrev after_first : Memory
after_first = (
  8,
  (
    7,
    ("id", stored_values.of_id 7) ∷ zip stored_values insert_column_list (bind_values first_flight),
  )
      ∷ [],
)

create_object-get_object_example :
    get_object memory Row.entity 7 after_first ≡ found (kept (record first_flight { id = 7 }))
unfolding create_object insert remove
create_object-get_object_example =
    create_object-get_object memory memory-IsServer Row.entity kept
      (Row.entity-IsEntity stored_values-IsFaithful) first_flight (7, []) after_first
      (record first_flight { id = 7 }) (added (record first_flight { id = 7 }) ∷ []) refl

-- It is landed in the database.
abbrev landed_flight : Flight ℕ
landed_flight = record first_flight { id = 7; landed = true; landing_time = 5000 }

abbrev after_landing : Memory
after_landing = (
  8,
  (
    7,
    ("id", stored_values.of_id 7)
        ∷ zip stored_values insert_column_list (bind_values landed_flight),
  )
      ∷ [],
)

create_from_result-bind_values_example :
    create_from_result (map (cell stored_values (row_of (7, landed_flight))) select_column_list)
    ≡ kept (record landed_flight { id = 7 })
create_from_result-bind_values_example =
    create_from_result-bind_values stored_values-IsFaithful 7 landed_flight

get_prepared_flights_lem_example :
    get_prepared_flights (map row_of ((7, landed_flight) ∷ (8, prepared 8) ∷ []))
    ≡ map
        (λ (p : ℕ × Flight ℕ). kept (record p.1 { id = p.0 }))
        (filter (λ (p : ℕ × Flight ℕ). is_prepared p.1) ((7, landed_flight) ∷ (8, prepared 8) ∷ []))
get_prepared_flights_lem_example =
    get_prepared_flights_lem stored_values-IsFaithful ((7, landed_flight) ∷ (8, prepared 8) ∷ [])
