-- ===== src/Examples/Flarm.antt =====
-- A motorglider that the FLARM receiver sees flying, landing and taxiing.
use startkladde.Prelude.{ℕ, ◌≡◌, refl, false, List, [], ◌∷◌, ◌++◌, map, some, ◌≤◌}
use startkladde.Prelude.Int.{pos, negsuc}
use startkladde.Prelude.Lists.{length, take}
use startkladde.Container.{nat_eq, value}
use startkladde.Model.Plane.{category_motorglider}
use startkladde.Flarm.Record.{
  state_on_ground, state_starting, FlarmRecord, Sentence, new, landing_detected, departure_detected,
  transition_from, state_transition, read_sentence, is_plausible, get_situation,
  process_pflaa_sentence, landing_timeout, touch_and_go_detected, remove, keepalive_timeout,
}
use startkladde.Flarm.Record.Updown.{
  Input, sentence, landing_over, keepalive, IsTracked, run, run_refines, follow_all, is_up,
}
use startkladde.Flarm.Record.Landing.{landing_is_told}
use startkladde.Flarm.Record.History.{seen, run_keeps_newest}
use startkladde.Flarm.FlarmList.{FlarmList}
use startkladde.Flarm.FlarmList.Consistency.{
  Change, seen_sentence, removal, IsConsistent, after_changes, after_changes-IsConsistent,
}

-- Sixty metres up, at 15 m/s.
abbrev cruise : Sentence
cruise = record {
  relative_north = pos 50;
  relative_east = negsuc 20;
  relative_vertical = pos 60;
  ground_speed = pos 15;
}

abbrev touchdown : Sentence
touchdown = record cruise {
  relative_north = pos 20;
  relative_vertical = pos 3;
  ground_speed = pos 1;
}

abbrev taxi : Sentence
taxi = record touchdown { relative_north = pos 10 }

abbrev take_off : Sentence
take_off = record touchdown { ground_speed = pos 20 }

abbrev standing : FlarmRecord
standing = record new { state = state_on_ground; category = category_motorglider }

abbrev flying : FlarmRecord
flying = record standing {
  state = state_starting;
  ground_speed = pos 15;
  last_ground_speed = pos 15;
  relative_altitude = pos 60;
}

standing-IsTracked : IsTracked standing
standing-IsTracked = record { known = refl; timer = refl }

flying-IsTracked : IsTracked flying
flying-IsTracked = record { known = refl; timer = refl }

-- A departure, a touch-and-go, a landing and the loss of the signal.
abbrev circuits : List Input
circuits =
    map sentence (take_off ∷ cruise ∷ touchdown ∷ taxi ∷ take_off ∷ cruise ∷ touchdown ∷ [])
    ++ landing_over ∷ keepalive ∷ []

run-circuits :
    (run (pos 0) circuits standing).1
    ≡ departure_detected ∷ touch_and_go_detected ∷ landing_detected ∷ remove ∷ []
unfolding process_pflaa_sentence read_sentence is_plausible state_transition transition_from
    get_situation landing_timeout keepalive_timeout
run-circuits = refl

run_refines_example :
    IsTracked (run (pos 0) circuits standing).0
    × (follow_all false (run (pos 0) circuits standing).1
        ≡ some (is_up (run (pos 0) circuits standing).0))
run_refines_example = run_refines (pos 0) refl circuits standing standing-IsTracked

landing_is_told_example :
    ((run (pos 0) (map sentence (touchdown ∷ taxi ∷ taxi ∷ []) ++ landing_over ∷ []) flying).1
      ≡ landing_detected ∷ [])
    × (is_up
          (run (pos 0) (map sentence (touchdown ∷ taxi ∷ taxi ∷ []) ++ landing_over ∷ []) flying).0
        ≡ false)
unfolding process_pflaa_sentence read_sentence is_plausible state_transition transition_from
    get_situation
landing_is_told_example =
    landing_is_told (pos 0) refl touchdown (taxi ∷ taxi ∷ []) flying flying-IsTracked refl refl refl

run_keeps_newest_example :
    ((run (pos 0) circuits new).0.previous_relative_positions ≡ take 20 (seen circuits []))
    × length (run (pos 0) circuits new).0.previous_relative_positions ≤ 20
run_keeps_newest_example = run_keeps_newest (pos 0) circuits

-- A list without records.
abbrev nothing_seen : FlarmList ℕ
nothing_seen = record { flarm_records = []; by_flarm_id = [] }

nothing_seen-IsConsistent : IsConsistent nothing_seen
unfolding value
nothing_seen-IsConsistent = record { rows = λ k. refl; unique = tt }

-- Two aircraft are seen, the first is lost, and the second goes on.
abbrev traffic : List (Change ℕ)
traffic = seen_sentence 7 cruise ∷ seen_sentence 8 taxi ∷ removal 7 ∷ seen_sentence 8 take_off ∷ []

after_changes-IsConsistent_example :
    IsConsistent (after_changes (pos 0) (λ id. some category_motorglider) traffic nothing_seen)
after_changes-IsConsistent_example =
    after_changes-IsConsistent (pos 0) (λ id. some category_motorglider) traffic nothing_seen
      nothing_seen-IsConsistent
