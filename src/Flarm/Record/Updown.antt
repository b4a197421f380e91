-- ===== src/Flarm/Record/Updown.antt =====
-- A FLARM record (src/flarm/FlarmRecord.cpp) beside an aircraft that is down or up.
use startkladde.Prelude.{
  Bool, true, false, not, ◌&&◌, ◌||◌, ◌≡◌, refl, ◌∙◌, List, [], ◌∷◌, ◌++◌, Option, none, some,
  arith, Option-cases, inl, inr,
}
use startkladde.Prelude.Int.{ℤ, pos, ltb_ℤ}
use startkladde.Model.Plane.{Category}
use startkladde.Flarm.Record.{
  FlarmState, state_unknown, state_on_ground, state_starting, state_flying, state_flying_far,
  state_landing, FlightSituation, ground_situation, low_situation, flying_situation, Signal,
  departure_detected, landing_detected, touch_and_go_detected, remove, Sentence, FlarmRecord,
  general_filter_match, detected, transition_from, state_transition, get_situation, read_sentence,
  process_pflaa_sentence, keepalive_timeout, keepalive_from, landing_timeout,
}

-- What a signal does to an aircraft that is up or not; `none` where the signal is out of place. A
-- departure is of an aircraft that is down, a landing or a touch-and-go of one that is up.
abbrev pub follow : Bool → Signal → Option Bool
follow false departure_detected = some true
follow true departure_detected = none
follow true landing_detected = some false
follow false landing_detected = none
follow true touch_and_go_detected = some true
follow false touch_and_go_detected = none
follow up remove = some up

abbrev pub follow_all : Bool → List Signal → Option Bool
follow_all up [] = some up
follow_all up (signal ∷ signals) = elim (follow up signal) [
  | none ↦ none
  | some up' ↦ follow_all up' signals
]

abbrev pub is_on_ground : FlarmState → Bool
is_on_ground state_on_ground = true
is_on_ground other = false

abbrev pub is_known : FlarmState → Bool
is_known state_unknown = false
is_known other = true

-- Up is every state but on ground; on ground, an aircraft whose landing timer runs counts as up
-- until the landing is told.
abbrev pub is_up : FlarmRecord → Bool
is_up r = not (is_on_ground r.state) || r.landing_timer

-- The state is known, and the landing timer runs on the ground only.
pub record IsTracked (r : FlarmRecord) : Type 0 where
  pub known : is_known r.state ≡ true
  pub timer : (r.landing_timer && not (is_on_ground r.state)) ≡ false

-- What can happen to a record; the landing timer only times out while it runs.
pub data Input : Type 0 where
  sentence : Sentence → Input
  set_category : Category → Input
  keepalive landing_over : Input

abbrev landing_over_if : Bool → ℤ → FlarmRecord → FlarmRecord × List Signal
landing_over_if true range r = landing_timeout range r
landing_over_if false range r = (r, [])

abbrev pub step : ℤ → Input → FlarmRecord → FlarmRecord × List Signal
step range (sentence s) r = process_pflaa_sentence range s r
step range (set_category c) r = (record r { category = c }, [])
step range keepalive r = keepalive_timeout range r
step range landing_over r = landing_over_if r.landing_timer range r

abbrev pub run : ℤ → List Input → FlarmRecord → FlarmRecord × List Signal
run range [] r = (r, [])
run range (i ∷ is) r =
    let (r', signals) = step range i r in
    let (r'', more) = run range is r' in (r'', signals ++ more)

follow_all-append :
    (up up' : Bool) (xs ys : List Signal)
    → follow_all up xs ≡ some up'
    → follow_all up (xs ++ ys) ≡ follow_all up' ys
follow_all-append up up' [] ys h = ground arith
follow_all-append up up' (x ∷ xs) ys h = elim (Option-cases (follow up x)) [
  | inl e ↦ grind arith
  | inr (u, e) ↦ let rest = follow_all-append u up' xs ys (grind arith) in grind arith
]

module _ (range : ℤ) (everywhere : ltb_ℤ (pos 0) range ≡ false) where
  -- Without a range every signal is sent.
  pub detected_all : (signal : Signal) (r : FlarmRecord) → detected range signal r ≡ signal ∷ []
  unfolding detected general_filter_match
  detected_all signal r = ground arith

  -- One step keeps a record tracked, and its signals lead from the old to the new.
  abbrev Follows : FlarmRecord → FlarmRecord × List Signal → Type 0
  Follows r reply = IsTracked reply.0 × (follow_all (is_up r) reply.1 ≡ some (is_up reply.0))

  transition_from-Follows :
      (s : FlarmState) (e : FlightSituation) (r : FlarmRecord)
      → r.state ≡ s
      → IsTracked r
      → Follows r (transition_from s e range r)
  unfolding transition_from
  transition_from-Follows state_unknown ground_situation r h t = ground arith
  transition_from-Follows state_unknown low_situation r h t = ground arith
  transition_from-Follows state_unknown flying_situation r h t = ground arith
  transition_from-Follows state_on_ground ground_situation r h t = (t, refl)
  transition_from-Follows state_on_ground low_situation r h t = grind (arith, detected_all)
  transition_from-Follows state_on_ground flying_situation r h t = grind (arith, detected_all)
  transition_from-Follows state_starting ground_situation r h t = grind (arith, detected_all)
  transition_from-Follows state_starting low_situation r h t = (t, refl)
  transition_from-Follows state_starting flying_situation r h t = grind (arith, detected_all)
  transition_from-Follows state_flying ground_situation r h t = grind (arith, detected_all)
  transition_from-Follows state_flying low_situation r h t = grind (arith, detected_all)
  transition_from-Follows state_flying flying_situation r h t = (t, refl)
  transition_from-Follows state_flying_far ground_situation r h t = grind (arith, detected_all)
  transition_from-Follows state_flying_far low_situation r h t = grind (arith, detected_all)
  transition_from-Follows state_flying_far flying_situation r h t = grind (arith, detected_all)
  transition_from-Follows state_landing ground_situation r h t = grind (arith, detected_all)
  transition_from-Follows state_landing low_situation r h t = (t, refl)
  transition_from-Follows state_landing flying_situation r h t = grind (arith, detected_all)

  state_transition-Follows : (r : FlarmRecord) → IsTracked r → Follows r (state_transition range r)
  unfolding state_transition
  state_transition-Follows r t = transition_from-Follows r.state (get_situation r) r refl t

  -- Reading the values of a sentence changes neither the state nor the landing timer.
  read_sentence-IsTracked :
      (s : Sentence) (r : FlarmRecord)
      → IsTracked r
      → IsTracked (read_sentence s r) × (is_up (read_sentence s r) ≡ is_up r)
  unfolding read_sentence
  read_sentence-IsTracked s r t = (record { known = t.known; timer = t.timer }, refl)

  process_pflaa_sentence-Follows :
      (s : Sentence) (r : FlarmRecord) → IsTracked r → Follows r (process_pflaa_sentence range s r)
  unfolding process_pflaa_sentence
  process_pflaa_sentence-Follows s r t =
      let (t', e) = read_sentence-IsTracked s r t in
      let follows = state_transition-Follows (read_sentence s r) t' in grind arith

  keepalive_from-Follows :
      (s : FlarmState) (r : FlarmRecord)
      → r.state ≡ s
      → IsTracked r
      → Follows r (keepalive_from s range r)
  keepalive_from-Follows state_landing r h t = grind (arith, detected_all)
  keepalive_from-Follows state_flying r h t = grind arith
  keepalive_from-Follows state_unknown r h t = (t, refl)
  keepalive_from-Follows state_on_ground r h t = (t, refl)
  keepalive_from-Follows state_starting r h t = (t, refl)
  keepalive_from-Follows state_flying_far r h t = (t, refl)

  keepalive_timeout-Follows :
      (r : FlarmRecord) → IsTracked r → Follows r (keepalive_timeout range r)
  unfolding keepalive_timeout
  keepalive_timeout-Follows r t =
      let stopped = record r { keepalive_timer = false } in
      let (t', e) =
        keepalive_from-Follows r.state stopped refl (record { known = t.known; timer = t.timer }) in
      let reply = keepalive_from r.state range stopped in
      (t', follow_all-append (is_up r) (is_up reply.0) reply.1 (remove ∷ []) e)

  landing_over_if-Follows :
      (r : FlarmRecord) → IsTracked r → Follows r (landing_over_if r.landing_timer range r)
  unfolding landing_timeout
  landing_over_if-Follows r t = grind (arith, detected_all)

  step-Follows : (i : Input) (r : FlarmRecord) → IsTracked r → Follows r (step range i r)
  step-Follows (sentence s) r t = process_pflaa_sentence-Follows s r t
  step-Follows (set_category c) r t = (record { known = t.known; timer = t.timer }, refl)
  step-Follows keepalive r t = keepalive_timeout-Follows r t
  step-Follows landing_over r t = landing_over_if-Follows r t

  -- Without a range, whatever happens to a tracked record in whatever order, the signals that it
  -- sends are in order: a departure only while the aircraft is down, a landing or a touch-and-go
  -- only while it is up; at the end the aircraft is down or up as the last of them says, the state
  -- is known, and the landing timer runs on the ground only.
  pub run_refines :
      (inputs : List Input) (r : FlarmRecord)
      → IsTracked r
      → IsTracked (run range inputs r).0
        × (follow_all (is_up r) (run range inputs r).1 ≡ some (is_up (run range inputs r).0))
  run_refines [] r t = (t, refl)
  run_refines (i ∷ inputs) r t =
      let (r', signals) = step range i r in
      let (t', e) = step-Follows i r t in
      let (t'', rest) = run_refines inputs r' t' in
      (t'', follow_all-append (is_up r) (is_up r') signals (run range inputs r').1 e ∙ rest)
