-- ===== src/Flarm/Record/Landing.antt =====
-- The landings that a FLARM record (src/flarm/FlarmRecord.cpp) tells of, and when.
use startkladde.Prelude.{
  Bool, true, false, not, ◌&&◌, ◌||◌, ◌≡◌, refl, ◌∙◌, List, [], ◌∷◌, ◌++◌, map, arith,
  if◌then◌else◌,
}
use mathlib.Core.List.{append-nil}
use startkladde.Prelude.Int.{ℤ, pos, ltb_ℤ}
use startkladde.Flarm.Record.{
  FlarmState, state_on_ground, state_starting, state_flying, state_flying_far, state_landing,
  FlightSituation, ground_situation, Signal, landing_detected, Sentence, FlarmRecord,
  transition_from, state_transition, is_plausible, get_situation, read_sentence,
  process_pflaa_sentence, landing_timeout,
}
use startkladde.Flarm.Record.Updown.{
  sentence, landing_over, is_on_ground, is_known, is_up, IsTracked, run, detected_all,
}

abbrev is_ground : FlightSituation → Bool
is_ground ground_situation = true
is_ground other = false

-- The sentence, read by the record, shows the aircraft on the ground.
abbrev shows_ground : Sentence → FlarmRecord → Bool
shows_ground s r = is_plausible (read_sentence s r) && is_ground (get_situation (read_sentence s r))

-- None of the sentences shows it off the ground; implausible ones show nothing.
abbrev pub stays_down : List Sentence → FlarmRecord → Bool
stays_down [] r = true
stays_down (s ∷ ss) r =
    (not (is_plausible (read_sentence s r)) || is_ground (get_situation (read_sentence s r)))
    && stays_down ss (read_sentence s r)

read_sentence-state : (s : Sentence) (r : FlarmRecord) → (read_sentence s r).state ≡ r.state
unfolding read_sentence
read_sentence-state s r = refl

read_sentence-landing_timer :
    (s : Sentence) (r : FlarmRecord) → (read_sentence s r).landing_timer ≡ r.landing_timer
unfolding read_sentence
read_sentence-landing_timer s r = refl

either-append :
    (b : Bool) (xs : List Signal) → (if b then [] else xs) ++ (if b then xs else []) ≡ xs
either-append true xs = refl
either-append false xs = append-nil xs

module _ (range : ℤ) (everywhere : ltb_ℤ (pos 0) range ≡ false) where
  transition_from-ground :
      (s : FlarmState) (e : FlightSituation) (r : FlarmRecord)
      → s ≡ state_on_ground
      → is_ground e ≡ true
      → transition_from s e range r ≡ (r, [])
  unfolding transition_from
  transition_from-ground state_on_ground ground_situation r h k = refl
  transition_from-ground s e r h k = ground arith

  state_transition-ground :
      (r : FlarmRecord)
      → r.state ≡ state_on_ground
      → is_ground (get_situation r) ≡ true
      → state_transition range r ≡ (r, [])
  unfolding state_transition
  state_transition-ground r h k = transition_from-ground r.state (get_situation r) r h k

  -- A sentence that does not show it off the ground changes only what is read of the sentence.
  process-down :
      (s : Sentence) (r : FlarmRecord)
      → r.state ≡ state_on_ground
      → (not (is_plausible (read_sentence s r)) || is_ground (get_situation (read_sentence s r)))
        ≡ true
      → process_pflaa_sentence range s r ≡ (read_sentence s r, [])
  unfolding process_pflaa_sentence
  process-down s r h k = grind (arith, state_transition-ground, read_sentence-state)

  run-down :
      (ss : List Sentence) (r : FlarmRecord) (timer : Bool)
      → r.state ≡ state_on_ground
      → r.landing_timer ≡ timer
      → stays_down ss r ≡ true
      → ((run range (map sentence ss ++ landing_over ∷ []) r).1
          ≡ (if timer then landing_detected ∷ [] else []))
        × (is_up (run range (map sentence ss ++ landing_over ∷ []) r).0 ≡ false)
  unfolding landing_timeout
  run-down [] r timer h l k = grind (arith, detected_all)
  run-down (s ∷ ss) r timer h l k =
      let e = process-down s r h (ground arith) in
      let state = read_sentence-state s r ∙ h in
      let landing_timer = read_sentence-landing_timer s r ∙ l in
      let (signals, down) =
        run-down ss (read_sentence s r) timer state landing_timer (ground arith) in
      (rw e signals, rw (e, run) down)

  -- Lands tells of the landing at once, or starts the timer.
  abbrev Lands : FlarmRecord × List Signal → Type 0
  Lands reply =
      (reply.0.state ≡ state_on_ground)
      × (reply.1 ≡ (if reply.0.landing_timer then [] else landing_detected ∷ []))

  transition_from-Lands :
      (s : FlarmState) (e : FlightSituation) (r : FlarmRecord)
      → is_known s ≡ true
      → is_on_ground s ≡ false
      → is_ground e ≡ true
      → r.landing_timer ≡ false
      → Lands (transition_from s e range r)
  unfolding transition_from
  transition_from-Lands state_starting ground_situation r h k l n = grind (arith, detected_all)
  transition_from-Lands state_flying ground_situation r h k l n = grind (arith, detected_all)
  transition_from-Lands state_flying_far ground_situation r h k l n = grind (arith, detected_all)
  transition_from-Lands state_landing ground_situation r h k l n = grind (arith, detected_all)
  transition_from-Lands s e r h k l n = ground arith

  process-Lands :
      (s : Sentence) (r : FlarmRecord)
      → IsTracked r
      → is_on_ground r.state ≡ false
      → shows_ground s r ≡ true
      → Lands (process_pflaa_sentence range s r)
  unfolding process_pflaa_sentence state_transition
  process-Lands s r t k l =
      let e = read_sentence-state s r in
      let n = read_sentence-landing_timer s r in
      let plausible : is_plausible (read_sentence s r) ≡ true = ground arith in
      let lands =
        transition_from-Lands (read_sentence s r).state (get_situation (read_sentence s r))
          (read_sentence s r) (rw e t.known) (rw e k) (ground arith) (n ∙ ground arith) in
      (rw plausible lands.0, rw plausible lands.1)

  -- Without a range, when a tracked aircraft is off the ground and a plausible sentence shows it on
  -- the ground, and no plausible one of those that follow shows it off the ground, then by the time
  -- the landing timer has run out exactly one landing has been told, and nothing else; the aircraft
  -- is down.
  pub landing_is_told :
      (s : Sentence) (ss : List Sentence) (r : FlarmRecord)
      → IsTracked r
      → is_on_ground r.state ≡ false
      → shows_ground s r ≡ true
      → stays_down ss (process_pflaa_sentence range s r).0 ≡ true
      → ((run range (map sentence (s ∷ ss) ++ landing_over ∷ []) r).1 ≡ landing_detected ∷ [])
        × (is_up (run range (map sentence (s ∷ ss) ++ landing_over ∷ []) r).0 ≡ false)
  landing_is_told s ss r t k l m =
      let (state, told) = process-Lands s r t k l in
      let r' = (process_pflaa_sentence range s r).0 in
      let (signals, down) = run-down ss r' r'.landing_timer state refl m in
      (rw (told, signals) (either-append r'.landing_timer (landing_detected ∷ [])), down)
