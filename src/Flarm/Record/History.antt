-- ===== src/Flarm/Record/History.antt =====
-- The positions that a FLARM record (src/flarm/FlarmRecord.cpp) keeps, newest first.
use startkladde.Prelude.{
  ℕ, zero, suc, ◌+◌, ◌-◌, ◌≤◌, ◌<◌, ltb, ltb→lt, Bool-cases, inl, inr, false, ◌≡◌, refl, ap, ◌∙◌,
  sym, List, [], ◌∷◌, arith,
}
use startkladde.Prelude.Int.{ℤ}
use startkladde.Prelude.Lists.{length, take}
use startkladde.Flarm.Record.{
  FlarmState, state_unknown, state_on_ground, state_starting, state_flying, state_flying_far,
  state_landing, FlightSituation, ground_situation, low_situation, flying_situation, Sentence,
  FlarmRecord, new, transition_from, state_transition, is_plausible, get_situation,
  process_pflaa_sentence, keepalive_timeout, keepalive_from, landing_timeout, remove_last,
  truncate_from, read_sentence,
}
use startkladde.Flarm.Record.Updown.{
  Input, sentence, set_category, keepalive, landing_over, step, run,
}

length-remove_last {ℓ} : {A : Type ℓ} (xs : List A) → length (remove_last xs) ≡ length xs - 1
length-remove_last [] = refl
length-remove_last (x ∷ []) = refl
length-remove_last (x ∷ y ∷ xs) = omega (arith, length-remove_last (y ∷ xs))

take-remove_last {ℓ} :
    {A : Type ℓ} (n : ℕ) (xs : List A) → n < length xs → take n (remove_last xs) ≡ take n xs
take-remove_last zero xs h = refl
take-remove_last (suc n) [] h = elim h [ ]
take-remove_last (suc n) (x ∷ []) h = ground arith
take-remove_last (suc n) (x ∷ y ∷ xs) h =
    ap (λ ys. x ∷ ys) (take-remove_last n (y ∷ xs) (omega arith))

take-short {ℓ} : {A : Type ℓ} (n : ℕ) (xs : List A) → length xs ≤ n → take n xs ≡ xs
take-short zero [] h = refl
take-short zero (x ∷ xs) h = elim h [ ]
take-short (suc n) [] h = refl
take-short (suc n) (x ∷ xs) h = ap (λ ys. x ∷ ys) (take-short n xs (omega arith))

take-take {ℓ} : {A : Type ℓ} (m n : ℕ) (xs : List A) → m ≤ n → take m (take n xs) ≡ take m xs
take-take zero n xs h = refl
take-take (suc m) zero xs h = elim h [ ]
take-take (suc m) (suc n) [] h = refl
take-take (suc m) (suc n) (x ∷ xs) h = ap (λ ys. x ∷ ys) (take-take m n xs (omega arith))

length-take {ℓ} : {A : Type ℓ} (n : ℕ) (xs : List A) → length (take n xs) ≤ n
length-take zero xs = omega arith
length-take (suc n) [] = omega arith
length-take (suc n) (x ∷ xs) = omega (arith, length-take n xs)

truncate_from-short {ℓ} :
    {A : Type ℓ} (fuel i : ℕ) (xs : List A) → length xs ≤ i + 20 → truncate_from fuel i xs ≡ xs
unfolding truncate_from
truncate_from-short zero i xs h = refl
truncate_from-short (suc fuel) i xs h = ground arith

-- The loop keeps 20 of at most 21 positions.
truncate_from_lem {ℓ} :
    {A : Type ℓ} (xs : List A) → length xs ≤ 21 → truncate_from (length xs) 0 xs ≡ take 20 xs
unfolding truncate_from
truncate_from_lem [] h = refl
truncate_from_lem (x ∷ xs) h = elim (Bool-cases (ltb 20 (suc (length xs)))) [
  | inl e ↦ rw e (
      truncate_from-short (length xs) 1 (remove_last (x ∷ xs))
        (omega (arith, length-remove_last (x ∷ xs), ltb→lt 20 (suc (length xs)) e))
      ∙ sym (take-short 20 (remove_last (x ∷ xs)) (omega (arith, length-remove_last (x ∷ xs))))
      ∙ take-remove_last 20 (x ∷ xs) (ltb→lt 20 (suc (length xs)) e))
  | inr e ↦ rw e (sym (take-short 20 (x ∷ xs) (ground arith)))
]

abbrev pub see : Input → List (ℤ × ℤ) → List (ℤ × ℤ)
see (sentence s) ps = (s.relative_east, s.relative_north) ∷ ps
see other ps = ps

-- The positions of the sentences, newest first, before those of `ps`.
abbrev pub seen : List Input → List (ℤ × ℤ) → List (ℤ × ℤ)
seen [] ps = ps
seen (i ∷ inputs) ps = seen inputs (see i ps)

read_sentence-history :
    (s : Sentence) (r : FlarmRecord) (ps : List (ℤ × ℤ))
    → r.previous_relative_positions ≡ take 20 ps
    → (read_sentence s r).previous_relative_positions
      ≡ take 20 ((s.relative_east, s.relative_north) ∷ ps)
unfolding read_sentence
read_sentence-history s r ps h =
    let p : ℤ × ℤ = (s.relative_east, s.relative_north) in
    truncate_from_lem (p ∷ r.previous_relative_positions) (rw h (omega (arith, length-take 20 ps)))
    ∙ ap (λ xs. p ∷ xs) (ap (take 19) h ∙ take-take 19 20 ps (omega arith))

module _ (range : ℤ) where
  transition_from-history :
      (s : FlarmState) (e : FlightSituation) (r : FlarmRecord)
      → (transition_from s e range r).0.previous_relative_positions ≡ r.previous_relative_positions
  unfolding transition_from
  transition_from-history state_unknown ground_situation r = ground arith
  transition_from-history state_unknown low_situation r = ground arith
  transition_from-history state_unknown flying_situation r = ground arith
  transition_from-history state_on_ground ground_situation r = ground arith
  transition_from-history state_on_ground low_situation r = ground arith
  transition_from-history state_on_ground flying_situation r = ground arith
  transition_from-history state_starting ground_situation r = ground arith
  transition_from-history state_starting low_situation r = ground arith
  transition_from-history state_starting flying_situation r = ground arith
  transition_from-history state_flying ground_situation r = ground arith
  transition_from-history state_flying low_situation r = ground arith
  transition_from-history state_flying flying_situation r = ground arith
  transition_from-history state_flying_far ground_situation r = ground arith
  transition_from-history state_flying_far low_situation r = ground arith
  transition_from-history state_flying_far flying_situation r = ground arith
  transition_from-history state_landing ground_situation r = ground arith
  transition_from-history state_landing low_situation r = ground arith
  transition_from-history state_landing flying_situation r = ground arith

  keepalive_from-history :
      (s : FlarmState) (r : FlarmRecord)
      → (keepalive_from s range r).0.previous_relative_positions ≡ r.previous_relative_positions
  keepalive_from-history state_unknown r = refl
  keepalive_from-history state_on_ground r = refl
  keepalive_from-history state_starting r = refl
  keepalive_from-history state_flying r = refl
  keepalive_from-history state_flying_far r = refl
  keepalive_from-history state_landing r = refl

  step-history :
      (i : Input) (r : FlarmRecord) (ps : List (ℤ × ℤ))
      → r.previous_relative_positions ≡ take 20 ps
      → (step range i r).0.previous_relative_positions ≡ take 20 (see i ps)
  unfolding process_pflaa_sentence state_transition keepalive_timeout landing_timeout
  step-history (sentence s) r ps h =
      let read = read_sentence-history s r ps h in
      let kept =
        transition_from-history (read_sentence s r).state (get_situation (read_sentence s r))
          (read_sentence s r) in
      elim (Bool-cases (is_plausible (read_sentence s r))) [
        | inl e ↦ rw e (kept ∙ read)
        | inr e ↦ rw e read
      ]
  step-history (set_category c) r ps h = h
  step-history keepalive r ps h =
      keepalive_from-history r.state (record r { keepalive_timer = false }) ∙ h
  step-history landing_over r ps h = ground arith

  run-history :
      (inputs : List Input) (r : FlarmRecord) (ps : List (ℤ × ℤ))
      → r.previous_relative_positions ≡ take 20 ps
      → (run range inputs r).0.previous_relative_positions ≡ take 20 (seen inputs ps)
  run-history [] r ps h = h
  run-history (i ∷ inputs) r ps h =
      run-history inputs (step range i r).0 (see i ps) (step-history i r ps h)

  -- Whatever happens to a new record, the positions that it keeps are the newest 20 of those that
  -- the sentences gave it (all of them, when there are fewer), newest first; so it never keeps more
  -- than 20.
  pub run_keeps_newest :
      (inputs : List Input)
      → ((run range inputs new).0.previous_relative_positions ≡ take 20 (seen inputs []))
        × length (run range inputs new).0.previous_relative_positions ≤ 20
  run_keeps_newest inputs =
      let e = run-history inputs new [] refl in (e, rw e (length-take 20 (seen inputs [])))
