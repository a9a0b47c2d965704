-- ===== src/Events/Delivery.antt =====
-- The numbering of run events, src/pe_sim/run_events.py, as a sink sees it.
use power_electronics_ai_sim.Base.{
  ℕ, zero, suc, ◌+◌, ◌≡◌, refl, Bool, true, false, Option, none, some, List, [], ◌∷◌, arith, str_eq,
  Bool-cases, Option-cases, inl, inr, Result, ok, err,
}
use power_electronics_ai_sim.Number.{Number}
use power_electronics_ai_sim.Events.{
  SinkAnswer, accepts, raises, interrupts, Sink, Emitter, Emission, RunEvent, emit, emit_all,
  new_emitter, counted, EventError, empty_event_name, interrupted, to_dict, payload_of,
}

-- The calls of a sink that end alike
abbrev pub one_if : SinkAnswer → SinkAnswer → ℕ
one_if accepts accepts = 1
one_if raises raises = 1
one_if interrupts interrupts = 1
one_if a b = 0

module _ {num : Number} where
  -- Events numbered from 0 up to the count, newest first.
  abbrev pub IsNumbered : ℕ → List (RunEvent num × SinkAnswer) → Type 0
  IsNumbered zero [] = Unit
  IsNumbered (suc n) (e ∷ es) = (e.0.sequence ≡ n) × IsNumbered n es
  IsNumbered n es = ⊥

  -- How often a sink answered alike
  abbrev pub answers : SinkAnswer → List (RunEvent num × SinkAnswer) → ℕ
  answers a [] = 0
  answers a (e ∷ es) = one_if a e.1 + answers a es

module _ {num : Number} {S : Type 0} where
  -- A sink that keeps each event that it is handed and how it answered, newest first.
  abbrev pub recording : Sink num S → Sink num (List (RunEvent num × SinkAnswer) × S)
  recording sink e (seen, s) = ((sink e s).0, ((e, (sink e s).0) ∷ seen, (sink e s).1))

  -- An emitter that agrees with what its recording sink has seen.
  pub record Agrees (sink : Sink num S) (e : Emitter num (List (RunEvent num × SinkAnswer) × S))
      (seen : List (RunEvent num × SinkAnswer)) : Type 0 where
    pub same_sink : e.sink ≡ some (recording sink)
    pub numbered : IsNumbered e.sequence seen
    pub accepted : e.delivered ≡ answers accepts seen
    pub refused : e.dropped ≡ answers raises seen
    pub accounted : e.sequence ≡ e.delivered + e.dropped + answers interrupts seen

  counted-Agrees :
      (sink : Sink num S) (e : Emitter num (List (RunEvent num × SinkAnswer) × S))
      (seen : List (RunEvent num × SinkAnswer)) (x : RunEvent num) (answer : SinkAnswer) (s : S)
      → Agrees sink e seen
      → x.sequence ≡ e.sequence
      → Agrees sink
          (counted num e (answer, ((x, answer) ∷ seen, s))).1
          (counted num e (answer, ((x, answer) ∷ seen, s))).2.0
  unfolding counted
  counted-Agrees sink e seen x accepts s k number = record {
    same_sink = k.same_sink;
    numbered = (number, k.numbered);
    accepted = omega (arith, k.accepted);
    refused = omega (arith, k.refused);
    accounted = omega (arith, k.accounted);
  }
  counted-Agrees sink e seen x raises s k number = record {
    same_sink = k.same_sink;
    numbered = (number, k.numbered);
    accepted = omega (arith, k.accepted);
    refused = omega (arith, k.refused);
    accounted = omega (arith, k.accounted);
  }
  counted-Agrees sink e seen x interrupts s k number = record {
    same_sink = k.same_sink;
    numbered = (number, k.numbered);
    accepted = omega (arith, k.accepted);
    refused = omega (arith, k.refused);
    accounted = omega (arith, k.accounted);
  }

  emit-Agrees :
      (sink : Sink num S) (m : Emission num)
      (e : Emitter num (List (RunEvent num × SinkAnswer) × S))
      (seen : List (RunEvent num × SinkAnswer)) (s : S)
      → Agrees sink e seen
      → Agrees sink (emit num m e (seen, s)).1 (emit num m e (seen, s)).2.0
  unfolding emit to_dict
  emit-Agrees sink m e seen s k = elim (Bool-cases (str_eq m.event "")) [
    | inl empty ↦ rw (emit, k.same_sink, empty) k
    | inr named ↦
        rw (emit, k.same_sink, named)
          (let x = payload_of num e m in
            counted-Agrees sink e seen x (sink x s).0 (sink x s).1 k refl)
  ]

  emit_all-Agrees :
      (sink : Sink num S) (ms : List (Emission num))
      (e : Emitter num (List (RunEvent num × SinkAnswer) × S))
      (seen : List (RunEvent num × SinkAnswer)) (s : S)
      → Agrees sink e seen
      → Agrees sink (emit_all num ms e (seen, s)).0 (emit_all num ms e (seen, s)).1.0
  emit_all-Agrees sink [] e seen s k = k
  emit_all-Agrees sink (m ∷ ms) e seen s k =
      let after = emit num m e (seen, s) in
      emit_all-Agrees sink ms after.1 after.2.0 after.2.1 (emit-Agrees sink m e seen s k)

  -- What the sink has seen is numbered up to `sequence`, and the counters count its answers.
  abbrev pub IsAccounted :
      Emitter num (List (RunEvent num × SinkAnswer) × S) × (List (RunEvent num × SinkAnswer) × S)
      → Type 0
  IsAccounted at =
      IsNumbered at.0.sequence at.1.0
      × (at.0.delivered ≡ answers accepts at.1.0)
      × (at.0.dropped ≡ answers raises at.1.0)
      × (at.0.sequence ≡ at.0.delivered + at.0.dropped + answers interrupts at.1.0)

  -- After any calls of `emit` on a new emitter, the events that its sink was handed, accepted or not,
  -- are numbered 0, 1, 2, … without a gap up to the emitter's `sequence`. `delivered` counts those
  -- that it accepted, `dropped` those at which it raised an `Exception`, and `sequence` is the sum of
  -- both and of those at which it raised what is no `Exception`.
  pub emit_all-numbered :
      (sink : Sink num S) (ms : List (Emission num)) (s : S)
      → IsAccounted (emit_all num ms (new_emitter num (some (recording sink))) ([], s))
  unfolding new_emitter
  emit_all-numbered sink ms s =
      let k = emit_all-Agrees sink ms (new_emitter num (some (recording sink))) [] s (record {
        same_sink = refl;
        numbered = tt;
        accepted = refl;
        refused = refl;
        accounted = refl;
      }) in
      (k.numbered, k.accepted, k.refused, k.accounted)

  -- What a call of the sink, by how it ended, makes of the emitter
  abbrev pub Counts : SinkAnswer → Emitter num S → Result EventError Bool → Emitter num S → Type 0
  Counts accepts e answer after =
      (answer ≡ ok true)
      × (after.sequence ≡ suc e.sequence)
      × (after.delivered ≡ suc e.delivered)
      × (after.dropped ≡ e.dropped)
  Counts raises e answer after =
      (answer ≡ ok false)
      × (after.sequence ≡ suc e.sequence)
      × (after.delivered ≡ e.delivered)
      × (after.dropped ≡ suc e.dropped)
  Counts interrupts e answer after =
      (answer ≡ err interrupted)
      × (after.sequence ≡ suc e.sequence)
      × (after.delivered ≡ e.delivered)
      × (after.dropped ≡ e.dropped)

  -- What `emit` answers, by the sink and whether the event's name is empty
  abbrev pub Answers :
      Option (Sink num S)
      → Bool
      → Emission num
      → Emitter num S
      → S
      → Result EventError Bool × Emitter num S × S
      → Type 0
  Answers none empty m e s outcome = outcome ≡ (ok false, e, s)
  Answers (some sink) true m e s outcome = outcome ≡ (err empty_event_name, e, s)
  Answers (some sink) false m e s outcome =
      let heard = sink (payload_of num e m) s in
      Counts heard.0 e outcome.0 outcome.1 × (outcome.1.sink ≡ some sink) × (outcome.2 ≡ heard.1)

  counted-Counts :
      (e : Emitter num S) (sink : Sink num S) (answer : SinkAnswer) (s : S)
      → e.sink ≡ some sink
      → Counts answer e (counted num e (answer, s)).0 (counted num e (answer, s)).1
        × ((counted num e (answer, s)).1.sink ≡ some sink)
        × ((counted num e (answer, s)).2 ≡ s)
  unfolding counted
  counted-Counts e sink accepts s found = ((refl, refl, refl, refl), found, refl)
  counted-Counts e sink raises s found = ((refl, refl, refl, refl), found, refl)
  counted-Counts e sink interrupts s found = ((refl, refl, refl, refl), found, refl)

  -- Without a sink `emit` answers false and changes nothing. With a sink it raises on an empty name,
  -- and changes nothing; otherwise it hands the event to the sink and has counted an attempt more:
  -- where the sink accepts, it answers true and has counted a delivery more, where the sink raises an
  -- `Exception`, it answers false and has counted a drop more, and where the sink raises anything
  -- else, that comes out and nothing more is counted.
  pub emit-Answers :
      (m : Emission num) (e : Emitter num S) (s : S)
      → Answers e.sink (str_eq m.event "") m e s (emit num m e s)
  unfolding emit to_dict
  emit-Answers m e s = elim (Option-cases e.sink) [
    | inl missing ↦ simp (missing, emit) refl
    | inr (sink, found) ↦ elim (Bool-cases (str_eq m.event "")) [
      | inl empty ↦ simp (found, empty, emit) refl
      | inr named ↦
          let heard = sink (payload_of num e m) s in
          simp (found, named, emit) (counted-Counts e sink heard.0 heard.1 found)
    ]
  ]
