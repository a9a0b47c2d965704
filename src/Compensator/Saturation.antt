-- ===== src/Compensator/Saturation.antt =====
-- What one call of a Compensator's `observe` does: it answers with a limited output that it stores, or
-- it raises and stores nothing.
use power_electronics_ai_sim.Base.{
  ◌≡◌, refl, sym, ap, ◌⊎◌, Option, none, some, List, [], ◌∷◌, arith, Result, ok, err, Result-cases,
  inl, inr, true, false,
}
use power_electronics_ai_sim.Number.{Number, Laws, InRange}
use power_electronics_ai_sim.Number.Order.{lt_irrefl, clamp-InRange, clamp-finite}
use power_electronics_ai_sim.Contracts.{Payload, ActionRequest, action_request}
use power_electronics_ai_sim.Compensator.{
  CompensatorError, Limits, Compensator, DelayLine, Sample, Inputs, inputs, finite_output, limited,
  shift, request, state_update, store, observe,
}
use power_electronics_ai_sim.Compensator.Histories.{IsCompensator}

module _ {num : Number} (laws : Laws num) where
  open num use {Value, is_finite, lt, le, minus}

  pub limited-finite :
      (c : Compensator num) (output : Value)
      → IsCompensator c
      → is_finite output ≡ true
      → is_finite (limited num c.limits output) ≡ true
  limited-finite c output v f = go c.limits refl
    where
      go : (o : Option (Limits num)) → c.limits ≡ o → is_finite (limited num o output) ≡ true
      go none e = f
      go (some l) e =
          let (low, high, _) = v.ordered l e in
          clamp-finite num l.output_min l.output_max output low high f

  request-ok :
      (now applied : Value) (h : DelayLine num)
      → is_finite now ≡ true
      → is_finite applied ≡ true
      → (q : ActionRequest num) × (request num now applied h ≡ ok q) × (q.value ≡ applied)
  unfolding request action_request
  request-ok now applied h fn fa =
      let irr : lt now now ≡ false = lt_irrefl num laws now fn in
      (
        record {
          value = applied;
          unit = "normalized";
          produced_time_s = now;
          target_time_s = now;
          diagnostics = [];
          state_update = some (state_update num h applied);
        },
        rw (fa, fn, irr),
        refl,
      )

  inputs-finite :
      (as_float : Payload Value → Option Value) (c : Compensator num) (s : Sample num)
      (n : Inputs num)
      → inputs num as_float c s ≡ ok n
      → is_finite n.now ≡ true
  unfolding inputs
  inputs-finite as_float c s n h = ground arith

  pub finite_output-finite :
      (c : Compensator num) (error : Value) (xs ys : List Value) (output : Value)
      → finite_output num c error xs ys ≡ ok output
      → is_finite output ≡ true
  unfolding finite_output
  finite_output-finite c error xs ys output h = ground arith

  -- The two ways in which a call of `observe` ends.
  pub data Observed (as_float : Payload Value → Option Value) (c : Compensator num) (s : Sample num)
      (h : DelayLine num) (outcome : Result CompensatorError (ActionRequest num) × DelayLine num)
      : Type 0 where
    raised : (e : CompensatorError) → outcome ≡ (err e, h) → Observed as_float c s h outcome
    answered :
        (n : Inputs num) (output : Value) (q : ActionRequest num)
        → inputs num as_float c s ≡ ok n
        → finite_output num c (minus n.vref n.measured) h.x_history h.y_history ≡ ok output
        → q.value ≡ limited num c.limits output
        → outcome ≡ (ok q, shift num (minus n.vref n.measured) (limited num c.limits output) h)
        → Observed as_float c s h outcome

  pub observe-Observed :
      (as_float : Payload Value → Option Value) (c : Compensator num) (s : Sample num)
      (h : DelayLine num)
      → IsCompensator c
      → Observed as_float c s h (observe num as_float c s h)
  unfolding observe
  observe-Observed as_float c s h v = elim (Result-cases (inputs num as_float c s)) [
    | inl (e, he) ↦ raised e (rw (observe, he))
    | inr (n, hn) ↦
        let error = minus n.vref n.measured in
        elim (Result-cases (finite_output num c error h.x_history h.y_history)) [
          | inl (e, he) ↦ raised e (rw (observe, hn, he))
          | inr (output, ho) ↦
              let applied = limited num c.limits output in
              let fo = finite_output-finite c error h.x_history h.y_history output ho in
              let (q, hq, value) =
                request-ok n.now applied (shift num error applied h)
                  (inputs-finite as_float c s n hn) (limited-finite c output v fo) in
              answered n output q hn ho value (rw (observe, hn, ho, store, hq))
        ]
  ]

  -- The first of a list is `v`.
  abbrev pub IsFirst : Value → List Value → Type 0
  IsFirst v [] = ⊥
  IsFirst v (x ∷ xs) = x ≡ v

  answered-InRange :
      (c : Compensator num) (l : Limits num) (output : Value)
      → IsCompensator c
      → c.limits ≡ some l
      → is_finite output ≡ true
      → InRange num l.output_min l.output_max (limited num c.limits output)
  answered-InRange c l output v has f =
      let (low, high, ordered) = v.ordered l has in
      let not_above = laws.lt_not_le l.output_min l.output_max low high in
      let le_of_lt : le l.output_min l.output_max ≡ true =
        ground (arith, laws.le_total l.output_max l.output_min high low, not_above) in
      rw has (clamp-InRange num laws l.output_min l.output_max output low high f le_of_lt)

  -- Between the limits, where there are limits
  abbrev pub InLimits : Option (Limits num) → Value → Type 0
  InLimits none v = Unit
  InLimits (some l) v = InRange num l.output_min l.output_max v

  answered-InLimits :
      (c : Compensator num) (o : Option (Limits num)) (output : Value)
      → IsCompensator c
      → c.limits ≡ o
      → is_finite output ≡ true
      → InLimits o (limited num c.limits output)
  answered-InLimits c none output v has f = tt
  answered-InLimits c (some l) output v has f = answered-InRange c l output v has f

  -- Of a constructed compensator, `observe` either raises and leaves the delay line as it was, or it
  -- answers with a finite value that lies between the limits, where there are limits, and that is
  -- stored as the newest output.
  pub observe_saturates :
      (as_float : Payload Value → Option Value) (c : Compensator num) (s : Sample num)
      (h : DelayLine num)
      → IsCompensator c
      → ((e : CompensatorError) × (observe num as_float c s h ≡ (err e, h)))
        ⊎ ((q : ActionRequest num) × ((observe num as_float c s h).0 ≡ ok q)
            × (is_finite q.value ≡ true)
            × InLimits c.limits q.value
            × IsFirst q.value (observe num as_float c s h).1.y_history)
  observe_saturates as_float c s h v = go (observe-Observed as_float c s h v)
    where
      go :
          Observed as_float c s h (observe num as_float c s h)
          → ((e : CompensatorError) × (observe num as_float c s h ≡ (err e, h)))
            ⊎ ((q : ActionRequest num) × ((observe num as_float c s h).0 ≡ ok q)
                × (is_finite q.value ≡ true)
                × InLimits c.limits q.value
                × IsFirst q.value (observe num as_float c s h).1.y_history)
      go (raised e same) = inl (e, same)
      go (answered n output q hn ho value same) =
          let f =
            finite_output-finite c (minus n.vref n.measured) h.x_history h.y_history output ho in
          inr (
            q,
            ap (λ x. x.0) same,
            rw value (limited-finite c output v f),
            rw value (answered-InLimits c c.limits output v refl f),
            rw same (sym value),
          )
