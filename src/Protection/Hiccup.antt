-- ===== src/Protection/Hiccup.antt =====
-- A tripped wrapper of Protection holds its trip for as long as the hiccup asks, and then retries.
use power_electronics_ai_sim.Base.{
  ◌≡◌, refl, ap, ◌∙◌, inl, inr, true, false, Option, some, List, [], ◌∷◌, Result, ok, err,
  Result-cases, arith,
}
use power_electronics_ai_sim.Number.{Number, Laws}
use power_electronics_ai_sim.Contracts.{Payload}
use power_electronics_ai_sim.Protection.{
  normal, tripped, ProtectionError, ProtectionPolicy, Protection, Sample, Readings, Inner, readings,
  act, delegate, trip_request, observe, observe_all,
}
use power_electronics_ai_sim.Protection.Tripping.{
  Holds, unreadable, trip_duty, AllHold, readings-now_finite, trip_request-ok, observe-ok,
  observe-err,
}

module _ {num : Number} (as_float : Payload num.Value → Option num.Value)
    (policy : ProtectionPolicy num) where
  open num use {Value, le, plus}

  -- The time held after one more sample: a sample that cannot be read adds nothing.
  abbrev held_by : Value → Result ProtectionError (Readings num) → Value
  held_by held (ok r) = plus held r.period
  held_by held (err e) = held

  unfoldable pub held_after : Value → List (Sample num) → Value
  held_after held [] = held
  held_after held (s ∷ ss) = held_after (held_by held (readings num as_float policy s)) ss

  -- The time held stays below `hiccup` at each of the samples.
  unfoldable pub Waits : Value → Value → List (Sample num) → Type 0
  Waits hiccup held [] = Unit
  Waits hiccup held (s ∷ ss) =
      ((r : Readings num)
        → readings num as_float policy s ≡ ok r
        → le hiccup (plus held r.period) ≡ false)
      × Waits hiccup (held_by held (readings num as_float policy s)) ss

module _ {num : Number} {S : Type 0} (laws : Laws num)
    (as_float : Payload num.Value → Option num.Value) (policy : ProtectionPolicy num)
    (inner : Inner num S) where
  open num use {Value, is_finite, le, plus, nought}

  act_held :
      (hiccup : Value) (s : Sample num) (r : Readings num) (p : Protection num) (i : S)
      → policy.hiccup_s ≡ some hiccup
      → le hiccup (plus p.elapsed_s r.period) ≡ false
      → act num policy inner s r tripped p i ≡ (
        trip_request num policy r.now (record p { elapsed_s = plus p.elapsed_s r.period }),
        record p { elapsed_s = plus p.elapsed_s r.period },
        i,
      )
  unfolding act
  act_held hiccup s r p i hh early = ground arith

  act_retry :
      (hiccup : Value) (s : Sample num) (r : Readings num) (p : Protection num) (i : S)
      → policy.hiccup_s ≡ some hiccup
      → le hiccup (plus p.elapsed_s r.period) ≡ true
      → act num policy inner s r tripped p i
        ≡ delegate num inner s (record p { state = normal; elapsed_s = nought }) i
  unfolding act
  act_retry hiccup s r p i hh due = ground arith

  -- One sample at which the hiccup is not over.
  observe_held :
      is_finite policy.trip_duty ≡ true
      → (hiccup : Value) → policy.hiccup_s ≡ some hiccup
      → (s : Sample num) (p : Protection num) (i : S) → p.state ≡ tripped
      → ((r : Readings num)
          → readings num as_float policy s ≡ ok r
          → le hiccup (plus p.elapsed_s r.period) ≡ false)
      → Holds as_float policy s (observe num as_float policy inner s p i).0
        × ((observe num as_float policy inner s p i).1 ≡ record p {
          elapsed_s = held_by as_float policy p.elapsed_s (readings num as_float policy s);
        })
        × ((observe num as_float policy inner s p i).2 ≡ i)
  observe_held fd hiccup hh s p i h waits = elim (Result-cases (readings num as_float policy s)) [
    | inl (e, he) ↦
        let same = observe-err as_float policy inner s p i he in
        (unreadable e he (ap (λ x. x.0) same), rw he (ap (λ x. x.1) same), ap (λ x. x.2) same)
    | inr (r, hr) ↦
        let held : Protection num = record p { elapsed_s = plus p.elapsed_s r.period } in
        let now_finite = readings-now_finite num as_float policy s r hr in
        let (q, hq, hd) = trip_request-ok num laws policy r.now held fd now_finite in
        let same =
          observe-ok as_float policy inner s p i hr h ∙ act_held hiccup s r p i hh (waits r hr) in
        (
          trip_duty r q hr (ap (λ x. x.0) same ∙ hq) hd,
          rw hr (ap (λ x. x.1) same),
          ap (λ x. x.2) same,
        )
  ]

  -- With a finite trip duty and a hiccup, from a tripped wrapper: over any samples at which the
  -- time held stays below the hiccup, every call returns the trip duty (or, for a sample that cannot
  -- be read, raises the error of reading it), the inner controller is not run, and the wrapper
  -- changes only in the time held. At the next readable sample that brings the time held up to the
  -- hiccup, the call runs the inner controller, in state `normal` with the time held reset.
  pub hiccup_retries :
      is_finite policy.trip_duty ≡ true
      → (hiccup : Value) → policy.hiccup_s ≡ some hiccup
      → (ss : List (Sample num)) (p : Protection num) (i : S) (s : Sample num) (r : Readings num)
      → p.state ≡ tripped
      → Waits as_float policy hiccup p.elapsed_s ss
      → readings num as_float policy s ≡ ok r
      → le hiccup (plus (held_after as_float policy p.elapsed_s ss) r.period) ≡ true
      → let (results, p', i') = observe_all num as_float policy inner ss p i in
        AllHold as_float policy ss results
        × (p' ≡ record p { elapsed_s = held_after as_float policy p.elapsed_s ss })
        × (i' ≡ i)
        × (observe num as_float policy inner s p' i'
            ≡ delegate num inner s (record p { state = normal; elapsed_s = nought }) i)
  unfolding observe_all AllHold held_after Waits
  hiccup_retries fd hiccup hh [] p i s r h waits hr due = (
    tt,
    refl,
    refl,
    observe-ok as_float policy inner s p i hr h ∙ act_retry hiccup s r p i hh due,
  )
  hiccup_retries fd hiccup hh (x ∷ ss) p i s r h waits hr due =
      let held = held_by as_float policy p.elapsed_s (readings num as_float policy x) in
      let (first, hp, hi) = observe_held fd hiccup hh x p i h waits.0 in
      let rest =
        hiccup_retries fd hiccup hh ss (record p { elapsed_s = held }) i s r h waits.1 hr due in
      rw (hp, hi) ((first, rest.0), rest.1, rest.2, rest.3)
