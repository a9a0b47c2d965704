-- ===== src/Protection/Tripping.antt =====
-- What counts as a fault for the wrapper of Protection, and what its trip request is.
use power_electronics_ai_sim.Base.{
  ◌≡◌, refl, ap, ◌∙◌, ◌⊎◌, inl, inr, Bool-cases, Bool, true, false, not, ◌&&◌, ◌||◌, Option, none,
  some, List, [], ◌∷◌, Result, ok, err, arith,
}
use power_electronics_ai_sim.Number.{Number, Laws}
use power_electronics_ai_sim.Number.Order.{lt_irrefl}
use power_electronics_ai_sim.Contracts.{
  Payload, get, ActionRequest, action_request, flag, nothing, text, real, natural, negative, other,
}
use power_electronics_ai_sim.Protection.{
  State, ProtectionError, ProtectionPolicy, Protection, Sample, Readings, Inner, fault, at_least,
  at_most, finite_number, required_number, readings, trip_request, state_update, act, observe,
}

module _ (num : Number) where
  open num use {Value, is_finite, le, lt}

  pub finite_number-finite :
      (as_float : Payload Value → Option Value) (p : Payload Value) (v : Value)
      → finite_number num as_float p ≡ ok v
      → is_finite v ≡ true
  unfolding finite_number
  finite_number-finite as_float (flag b) v h = ground arith
  finite_number-finite as_float nothing v h = ground arith
  finite_number-finite as_float (text t) v h = ground arith
  finite_number-finite as_float (real t) v h = ground arith
  finite_number-finite as_float (natural t) v h = ground arith
  finite_number-finite as_float (negative t) v h = ground arith
  finite_number-finite as_float other v h = ground arith

  required_number-finite :
      (as_float : Payload Value → Option Value) (o : Option (Payload Value)) (v : Value)
      → required_number num as_float o ≡ ok v
      → is_finite v ≡ true
  unfolding required_number
  required_number-finite as_float none v h = ground arith
  required_number-finite as_float (some p) v h = finite_number-finite as_float p v h

  pub readings-now_finite :
      (as_float : Payload Value → Option Value) (policy : ProtectionPolicy num) (s : Sample num)
      (r : Readings num)
      → readings num as_float policy s ≡ ok r
      → is_finite r.now ≡ true
  unfolding readings
  readings-now_finite as_float policy s r h =
      ground (arith, required_number-finite as_float (get "sample_time_s" s.timing) r.now)

  pub trip_request-ok :
      Laws num
      → (policy : ProtectionPolicy num) (now : Value) (p : Protection num)
      → is_finite policy.trip_duty ≡ true
      → is_finite now ≡ true
      → (q : ActionRequest num) × (trip_request num policy now p ≡ ok q)
        × (q.value ≡ policy.trip_duty)
  unfolding trip_request action_request
  trip_request-ok laws policy now p fd fn =
      let irr : lt now now ≡ false = lt_irrefl num laws now fn in
      (
        record {
          value = policy.trip_duty;
          unit = "normalized";
          produced_time_s = now;
          target_time_s = now;
          diagnostics = [];
          state_update = some (state_update num p);
        },
        rw (fd, fn, irr),
        refl,
      )

module _ {num : Number} (as_float : Payload num.Value → Option num.Value)
    (policy : ProtectionPolicy num) where
  open num use {Value, is_finite, le, lt}

  -- A call that does not run the inner controller: it raises what reading its sample raises, and
  -- otherwise it returns the trip duty.
  pub data Holds (s : Sample num) (result : Result ProtectionError (ActionRequest num))
      : Type 0 where
    unreadable :
        (e : ProtectionError)
        → readings num as_float policy s ≡ err e
        → result ≡ err e
        → Holds s result
    trip_duty :
        (r : Readings num) (q : ActionRequest num)
        → readings num as_float policy s ≡ ok r
        → result ≡ ok q
        → q.value ≡ policy.trip_duty
        → Holds s result

  unfoldable pub AllHold :
      List (Sample num) → List (Result ProtectionError (ActionRequest num)) → Type 0
  AllHold [] [] = Unit
  AllHold (s ∷ ss) (r ∷ rs) = Holds s r × AllHold ss rs
  AllHold ss rs = ⊥

module _ {num : Number} (policy : ProtectionPolicy num) where
  open num use {Value, le}

  -- What a fault is: an enabled threshold crossed by a measured value. UVLO counts once the output
  -- was up, or if the policy does not wait for that.
  pub data IsFault (started : Bool) (r : Readings num) : Type 0 where
    over_voltage :
        (threshold v : Value)
        → policy.ovp_v ≡ some threshold
        → r.voltage ≡ some v
        → le threshold v ≡ true
        → IsFault started r
    over_current :
        (threshold v : Value)
        → policy.ocp_a ≡ some threshold
        → r.current ≡ some v
        → le threshold v ≡ true
        → IsFault started r
    under_voltage :
        (threshold v : Value)
        → policy.uvlo_v ≡ some threshold
        → r.voltage ≡ some v
        → le v threshold ≡ true
        → (started ≡ true) ⊎ (policy.uvlo_startup_mask ≡ false)
        → IsFault started r

  at_least-inv :
      (t o : Option Value)
      → at_least num t o ≡ true
      → (a : Value) × (v : Value) × (t ≡ some a) × (o ≡ some v) × (le a v ≡ true)
  at_least-inv (some a) (some v) h = (a, v, refl, refl, h)
  at_least-inv (some a) none h = ground arith
  at_least-inv none o h = ground arith

  at_most-inv :
      (t o : Option Value)
      → at_most num t o ≡ true
      → (a : Value) × (v : Value) × (t ≡ some a) × (o ≡ some v) × (le v a ≡ true)
  at_most-inv (some a) (some v) h = (a, v, refl, refl, h)
  at_most-inv (some a) none h = ground arith
  at_most-inv none o h = ground arith

  armed_cases :
      (started : Bool) (masked rest : Bool)
      → ((started || not masked) && rest) ≡ true
      → ((started ≡ true) ⊎ (masked ≡ false)) × (rest ≡ true)
  armed_cases started masked rest h = ground arith

  pub fault→IsFault :
      (started : Bool) (r : Readings num)
      → fault num policy started r.voltage r.current ≡ true
      → IsFault started r
  unfolding fault
  fault→IsFault started r h = elim (Bool-cases (at_least num policy.ovp_v r.voltage)) [
    | inl high ↦ let (a, v, ha, hv, l) = at_least-inv _ _ high in over_voltage a v ha hv l
    | inr calm ↦ elim (Bool-cases (at_least num policy.ocp_a r.current)) [
      | inl high ↦ let (a, v, ha, hv, l) = at_least-inv _ _ high in over_current a v ha hv l
      | inr low ↦
          let uvlo : ((started || not policy.uvlo_startup_mask)
                && at_most num policy.uvlo_v r.voltage)
              ≡ true =
            ground arith in
          let (armed, under) = armed_cases _ _ _ uvlo in
          let (a, v, ha, hv, l) = at_most-inv _ _ under in under_voltage a v ha hv l armed
    ]
  ]

  pub IsFault→fault :
      (started : Bool) (r : Readings num)
      → IsFault started r
      → fault num policy started r.voltage r.current ≡ true
  unfolding fault
  IsFault→fault started r (over_voltage a v ha hv l) = rw (ha, hv, l)
  IsFault→fault started r (over_current a v ha hv l) = ground (arith, ha, hv, l)
  IsFault→fault started r (under_voltage a v ha hv l armed) = ground (arith, ha, hv, l, armed)

module _ {num : Number} {S : Type 0} (as_float : Payload num.Value → Option num.Value)
    (policy : ProtectionPolicy num) (inner : Inner num S) where
  -- A call on a sample that cannot be read changes nothing.
  pub observe-err :
      (s : Sample num) (p : Protection num) (i : S) {e : ProtectionError}
      → readings num as_float policy s ≡ err e
      → observe num as_float policy inner s p i ≡ (err e, p, i)
  unfolding observe
  observe-err s p i h = rw (observe, h)

  -- Otherwise the call acts by the state it is in.
  pub observe-ok :
      (s : Sample num) (p : Protection num) (i : S) {r : Readings num} {st : State}
      → readings num as_float policy s ≡ ok r
      → p.state ≡ st
      → observe num as_float policy inner s p i ≡ act num policy inner s r st p i
  unfolding observe
  observe-ok s p i {r = r} h k =
      let opened : observe num as_float policy inner s p i ≡ act num policy inner s r p.state p i =
        rw (observe, h) in
      opened ∙ ap (λ x. act num policy inner s r x p i) k
