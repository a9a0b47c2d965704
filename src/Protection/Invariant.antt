-- ===== src/Protection/Invariant.antt =====
-- When the wrapper of Protection trips, and what holds of it between any two calls.
use power_electronics_ai_sim.Base.{
  ℕ, ◌+◌, ◌≡◌, ◌⊎◌, refl, ap, ◌∙◌, inl, inr, true, false, ◌||◌, Option, List, [], ◌∷◌, is_some,
  arith, ok, Result-cases, Bool-cases, if◌then◌else◌,
}
use power_electronics_ai_sim.Number.{Number, Laws}
use power_electronics_ai_sim.Contracts.{Payload, ActionRequest}
use power_electronics_ai_sim.Protection.{
  State, normal, tripped, latched, ProtectionPolicy, Protection, Sample, Readings, Inner, initial,
  readings, fault, at_least, trip, act, delegate, trip_request, observe, observe_all,
}
use power_electronics_ai_sim.Protection.Tripping.{
  IsFault, fault→IsFault, IsFault→fault, readings-now_finite, trip_request-ok, observe-ok,
  observe-err,
}

module _ {num : Number} (policy : ProtectionPolicy num) where
  -- Between two calls: a tripped wrapper has a retry to wait for; without a hiccup the wrapper trips
  -- once at most, and it is latched from then on.
  abbrev pub IsCoherentAt : State → ℕ → Type 0
  IsCoherentAt normal trips = (is_some policy.hiccup_s ≡ true) ⊎ (trips ≡ 0)
  IsCoherentAt tripped trips = is_some policy.hiccup_s ≡ true
  IsCoherentAt latched trips = (is_some policy.hiccup_s ≡ false) × (trips ≡ 1)

  abbrev pub IsCoherent : Protection num → Type 0
  IsCoherent p = IsCoherentAt p.state p.trips

  pub initial-IsCoherent : IsCoherent (initial num)
  initial-IsCoherent = inr refl

module _ {num : Number} {S : Type 0} (as_float : Payload num.Value → Option num.Value)
    (policy : ProtectionPolicy num) (inner : Inner num S) where
  act-IsCoherent :
      (s : Sample num) (r : Readings num) (st : State) (p : Protection num) (i : S)
      → p.state ≡ st
      → IsCoherent policy p
      → IsCoherent policy (act num policy inner s r st p i).1
  unfolding act
  act-IsCoherent s r latched p i e h = ground arith
  act-IsCoherent s r tripped p i e h = ground arith
  act-IsCoherent s r normal p i e h = ground arith

  observe-IsCoherent :
      (s : Sample num) (p : Protection num) (i : S)
      → IsCoherent policy p
      → IsCoherent policy (observe num as_float policy inner s p i).1
  observe-IsCoherent s p i h = elim (Result-cases (readings num as_float policy s)) [
    | inl (e, he) ↦ rw (observe-err as_float policy inner s p i he) h
    | inr (r, hr) ↦
        rw (observe-ok as_float policy inner s p i hr (λ j. p.state))
          (act-IsCoherent s r p.state p i (λ j. p.state) h)
  ]

  -- Whatever the samples and the inner controller, a coherent wrapper stays coherent.
  observe_all-IsCoherent :
      (ss : List (Sample num)) (p : Protection num) (i : S)
      → IsCoherent policy p
      → IsCoherent policy (observe_all num as_float policy inner ss p i).1
  unfolding observe_all
  observe_all-IsCoherent [] p i h = h
  observe_all-IsCoherent (s ∷ ss) p i h =
      let (x, p', i') = observe num as_float policy inner s p i in
      observe_all-IsCoherent ss p' i' (observe-IsCoherent s p i h)

  -- A new wrapper stays coherent whatever samples it is given and whatever its inner controller
  -- does: if it is tripped, its policy has a hiccup; if it is latched, its policy has none and it
  -- tripped once; and a wrapper with no hiccup that is in state `normal` has never tripped.
  pub wrapper-IsCoherent :
      (ss : List (Sample num)) (i : S)
      → IsCoherent policy (observe_all num as_float policy inner ss (initial num) i).1
  wrapper-IsCoherent ss i = observe_all-IsCoherent ss (initial num) i (initial-IsCoherent policy)

module _ {num : Number} {S : Type 0} (laws : Laws num)
    (as_float : Payload num.Value → Option num.Value) (policy : ProtectionPolicy num)
    (inner : Inner num S) where
  open num use {is_finite, nought}

  -- The start flag after a sample: set once the voltage reached the UVLO threshold.
  abbrev pub started_by : Protection num → Readings num → Protection num
  started_by p r = record p { started = p.started || at_least num policy.uvlo_v r.voltage }

  act_faulty :
      (s : Sample num) (r : Readings num) (p : Protection num) (i : S)
      → fault num policy (started_by p r).started r.voltage r.current ≡ true
      → act num policy inner s r normal p i ≡ (
        trip_request num policy r.now (trip num policy (started_by p r)),
        trip num policy (started_by p r),
        i,
      )
  unfolding act
  act_faulty s r p i h = rw h

  act_sound :
      (s : Sample num) (r : Readings num) (p : Protection num) (i : S)
      → fault num policy (started_by p r).started r.voltage r.current ≡ false
      → act num policy inner s r normal p i ≡ delegate num inner s (started_by p r) i
  unfolding act
  act_sound s r p i h = rw h

  -- In state `normal` and with a finite trip duty, a readable sample is acted on so: if it is a
  -- fault, the call returns the trip duty, the inner controller is not run, the trip is counted, the
  -- time held starts at 0, and the wrapper is tripped if the policy has a hiccup and latched if not;
  -- if it is no fault, the call runs the inner controller, and only the start flag may change.
  pub observe_normal :
      is_finite policy.trip_duty ≡ true
      → (s : Sample num) (r : Readings num) (p : Protection num) (i : S) → p.state ≡ normal
      → readings num as_float policy s ≡ ok r
      → (IsFault policy (started_by p r).started r
          × ((q : ActionRequest num) × (q.value ≡ policy.trip_duty)
              × (observe num as_float policy inner s p i ≡ (
                ok q,
                record (started_by p r) {
                  state = if is_some policy.hiccup_s then tripped else latched;
                  elapsed_s = nought;
                  trips = p.trips + 1;
                },
                i,
              ))))
        ⊎ ((¬ IsFault policy (started_by p r).started r)
            × (observe num as_float policy inner s p i ≡ delegate num inner s (started_by p r) i))
  observe_normal fd s r p i h hr =
      let acts = observe-ok as_float policy inner s p i hr h in
      elim (Bool-cases (fault num policy (started_by p r).started r.voltage r.current)) [
        | inl found ↦
            let after = trip num policy (started_by p r) in
            let finite = readings-now_finite num as_float policy s r hr in
            let (q, hq, hd) = trip_request-ok num laws policy r.now after fd finite in
            inl (
              fault→IsFault policy (started_by p r).started r found,
              (q, hd, acts ∙ act_faulty s r p i found ∙ ap (λ x. (x, after, i)) hq),
            )
        | inr calm ↦ inr (
          (λ bad.
              let found = IsFault→fault policy (started_by p r).started r bad in
              absurd (ground arith)),
          acts ∙ act_sound s r p i calm,
        )
      ]
