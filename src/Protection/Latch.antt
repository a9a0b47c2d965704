-- ===== src/Protection/Latch.antt =====
-- A latched wrapper of Protection stays latched, whatever the samples are.
use power_electronics_ai_sim.Base.{
  ◌≡◌, refl, ap, ◌∙◌, inl, inr, true, Option, List, [], ◌∷◌, Result-cases,
}
use power_electronics_ai_sim.Number.{Number, Laws}
use power_electronics_ai_sim.Contracts.{Payload}
use power_electronics_ai_sim.Protection.{
  latched, ProtectionPolicy, Protection, Sample, Inner, readings, act, observe, observe_all,
}
use power_electronics_ai_sim.Protection.Tripping.{
  Holds, unreadable, trip_duty, AllHold, readings-now_finite, trip_request-ok, observe-ok,
  observe-err,
}

module _ {num : Number} {S : Type 0} (laws : Laws num)
    (as_float : Payload num.Value → Option num.Value) (policy : ProtectionPolicy num)
    (inner : Inner num S) where
  open num use {Value, is_finite}

  observe_latched :
      is_finite policy.trip_duty ≡ true
      → (s : Sample num) (p : Protection num) (i : S) → p.state ≡ latched
      → Holds as_float policy s (observe num as_float policy inner s p i).0
        × ((observe num as_float policy inner s p i).1 ≡ p)
        × ((observe num as_float policy inner s p i).2 ≡ i)
  unfolding act
  observe_latched fd s p i h = elim (Result-cases (readings num as_float policy s)) [
    | inl (e, he) ↦
        let same = observe-err as_float policy inner s p i he in
        (unreadable e he (ap (λ x. x.0) same), ap (λ x. x.1) same, ap (λ x. x.2) same)
    | inr (r, hr) ↦
        let same = observe-ok as_float policy inner s p i hr h in
        let now_finite = readings-now_finite num as_float policy s r hr in
        let (q, hq, hd) = trip_request-ok num laws policy r.now p fd now_finite in
        (trip_duty r q hr (ap (λ x. x.0) same ∙ hq) hd, ap (λ x. x.1) same, ap (λ x. x.2) same)
  ]

  -- From a latched wrapper with a finite trip duty, any list of samples leaves the wrapper and its
  -- inner controller as they were, and every call returns the trip duty or, for a sample that
  -- cannot be read, raises the error of reading it.
  pub observe_all_latched :
      is_finite policy.trip_duty ≡ true
      → (ss : List (Sample num)) (p : Protection num) (i : S) → p.state ≡ latched
      → AllHold as_float policy ss (observe_all num as_float policy inner ss p i).0
        × ((observe_all num as_float policy inner ss p i).1 ≡ p)
        × ((observe_all num as_float policy inner ss p i).2 ≡ i)
  unfolding observe_all AllHold
  observe_all_latched fd [] p i h = (tt, refl, refl)
  observe_all_latched fd (s ∷ ss) p i h =
      let (held, hp, hi) = observe_latched fd s p i h in
      let same : (observe num as_float policy inner s p i).1.state ≡ latched =
        ap (λ x. x.state) hp ∙ h in
      let (rest, hps, his) = observe_all_latched fd ss _ _ same in
      ((held, rest), hps ∙ hp, his ∙ hi)
