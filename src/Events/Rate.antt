-- ===== src/Events/Rate.antt =====
-- The rate limit of progress events, src/pe_sim/run_events.py.
use power_electronics_ai_sim.Base.{
  ℕ, zero, suc, ◌%◌, ◌<◌, ◌≡◌, refl, Bool, true, false, Option, none, some, ◌||◌, not, raise_if,
  ◌==◌, arith, ok, >>=-returned, ◌≢◌, ◌↔◌,
}
use Prim.Native.Nat.{◌∣◌}
use native.Mathlib.Nat.{dvd_of_mod-eq-zero, mod-eq-zero_of_dvd}
use power_electronics_ai_sim.Number.{Number}
use power_electronics_ai_sim.Contracts.{Payload, natural, negative}
use power_electronics_ai_sim.Events.{
  ProgressPolicy, progress_policy, checked_steps, checked_seconds, sink_not_callable, progress_due,
  steps_due, time_due,
}

module _ (num : Number) (as_float : Payload num.Value → Option num.Value) where
  open num use {Value}

  checked_steps-positive :
      (p : Option (Payload Value)) (steps : Option ℕ)
      → checked_steps num p ≡ ok steps
      → steps ≢ some 0
  unfolding checked_steps
  checked_steps-positive none steps h = λ zero_steps. ground arith
  checked_steps-positive (some (natural n)) steps h = λ zero_steps. ground arith
  checked_steps-positive (some (negative n)) steps h = λ zero_steps. ground arith
  checked_steps-positive (some p) steps h = λ zero_steps. ground arith

  progress_policy-positive :
      (callable : Bool) (p q : Option (Payload Value)) (policy : ProgressPolicy num)
      → progress_policy num as_float callable p q ≡ ok policy
      → policy.interval_steps ≢ some 0
  unfolding progress_policy
  progress_policy-positive callable p q policy h =
      let (u, h1, _) = >>=-returned (raise_if (not callable) sink_not_callable) _ h in
      let (steps, h2, kept) = >>=-returned (checked_steps num p) _ h1 in
      let (seconds, h3, _) = >>=-returned (checked_seconds num as_float q) _ h2 in
      let same : steps ≡ policy.interval_steps = ground arith in
      rw (← same) (checked_steps-positive p steps kept)

  steps_due-returns :
      (count : ℕ) (steps : Option ℕ)
      → steps ≢ some 0
      → (b : Bool) × (steps_due num count steps ≡ ok b)
  unfolding steps_due
  steps_due-returns count none h = (false, refl)
  steps_due-returns count (some zero) h = absurd (h refl)
  steps_due-returns count (some (suc k)) h = (count % suc k == 0, refl)

  -- With a policy that construction accepts, `progress_due` never raises.
  pub progress_due_returns :
      (callable : Bool) (p q : Option (Payload Value)) (policy : ProgressPolicy num) (count : ℕ)
      (wall last : Option Value)
      → progress_policy num as_float callable p q ≡ ok policy
      → (due : Bool) × (progress_due num count policy wall last ≡ ok due)
  unfolding progress_due
  progress_due_returns callable p q policy zero wall last h = (false, refl)
  progress_due_returns callable p q policy (suc n) wall last h =
      let (b, due) =
        steps_due-returns (suc n) policy.interval_steps
          (progress_policy-positive callable p q policy h) in
      (b || time_due num policy.interval_s wall last, rw due refl)

  by_steps_iff : (n k : ℕ) → (steps_due num n (some (suc k)) ≡ ok true) ↔ (suc k ∣ n)
  unfolding steps_due
  by_steps_iff n k = (
    (λ h. dvd_of_mod-eq-zero (suc k) {n = n} (ground arith)),
    λ h. let multiple = mod-eq-zero_of_dvd (suc k) {n = n} h in ground arith,
  )

  -- With an accepted policy that limits by steps alone, progress is due exactly at the positive
  -- multiples of its interval.
  pub progress_due_steps :
      (callable : Bool) (p q : Option (Payload Value)) (policy : ProgressPolicy num) (k : ℕ)
      (count : ℕ) (wall last : Option Value)
      → progress_policy num as_float callable p q ≡ ok policy
      → policy.interval_steps ≡ some k
      → policy.interval_s ≡ none
      → (progress_due num count policy wall last ≡ ok true) ↔ ((0 < count) × (k ∣ count))
  unfolding progress_due time_due
  progress_due_steps callable p q policy k zero wall last h by_steps no_time =
      ((λ due. absurd (ground arith)), (λ positive. absurd (omega (arith, positive.0))))
  progress_due_steps callable p q policy zero (suc n) wall last h by_steps no_time =
      absurd (progress_policy-positive callable p q policy h by_steps)
  progress_due_steps callable p q policy (suc k) (suc n) wall last h by_steps no_time =
      let (multiple, back) = by_steps_iff (suc n) k in
      (
        (λ due. (omega arith, multiple (ground arith))),
        λ positive. let now = back positive.1 in ground arith,
      )
