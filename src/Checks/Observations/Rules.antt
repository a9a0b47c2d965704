-- ===== src/Checks/Observations/Rules.antt =====
-- When each rule of `ObservationValidityPlugin` finds nothing, src/pe_sim/checks.py.
use power_electronics_ai_sim.Base.{
  ℕ, String, ◌≤◌, ◌≡◌, refl, ◌↔◌, ◌&&◌, true, false, Option, none, some, List, [], ◌∷◌, ◌++◌, arith,
  All, is_some, Option-cases, inl, inr, ap, eq_iff,
}
use power_electronics_ai_sim.Number.{Number}
use power_electronics_ai_sim.Contracts.{Payload, Mapping, get}
use power_electronics_ai_sim.Checks.{CheckFinding}
use power_electronics_ai_sim.Checks.Observations.{
  Whole, whole, below, Range, CheckContext, required_findings, value_findings, measurement_findings,
  regression_findings, visibility_findings, time_findings, age_findings, expected_findings,
  unit_findings, no_findings, has_unit, below_minimum, above_maximum, out_of_range, not_finite_time,
}

no_findings-append :
    (xs ys : List CheckFinding) → no_findings (xs ++ ys) ≡ (no_findings xs && no_findings ys)
no_findings-append [] ys = refl
no_findings-append (x ∷ xs) ys = refl

pub append_iff {ℓ κ} :
    {A : Type ℓ} {B : Type κ} (xs ys : List CheckFinding)
    → (no_findings xs ≡ true) ↔ A
    → (no_findings ys ≡ true) ↔ B
    → (no_findings (xs ++ ys) ≡ true) ↔ (A × B)
append_iff xs ys first later =
    let split = no_findings-append xs ys in
    (
      (λ h. (first.0 (ground arith), later.0 (ground arith))),
      λ h. let a = first.1 h.0 in let b = later.1 h.1 in ground arith,
    )

module _ (num : Number) (as_float : Payload num.Value → Option num.Value)
    (as_int : Payload num.Value → Option Whole) (tolerance : num.Value) where
  open num use {Value, is_finite, lt, plus, minus}

  abbrev pub AtLeast : Value → Option Value → Type 0
  AtLeast v none = Unit
  AtLeast v (some low) = lt v low ≡ false

  abbrev pub AtMost : Value → Option Value → Type 0
  AtMost v none = Unit
  AtMost v (some high) = lt high v ≡ false

  abbrev pub Within : Value → Option (Range num) → Type 0
  Within v none = Unit
  Within v (some r) = AtLeast v r.minimum × AtMost v r.maximum

  -- No more than the tolerance before a time
  abbrev pub NotBefore : Value → Option Value → Type 0
  NotBefore t none = Unit
  NotBefore t (some s) = lt t (minus s tolerance) ≡ false

  abbrev pub NotAfter : Value → Option Value → Type 0
  NotAfter t none = Unit
  NotAfter t (some s) = lt (plus s tolerance) t ≡ false

  abbrev pub IsRecent : ℕ → Option ℕ → Type 0
  IsRecent age none = Unit
  IsRecent age (some limit) = age ≤ limit

  abbrev pub IsAcceptable : Option (Range num) → Payload Value → Type 0
  IsAcceptable r p = (v : Value) × (as_float p ≡ some v) × (is_finite v ≡ true) × Within v r

  -- Finite, not before the observation that preceded, and of the current time
  abbrev pub IsTimely : Value → CheckContext num → Type 0
  IsTimely t context =
      (is_finite t ≡ true)
      × NotBefore t context.previous_observation_time_s
      × NotBefore t context.current_time_s
      × NotAfter t context.current_time_s

  pub required_iff :
      (id : String) (keys : List String) (m : Mapping (Payload Value))
      → (no_findings (required_findings num id keys m) ≡ true)
        ↔ All (λ key. is_some (get key m) ≡ true) keys
  unfolding required_findings
  required_iff id [] m = ((λ h. tt), λ h. refl)
  required_iff id (key ∷ keys) m =
      let (there, back) = required_iff id keys m in
      ((λ h. (ground arith, there (ground arith))), λ h. let rest = back h.1 in ground (arith, h.0))

  AtLeast-iff : (v : Value) (o : Option Value) → (below_minimum num v o ≡ false) ↔ AtLeast v o
  AtLeast-iff v none = ((λ h. tt), λ h. refl)
  AtLeast-iff v (some low) = ((λ h. h), λ h. h)

  AtMost-iff : (v : Value) (o : Option Value) → (above_maximum num v o ≡ false) ↔ AtMost v o
  AtMost-iff v none = ((λ h. tt), λ h. refl)
  AtMost-iff v (some high) = ((λ h. h), λ h. h)

  Within-iff : (v : Value) (r : Option (Range num)) → (out_of_range num v r ≡ false) ↔ Within v r
  Within-iff v none = ((λ h. tt), λ h. refl)
  Within-iff v (some r) =
      let low = AtLeast-iff v r.minimum in
      let high = AtMost-iff v r.maximum in
      (
        (λ h. (low.0 (ground arith), high.0 (ground arith))),
        λ h. let l = low.1 h.0 in let u = high.1 h.1 in ground arith,
      )

  value_iff :
      (id key : String) (p : Payload Value) (r : Option (Range num))
      → (no_findings (value_findings num id key (as_float p) r) ≡ true) ↔ IsAcceptable r p
  unfolding value_findings
  value_iff id key p r = (
    (λ h. elim (Option-cases (as_float p)) [
      | inl missing ↦ absurd (ground arith)
      | inr (v, found) ↦ (v, found, ground arith, (Within-iff v r).0 (ground arith))
    ]),
    λ h. let inside = (Within-iff h.0 r).1 h.3 in ground (arith, h.1, h.2),
  )

  pub measurement_iff :
      (id : String) (ranges : Mapping (Range num)) (m : Mapping (Payload Value))
      → (no_findings (measurement_findings num as_float id ranges m) ≡ true)
        ↔ All (λ e. IsAcceptable (get e.0 ranges) e.1) m
  unfolding measurement_findings
  measurement_iff id ranges [] = ((λ h. tt), λ h. refl)
  measurement_iff id ranges ((key, p) ∷ rest) =
      let first = value_iff id key p (get key ranges) in
      let later = measurement_iff id ranges rest in
      append_iff (value_findings num id key (as_float p) (get key ranges))
        (measurement_findings num as_float id ranges rest) first later

  regression_iff :
      (id : String) (t : Value) (previous : Option Value)
      → (no_findings (regression_findings num tolerance id t previous) ≡ true)
        ↔ NotBefore t previous
  unfolding regression_findings
  regression_iff id t none = ((λ h. tt), λ h. refl)
  regression_iff id t (some s) = ((λ h. ground arith), λ h. ground arith)

  visibility_iff :
      (id : String) (t : Value) (current : Option Value)
      → (no_findings (visibility_findings num tolerance id t current) ≡ true)
        ↔ (NotBefore t current × NotAfter t current)
  unfolding visibility_findings
  visibility_iff id t none = ((λ h. (tt, tt)), λ h. refl)
  visibility_iff id t (some s) = ((λ h. (ground arith, ground arith)), λ h. ground arith)

  pub age_iff :
      (id : String) (age : Option Whole) (limit : Option ℕ)
      → (no_findings (age_findings num id age limit) ≡ true)
        ↔ ((n : ℕ) × (age ≡ some (whole n)) × IsRecent n limit)
  unfolding age_findings
  age_iff id none limit = ((λ h. absurd (ground arith)), λ h. absurd (ground arith))
  age_iff id (some (below n)) limit = ((λ h. absurd (ground arith)), λ h. absurd (ground arith))
  age_iff id (some (whole n)) none = ((λ h. (n, refl, tt)), λ h. refl)
  age_iff id (some (whole n)) (some limit) = ((λ h. (n, refl, ground arith)), λ h. ground arith)

  unit_iff :
      (expected : String) (actual : Option String)
      → (has_unit num expected actual ≡ true) ↔ (actual ≡ some expected)
  unit_iff expected none = ((λ h. absurd (ground arith)), λ h. absurd (ground arith))
  unit_iff expected (some actual) =
      let same = eq_iff actual expected in ((λ h. ap some (same.0 h)), λ h. same.1 (ground arith))

  expected_iff :
      (id : String) (expected units : Mapping String)
      → (no_findings (expected_findings num id expected units) ≡ true)
        ↔ All (λ e. get e.0 units ≡ some e.1) expected
  unfolding expected_findings
  expected_iff id [] units = ((λ h. tt), λ h. refl)
  expected_iff id ((key, unit) ∷ rest) units =
      let (there, back) = expected_iff id rest units in
      let same = unit_iff unit (get key units) in
      (
        (λ h. (same.0 (ground arith), there (ground arith))),
        λ h. let here = same.1 h.0 in let later = back h.1 in ground arith,
      )

  pub time_iff :
      (id : String) (time : Option Value) (context : CheckContext num)
      → (no_findings (time_findings num tolerance id time context) ≡ true)
        ↔ ((t : Value) × (time ≡ some t) × IsTimely t context)
  unfolding time_findings not_finite_time
  time_iff id none context = ((λ h. absurd (ground arith)), λ h. absurd (ground (arith, h.1)))
  time_iff id (some t) context =
      let before = regression_iff id t context.previous_observation_time_s in
      let seen = visibility_iff id t context.current_time_s in
      let split =
        no_findings-append
          (regression_findings num tolerance id t context.previous_observation_time_s)
          (visibility_findings num tolerance id t context.current_time_s) in
      (
        (λ h.
            let visible = seen.0 (ground arith) in
            (t, refl, (ground arith, before.0 (ground arith), visible.0, visible.1))),
        λ h.
            let same : h.0 ≡ t = ground (arith, h.1) in
            let (finite, late, visible, past) : IsTimely t context = rw (← same) h.2 in
            let first = before.1 late in let second = seen.1 (visible, past) in ground arith,
      )

  pub units_iff :
      (id : String) (expected : Mapping String) (units : Option (Mapping String))
      → (no_findings (unit_findings num id expected units) ≡ true)
        ↔ ((m : Mapping String) × (units ≡ some m) × All (λ e. get e.0 m ≡ some e.1) expected)
  unfolding unit_findings
  units_iff id expected none = ((λ h. absurd (ground arith)), λ h. absurd (ground (arith, h.1)))
  units_iff id expected (some units) =
      let (there, back) = expected_iff id expected units in
      (
        (λ h. (units, refl, there h)),
        λ h.
            let same : h.0 ≡ units = ground (arith, h.1) in
            let here : All (λ e. get e.0 units ≡ some e.1) expected = rw (← same) h.2 in back here,
      )
