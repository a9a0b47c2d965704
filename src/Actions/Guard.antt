-- ===== src/Actions/Guard.antt =====
-- What the observation guard accepts, src/pe_sim/safety.py.
use power_electronics_ai_sim.Base.{
  ◌≡◌, refl, true, Option, some, [], ◌∷◌, arith, Option-cases, inl, inr, ok, All, ◌↔◌,
}
use power_electronics_ai_sim.Number.{Number}
use power_electronics_ai_sim.Contracts.{Payload, Mapping}
use power_electronics_ai_sim.Actions.{check_observation, check_entries}

module _ (num : Number) (as_float : Payload num.Value → Option num.Value) where
  open num use {Value, is_finite}

  -- `float(value)` gives a finite number.
  abbrev pub IsFinite : Payload Value → Type 0
  IsFinite p = (v : Value) × (as_float p ≡ some v) × (is_finite v ≡ true)

  accepted :
      (entries : Mapping (Payload Value))
      → check_entries num as_float entries ≡ ok tt
      → All (λ e. IsFinite e.1) entries
  unfolding check_entries
  accepted [] h = tt
  accepted ((key, p) ∷ rest) h = elim (Option-cases (as_float p)) [
    | inl missing ↦ absurd (ground arith)
    | inr (v, found) ↦ ((v, found, ground arith), accepted rest (ground arith))
  ]

  accepts :
      (entries : Mapping (Payload Value))
      → All (λ e. IsFinite e.1) entries
      → check_entries num as_float entries ≡ ok tt
  unfolding check_entries
  accepts [] h = refl
  accepts ((key, p) ∷ rest) ((v, found, f), later) = ground (arith, accepts rest later)

  -- The guard accepts a measurement exactly if each of its values converts to a finite number.
  pub check_observation_iff :
      (measurement : Mapping (Payload Value))
      → (check_observation num as_float (some measurement) ≡ ok tt)
        ↔ All (λ e. IsFinite e.1) measurement
  unfolding check_observation
  check_observation_iff measurement = (accepted measurement, accepts measurement)
