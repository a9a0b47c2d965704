-- ===== src/Checks/Observations/Validity.antt =====
-- When `ObservationValidityPlugin` passes an observation, src/pe_sim/checks.py.
use power_electronics_ai_sim.Base.{
  ℕ, String, ◌≡◌, ◌↔◌, true, false, Option, none, some, arith, All, is_some, default_to,
  Option-cases, inl, inr, ap, sym, ◌∙◌,
}
use power_electronics_ai_sim.Number.{Number}
use power_electronics_ai_sim.Contracts.{Payload, natural, Mapping, get}
use power_electronics_ai_sim.Checks.Observations.{
  Whole, whole, ObservationValidityPlugin, Observation, CheckContext, check_observation,
  findings_of, read, report_of, missing_report, no_findings,
}
use power_electronics_ai_sim.Checks.Observations.Rules.{
  IsAcceptable, IsTimely, IsRecent, append_iff, required_iff, measurement_iff, time_iff, age_iff,
  units_iff,
}

module _ (num : Number) (as_float : Payload num.Value → Option num.Value)
    (as_int : Payload num.Value → Option Whole) (tolerance : num.Value) where
  open num use {Value}

  -- An observation that a controller may read, by a plugin's rules.
  pub record IsValid (p : ObservationValidityPlugin num) (o : Observation num)
      (context : CheckContext num) (m : Mapping (Payload Value)) : Type 0 where
    pub complete : All (λ key. is_some (get key m) ≡ true) p.required_measurements
    pub acceptable : All (λ e. IsAcceptable num as_float as_int tolerance (get e.0 p.ranges) e.1) m
    pub timely :
        (t : Value) × (read num as_float o.time_s ≡ some t)
        × IsTimely num as_float as_int tolerance t context
    pub recent :
        (age : ℕ) × (as_int (default_to (natural 0) o.age_steps) ≡ some (whole age))
        × IsRecent num as_float as_int tolerance age p.max_age_steps
    pub in_units :
        (units : Mapping String) × (o.measurement_units ≡ some units)
        × All (λ e. get e.0 units ≡ some e.1) p.expected_units

  findings_iff :
      (p : ObservationValidityPlugin num) (o : Observation num) (context : CheckContext num)
      (m : Mapping (Payload Value))
      → (no_findings (findings_of num as_float as_int tolerance p o context m) ≡ true)
        ↔ IsValid p o context m
  unfolding findings_of
  findings_iff p o context m =
      let id = p.plugin_id in
      let complete = required_iff num as_float as_int tolerance id p.required_measurements m in
      let acceptable = measurement_iff num as_float as_int tolerance id p.ranges m in
      let timely = time_iff num as_float as_int tolerance id (read num as_float o.time_s) context in
      let recent =
        age_iff num as_float as_int tolerance id (as_int (default_to (natural 0) o.age_steps))
          p.max_age_steps in
      let in_units =
        units_iff num as_float as_int tolerance id p.expected_units o.measurement_units in
      let all =
        append_iff _ _ complete
          (append_iff _ _ acceptable (append_iff _ _ timely (append_iff _ _ recent in_units))) in
      (
        (λ h.
            let (c, (a, (t, (r, u)))) = all.0 h in
            record { complete = c; acceptable = a; timely = t; recent = r; in_units = u }),
        λ v. all.1 (v.complete, (v.acceptable, (v.timely, (v.recent, v.in_units)))),
      )

  pub measured_report :
      (p : ObservationValidityPlugin num) (o : Observation num) (context : CheckContext num)
      (m : Mapping (Payload Value))
      → o.measurement ≡ some m
      → check_observation num as_float as_int tolerance p o context
        ≡ report_of num p (findings_of num as_float as_int tolerance p o context m)
  unfolding check_observation
  measured_report p o context m measured = ground arith

  unmeasured_fails :
      (p : ObservationValidityPlugin num) (o : Observation num) (context : CheckContext num)
      → o.measurement ≡ none
      → (check_observation num as_float as_int tolerance p o context).passed ≡ false
  unfolding check_observation missing_report
  unmeasured_fails p o context missing = ground arith

  -- `check_observation` passes an observation exactly if its measurement is a mapping and it is valid:
  -- each required measurement is there, each measurement converts to a finite number in its range, the
  -- time is finite and, to the tolerance, current and not before the previous one, the age is within
  -- the limit, and each expected unit is declared.
  pub check_observation-IsValid :
      (p : ObservationValidityPlugin num) (o : Observation num) (context : CheckContext num)
      → ((check_observation num as_float as_int tolerance p o context).passed ≡ true)
        ↔ ((m : Mapping (Payload Value)) × (o.measurement ≡ some m) × IsValid p o context m)
  check_observation-IsValid p o context = elim (Option-cases o.measurement) [
    | inl missing ↦
        let fails = unmeasured_fails p o context missing in
        ((λ h. absurd (ground arith)), λ h. absurd (ground (arith, h.1)))
    | inr (m, measured) ↦
        let valid = findings_iff p o context m in
        let same = ap (λ r. r.passed) (measured_report p o context m measured) in
        (
          (λ h. (m, measured, valid.0 (sym same ∙ h))),
          λ h. let here : h.0 ≡ m = ground (arith, h.1) in same ∙ valid.1 (rw (← here) h.2),
        )
  ]
