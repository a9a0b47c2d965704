-- ===== src/Runner/Window/Sampling.antt =====
-- What the first half of a control window, in src/pe_sim/runtime.py, keeps.
use power_electronics_ai_sim.Base.{
  ℕ, String, ◌≡◌, true, inl, inr, Option, none, some, List, Bool-cases, ok,
}
use power_electronics_ai_sim.Number.{Number}
use power_electronics_ai_sim.Contracts.{PlantObservation}
use power_electronics_ai_sim.Checks.{CheckReport}
use power_electronics_ai_sim.Checks.Plugins.{Plugin, run_plugins}
use power_electronics_ai_sim.Runner.{Literals}
use power_electronics_ai_sim.Runner.State.{
  World, Row, WindowEvent, Checkpoint, Standing, Run, Subject, CheckContext,
}
use power_electronics_ai_sim.Runner.World.Triples.{
  Any, Holds, Triple, >>=-Triple, lift-Triple, raise_when-Triple, may_raise-Triple, require-Triple,
  get_state-Triple, on_plant-Triple, call-Triple, run_plugins_audited-Triple, or_check_error-ok,
}
use power_electronics_ai_sim.Runner.Segments.Driving.{Drives, advance_segments-Triple}
use power_electronics_ai_sim.Runner.Window.{
  Cycle, begin_window, reach_offset, require_observation, observe_plant, check_legacy,
  check_validity, check_applicability, check_safety, sample_plant,
}

module _ (num : Number) where
  -- The chain reports on the subject, and the report passes.
  abbrev pub ChainPassed :
      List (Plugin (Subject num) (CheckContext num))
      → String
      → Subject num
      → CheckContext num
      → Type 0
  ChainPassed chain method subject context =
      (r : CheckReport) × (run_plugins chain method subject context ≡ ok r) × (r.passed ≡ true)

module _ {num : Number} {P C : Type 0}
    (I : P
      → List (Row num)
      → List (WindowEvent num)
      → List (Checkpoint num)
      → Standing num
      → Type 0)
    (lit : Literals num) (w : World num P C) where
  open num use {Value}

  -- The plant may be observed, and driven on by the last action.
  pub record Allows : Type 0 where
    pub observing :
        (p : P) (xs : List (Row num)) (es : List (WindowEvent num)) (cs : List (Checkpoint num))
        (last : Standing num)
        → I p xs es cs last
        → I (w.observe_plant p).1 xs es cs last
    pub going_on : (s : Run num P C) → Holds I s → Drives I w s.last_action

  pub begin_window-Triple : (i : ℕ) → Triple I Any (begin_window lit w i)
  unfolding begin_window
  begin_window-Triple i = >>=-Triple I _ Any _ _ (raise_when-Triple I _ _) (λ u h.
      >>=-Triple I Any Any _ _ (λ s holds. (tt, holds))
        (λ s k.
          >>=-Triple I _ Any _ _ (raise_when-Triple I _ _)
            (λ v l. >>=-Triple I _ Any _ _ (raise_when-Triple I _ _) (λ x m t holds. (tt, holds)))))

  pub reach_offset-Triple : (c : Cycle num) → Allows → Triple I Any (reach_offset lit w c)
  unfolding reach_offset
  reach_offset-Triple c allows s h =
      elim (Bool-cases (num.lt w.timebase.event_tolerance_s w.timebase.sample_offset_s)) [
        | inl offset ↦ rw offset (
            >>=-Triple I (λ t. Drives I w t.last_action) Any _ _
              (λ t holds. (allows.going_on t holds, holds))
              (λ t drives.
                >>=-Triple I Any Any _ _
                  (advance_segments-Triple I w lit c.index t.last_action _ _ _ drives)
                  (λ advanced u v holds. (tt, holds)))
              s h)
        | inr none_left ↦ rw none_left (tt, h)
      ]

  require_observation-Triple :
      (message : String) (o : Option (PlantObservation num))
      → Triple I Any (require_observation lit w message o)
  require_observation-Triple message none s h = h
  require_observation-Triple message (some obs) s h = (tt, h)

  pub observe_plant-Triple :
      (i : ℕ) (message : String) → Allows → Triple I Any (observe_plant lit w i message)
  unfolding observe_plant
  observe_plant-Triple i message allows =
      >>=-Triple I Any Any _ _
        (call-Triple I Any w "plant" "observe" i _
          (on_plant-Triple I w.observe_plant allows.observing))
        (λ value u. require_observation-Triple message value)

  check_legacy-Triple :
      (i : ℕ) (obs : PlantObservation num) → Triple I Any (check_legacy lit w i obs)
  unfolding check_legacy
  check_legacy-Triple i obs =
      >>=-Triple I _ Any _ _
        (call-Triple I _ w "safety" "check_observation" i _
          (lift-Triple I (w.check_measurement obs.measurement)))
        (λ answer h. >>=-Triple I _ Any _ _ (lift-Triple I _) (λ report k.
          >>=-Triple I Any Any _ _ (λ s holds. (tt, holds))
            (λ u l. >>=-Triple I _ Any _ _ (get_state-Triple I) (λ s m. may_raise-Triple I _ _))))

  pub check_validity-Triple :
      (obs : PlantObservation num) (context : CheckContext num) (message : String)
      → Triple I Any (check_validity lit w obs context message)
  unfolding check_validity
  check_validity-Triple obs context message =
      >>=-Triple I _ Any _ _
        (run_plugins_audited-Triple I w w.validity_chain "check_observation" _ context)
        (λ report h.
          >>=-Triple I Any Any _ _ (λ s holds. (tt, holds)) (λ u k. may_raise-Triple I _ _))

  pub check_safety-Triple :
      (method : String) (subject : Subject num) (context : CheckContext num) (message : String)
      → Triple I
          (λ u. ChainPassed num w.safety_chain method subject context)
          (check_safety lit w method subject context message)
  unfolding check_safety
  check_safety-Triple method subject context message =
      >>=-Triple I _ _ _ _ (run_plugins_audited-Triple I w w.safety_chain method subject context)
        (λ report h.
          >>=-Triple I Any _ _ _ (λ s holds. (tt, holds))
            (λ u k. require-Triple I _ report.passed _ (λ passed. (report, h, passed))))

  pub check_applicability-Triple :
      (method : String) (subject : Subject num) (context : CheckContext num) (message : String)
      → Triple I
          (λ u. ChainPassed num w.applicability_chain method subject context)
          (check_applicability lit w method subject context message)
  unfolding check_applicability
  check_applicability-Triple method subject context message =
      >>=-Triple I _ _ _ _ (lift-Triple I _) (λ report h.
        >>=-Triple I Any _ _ _ (λ s holds. (tt, holds))
          (λ u k.
            require-Triple I _ report.passed _ (λ passed. (report, or_check_error-ok _ h, passed))))

  pub sample_plant-Triple : (c : Cycle num) → Allows → Triple I Any (sample_plant lit w c)
  unfolding sample_plant
  sample_plant-Triple c allows =
      >>=-Triple I Any Any _ _ (observe_plant-Triple c.index _ allows) (λ obs u.
        >>=-Triple I Any Any _ _ (check_legacy-Triple c.index obs) (λ v a.
          >>=-Triple I _ Any _ _ (get_state-Triple I) (λ s here.
            >>=-Triple I Any Any _ _ (check_validity-Triple obs _ _) (λ x b.
              >>=-Triple I _ Any _ _ (check_applicability-Triple _ _ _ _) (λ y d.
                >>=-Triple I _ Any _ _ (check_safety-Triple _ _ _ _) (λ z e.
                  >>=-Triple I Any Any _ _ (may_raise-Triple I _ _) (λ p f.
                    >>=-Triple I Any Any _ _ (may_raise-Triple I _ _) (λ q g.
                      >>=-Triple I Any Any _ _ (λ t holds. (tt, holds))
                        (λ r k t holds. (tt, holds))))))))))
