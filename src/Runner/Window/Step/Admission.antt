-- ===== src/Runner/Window/Step/Admission.antt =====
-- What a control window of src/pe_sim/runtime.py keeps, and what it is known to have checked when it
-- returns.
use power_electronics_ai_sim.Base.{ℕ, ◌≡◌, inl, inr, Option, none, some, List, Bool-cases, ok}
use power_electronics_ai_sim.Number.{Number}
use power_electronics_ai_sim.Contracts.{Mapping, ActionRequest, PlantObservation}
use power_electronics_ai_sim.Actions.{Reason}
use power_electronics_ai_sim.Runner.{Literals}
use power_electronics_ai_sim.Runner.State.{
  World, Row, WindowEvent, Checkpoint, Standing, Run, acted, CheckContext,
}
use power_electronics_ai_sim.Runner.World.Triples.{
  Any, Holds, Triple, >>=-Triple, lift-Triple, may_raise-Triple, get_state-Triple,
  on_controller-Triple, call-Triple,
}
use power_electronics_ai_sim.Runner.Segments.Driving.{Drives, advance_segments-Triple}
use power_electronics_ai_sim.Runner.Window.{Cycle, context_of}
use power_electronics_ai_sim.Runner.Window.Sampling.{
  ChainPassed, Allows, begin_window-Triple, reach_offset-Triple, sample_plant-Triple,
  observe_plant-Triple, check_validity-Triple, check_safety-Triple, check_applicability-Triple,
}
use power_electronics_ai_sim.Runner.Window.Step.{
  require_request, new_state, controller_call, ask_controller, admit_action, hold_action,
  apply_action, end_window, window,
}

-- An action that the policy made of a request, and that the checks of actions passed.
pub record IsAdmitted {num : Number} {P C : Type 0} (w : World num P C) (action : num.Value)
    : Type 0 where
  pub request : ActionRequest num
  pub reason : Option Reason
  pub measurement : Mapping num.Value
  pub context : CheckContext num
  pub projected : w.project request.value ≡ ok (action, reason)
  pub safe :
      ChainPassed num w.safety_chain "check_action" (acted request action measurement) context
  pub applicable :
      ChainPassed num w.applicability_chain "check_action"
        (acted request action measurement)
        context

module _ {num : Number} {P C : Type 0}
    (I : P
      → List (Row num)
      → List (WindowEvent num)
      → List (Checkpoint num)
      → Standing num
      → Type 0)
    (lit : Literals num) (w : World num P C) where
  open num use {Value}

  require_request-Triple : (o : Option (ActionRequest num)) → Triple I Any (require_request lit w o)
  require_request-Triple none s h = h
  require_request-Triple (some request) s h = (tt, h)

  new_state-Holds : (o : _) (s : Run num P C) → Holds I s → Holds I (new_state lit w o s)
  new_state-Holds none s h = h
  new_state-Holds (some state) s h = h

  ask_controller-Triple :
      (c : Cycle num) (obs : PlantObservation num) → Triple I Any (ask_controller lit w c obs)
  unfolding ask_controller
  ask_controller-Triple c obs = >>=-Triple I _ Any _ _ (lift-Triple I _) (λ command h.
      >>=-Triple I _ Any _ _ (get_state-Triple I) (λ s here.
        >>=-Triple I Any Any _ _
          (call-Triple I Any w "controller" "observe" c.index _
            (on_controller-Triple I (controller_call lit w c obs command s)))
          (λ value u. >>=-Triple I Any Any _ _ (require_request-Triple value) (λ request v.
            >>=-Triple I Any Any _ _ (λ t holds. (tt, new_state-Holds request.state_update t holds))
              (λ x k t holds. (tt, holds))))))

  admit_action-Triple :
      (c : Cycle num) (obs : PlantObservation num) (request : ActionRequest num)
      → Triple I (λ admitted. IsAdmitted w admitted.0) (admit_action lit w c obs request)
  unfolding admit_action
  admit_action-Triple c obs request = >>=-Triple I Any _ _ _ (may_raise-Triple I _ _) (λ u a.
      >>=-Triple I Any _ _ _ (may_raise-Triple I _ _) (λ v b.
        >>=-Triple I _ _ _ _
          (call-Triple I _ w "safety" "project_action" c.index _
            (lift-Triple I (w.project request.value)))
          (λ (action, reason) projected. >>=-Triple I _ _ _ _ (get_state-Triple I) (λ s here.
            >>=-Triple I _ _ _ _ (check_safety-Triple I lit w _ _ _ _) (λ x safe.
              >>=-Triple I _ _ _ _ (check_applicability-Triple I lit w _ _ _ _)
                (λ y applicable t holds. (
                  record {
                    request = request;
                    reason = reason;
                    measurement = obs.measurement;
                    context = context_of lit w c.index "action" s;
                    projected = projected;
                    safe = safe;
                    applicable = applicable;
                  },
                  holds,
                )))))))

  hold_action-Triple :
      (c : Cycle num) (target hold : Value) (s : Run num P C)
      → Drives I w s.last_action
      → Triple I Any (hold_action lit w c target hold s)
  unfolding hold_action
  hold_action-Triple c target hold s drives t holds =
      elim (Bool-cases (num.lt w.timebase.event_tolerance_s hold)) [
        | inl held ↦ rw held (
            >>=-Triple I Any Any _ _
              (advance_segments-Triple I w lit c.index s.last_action _ _ _ drives)
              (λ advanced u v k. (tt, k)) t holds)
        | inr at_once ↦ rw at_once (tt, holds)
      ]

  apply_action-Triple :
      (c : Cycle num) (action target : Value)
      → Allows I lit w
      → Drives I w action
      → Triple I Any (apply_action lit w c action target)
  unfolding apply_action
  apply_action-Triple c action target allows drives =
      >>=-Triple I _ Any _ _ (get_state-Triple I) (λ s here.
        >>=-Triple I Any Any _ _ (hold_action-Triple c target _ s (allows.going_on s here)) (λ u a.
          >>=-Triple I _ Any _ _ (get_state-Triple I) (λ t there.
            >>=-Triple I Any Any _ _ (advance_segments-Triple I w lit c.index action _ _ _ drives)
              (λ ignored b v holds. (tt, holds)))))

  end_window-Triple :
      (c : Cycle num) (obs : PlantObservation num) (reached : Value)
      → Allows I lit w
      → Triple I Any (end_window lit w c obs reached)
  unfolding end_window
  end_window-Triple c obs reached allows =
      >>=-Triple I Any Any _ _ (observe_plant-Triple I lit w c.index _ allows) (λ next u.
        >>=-Triple I Any Any _ _ (check_validity-Triple I lit w next _ _) (λ v a.
          >>=-Triple I Any Any _ _ (may_raise-Triple I _ _) (λ x b.
            >>=-Triple I Any Any _ _ (may_raise-Triple I _ _) (λ y d t holds. (tt, holds)))))

  pub window-Triple :
      (i : ℕ)
      → Allows I lit w
      → ((action : Value) → IsAdmitted w action → Drives I w action)
      → Triple I (λ o. IsAdmitted w o.action) (window lit w i)
  unfolding window
  window-Triple i allows drives = >>=-Triple I Any _ _ _ (begin_window-Triple I lit w i) (λ c u.
      >>=-Triple I Any _ _ _ (reach_offset-Triple I lit w c allows) (λ v a.
        >>=-Triple I Any _ _ _ (sample_plant-Triple I lit w c allows) (λ obs b.
          >>=-Triple I Any _ _ _ (ask_controller-Triple c obs) (λ request d.
            >>=-Triple I _ _ _ _ (admit_action-Triple c obs request) (λ (action, reason) admitted.
              >>=-Triple I Any _ _ _
                (apply_action-Triple c action _ allows (drives action admitted))
                (λ reached e.
                  >>=-Triple I Any _ _ _ (end_window-Triple c obs reached allows)
                    (λ next f t holds. (admitted, holds))))))))
