-- ===== src/Runner/Segments/Driving.antt =====
-- `_advance_segments` of src/pe_sim/runtime.py keeps what every advance by its action keeps.
use power_electronics_ai_sim.Base.{ℕ, inl, inr, Option, none, List, [], ◌∷◌, Bool-cases}
use power_electronics_ai_sim.Number.{Number}
use power_electronics_ai_sim.Contracts.{Payload, Mapping, PlantObservation}
use power_electronics_ai_sim.Runner.{Literals}
use power_electronics_ai_sim.Runner.State.{World, Row, WindowEvent, Checkpoint, Standing}
use power_electronics_ai_sim.Runner.World.Triples.{
  Any, Triple, >>=-Triple, lift-Triple, raise_when-Triple, on_plant-Triple, call-Triple,
}
use power_electronics_ai_sim.Runner.Segments.{latest, advance_steps, advance_each, advance_segments}

module _ {num : Number} {P C : Type 0}
    (I : P
      → List (Row num)
      → List (WindowEvent num)
      → List (Checkpoint num)
      → Standing num
      → Type 0)
    (w : World num P C) where
  open num use {Value}

  -- The plant may be advanced by an action, for any time and under any command.
  abbrev pub Drives : Value → Type 0
  Drives action =
      (d : Value) (x : Mapping (Payload Value)) (p : P) (xs : List (Row num))
      (es : List (WindowEvent num)) (cs : List (Checkpoint num)) (last : Standing num)
      → I p xs es cs last
      → I (w.advance_plant action d x p).1 xs es cs last

  advance_steps-Triple :
      (i : ℕ) (action : Value) (external : Mapping (Payload Value)) (ds : List Value)
      (last : Option (PlantObservation num))
      → Drives action
      → Triple I Any (advance_steps w i action external ds last)
  unfolding advance_steps
  advance_steps-Triple i action external [] last drives = λ s h. (tt, h)
  advance_steps-Triple i action external (d ∷ ds) last drives =
      >>=-Triple I Any Any _ _
        (call-Triple I Any w "plant" "advance" i _
          (on_plant-Triple I (w.advance_plant action d external) (drives d external)))
        (λ value u. advance_steps-Triple i action external ds (latest last value) drives)

  advance_each-Triple :
      (lit : Literals num) (i : ℕ) (action : Value) (bounds : List (Value × Value))
      (last : Option (PlantObservation num))
      → Drives action
      → Triple I Any (advance_each lit w i action bounds last)
  unfolding advance_each
  advance_each-Triple lit i action [] last drives = λ s h. (tt, h)
  advance_each-Triple lit i action ((start, end) ∷ rest) last drives =
      >>=-Triple I _ Any _ _ (lift-Triple I _) (λ external e.
        >>=-Triple I _ Any _ _ (lift-Triple I _) (λ steps h.
          >>=-Triple I Any Any _ _ (advance_steps-Triple i action external steps last drives)
            (λ later u. advance_each-Triple lit i action rest later drives)))

  pub advance_segments-Triple :
      (lit : Literals num) (i : ℕ) (action duration start expected : Value)
      → Drives action
      → Triple I Any (advance_segments lit w i action duration start expected)
  unfolding advance_segments
  advance_segments-Triple lit i action duration start expected drives s h =
      elim (Bool-cases (num.le duration lit.femto)) [
        | inl done ↦ rw done (tt, h)
        | inr more ↦ rw more (
            >>=-Triple I _ Any _ _ (lift-Triple I _)
              (λ bounds e.
                >>=-Triple I Any Any _ _ (advance_each-Triple lit i action bounds none drives)
                  (λ last u.
                    >>=-Triple I _ Any _ _ (raise_when-Triple I _ _) (λ v k t hold. (tt, hold))))
              s h)
      ]
