-- ===== src/Runner/Loop/Driven.antt =====
-- Which actions reach the plant in the loop of src/pe_sim/runtime.py.
use power_electronics_ai_sim.Base.{
  ℕ, ◌≡◌, Option, none, some, List, Result, ok, err, arith, sym, ◌∙◌,
}
use power_electronics_ai_sim.Number.{Number, Laws, InRange}
use power_electronics_ai_sim.Contracts.{Payload, real, Mapping}
use power_electronics_ai_sim.Actions.{BoundedActionPolicy, PolicyError, Reason, project_bounded}
use power_electronics_ai_sim.Actions.Projection.{IsOrdered, project_bounded-InRange}
use power_electronics_ai_sim.Runner.{Literals, Thrown}
use power_electronics_ai_sim.Runner.State.{World, Row, WindowEvent, Checkpoint, Standing, Run}
use power_electronics_ai_sim.Runner.Window.Step.Admission.{IsAdmitted}
use power_electronics_ai_sim.Runner.Loop.{run_windows}
use power_electronics_ai_sim.Runner.Loop.Keeping.{IsFamily, Snapshots, After, run_windows-After}

module _ (num : Number) {P : Type 0} (Safe : P → Type 0) where
  abbrev pub SafeSnapshots : Option (P → Result Thrown (Mapping (Payload num.Value)) × P) → Type 0
  SafeSnapshots none = Unit
  SafeSnapshots (some snapshot) = (p : P) → Safe p → Safe (snapshot p).1

module _ {num : Number} {P C : Type 0} (Safe : P → Type 0) where
  open num use {Value}

  -- A plant that stays safe when it is observed, when a snapshot is taken, and when it is advanced
  -- by an allowed action.
  pub record IsSafe (w : World num P C) (Allowed : Value → Type 0) : Type 0 where
    pub observing : (p : P) → Safe p → Safe (w.observe_plant p).1
    pub advancing :
        (a d : Value) (x : Mapping (Payload Value)) (p : P)
        → Allowed a
        → Safe p
        → Safe (w.advance_plant a d x p).1
    pub snapshotting : SafeSnapshots num Safe w.snapshot_plant

module _ {num : Number} {P C : Type 0} (Safe : P → Type 0) (Allowed : num.Value → Type 0)
    (lit : Literals num) (w : World num P C) where
  open num use {Value}

  abbrev Kept :
      ℕ
      → P
      → List (Row num)
      → List (WindowEvent num)
      → List (Checkpoint num)
      → Standing num
      → Type 0
  Kept j p xs es cs last = Safe p × Allowed last.0

  Kept-Snapshots :
      (j : ℕ) (o : Option (P → Result Thrown (Mapping (Payload Value)) × P))
      → SafeSnapshots num Safe o
      → Snapshots Kept lit w j o
  Kept-Snapshots j none h = tt
  Kept-Snapshots j (some snapshot) h = λ p xs es cs a k. (h p k.0, k.1)

  Kept-IsFamily :
      IsSafe Safe w Allowed → ((a : Value) → IsAdmitted w a → Allowed a) → IsFamily Kept lit w
  Kept-IsFamily safe admits = record {
    allows = λ j. record {
      observing = λ p xs es cs last h. (safe.observing p h.0, h.1);
      going_on = λ s h d x p xs es cs last k. (safe.advancing s.last_action d x p h.1 k.0, k.1);
    };
    drives =
        λ j a admitted d x p xs es cs last k. (safe.advancing a d x p (admits a admitted) k.0, k.1);
    commits = λ j o s admitted h. (h.0, admits o.action admitted);
    snapshots = λ j. Kept-Snapshots j w.snapshot_plant safe.snapshotting;
    records = λ j s c same h. h;
  }

  after_all :
      (family : IsFamily Kept lit w) (i n : ℕ) (x : Result Thrown (Unit {0}) × Run num P C)
      → After Kept lit w family i n x
      → Safe x.1.plant × Allowed x.1.last_action
  after_all family i n (ok u, t) h = h
  after_all family i n (err e, t) (k, bound, h) = h

  -- A plant that stays safe under allowed actions is safe after the loop, whether it returned or
  -- raised, if every action is allowed that the policy made of a request and the checks passed, and
  -- so is the action that the loop starts with.
  pub run_windows_driven :
      (n i : ℕ) (s : Run num P C)
      → IsSafe Safe w Allowed
      → ((a : Value) → IsAdmitted w a → Allowed a)
      → Safe s.plant
      → Allowed s.last_action
      → Safe (run_windows lit w n i s).1.plant × Allowed (run_windows lit w n i s).1.last_action
  run_windows_driven n i s safe admits here allowed =
      let family = Kept-IsFamily safe admits in
      after_all family i n (run_windows lit w n i s)
        (run_windows-After Kept lit w family n i s (here, allowed))

-- An action policy's `project`, with what it raises as an exception
abbrev pub policy_answer {ℓ} :
    {A : Type ℓ} → (PolicyError → Thrown) → Result PolicyError A → Result Thrown A
policy_answer raised (ok a) = ok a
policy_answer raised (err e) = err (raised e)

module _ {num : Number} {P C : Type 0} (laws : Laws num)
    (as_float : Payload num.Value → Option num.Value) (Safe : P → Type 0) (lit : Literals num)
    (w : World num P C) where
  answered :
      (raised : PolicyError → Thrown) (r : Result PolicyError (num.Value × Option Reason))
      (x : num.Value × Option Reason)
      → policy_answer raised r ≡ ok x
      → r ≡ ok x
  answered raised (ok y) x h = ground arith
  answered raised (err e) x h = absurd (ground arith)

  -- Under a bounded policy, a plant that stays safe under the actions within the bounds is safe
  -- after the loop, whether it returned or raised, if the loop starts with an action within them;
  -- and so the last action lies.
  pub run_windows_bounded :
      (raised : PolicyError → Thrown) (b : BoundedActionPolicy num) (n i : ℕ) (s : Run num P C)
      → IsOrdered laws as_float b
      → ((v : num.Value)
          → w.project v ≡ policy_answer raised (project_bounded num as_float b (real v)))
      → IsSafe Safe w (InRange num b.minimum b.maximum)
      → Safe s.plant
      → InRange num b.minimum b.maximum s.last_action
      → Safe (run_windows lit w n i s).1.plant
        × InRange num b.minimum b.maximum (run_windows lit w n i s).1.last_action
  run_windows_bounded raised b n i s ordered policy safe here inside =
      run_windows_driven Safe (InRange num b.minimum b.maximum) lit w n i s safe
        (λ a admitted.
          project_bounded-InRange laws as_float b (real admitted.request.value) a admitted.reason
            ordered
            (answered raised _ _ (sym (policy admitted.request.value) ∙ admitted.projected)))
        here inside
