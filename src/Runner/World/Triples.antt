-- ===== src/Runner/World/Triples.antt =====
-- An invariant of the plant, the samples, the events and the last action of a run, and the rules by
-- which statements keep it: what they return is described by `Q`, and they keep the invariant whether
-- they return or raise.
use power_electronics_ai_sim.Base.{
  ◌≡◌, refl, true, false, not, inl, inr, ℕ, String, Bool, List, [], ◌∷◌, arith, Result, ok, err,
  Bool-cases,
}
use power_electronics_ai_sim.Number.{Number}
use power_electronics_ai_sim.Checks.{CheckReport, CheckError, merge}
use power_electronics_ai_sim.Checks.Plugins.{Plugin, run_plugin, run_plugins, run_onto}
use power_electronics_ai_sim.Runner.{Thrown}
use power_electronics_ai_sim.Runner.State.{
  World, Run, M, Row, WindowEvent, Checkpoint, Standing, Subject, CheckContext, or_check_error,
}
use power_electronics_ai_sim.Runner.World.{
  continue, ◌>>=◌, call, log_call, lift, raise_when, get_state, on_plant, on_controller,
  run_audited_onto, run_plugins_audited,
}

abbrev pub Any {ℓ} : {A : Type ℓ} → A → Type 0
Any a = Unit

pub or_check_error-ok {ℓ} :
    {A : Type ℓ} {a : A} (r : Result CheckError A) → or_check_error r ≡ ok a → r ≡ ok a
or_check_error-ok (ok b) h = ground arith
or_check_error-ok (err e) h = absurd (ground arith)

module _ {num : Number} {P C : Type 0}
    (I : P
      → List (Row num)
      → List (WindowEvent num)
      → List (Checkpoint num)
      → Standing num
      → Type 0) where
  abbrev pub Holds : Run num P C → Type 0
  Holds s = I s.plant s.samples s.events s.checkpoints (s.last_action, s.machine)

  abbrev pub Post : {A : Type 0} → (A → Type 0) → Result Thrown A × Run num P C → Type 0
  Post Q (ok a, t) = Q a × Holds t
  Post Q (err e, t) = Holds t

  abbrev pub Triple : {A : Type 0} → (A → Type 0) → M num P C A → Type 0
  Triple Q m = (s : Run num P C) → Holds s → Post Q (m s)

  continue-Post :
      {A B : Type 0} (Q : A → Type 0) (R : B → Type 0) (k : A → M num P C B)
      (x : Result Thrown A × Run num P C)
      → Post Q x
      → ((a : A) → Q a → Triple R (k a))
      → Post R (continue k x)
  continue-Post Q R k (err e, t) h next = h
  continue-Post Q R k (ok a, t) (q, h) next = next a q t h

  pub >>=-Triple :
      {A B : Type 0} (Q : A → Type 0) (R : B → Type 0) (m : M num P C A) (k : A → M num P C B)
      → Triple Q m
      → ((a : A) → Q a → Triple R (k a))
      → Triple R (m >>= k)
  unfolding ◌>>=◌
  >>=-Triple Q R m k h next s holds = continue-Post Q R k (m s) (h s holds) next

  pub lift-Triple : {A : Type 0} (r : Result Thrown A) → Triple (λ a. r ≡ ok a) (lift r)
  lift-Triple (ok a) s h = (refl, h)
  lift-Triple (err e) s h = h

  pub may_lift-Triple : {A : Type 0} (r : Result Thrown A) → Triple Any (lift r)
  may_lift-Triple (ok a) s h = (tt, h)
  may_lift-Triple (err e) s h = h

  pub raise_when-Triple : (c : Bool) (e : Thrown) → Triple (λ u. c ≡ false) (raise_when c e)
  raise_when-Triple true e s h = h
  raise_when-Triple false e s h = (refl, h)

  pub may_raise-Triple : (c : Bool) (e : Thrown) → Triple Any (raise_when c e)
  may_raise-Triple true e s h = h
  may_raise-Triple false e s h = (tt, h)

  pub require-Triple :
      (Q : Type 0) (b : Bool) (e : Thrown) → (b ≡ true → Q) → Triple (λ u. Q) (raise_when (not b) e)
  require-Triple Q true e q s h = (q refl, h)
  require-Triple Q false e q s h = h

  pub get_state-Triple : Triple Holds get_state
  get_state-Triple s h = (h, h)

  plant-Post :
      {A : Type 0} (s : Run num P C) (x : Result Thrown A × P)
      → I x.1 s.samples s.events s.checkpoints (s.last_action, s.machine)
      → Post Any (x.0, record s { plant = x.1 })
  plant-Post s (ok a, p) h = (tt, h)
  plant-Post s (err e, p) h = h

  pub on_plant-Triple :
      {A : Type 0} (f : P → Result Thrown A × P)
      → ((p : P) (xs : List (Row num)) (es : List (WindowEvent num)) (cs : List (Checkpoint num))
            (a : Standing num)
          → I p xs es cs a
          → I (f p).1 xs es cs a)
      → Triple Any (on_plant f)
  on_plant-Triple f keeps s h = plant-Post s (f s.plant) (keeps s.plant _ _ _ _ h)

  controller-Post :
      {A : Type 0} (s : Run num P C) (x : Result Thrown A × C)
      → Holds s
      → Post Any (x.0, record s { controller = x.1 })
  controller-Post s (ok a, c) h = (tt, h)
  controller-Post s (err e, c) h = h

  pub on_controller-Triple :
      {A : Type 0} (f : C → Result Thrown A × C) → Triple Any (on_controller f)
  on_controller-Triple f s h = controller-Post s (f s.controller) h

  log_call-Post :
      {A : Type 0} (Q : A → Type 0) (component method : String) (i n : ℕ)
      (x : Result Thrown A × Run num P C)
      → Post Q x
      → Post Q (log_call component method i n x)
  unfolding log_call
  log_call-Post Q component method i n (ok a, t) h = h
  log_call-Post Q component method i n (err e, t) h = h

  pub call-Triple :
      {A : Type 0} (Q : A → Type 0) (w : World num P C) (component method : String) (i : ℕ)
      (fn : M num P C A)
      → Triple Q fn
      → Triple Q (call w component method i fn)
  unfolding call
  call-Triple Q w component method i fn h s holds = elim (Bool-cases w.audit_enabled) [
    | inl on ↦ rw on (log_call-Post Q component method i _ _ (h _ holds))
    | inr off ↦ rw off (h s holds)
  ]

  run_audited_onto-Triple :
      (w : World num P C) (report : CheckReport)
      (ps : List (Plugin (Subject num) (CheckContext num))) (name : String) (subject : Subject num)
      (context : CheckContext num)
      → Triple
          (λ r. run_onto report ps name subject context ≡ ok r)
          (run_audited_onto w report ps name subject context)
  unfolding run_audited_onto run_onto
  run_audited_onto-Triple w report [] name subject context = λ s h. (refl, h)
  run_audited_onto-Triple w report (p ∷ ps) name subject context =
      >>=-Triple _ _ _ _
        (call-Triple _ w context.phase p.id context.step_index _
          (lift-Triple (or_check_error (run_plugin p name subject context))))
        (λ result ran.
          rw (or_check_error-ok _ ran)
            (run_audited_onto-Triple w (merge report result) ps name subject context))

  -- The audited chain returns what the plain one does.
  pub run_plugins_audited-Triple :
      (w : World num P C) (ps : List (Plugin (Subject num) (CheckContext num))) (name : String)
      (subject : Subject num) (context : CheckContext num)
      → Triple
          (λ r. run_plugins ps name subject context ≡ ok r)
          (run_plugins_audited w ps name subject context)
  unfolding run_plugins_audited run_plugins
  run_plugins_audited-Triple w ps name subject context =
      run_audited_onto-Triple w _ ps name subject context
