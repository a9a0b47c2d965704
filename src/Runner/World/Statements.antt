-- ===== src/Runner/World/Statements.antt =====
-- Rules for the statements of the run loop: what holds of each part holds of the whole.
use power_electronics_ai_sim.Base.{
  true, false, inl, inr, ℕ, String, Bool, Result, ok, err, Bool-cases,
}
use power_electronics_ai_sim.Number.{Number}
use power_electronics_ai_sim.Runner.{Thrown, interrupted, cancelled, failed, out_of_fuel}
use power_electronics_ai_sim.Runner.State.{World, Run, M}
use power_electronics_ai_sim.Runner.World.{continue, ◌>>=◌, call, log_call, raise_when, on_plant}

abbrev pub IsException : Thrown → Type 0
IsException out_of_fuel = ⊥
IsException (interrupted text) = Unit
IsException (cancelled text) = Unit
IsException (failed f) = Unit

-- It ended: it returned or raised an exception.
abbrev pub Ended {ℓ} : {A : Type ℓ} → Result Thrown A → Type 0
Ended (err e) = IsException e
Ended (ok a) = Unit

module _ {num : Number} {P C : Type 0} where
  -- Statements that end, whatever the state.
  abbrev pub Ends : {A : Type 0} → M num P C A → Type 0
  Ends m = (s : Run num P C) → Ended (m s).0

  continue-Ended :
      {A B : Type 0} (k : A → M num P C B) (x : Result Thrown A × Run num P C)
      → Ended x.0
      → ((a : A) → Ends (k a))
      → Ended (continue k x).0
  continue-Ended k (err e, s) h r = h
  continue-Ended k (ok a, s) h e = e a s

  pub >>=-Ends :
      {A B : Type 0} (m : M num P C A) (k : A → M num P C B)
      → Ends m
      → ((a : A) → Ends (k a))
      → Ends (m >>= k)
  unfolding ◌>>=◌
  >>=-Ends m k h e s = continue-Ended k (m s) (h s) e

  pub raise_when-Ends :
      (c : Bool) (e : Thrown) → IsException e → Ends (raise_when {num = num} {P = P} {C = C} c e)
  raise_when-Ends true e h s = h
  raise_when-Ends false e h s = tt

  pub on_plant-Ends :
      {A : Type 0} (f : P → Result Thrown A × P)
      → ((p : P) → Ended (f p).0)
      → Ends (on_plant {num = num} {C = C} f)
  on_plant-Ends f h s = h s.plant

  pub call-Ends :
      {A : Type 0} (w : World num P C) (component method : String) (i : ℕ) (fn : M num P C A)
      → Ends fn
      → Ends (call w component method i fn)
  unfolding call log_call
  call-Ends w component method i fn h s = elim (Bool-cases w.audit_enabled) [
    | inl on ↦ rw on (h _)
    | inr off ↦ rw off (h s)
  ]

  -- What holds of every state and holds across two statements that follow each other.
  pub record IsPreorder (R : Run num P C → Run num P C → Type 0) : Type 0 where
    pub same : (s : Run num P C) → R s s
    pub chain : (s t u : Run num P C) → R s t → R t u → R s u

  module _ {R : Run num P C → Run num P C → Type 0} (order : IsPreorder R) where
    continue-related :
        {A B : Type 0} (k : A → M num P C B) (s : Run num P C) (x : Result Thrown A × Run num P C)
        → R s x.1
        → ((a : A) (t : Run num P C) → R t (k a t).1)
        → R s (continue k x).1
    continue-related k s (err e, t) h r = h
    continue-related k s (ok a, t) h r = order.chain s t (k a t).1 h (r a t)

    pub >>=-related :
        {A B : Type 0} (m : M num P C A) (k : A → M num P C B)
        → ((s : Run num P C) → R s (m s).1)
        → ((a : A) (s : Run num P C) → R s (k a s).1)
        → (s : Run num P C) → R s ((m >>= k) s).1
    unfolding ◌>>=◌
    >>=-related m k h r s = continue-related k s (m s) (h s) r
