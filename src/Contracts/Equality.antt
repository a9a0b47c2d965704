-- ===== src/Contracts/Equality.antt =====
-- Values that Python finds equal to themselves: texts, booleans, and finite numbers.
use power_electronics_ai_sim.Base.{
  String, eq_refl, ◌≡◌, refl, Bool, true, false, Option, some, List, [], ◌∷◌, map, All,
}
use power_electronics_ai_sim.Number.{Number, Laws}
use power_electronics_ai_sim.Number.Order.{le_refl}
use power_electronics_ai_sim.Contracts.{Payload, text, real, flag, payload_eq, list_eq}

module _ (num : Number) (as_float : Payload num.Value → Option num.Value) where
  pub text_eq : (s : String) → payload_eq num as_float (text s) (text s) ≡ true
  unfolding payload_eq
  text_eq s = eq_refl s

  pub flag_eq : (b : Bool) → payload_eq num as_float (flag b) (flag b) ≡ true
  unfolding payload_eq
  flag_eq true = refl
  flag_eq false = refl

module _ (num : Number) (laws : Laws num) (as_float : Payload num.Value → Option num.Value)
    (as_float_real : (v : num.Value) → as_float (real v) ≡ some v) where
  open num use {Value, is_finite}

  pub real_eq : (v : Value) → is_finite v ≡ true → payload_eq num as_float (real v) (real v) ≡ true
  unfolding payload_eq
  real_eq v f = rw (as_float_real v, le_refl num laws v f)

  pub reals_eq :
      (vs : List Value)
      → All (λ v. is_finite v ≡ true) vs
      → list_eq num as_float (map real vs) (map real vs) ≡ true
  unfolding list_eq
  reals_eq [] h = refl
  reals_eq (v ∷ vs) h = rw (real_eq v h.0, reals_eq vs h.1)
