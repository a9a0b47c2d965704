-- ===== src/Protection/Checkpoint/Refusal.antt =====
-- What a checkpoint that was not taken from the same wrapper of Protection can do.
use power_electronics_ai_sim.Base.{
  default_to, ℕ, ◌≡◌, refl, ◌⊎◌, inl, inr, true, false, Option, some, none, List, [], ◌∷◌, arith,
  ok, err, Result-cases, ap, ◌∙◌,
}
use power_electronics_ai_sim.Number.{Number, Laws}
use power_electronics_ai_sim.Number.Order.{lt_irrefl}
use power_electronics_ai_sim.Contracts.{dict_eq, Payload, text, real, Mapping, get}
use power_electronics_ai_sim.Protection.{
  tripped, ProtectionError, ProtectionPolicy, Protection, Inner, Sample, finite_number, observe,
  observe_all, readings, act, Readings,
}
use power_electronics_ai_sim.Protection.Tripping.{finite_number-finite, observe-ok, observe-err}
use power_electronics_ai_sim.Protection.Checkpoint.{
  Field, plain, mapping, nested, InnerMethods, policy_dict, restore_values, restore_protection,
  require_matching_policy, restore_checks, restore, reset, restore_parts, reset_protection,
}

module _ {num : Number} (as_float : Payload num.Value → Option num.Value) where
  open num use {Value, is_finite, lt, nought}

  restore_values-finite :
      (m : Mapping (Payload Value)) (p : Protection num)
      → restore_values num as_float m ≡ ok p
      → (is_finite p.elapsed_s ≡ true) × (lt p.elapsed_s nought ≡ false)
  unfolding restore_values
  restore_values-finite m p h = ground (
    arith,
    finite_number-finite num as_float (default_to (real nought) (get "elapsed_s" m)) p.elapsed_s,
  )

  module _ {Nested : Type 0} where
    restore_protection-finite :
        (f : Field Value Nested) (p : Protection num)
        → restore_protection num as_float f ≡ ok p
        → (is_finite p.elapsed_s ≡ true) × (lt p.elapsed_s nought ≡ false)
    unfolding restore_protection
    restore_protection-finite (plain v) p h = ground arith
    restore_protection-finite (nested n) p h = ground arith
    restore_protection-finite (mapping m) p h = restore_values-finite m p h

    require_matching_policy-ok :
        (policy : ProtectionPolicy num) (f : Field Value Nested)
        → require_matching_policy num as_float policy f ≡ ok tt
        → (m : Mapping (Payload Value)) × (f ≡ mapping m)
          × (dict_eq num as_float m (policy_dict num policy) ≡ true)
    unfolding require_matching_policy
    require_matching_policy-ok policy (plain v) h = absurd (ground arith)
    require_matching_policy-ok policy (nested n) h = absurd (ground arith)
    require_matching_policy-ok policy (mapping m) h = (m, refl, ground arith)

    -- A document with a policy that restores.
    abbrev pub Restores :
        ProtectionPolicy num → Option (Field Value Nested) → Protection num → Type 0
    Restores policy declared p =
        (m : Mapping (Payload Value)) × (declared ≡ some (mapping m))
        × (dict_eq num as_float m (policy_dict num policy) ≡ true)
        × (is_finite p.elapsed_s ≡ true)
        × (lt p.elapsed_s nought ≡ false)

    restore_parts-Restores :
        (policy : ProtectionPolicy num) (inner protection declared : Option (Field Value Nested))
        (f : Field Value Nested) (p : Protection num)
        → restore_parts num as_float policy inner protection declared ≡ ok (f, p)
        → Restores policy declared p
    unfolding restore_parts
    restore_parts-Restores policy (some inner) (some protection) (some declared) f p h =
        let matched : require_matching_policy num as_float policy declared ≡ ok tt = ground arith in
        let restored : restore_protection num as_float protection ≡ ok p = ground arith in
        let (m, is_m, same) = require_matching_policy-ok policy declared matched in
        let sound = restore_protection-finite protection p restored in
        (m, ap some is_m, same, sound.0, sound.1)
    restore_parts-Restores policy inner protection declared f p h = absurd (ground arith)

    restore_checks-Restores :
        (policy : ProtectionPolicy num) (state : Mapping (Field Value Nested))
        (f : Field Value Nested) (p : Protection num)
        → restore_checks num as_float policy state ≡ ok (f, p)
        → Restores policy (get "policy" state) p
    restore_checks-Restores policy state f p h =
        restore_parts-Restores policy (get "inner" state) (get "protection" state)
          (get "policy" state) f p (unfold restore_checks in ground arith)

    -- `restore` either raises and leaves the wrapper and its inner controller as they were, or the
    -- document declares a policy equal to the wrapper's, and the wrapper comes out with a time held
    -- that is finite and not negative (whether the inner controller then raises or not).
    pub restore_safe :
        {S : Type 0} (policy : ProtectionPolicy num) (inner : InnerMethods Value Nested S)
        (state : Mapping (Field Value Nested)) (p : Protection num) (i : S)
        → ((e : ProtectionError) × (restore num as_float policy inner state p i ≡ (err e, p, i)))
          ⊎ Restores policy (get "policy" state) (restore num as_float policy inner state p i).1
    unfolding restore
    restore_safe policy inner state p i =
        elim (Result-cases (restore_checks num as_float policy state)) [
          | inl (e, h) ↦ inl (e, rw (restore, h))
          | inr ((f, p'), h) ↦ inr (rw (restore, h) (restore_checks-Restores policy state f p' h))
        ]

abbrev pub flat_trip : (Value Nested : Type 0) → Mapping (Field Value Nested)
flat_trip Value Nested = ("protection_state", plain (text "tripped")) ∷ []

flat_trip_restores :
    {num : Number} (Nested : Type 0) (as_float : Payload num.Value → Option num.Value)
    (policy : ProtectionPolicy num)
    → Laws num
    → as_float (real num.nought) ≡ some num.nought
    → reset_protection num as_float policy (flat_trip num.Value Nested)
      ≡ ok (record { state = tripped; elapsed_s = num.nought; trips = 0; started = false })
unfolding reset_protection finite_number
flat_trip_restores {num} Nested as_float policy laws zero_float =
    let below : num.lt num.nought num.nought ≡ false =
      lt_irrefl num laws num.nought laws.nought_finite in
    ground (arith, zero_float, laws.nought_finite, below)

module _ {num : Number} {S : Type 0} (as_float : Payload num.Value → Option num.Value)
    (policy : ProtectionPolicy num) (no_hiccup : policy.hiccup_s ≡ none) where
  open num use {Value, nought}

  act_stranded :
      (inner : Inner num S) (s : Sample num) (r : Readings num) (p : Protection num) (i : S)
      → p.state ≡ tripped
      → (act num policy inner s r tripped p i).1.state ≡ tripped
  unfolding act
  act_stranded inner s r p i h = ground arith

  observe_stranded :
      (inner : Inner num S) (s : Sample num) (p : Protection num) (i : S)
      → p.state ≡ tripped
      → (observe num as_float policy inner s p i).1.state ≡ tripped
  observe_stranded inner s p i h = elim (Result-cases (readings num as_float policy s)) [
    | inl (e, he) ↦ ap (λ x. x.1.state) (observe-err as_float policy inner s p i he) ∙ h
    | inr (r, hr) ↦
        ap (λ x. x.1.state) (observe-ok as_float policy inner s p i hr h)
        ∙ act_stranded inner s r p i h
  ]

  observe_all_stranded :
      (inner : Inner num S) (ss : List (Sample num)) (p : Protection num) (i : S)
      → p.state ≡ tripped
      → (observe_all num as_float policy inner ss p i).1.state ≡ tripped
  unfolding observe_all
  observe_all_stranded inner [] p i h = h
  observe_all_stranded inner (s ∷ ss) p i h =
      let (x, p', i') = observe num as_float policy inner s p i in
      observe_all_stranded inner ss p' i' (observe_stranded inner s p i h)

  -- A wrapper whose policy has no hiccup is left in state `tripped`, which its own trips never give
  -- it, by a `reset` from the flat state that names `tripped`; and from there it stays tripped
  -- through any samples, whatever the inner controller does.
  pub reset_strands :
      {Nested : Type 0}
      → Laws num
      → as_float (real nought) ≡ some nought
      → (methods : InnerMethods Value Nested S) (seed : ℕ) (p : Protection num) (i : S)
        (inner : Inner num S) (ss : List (Sample num))
      → let (result, p', i') =
          reset num as_float policy methods (some (flat_trip Value Nested)) seed p i in
        (p'.state ≡ tripped) × ((observe_all num as_float policy inner ss p' i').1.state ≡ tripped)
  unfolding reset
  reset_strands {Nested} laws zero_float methods seed p i inner ss =
      let back = flat_trip_restores Nested as_float policy laws zero_float in
      rw (reset, back) (refl, observe_all_stranded inner ss _ _ refl)
