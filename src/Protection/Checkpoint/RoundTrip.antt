-- ===== src/Protection/Checkpoint/RoundTrip.antt =====
-- A checkpoint of the wrapper of Protection restores the wrapper, and a refused one changes nothing.
use power_electronics_ai_sim.Base.{
  ℕ, ◌≡◌, refl, true, false, Bool, Option, some, none, arith, Result, ok, ◌>>=◌,
}
use power_electronics_ai_sim.Number.{Number, Laws}
use power_electronics_ai_sim.Contracts.Equality.{real_eq, text_eq, flag_eq}
use power_electronics_ai_sim.Contracts.{payload_eq, dict_eq, found_eq, Payload, real, Mapping}
use power_electronics_ai_sim.Protection.{
  State, normal, tripped, latched, ProtectionError, ProtectionPolicy, Protection, finite_number,
}
use power_electronics_ai_sim.Protection.Checkpoint.{
  Field, InnerMethods, is_mapping, or_nothing, policy_dict, protection_snapshot, restore_values,
  restore_protection, require_matching_policy, checkpoint, restore_checks, restore_inner, snapshot,
  restore,
}

module _ {num : Number} (laws : Laws num) (as_float : Payload num.Value → Option num.Value)
    (as_float_real : (v : num.Value) → as_float (real v) ≡ some v) where
  open num use {Value, is_finite, le, lt, nought}

  abbrev pub IsFinite : Option Value → Type 0
  IsFinite none = Unit
  IsFinite (some v) = is_finite v ≡ true

  -- Every number of the policy is finite, as construction makes sure.
  pub record IsFinitePolicy (policy : ProtectionPolicy num) : Type 0 where
    pub ovp : IsFinite policy.ovp_v
    pub uvlo : IsFinite policy.uvlo_v
    pub ocp : IsFinite policy.ocp_a
    pub duty : is_finite policy.trip_duty ≡ true
    pub hiccup : IsFinite policy.hiccup_s

  optional_eq :
      (o : Option Value)
      → IsFinite o
      → payload_eq num as_float (or_nothing num o) (or_nothing num o) ≡ true
  optional_eq none f = unfold payload_eq in refl
  optional_eq (some v) f = real_eq num laws as_float as_float_real v f

  policy_dict-eq :
      (policy : ProtectionPolicy num)
      → IsFinitePolicy policy
      → dict_eq num as_float (policy_dict num policy) (policy_dict num policy) ≡ true
  unfolding dict_eq policy_dict found_eq
  policy_dict-eq policy h = rw (
    optional_eq policy.ovp_v h.ovp,
    optional_eq policy.uvlo_v h.uvlo,
    optional_eq policy.ocp_a h.ocp,
    real_eq num laws as_float as_float_real policy.trip_duty h.duty,
    optional_eq policy.hiccup_s h.hiccup,
    text_eq num as_float policy.voltage_key,
    text_eq num as_float policy.current_key,
    flag_eq num as_float policy.uvlo_startup_mask,
  )

  restore_values-named :
      (s : State) (e : Value) (n : ℕ) (b : Bool)
      → is_finite e ≡ true
      → lt e nought ≡ false
      → restore_values num as_float
          (protection_snapshot num (record { state = s; elapsed_s = e; trips = n; started = b }))
        ≡ ok (record { state = s; elapsed_s = e; trips = n; started = b })
  unfolding restore_values protection_snapshot finite_number
  restore_values-named normal e n b f nonneg = ground (arith, as_float_real e)
  restore_values-named tripped e n b f nonneg = ground (arith, as_float_real e)
  restore_values-named latched e n b f nonneg = ground (arith, as_float_real e)

module _ {num : Number} {Nested : Type 0} (laws : Laws num)
    (as_float : Payload num.Value → Option num.Value)
    (as_float_real : (v : num.Value) → as_float (real v) ≡ some v) where
  open num use {Value, is_finite, le, lt, nought}

  restore_checks-checkpoint :
      (policy : ProtectionPolicy num) (p : Protection num) (f : Field Value Nested)
      → IsFinitePolicy laws as_float as_float_real policy
      → is_finite p.elapsed_s ≡ true
      → lt p.elapsed_s nought ≡ false
      → is_mapping f ≡ true
      → restore_checks num as_float policy (checkpoint num policy p f) ≡ ok (f, p)
  unfolding restore_checks checkpoint require_matching_policy restore_protection
  restore_checks-checkpoint policy p f finite e n m = rw (
    m,
    policy_dict-eq laws as_float as_float_real policy finite,
    restore_values-named laws as_float as_float_real p.state p.elapsed_s p.trips p.started e n,
  )

  restore-eq :
      {S : Type 0} (policy : ProtectionPolicy num) (inner : InnerMethods Value Nested S)
      (state : Mapping (Field Value Nested)) (p0 p : Protection num) (i : S)
      (f : Field Value Nested)
      → restore_checks num as_float policy state ≡ ok (f, p)
      → restore num as_float policy inner state p0 i ≡ (
        (restore_inner num inner f i).0 >>= (λ a. ok (checkpoint num policy p f)),
        p,
        (restore_inner num inner f i).1,
      )
  unfolding restore
  restore-eq policy inner state p0 p i f h = rw (restore, h)

  -- Where the policy and the time held are finite, the time held is not negative, and the inner
  -- controller's own snapshot is a mapping `f`: `snapshot` returns a document, without a change of
  -- the wrapper; and `restore` of that document into a wrapper of the same policy, whatever its state
  -- was, gives back the protection of the snapshot, and hands `f` to the inner controller's `restore`
  -- (to its `reset`, where it has no `restore`), returning the document again if that returns.
  pub restore-snapshot :
      {S : Type 0} (policy : ProtectionPolicy num) (inner : InnerMethods Value Nested S)
      (take : S → Result ProtectionError (Field Value Nested) × S) (p p0 : Protection num)
      (i i0 : S) (f : Field Value Nested)
      → IsFinitePolicy laws as_float as_float_real policy
      → is_finite p.elapsed_s ≡ true
      → lt p.elapsed_s nought ≡ false
      → inner.snapshot ≡ some take
      → (take i).0 ≡ ok f
      → is_mapping f ≡ true
      → (document : Mapping (Field Value Nested)) × (snapshot num policy inner p i
          ≡ (ok document, p, (take i).1))
        × (restore num as_float policy inner document p0 i0 ≡ (
          (restore_inner num inner f i0).0 >>= (λ a. ok document),
          p,
          (restore_inner num inner f i0).1,
        ))
  unfolding snapshot checkpoint
  restore-snapshot policy inner take p p0 i i0 f finite e n has taken m = (
    checkpoint num policy p f,
    rw (snapshot, has, taken, m),
    restore-eq policy inner (checkpoint num policy p f) p0 p i0 f
        (restore_checks-checkpoint policy p f finite e n m),
  )
