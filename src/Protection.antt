-- ===== src/Protection.antt =====
-- Controller-side protection, src/pe_sim/protection.py: OVP, OCP and UVLO with hiccup or latch,
-- wrapped around an inner controller. The inner controller is code of the caller, a parameter with a
-- state of its own. What a call wrote before it raised stays written, so the state comes back beside
-- the error too.
pub mod Checkpoint
pub mod Tripping
pub mod Latch
pub mod Hiccup
pub mod Invariant
mod Examples
use power_electronics_ai_sim.Base.{
  ℕ, ◌+◌, String, Bool, true, false, not, ◌&&◌, ◌||◌, Option, none, some, List, [], ◌∷◌, is_some,
  str_eq, if◌then◌else◌, Result, ok, err, ◌>>=◌, ◌>>◌, raise_if,
}
use power_electronics_ai_sim.Number.{Number}
use power_electronics_ai_sim.Contracts.{
  Payload, text, real, natural, negative, flag, nothing, other, Mapping, get, update, ContractError,
  ActionRequest, action_request,
}

pub data State : Type 0 where
  normal tripped latched : State

pub data ProtectionError : Type 0 where
  not_a_number not_finite not_positive trip_duty_range empty_key : ProtectionError
  missing_measurement : String → ProtectionError
  -- raised by `snapshot`, `restore` and `reset`
  unknown_keys missing_keys not_mapping policy_mismatch no_state unsupported_state : ProtectionError
  negative_elapsed bad_trips bad_started no_snapshot_method : ProtectionError
  contract : ContractError → ProtectionError
  -- whatever the inner controller raised
  inner_error : String → ProtectionError

module _ (num : Number) where
  open num use {Value, is_finite, le, lt, plus, nought, one}

  -- `_finite_number`. Python's `float` accepts some texts and refuses some integers: `as_float`.
  unfoldable pub finite_number :
      (Payload Value → Option Value) → Payload Value → Result ProtectionError Value
  finite_number as_float (flag b) = err not_a_number
  finite_number as_float nothing = err not_a_number
  finite_number as_float p = elim (as_float p) [
    | none ↦ err not_a_number
    | some v ↦ if is_finite v then ok v else err not_finite
  ]

  -- `_optional_positive`
  unfoldable pub optional_positive :
      (Payload Value → Option Value)
      → Option (Payload Value)
      → Result ProtectionError (Option Value)
  unfolding finite_number
  optional_positive as_float none = ok none
  optional_positive as_float (some p) = do
    v ← finite_number as_float p
    raise_if (le v nought) not_positive
    ok (some v)

  pub record ProtectionPolicy : Type 0 where
    pub ovp_v : Option Value
    pub uvlo_v : Option Value
    pub ocp_a : Option Value
    pub trip_duty : Value
    pub hiccup_s : Option Value
    pub voltage_key : String
    pub current_key : String
    pub uvlo_startup_mask : Bool

  -- The arguments of `ProtectionPolicy(...)`.
  pub record PolicyArguments : Type 0 where
    pub ovp_v : Option (Payload Value)
    pub uvlo_v : Option (Payload Value)
    pub ocp_a : Option (Payload Value)
    pub trip_duty : Payload Value
    pub hiccup_s : Option (Payload Value)
    pub voltage_key : String
    pub current_key : String
    pub uvlo_startup_mask : Bool

  unfoldable pub protection_policy :
      (Payload Value → Option Value) → PolicyArguments → Result ProtectionError ProtectionPolicy
  unfolding optional_positive finite_number
  protection_policy as_float a = do
    ovp ← optional_positive as_float a.ovp_v
    uvlo ← optional_positive as_float a.uvlo_v
    ocp ← optional_positive as_float a.ocp_a
    duty ← finite_number as_float a.trip_duty
    raise_if (not (le nought duty && le duty one)) trip_duty_range
    hiccup ← optional_positive as_float a.hiccup_s
    raise_if (str_eq a.voltage_key "" || str_eq a.current_key "") empty_key
    ok (record {
      ovp_v = ovp;
      uvlo_v = uvlo;
      ocp_a = ocp;
      trip_duty = duty;
      hiccup_s = hiccup;
      voltage_key = a.voltage_key;
      current_key = a.current_key;
      uvlo_startup_mask = a.uvlo_startup_mask;
    })

  -- The fields that the wrapper owns.
  pub record Protection : Type 0 where
    pub state : State
    pub elapsed_s : Value
    pub trips : ℕ
    pub started : Bool

  -- `_reset_protection`, and the state of a new wrapper
  abbrev pub initial : Protection
  initial = record { state = normal; elapsed_s = nought; trips = 0; started = false }

  -- The arguments of one `observe`.
  pub record Sample : Type 0 where
    pub measurement : Mapping (Payload Value)
    pub command : Mapping (Payload Value)
    pub timing : Mapping (Payload Value)
    pub state : Mapping (Payload Value)

  abbrev pub state_name : State → String
  state_name normal = "normal"
  state_name tripped = "tripped"
  state_name latched = "latched"

  -- `_state_update`
  unfoldable pub state_update : Protection → Mapping (Payload Value)
  state_update p =
      ("protection_state", text (state_name p.state))
      ∷ ("protection_trips", natural p.trips)
      ∷ ("protection_elapsed_s", real p.elapsed_s)
      ∷ ("protection_started", flag p.started)
      ∷ []

  abbrev or_empty {ℓ} : {V : Type ℓ} → Option (List V) → List V
  or_empty none = []
  or_empty (some m) = m

  abbrev as_protection_error : {A : Type 0} → Result ContractError A → Result ProtectionError A
  as_protection_error (ok a) = ok a
  as_protection_error (err e) = err (contract e)

  -- `_reading`
  unfoldable pub reading :
      (Payload Value → Option Value)
      → Mapping (Payload Value)
      → String
      → Bool
      → Result ProtectionError (Option Value)
  unfolding finite_number
  reading as_float measurement key required = elim (get key measurement) [
    | none ↦ if required then err (missing_measurement key) else ok none
    | some p ↦ (do v ← finite_number as_float p; ok (some v))
  ]

  -- `threshold is not None and reading is not None and reading >= threshold`
  abbrev pub at_least : Option Value → Option Value → Bool
  at_least (some threshold) (some v) = le threshold v
  at_least threshold v = false

  abbrev pub at_most : Option Value → Option Value → Bool
  at_most (some threshold) (some v) = le v threshold
  at_most threshold v = false

  -- `_fault(...) is not None`
  unfoldable pub fault : ProtectionPolicy → Bool → Option Value → Option Value → Bool
  fault policy started voltage current =
      at_least policy.ovp_v voltage
      || (at_least policy.ocp_a current
          || ((started || not policy.uvlo_startup_mask) && at_most policy.uvlo_v voltage))

  -- `_trip_request`
  unfoldable pub trip_request :
      ProtectionPolicy → Value → Protection → Result ProtectionError (ActionRequest num)
  unfolding state_update
  trip_request policy now p = as_protection_error (
      action_request num (record {
        value = policy.trip_duty;
        unit = "normalized";
        produced_time_s = now;
        target_time_s = now;
        diagnostics = [];
        state_update = some (state_update p);
      }))

  -- What `observe` reads before it looks at its state.
  pub record Readings : Type 0 where
    pub period : Value
    pub now : Value
    pub voltage : Option Value
    pub current : Option Value

  -- `_finite_number(mapping.get(key))`: `float(None)` raises.
  required_number :
      (Payload Value → Option Value) → Option (Payload Value) → Result ProtectionError Value
  unfolding finite_number
  required_number as_float none = err not_a_number
  required_number as_float (some p) = finite_number as_float p

  optional_number :
      (Payload Value → Option Value) → Option (Payload Value) → Result ProtectionError (Unit {0})
  unfolding finite_number
  optional_number as_float none = ok tt
  optional_number as_float (some nothing) = ok tt
  optional_number as_float (some p) = do v ← finite_number as_float p; ok tt

  unfoldable pub readings :
      (Payload Value → Option Value) → ProtectionPolicy → Sample → Result ProtectionError Readings
  unfolding required_number optional_number reading
  readings as_float policy s = do
    period ← required_number as_float (get "control_period_s" s.timing)
    raise_if (le period nought) not_positive
    now ← required_number as_float (get "sample_time_s" s.timing)
    optional_number as_float (get "vref" s.command)
    voltage ←
        reading as_float s.measurement policy.voltage_key
          (is_some policy.ovp_v || is_some policy.uvlo_v)
    current ← reading as_float s.measurement policy.current_key (is_some policy.ocp_a)
    ok (record { period = period; now = now; voltage = voltage; current = current })

  -- `hiccup_s is not None and self._elapsed_s >= hiccup_s`
  abbrev pub retry_due : Option Value → Value → Bool
  retry_due none elapsed = false
  retry_due (some hiccup) elapsed = le hiccup elapsed

  abbrev pub arm : ProtectionPolicy → Option Value → Protection → Protection
  arm policy voltage p = record p { started = p.started || at_least policy.uvlo_v voltage }

  abbrev pub trip : ProtectionPolicy → Protection → Protection
  trip policy p = record p {
    state = if is_some policy.hiccup_s then tripped else latched;
    elapsed_s = nought;
    trips = p.trips + 1;
  }

  -- The inner controller's `observe` on a state of its own: it returns or raises, in a new state.
  abbrev pub Inner : Type 0 → Type 0
  Inner S = Sample → S → Result ProtectionError (ActionRequest num) × S

  unfoldable pub audited :
      Protection → ActionRequest num → Result ProtectionError (ActionRequest num)
  unfolding state_update
  audited p request = as_protection_error (
      action_request num (record request {
        state_update = some (update (or_empty request.state_update) (state_update p));
      }))

  module _ {S : Type 0} where
    -- `_delegate`
    unfoldable pub delegate :
        Inner S
        → Sample
        → Protection
        → S
        → Result ProtectionError (ActionRequest num) × Protection × S
    unfolding audited
    delegate inner s p i = let (r, i') = inner s i in (r >>= audited p, p, i')

    unfoldable pub act :
        ProtectionPolicy
        → Inner S
        → Sample
        → Readings
        → State
        → Protection
        → S
        → Result ProtectionError (ActionRequest num) × Protection × S
    unfolding trip_request fault delegate
    act policy inner s r latched p i = (trip_request policy r.now p, p, i)
    act policy inner s r tripped p i =
        let held : Protection = record p { elapsed_s = plus p.elapsed_s r.period } in
        if retry_due policy.hiccup_s held.elapsed_s
        then delegate inner s (record p { state = normal; elapsed_s = nought }) i
        else (trip_request policy r.now held, held, i)
    act policy inner s r normal p i =
        let armed = arm policy r.voltage p in
        if fault policy armed.started r.voltage r.current
        then (trip_request policy r.now (trip policy armed), trip policy armed, i)
        else delegate inner s armed i

    unfoldable pub observe :
        (Payload Value → Option Value)
        → ProtectionPolicy
        → Inner S
        → Sample
        → Protection
        → S
        → Result ProtectionError (ActionRequest num) × Protection × S
    unfolding readings act
    observe as_float policy inner s p i = elim (readings as_float policy s) [
      | err e ↦ (err e, p, i)
      | ok r ↦ act policy inner s r p.state p i
    ]

    -- The samples of a run, one after another: the actions or errors, and the state at the end.
    unfoldable pub observe_all :
        (Payload Value → Option Value)
        → ProtectionPolicy
        → Inner S
        → List Sample
        → Protection
        → S
        → List (Result ProtectionError (ActionRequest num)) × Protection × S
    observe_all as_float policy inner [] p i = ([], p, i)
    observe_all as_float policy inner (s ∷ ss) p i =
        let (r, p', i') = observe as_float policy inner s p i in
        let (rs, p'', i'') = observe_all as_float policy inner ss p' i' in (r ∷ rs, p'', i'')
