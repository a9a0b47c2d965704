-- ===== src/Protection/Checkpoint.antt =====
-- Checkpoints of the wrapper, src/pe_sim/protection.py: `snapshot`, `restore` and `reset`. The inner
-- controller's own methods are parameters. `reset` is a method that construction asks for, so it is
-- always there; `snapshot` and `restore` may be missing.
pub mod RoundTrip
pub mod Refusal
use power_electronics_ai_sim.Base.{
  ℕ, String, Bool, true, false, not, ◌&&◌, ◌||◌, Option, none, some, List, [], ◌∷◌, length, any,
  all, default_to, ◌==◌, str_eq, if◌then◌else◌, Result, ok, err, ◌>>=◌, ◌>>◌, raise_if,
}
use power_electronics_ai_sim.Number.{Number}
use power_electronics_ai_sim.Contracts.{
  Payload, text, real, natural, flag, nothing, other, Mapping, get, dict_eq,
}
use power_electronics_ai_sim.Protection.{
  State, normal, tripped, latched, state_name, ProtectionError, unknown_keys, missing_keys,
  not_mapping, policy_mismatch, no_state, unsupported_state, negative_elapsed, bad_trips,
  bad_started, no_snapshot_method, ProtectionPolicy, Protection, initial, finite_number, or_empty,
}

-- A value of a checkpoint: a plain value, a mapping of plain values, or a mapping with mappings or
-- sequences inside, which only an inner controller reads.
pub data Field (Value Nested : Type 0) : Type 0 where
  plain : Payload Value → Field Value Nested
  mapping : Mapping (Payload Value) → Field Value Nested
  nested : Nested → Field Value Nested

-- What the inner controller's `reset` returns.
pub data InnerReply (Value Nested : Type 0) : Type 0 where
  no_reply : InnerReply Value Nested
  reply : Field Value Nested → InnerReply Value Nested

-- What it is given: `None`, its own part of a checkpoint, or the whole of it.
pub data InnerState (Value Nested : Type 0) : Type 0 where
  no_state_given : InnerState Value Nested
  own_part : Field Value Nested → InnerState Value Nested
  whole : Mapping (Field Value Nested) → InnerState Value Nested

pub record InnerMethods (Value Nested S : Type 0) : Type 0 where
  pub snapshot : Option (S → Result ProtectionError (Field Value Nested) × S)
  pub restore : Option (Field Value Nested → S → Result ProtectionError (Unit {0}) × S)
  pub reset : InnerState Value Nested → ℕ → S → Result ProtectionError (InnerReply Value Nested) × S

-- `isinstance(value, Mapping)`
abbrev pub is_mapping : {Value Nested : Type 0} → Field Value Nested → Bool
is_mapping (plain p) = false
is_mapping (mapping m) = true
is_mapping (nested n) = true

abbrev pub is_key : List String → String → Bool
is_key keys k = any (λ j. str_eq j k) keys

module _ {ℓ} {V : Type ℓ} where
  -- `set(mapping) - keys` is not empty.
  abbrev pub has_unknown : List String → List (String × V) → Bool
  has_unknown keys [] = false
  has_unknown keys ((k, v) ∷ rest) = not (is_key keys k) || has_unknown keys rest

-- `state in PROTECTION_STATES`, with the state that it names
abbrev pub state_of : {Value : Type 0} → Payload Value → Option State
state_of (text s) =
    if str_eq s "normal"
    then some normal
    else if str_eq s "tripped"
    then some tripped
    else if str_eq s "latched"
    then some latched
    else none
state_of p = none

-- A call's result, with the wrapper and the inner controller after it.
abbrev pub Outcome : (num : Number) (Nested S : Type 0) → Type 0
Outcome num Nested S =
    Result ProtectionError (Mapping (Field num.Value Nested)) × Protection num × S

module _ (num : Number) where
  open num use {Value, le, lt, nought}

  abbrev or_nothing : Option Value → Payload Value
  or_nothing none = nothing
  or_nothing (some v) = real v

  -- `ProtectionPolicy.to_dict`
  unfoldable pub policy_dict : ProtectionPolicy num → Mapping (Payload Value)
  policy_dict policy =
      ("ovp_v", or_nothing policy.ovp_v)
      ∷ ("uvlo_v", or_nothing policy.uvlo_v)
      ∷ ("ocp_a", or_nothing policy.ocp_a)
      ∷ ("trip_duty", real policy.trip_duty)
      ∷ ("hiccup_s", or_nothing policy.hiccup_s)
      ∷ ("voltage_key", text policy.voltage_key)
      ∷ ("current_key", text policy.current_key)
      ∷ ("uvlo_startup_mask", flag policy.uvlo_startup_mask)
      ∷ []

  -- `_protection_snapshot`
  unfoldable pub protection_snapshot : Protection num → Mapping (Payload Value)
  protection_snapshot p =
      ("state", text (state_name num p.state))
      ∷ ("elapsed_s", real p.elapsed_s)
      ∷ ("trips", natural p.trips)
      ∷ ("started", flag p.started)
      ∷ []

  state_entry : Option (Payload Value) → Result ProtectionError State
  state_entry none = err no_state
  state_entry (some p) = elim (state_of p) [ none ↦ err unsupported_state | some s ↦ ok s ]

  -- `isinstance(trips, int)` that is no boolean and not negative
  trips_entry : Payload Value → Result ProtectionError ℕ
  trips_entry (natural n) = ok n
  trips_entry p = err bad_trips

  started_entry : Payload Value → Result ProtectionError Bool
  started_entry (flag b) = ok b
  started_entry p = err bad_started

  -- `_restore_protection`: every value is checked before the first is written.
  unfoldable pub restore_values :
      (Payload Value → Option Value)
      → Mapping (Payload Value)
      → Result ProtectionError (Protection num)
  unfolding state_entry trips_entry started_entry
  restore_values as_float m = do
    raise_if (has_unknown ("state" ∷ "elapsed_s" ∷ "trips" ∷ "started" ∷ []) m) unknown_keys
    state ← state_entry (get "state" m)
    elapsed ← finite_number num as_float (default_to (real nought) (get "elapsed_s" m))
    raise_if (lt elapsed nought) negative_elapsed
    trips ← trips_entry (default_to (natural 0) (get "trips" m))
    started ← started_entry (default_to (flag false) (get "started" m))
    ok (record { state = state; elapsed_s = elapsed; trips = trips; started = started })

  module _ {Nested : Type 0} where
    -- A mapping that holds a mapping has a key that is unknown or a value of a wrong type.
    unfoldable pub restore_protection :
        (Payload Value → Option Value)
        → Field Value Nested
        → Result ProtectionError (Protection num)
    unfolding restore_values
    restore_protection as_float (plain p) = err not_mapping
    restore_protection as_float (nested n) = err unsupported_state
    restore_protection as_float (mapping m) = restore_values as_float m

    -- `_require_matching_policy`
    unfoldable pub require_matching_policy :
        (Payload Value → Option Value)
        → ProtectionPolicy num
        → Field Value Nested
        → Result ProtectionError (Unit {0})
    unfolding dict_eq policy_dict
    require_matching_policy as_float policy (plain p) = err not_mapping
    require_matching_policy as_float policy (nested n) = err policy_mismatch
    require_matching_policy as_float policy (mapping m) =
        raise_if (not (dict_eq num as_float m (policy_dict policy))) policy_mismatch

    -- A value of the flat shape; a mapping there is none of the values that are asked for.
    abbrev as_payload : Field Value Nested → Payload Value
    as_payload (plain p) = p
    as_payload f = other

    abbrev payload_or : Payload Value → Option (Field Value Nested) → Payload Value
    payload_or d none = d
    payload_or d (some f) = as_payload f

    flat_entries : Mapping (Field Value Nested) → Option (Field Value Nested)
    flat_entries state = elim (get "protection_state" state) [
      | none ↦ none
      | some f ↦ some (
          mapping (
            ("state", as_payload f)
            ∷ ("elapsed_s", payload_or (real nought) (get "protection_elapsed_s" state))
            ∷ ("trips", payload_or (natural 0) (get "protection_trips" state))
            ∷ ("started", payload_or (flag false) (get "protection_started" state))
            ∷ []))
    ]

    -- `_protection_entries`
    unfoldable pub protection_entries : Mapping (Field Value Nested) → Option (Field Value Nested)
    unfolding flat_entries
    protection_entries state = elim (get "protection" state) [
      | none ↦ flat_entries state
      | some f ↦ if is_mapping f then some f else flat_entries state
    ]

    -- The document that `snapshot`, `restore` and `reset` return.
    unfoldable pub checkpoint :
        ProtectionPolicy num → Protection num → Field Value Nested → Mapping (Field Value Nested)
    unfolding protection_snapshot policy_dict
    checkpoint policy p inner =
        ("inner", inner)
        ∷ ("protection", mapping (protection_snapshot p))
        ∷ ("policy", mapping (policy_dict policy))
        ∷ []

    -- The policy that a `controller_state` may name; `None` is no policy.
    check_policy :
        (Payload Value → Option Value)
        → ProtectionPolicy num
        → Option (Field Value Nested)
        → Result ProtectionError (Unit {0})
    unfolding require_matching_policy
    check_policy as_float policy none = ok tt
    check_policy as_float policy (some (plain nothing)) = ok tt
    check_policy as_float policy (some f) = require_matching_policy as_float policy f

    -- The protection that `reset` sets, if it does not raise before.
    unfoldable pub reset_protection :
        (Payload Value → Option Value)
        → ProtectionPolicy num
        → Mapping (Field Value Nested)
        → Result ProtectionError (Protection num)
    unfolding check_policy restore_protection protection_entries
    reset_protection as_float policy state = do
      check_policy as_float policy (get "policy" state)
      elim (protection_entries state) [
        | none ↦ ok (initial num)
        | some f ↦ restore_protection as_float f
      ]

    -- What the inner `reset` is given of a `controller_state`.
    abbrev inner_state :
        Mapping (Field Value Nested) → Result ProtectionError (InnerState Value Nested)
    inner_state state = elim (get "inner" state) [
      | some f ↦ if is_mapping f then ok (own_part f) else err not_mapping
      | none ↦ elim state [ [] ↦ ok no_state_given | e ∷ es ↦ ok (whole (e ∷ es)) ]
    ]

    reply_document :
        ProtectionPolicy num
        → Protection num
        → InnerReply Value Nested
        → Result ProtectionError (Mapping (Field Value Nested))
    unfolding checkpoint
    reply_document policy p no_reply = ok (checkpoint policy p (mapping []))
    reply_document policy p (reply f) =
        if is_mapping f then ok (checkpoint policy p f) else err not_mapping

    restore_parts :
        (Payload Value → Option Value)
        → ProtectionPolicy num
        → Option (Field Value Nested)
        → Option (Field Value Nested)
        → Option (Field Value Nested)
        → Result ProtectionError (Field Value Nested × Protection num)
    restore_parts as_float policy (some inner) (some protection) (some declared) = do
      raise_if (not (is_mapping inner)) not_mapping
      require_matching_policy as_float policy declared
      p ← restore_protection as_float protection
      ok (inner, p)
    restore_parts as_float policy inner protection declared = err missing_keys

    -- What `restore` checks before it calls the inner controller: the inner part, and the
    -- protection to write.
    unfoldable pub restore_checks :
        (Payload Value → Option Value)
        → ProtectionPolicy num
        → Mapping (Field Value Nested)
        → Result ProtectionError (Field Value Nested × Protection num)
    unfolding restore_parts require_matching_policy restore_protection
    restore_checks as_float policy state = do
      raise_if (has_unknown ("inner" ∷ "protection" ∷ "policy" ∷ []) state) unknown_keys
      restore_parts as_float policy (get "inner" state) (get "protection" state)
          (get "policy" state)

    module _ {S : Type 0} where
      reset_inner :
          ProtectionPolicy num
          → InnerMethods Value Nested S
          → ℕ
          → Result ProtectionError (InnerState Value Nested)
          → Protection num
          → S
          → Outcome num Nested S
      unfolding reply_document
      reset_inner policy inner seed (err e) p i = (err e, p, i)
      reset_inner policy inner seed (ok given) p i =
          let (r, i') = inner.reset given seed i in (r >>= reply_document policy p, p, i')

      unfoldable pub reset :
          (Payload Value → Option Value)
          → ProtectionPolicy num
          → InnerMethods Value Nested S
          → Option (Mapping (Field Value Nested))
          → ℕ
          → Protection num
          → S
          → Outcome num Nested S
      unfolding reset_protection reset_inner
      reset as_float policy inner controller_state seed p i =
          let state = or_empty num controller_state in
          elim (reset_protection as_float policy state) [
            | err e ↦ (err e, p, i)
            | ok p' ↦ reset_inner policy inner seed (inner_state state) p' i
          ]

      unfoldable pub snapshot :
          ProtectionPolicy num
          → InnerMethods Value Nested S
          → Protection num
          → S
          → Outcome num Nested S
      unfolding checkpoint
      snapshot policy inner p i = elim inner.snapshot [
        | none ↦ (err no_snapshot_method, p, i)
        | some take ↦
            let (r, i') = take i in
            (
              r >>= (λ f. if is_mapping f then ok (checkpoint policy p f) else err not_mapping),
              p,
              i',
            )
      ]

      -- Without a `restore`, the inner controller's `reset` takes the part, with seed 0.
      abbrev pub restore_inner :
          InnerMethods Value Nested S
          → Field Value Nested
          → S
          → Result ProtectionError (Unit {0}) × S
      restore_inner inner f i = elim inner.restore [
        | some put_back ↦ put_back f i
        | none ↦ (let (r, i') = inner.reset (own_part f) 0 i in (r >>= (λ a. ok tt), i'))
      ]

      unfoldable pub restore :
          (Payload Value → Option Value)
          → ProtectionPolicy num
          → InnerMethods Value Nested S
          → Mapping (Field Value Nested)
          → Protection num
          → S
          → Outcome num Nested S
      unfolding restore_checks checkpoint
      restore as_float policy inner state p i = elim (restore_checks as_float policy state) [
        | err e ↦ (err e, p, i)
        | ok (f, p') ↦
            (let (r, i') = restore_inner inner f i in
              (r >>= (λ a. ok (checkpoint policy p' f)), p', i'))
      ]
