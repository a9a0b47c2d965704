-- ===== src/Negotiation.antt =====
-- Capability negotiation and the timebase, src/pe_sim/contracts.py: `CapabilitySet`, `Timebase` and
-- `negotiate_capabilities`. A frozenset of names is the list of what went in; Python's `float()` is
-- the parameter `as_float`.
pub mod Requirements
mod Examples
use Prim.Native.Char.{code}
use Prim.Native.String.{◌++◌ as append}
use power_electronics_ai_sim.Base.{
  String, Bool, true, false, not, ◌&&◌, ◌||◌, Option, none, some, List, [], ◌∷◌, ◌++◌, any, ◌==◌,
  str_eq, is_some, default_to, if◌then◌else◌, Result, ok, err, ◌>>=◌, ◌>>◌, raise_if,
}
use power_electronics_ai_sim.Number.{Number}
use power_electronics_ai_sim.Contracts.{Payload}

pub data NegotiationError : Type 0 where
  not_a_number period_not_positive : NegotiationError
  unit_not_seconds plant_step_not_positive sample_offset_outside : NegotiationError
  event_tolerance_invalid : NegotiationError
  -- `MissingCapabilityError`, with what is missing
  missing_capability : List String → NegotiationError

-- `requirement.split(":", 1)`, `none` where there is no colon
pub split_colon : String → Option (String × String)
split_colon String.[] = none
split_colon (String.◌∷◌ c s) =
    let rest = split_colon s in
    if code c == 58
    then some ("", s)
    else elim rest [ none ↦ none | some (owner, name) ↦ some (String.◌∷◌ c owner, name) ]

-- An item of an event schedule. A field is `none` where it is missing and `some none` where it is
-- `None`; `no_mapping` is an item that is no mapping.
pub data Item : Type 0 where
  event_item : Option (Option String) → Option (Option String) → Item
  no_mapping : Item

-- Names in a declared mapping: one name, or several.
pub data Names : Type 0 where
  single : String → Names
  several : List String → Names

abbrev names_of : Option Names → List String
names_of none = []
names_of (some (single s)) = s ∷ []
names_of (some (several ss)) = ss

-- `a.get(x, a.get(y, ...))`
abbrev first_of {ℓ} : {A : Type ℓ} → Option A → Option A → Option A
first_of none b = b
first_of (some a) b = some a

-- `value not in (None, "")`
abbrev is_named : Option (Option String) → Bool
is_named none = false
is_named (some none) = false
is_named (some (some s)) = not (str_eq s "")

module _ (num : Number) where
  open num use {Value, is_finite, le, lt, nought}

  pub record CapabilitySet : Type 0 where
    pub names : List String
    pub event_types : List String
    pub control_period_s : Option Value
    pub observation_period_s : Option Value

  pub record DeclaredMapping : Type 0 where
    pub names : Option Names
    pub features : Option Names
    pub capabilities : Option Names
    pub event_types : Option Names
    pub control_period_s : Option (Payload Value)
    pub observation_period_s : Option (Payload Value)

  -- What a component may declare.
  pub data Declared : Type 0 where
    normalized : CapabilitySet → Declared
    undeclared : Declared
    declared_mapping : DeclaredMapping → Declared
    listed : List String → Declared

  checked_period :
      (Payload Value → Option Value)
      → Option (Payload Value)
      → Result NegotiationError (Option Value)
  checked_period as_float none = ok none
  checked_period as_float (some p) = elim (as_float p) [
    | none ↦ err not_a_number
    | some v ↦ if not (is_finite v) || le v nought then err period_not_positive else ok (some v)
  ]

  abbrev named_set : List String → CapabilitySet
  named_set names = record {
    names = names;
    event_types = [];
    control_period_s = none;
    observation_period_s = none;
  }

  -- `CapabilitySet.from_value`, with the checks of `__post_init__`
  unfoldable pub from_value :
      (Payload Value → Option Value) → Declared → Result NegotiationError CapabilitySet
  unfolding checked_period
  from_value as_float (normalized c) = ok c
  from_value as_float undeclared = ok (named_set [])
  from_value as_float (listed names) = ok (named_set names)
  from_value as_float (declared_mapping m) = do
    control_period_s ← checked_period as_float m.control_period_s
    observation_period_s ← checked_period as_float m.observation_period_s
    ok (record {
      names = names_of (first_of m.names (first_of m.features m.capabilities));
      event_types = names_of m.event_types;
      control_period_s = control_period_s;
      observation_period_s = observation_period_s;
    })

  -- `name in names`
  abbrev pub contains : List String → String → Bool
  contains names name = any (λ n. str_eq n name) names

  -- `CapabilitySet.supports`
  abbrev pub supports : CapabilitySet → String → Bool
  supports c name = contains c.names name

  pub record Timebase : Type 0 where
    pub unit : String
    pub control_period_s : Value
    pub duration_s : Value
    pub plant_step_s : Option Value
    pub sample_offset_s : Value
    pub event_tolerance_s : Value

  abbrev positive : Value → Bool
  positive v = is_finite v && not (le v nought)

  abbrev step_allowed : Option Value → Bool
  step_allowed none = true
  step_allowed (some v) = positive v

  -- `Timebase(...)` with its `__post_init__`
  unfoldable pub timebase : Timebase → Result NegotiationError Timebase
  timebase t = do
    raise_if (not (str_eq t.unit "s")) unit_not_seconds
    raise_if (not (positive t.control_period_s)) period_not_positive
    raise_if (not (positive t.duration_s)) period_not_positive
    raise_if (not (step_allowed t.plant_step_s)) plant_step_not_positive
    raise_if
        (not (is_finite t.sample_offset_s)
          || (lt t.sample_offset_s nought || le t.control_period_s t.sample_offset_s))
        sample_offset_outside
    raise_if (not (is_finite t.event_tolerance_s) || lt t.event_tolerance_s nought)
        event_tolerance_invalid
    ok t

  -- A requirement is met, from what stands around its colon.
  abbrev pub met : CapabilitySet → CapabilitySet → String → Option (String × String) → Bool
  met plant controller requirement none =
      supports plant requirement || supports controller requirement
  met plant controller requirement (some (owner, name)) =
      if str_eq owner "plant"
      then supports plant name
      else str_eq owner "controller" && supports controller name

  -- Whether one requirement is met.
  unfoldable pub supported : CapabilitySet → CapabilitySet → String → Bool
  supported plant controller requirement =
      met plant controller requirement (split_colon requirement)

  abbrev missing_required : CapabilitySet → CapabilitySet → List String → List String
  missing_required plant controller [] = []
  missing_required plant controller (r ∷ rs) =
      let rest = missing_required plant controller rs in
      if supported plant controller r then rest else r ∷ rest

  abbrev is_event : Item → Bool
  is_event no_mapping = false
  is_event (event_item event event_type) = is_named event || is_named event_type

  -- `event_name`
  abbrev event_name : Item → Option String
  event_name no_mapping = none
  event_name (event_item event event_type) = default_to none (first_of event_type event)

  abbrev missing_type : List String → Option String → List String
  missing_type types none = []
  missing_type types (some name) =
      if str_eq name "" || contains types name then [] else append "plant:event_type:" name ∷ []

  abbrev missing_types : List String → List Item → List String
  missing_types types [] = []
  missing_types types (i ∷ is) = missing_type types (event_name i) ++ missing_types types is

  abbrev missing_events : CapabilitySet → List Item → List String
  missing_events plant schedule =
      if any is_event schedule && not (supports plant "events" || supports plant "event_driven")
      then "plant:events" ∷ []
      else []

  abbrev declares_types : CapabilitySet → Bool
  declares_types plant = elim plant.event_types [ [] ↦ false | t ∷ ts ↦ true ]

  abbrev missing_event_types : CapabilitySet → List Item → List String
  missing_event_types plant schedule =
      if any is_event schedule && declares_types plant
      then missing_types plant.event_types schedule
      else []

  -- `timebase.plant_step_s != timebase.control_period_s`, where there is a plant step
  abbrev is_multirate : Option Timebase → Bool
  is_multirate none = false
  is_multirate (some t) = elim t.plant_step_s [
    | none ↦ false
    | some step ↦ not (le step t.control_period_s && le t.control_period_s step)
  ]

  abbrev missing_multirate : CapabilitySet → Option Timebase → List String
  missing_multirate plant t =
      if is_multirate t
        && not (supports plant "continuous_time" || supports plant "multirate_control")
      then "plant:multirate_control" ∷ []
      else []

  unfoldable pub missing :
      CapabilitySet → CapabilitySet → Option Timebase → List String → List Item → List String
  unfolding supported
  missing plant controller t required schedule =
      missing_required plant controller required
      ++ (missing_events plant schedule
          ++ (missing_event_types plant schedule ++ missing_multirate plant t))

  granted :
      CapabilitySet
      → CapabilitySet
      → List String
      → Result NegotiationError (CapabilitySet × CapabilitySet)
  granted plant controller [] = ok (plant, controller)
  granted plant controller (m ∷ ms) = err (missing_capability (m ∷ ms))

  unfoldable pub negotiate_capabilities :
      (Payload Value → Option Value)
      → Declared
      → Declared
      → Option Timebase
      → List String
      → List Item
      → Result NegotiationError (CapabilitySet × CapabilitySet)
  unfolding from_value missing granted
  negotiate_capabilities as_float plant_value controller_value t required schedule = do
    plant ← from_value as_float plant_value
    controller ← from_value as_float controller_value
    granted plant controller (missing plant controller t required schedule)
