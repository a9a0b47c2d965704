-- ===== src/Contracts.antt =====
-- The contracts between plants, controllers and the runner, src/pe_sim/contracts.py: the action
-- request, and the Python values that states and snapshots carry.
pub mod Equality
use power_electronics_ai_sim.Base.{
  ℕ, String, Bool, true, false, not, ◌&&◌, Option, none, some, List, [], ◌∷◌, length, all, ◌==◌,
  str_eq, if◌then◌else◌, Result, ok, ◌>>◌, raise_if,
}
use power_electronics_ai_sim.Number.{Number}

-- A Python value in a state mapping: a text, a float, an integer, a boolean, `None`, anything
-- else.
pub data Payload (Value : Type 0) : Type 0 where
  text : String → Payload Value
  real : Value → Payload Value
  natural : ℕ → Payload Value
  negative : ℕ → Payload Value
  flag : Bool → Payload Value
  nothing other : Payload Value

abbrev pub Mapping : Type 0 → Type 0
Mapping V = List (String × V)

module _ {ℓ} {V : Type ℓ} where
  -- `mapping.get(key)`
  abbrev pub get : String → List (String × V) → Option V
  get key [] = none
  get key ((k, v) ∷ rest) = if str_eq k key then some v else get key rest

  -- `mapping[key] = value`
  abbrev pub put : String → V → List (String × V) → List (String × V)
  put key value [] = (key, value) ∷ []
  put key value ((k, v) ∷ rest) =
      if str_eq k key then (k, value) ∷ rest else (k, v) ∷ put key value rest

  -- `mapping.update(entries)`
  abbrev pub update : List (String × V) → List (String × V) → List (String × V)
  update mapping [] = mapping
  update mapping ((k, v) ∷ rest) = update (put k v mapping) rest

pub data ContractError : Type 0 where
  action_not_finite unsupported_unit timestamps_not_finite target_before_produced : ContractError

module _ (num : Number) where
  open num use {Value, is_finite, le, lt}

  -- `==` of two plain values. Python compares a number with a boolean, and no text with a number.
  -- A value that is none of these is taken to equal nothing.
  abbrev pub number_eq : Option Value → Option Value → Bool
  number_eq (some a) (some b) = le a b && le b a
  number_eq a b = false

  abbrev pub bool_eq : Bool → Bool → Bool
  bool_eq true b = b
  bool_eq false b = not b

  unfoldable pub payload_eq : (Payload Value → Option Value) → Payload Value → Payload Value → Bool
  payload_eq as_float (text a) (text b) = str_eq a b
  payload_eq as_float (text a) q = false
  payload_eq as_float nothing nothing = true
  payload_eq as_float nothing q = false
  payload_eq as_float other q = false
  payload_eq as_float (flag a) (flag b) = bool_eq a b
  payload_eq as_float (natural a) (natural b) = a == b
  payload_eq as_float (negative a) (negative b) = a == b
  payload_eq as_float p (text b) = false
  payload_eq as_float p nothing = false
  payload_eq as_float p other = false
  payload_eq as_float p q = number_eq (as_float p) (as_float q)

  unfoldable pub found_eq :
      (Payload Value → Option Value) → Payload Value → Option (Payload Value) → Bool
  unfolding payload_eq
  found_eq as_float p none = false
  found_eq as_float p (some q) = payload_eq as_float p q

  -- `==` of two lists
  unfoldable pub list_eq :
      (Payload Value → Option Value) → List (Payload Value) → List (Payload Value) → Bool
  unfolding payload_eq
  list_eq as_float [] [] = true
  list_eq as_float (p ∷ ps) (q ∷ qs) = payload_eq as_float p q && list_eq as_float ps qs
  list_eq as_float ps qs = false

  -- `==` of two dicts: as many keys, and equal values at the keys of the one.
  unfoldable pub dict_eq :
      (Payload Value → Option Value) → Mapping (Payload Value) → Mapping (Payload Value) → Bool
  unfolding found_eq
  dict_eq as_float a b = length a == length b && all (λ e. found_eq as_float e.1 (get e.0 b)) a

  pub record ActionRequest : Type 0 where
    pub value : Value
    pub unit : String
    pub produced_time_s : Value
    pub target_time_s : Value
    pub diagnostics : Mapping Value
    pub state_update : Option (Mapping (Payload Value))

  -- `ActionRequest(...)` with its `__post_init__`
  unfoldable pub action_request : ActionRequest → Result ContractError ActionRequest
  action_request r = do
    raise_if (not (is_finite r.value)) action_not_finite
    raise_if (not (str_eq r.unit "normalized")) unsupported_unit
    raise_if (not (is_finite r.produced_time_s && is_finite r.target_time_s)) timestamps_not_finite
    raise_if (lt r.target_time_s r.produced_time_s) target_before_produced
    ok r

  pub record PlantObservation : Type 0 where
    pub time_s : Value
    pub measurement : Mapping Value
    pub truth : Mapping Value
    pub age_steps : ℕ
    pub measurement_units : Mapping String
