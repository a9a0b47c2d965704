-- ===== src/Negotiation/Requirements.antt =====
-- What a negotiation requires of the plant and the controller, src/pe_sim/contracts.py.
use power_electronics_ai_sim.Base.{
  String, ◌≡◌, ◌↔◌, ◌⊎◌, inl, inr, refl, Bool, true, false, not, ◌||◌, ◌&&◌, Option, none, some,
  List, [], ◌∷◌, ◌++◌, arith, All, any, ok, str_eq, eq_iff, Bool-cases, if◌then◌else◌,
}
use mathlib.Core.Path.{subst}
use power_electronics_ai_sim.Number.{Number}
use power_electronics_ai_sim.Contracts.{Payload}
use power_electronics_ai_sim.Negotiation.{
  CapabilitySet, Declared, Timebase, Item, from_value, supports, contains, met, supported,
  split_colon, is_event, event_name, is_multirate, missing, missing_required, missing_type,
  missing_types, declares_types, missing_event_types, granted, negotiate_capabilities,
}

append_empty_iff {ℓ κ μ} :
    {X : Type μ} {A : Type ℓ} {B : Type κ} (xs ys : List X)
    → (xs ≡ []) ↔ A
    → (ys ≡ []) ↔ B
    → (xs ++ ys ≡ []) ↔ (A × B)
append_empty_iff [] ys first later = ((λ h. (first.0 refl, later.0 h)), λ h. later.1 h.1)
append_empty_iff (x ∷ xs) ys first later =
    ((λ h. absurd (ground arith)), λ h. let none_first = first.1 h.0 in absurd (ground arith))

module _ (num : Number) where
  abbrev pub Has : CapabilitySet num → String → Type 0
  Has c name = supports num c name ≡ true

  -- `plant:` and `controller:` name the side that must have the capability; without a colon, either.
  abbrev pub IsMetBy :
      CapabilitySet num → CapabilitySet num → String → Option (String × String) → Type 0
  IsMetBy plant controller r none = Has plant r ⊎ Has controller r
  IsMetBy plant controller r (some (owner, name)) =
      ((owner ≡ "plant") × Has plant name) ⊎ ((owner ≡ "controller") × Has controller name)

  abbrev pub IsMet : CapabilitySet num → CapabilitySet num → String → Type 0
  IsMet plant controller r = IsMetBy plant controller r (split_colon r)

  -- An event that is named is of a type that the plant declares.
  abbrev pub IsKnown : List String → Option String → Type 0
  IsKnown types none = Unit
  IsKnown types (some name) = (name ≡ "") ⊎ (contains num types name ≡ true)

  -- What is asked for under a test only
  abbrev pub Needs : Bool → Type 0 → Type 0
  Needs true A = A
  Needs false A = Unit

  pub record IsGranted (plant controller : CapabilitySet num) (t : Option (Timebase num))
      (required : List String) (schedule : List Item) : Type 0 where
    pub required_met : All (IsMet plant controller) required
    pub events_supported :
        Needs (any (is_event num) schedule) (Has plant "events" ⊎ Has plant "event_driven")
    pub types_known :
        Needs
          (any (is_event num) schedule && declares_types num plant)
          (All (λ i. IsKnown plant.event_types (event_name num i)) schedule)
    pub rates_supported :
        Needs (is_multirate num t) (Has plant "continuous_time" ⊎ Has plant "multirate_control")

  or_iff : (a b : Bool) → ((a || b) ≡ true) ↔ ((a ≡ true) ⊎ (b ≡ true))
  or_iff true b = ((λ h. inl refl), λ h. refl)
  or_iff false b = ((λ h. inr h), λ h. ground arith)

  met_iff :
      (plant controller : CapabilitySet num) (r : String) (parts : Option (String × String))
      → (met num plant controller r parts ≡ true) ↔ IsMetBy plant controller r parts
  met_iff plant controller r none = or_iff (supports num plant r) (supports num controller r)
  met_iff plant controller r (some (owner, name)) =
      let to_plant = eq_iff owner "plant" in
      let to_controller = eq_iff owner "controller" in
      elim (Bool-cases (str_eq owner "plant")) [
        | inl plant_side ↦ (
          (λ h. inl (to_plant.0 plant_side, ground arith)),
          λ h. elim h [
            | inl (same, has) ↦ ground arith
            | inr (same, has) ↦
                let clash = subst (λ o. str_eq o "plant" ≡ true) same plant_side in
                absurd (ground arith)
          ],
        )
        | inr other_side ↦ (
          (λ h. inr (to_controller.0 (ground arith), ground arith)),
          λ h. elim h [
            | inl (same, has) ↦ let clash = to_plant.1 same in absurd (ground arith)
            | inr (same, has) ↦ let here = to_controller.1 same in ground arith
          ],
        )
      ]

  supported_iff :
      (plant controller : CapabilitySet num) (r : String)
      → (supported num plant controller r ≡ true) ↔ IsMet plant controller r
  unfolding supported
  supported_iff plant controller r = met_iff plant controller r (split_colon r)

  required_iff :
      (plant controller : CapabilitySet num) (rs : List String)
      → (missing_required num plant controller rs ≡ []) ↔ All (IsMet plant controller) rs
  required_iff plant controller [] = ((λ h. tt), λ h. refl)
  required_iff plant controller (r ∷ rs) =
      let here = supported_iff plant controller r in
      let later = required_iff plant controller rs in
      (
        (λ h. (here.0 (ground arith), later.0 (ground arith))),
        λ h. let met = here.1 h.0 in let rest = later.1 h.1 in ground arith,
      )

  type_iff :
      (types : List String) (name : Option String)
      → (missing_type num types name ≡ []) ↔ IsKnown types name
  type_iff types none = ((λ h. tt), λ h. refl)
  type_iff types (some name) =
      let empty = eq_iff name "" in
      let either = or_iff (str_eq name "") (contains num types name) in
      (
        (λ h. elim (either.0 (ground arith)) [
          | inl nameless ↦ inl (empty.0 nameless)
          | inr known ↦ inr known
        ]),
        λ h. elim h [
          | inl nameless ↦ let here = empty.1 nameless in ground arith
          | inr known ↦ ground arith
        ],
      )

  types_iff :
      (types : List String) (items : List Item)
      → (missing_types num types items ≡ []) ↔ All (λ i. IsKnown types (event_name num i)) items
  types_iff types [] = ((λ h. tt), λ h. refl)
  types_iff types (i ∷ is) =
      append_empty_iff (missing_type num types (event_name num i)) (missing_types num types is)
        (type_iff types (event_name num i)) (types_iff types is)

  -- A guarded lack is empty exactly if one of two capabilities is there wherever the guard holds.
  guarded_iff :
      (guard : Bool) (plant : CapabilitySet num) (a b lack : String)
      → ((if guard && not (supports num plant a || supports num plant b) then lack ∷ [] else [])
          ≡ [])
        ↔ Needs guard (Has plant a ⊎ Has plant b)
  guarded_iff false plant a b lack = ((λ h. tt), λ h. refl)
  guarded_iff true plant a b lack =
      let either = or_iff (supports num plant a) (supports num plant b) in
      ((λ h. either.0 (ground arith)), λ h. let has = either.1 h in ground arith)

  needed_iff {ℓ} :
      {X : Type ℓ} {A : Type 0} (guard : Bool) (xs : List X)
      → (xs ≡ []) ↔ A
      → ((if guard then xs else []) ≡ []) ↔ Needs guard A
  needed_iff true xs h = h
  needed_iff false xs h = ((λ e. tt), λ e. refl)

  event_types_iff :
      (plant : CapabilitySet num) (schedule : List Item)
      → (missing_event_types num plant schedule ≡ [])
        ↔ Needs
            (any (is_event num) schedule && declares_types num plant)
            (All (λ i. IsKnown plant.event_types (event_name num i)) schedule)
  event_types_iff plant schedule =
      needed_iff (any (is_event num) schedule && declares_types num plant)
        (missing_types num plant.event_types schedule) (types_iff plant.event_types schedule)

  missing_iff :
      (plant controller : CapabilitySet num) (t : Option (Timebase num)) (required : List String)
      (schedule : List Item)
      → (missing num plant controller t required schedule ≡ [])
        ↔ IsGranted plant controller t required schedule
  unfolding missing
  missing_iff plant controller t required schedule =
      let all = append_empty_iff _ _ (required_iff plant controller required) (
        append_empty_iff _ _
          (guarded_iff (any (is_event num) schedule) plant "events" "event_driven" "plant:events")
          (append_empty_iff _ _ (event_types_iff plant schedule) (
            guarded_iff (is_multirate num t) plant "continuous_time" "multirate_control"
              "plant:multirate_control"))) in
      (
        (λ h.
            let (r, (e, (k, m))) = all.0 h in
            record {
              required_met = r;
              events_supported = e;
              types_known = k;
              rates_supported = m;
            }),
        λ g. all.1 (g.required_met, (g.events_supported, (g.types_known, g.rates_supported))),
      )

  granted_iff :
      (plant controller : CapabilitySet num) (lacks : List String)
      → (granted num plant controller lacks ≡ ok (plant, controller)) ↔ (lacks ≡ [])
  unfolding granted
  granted_iff plant controller [] = ((λ h. refl), λ h. refl)
  granted_iff plant controller (l ∷ ls) = ((λ h. absurd (ground arith)), λ h. absurd (ground arith))

  -- For declarations that are well formed, the negotiation returns the two normalized sets exactly if
  -- every requirement is met by the side that it names, or by either; the plant supports events where
  -- the schedule has one, and, where it lists event types, each that is named; and it supports several
  -- rates where its step is not the control period.
  pub negotiate_capabilities-IsGranted :
      (as_float : Payload num.Value → Option num.Value) (p c : Declared num)
      (plant controller : CapabilitySet num) (t : Option (Timebase num)) (required : List String)
      (schedule : List Item)
      → from_value num as_float p ≡ ok plant
      → from_value num as_float c ≡ ok controller
      → (negotiate_capabilities num as_float p c t required schedule ≡ ok (plant, controller))
        ↔ IsGranted plant controller t required schedule
  unfolding negotiate_capabilities
  negotiate_capabilities-IsGranted as_float p c plant controller t required schedule hp hc =
      let grants =
        granted_iff plant controller (missing num plant controller t required schedule) in
      let none_missing = missing_iff plant controller t required schedule in
      rw (negotiate_capabilities, hp, hc)
        ((λ h. none_missing.0 (grants.0 h)), λ g. grants.1 (none_missing.1 g))
