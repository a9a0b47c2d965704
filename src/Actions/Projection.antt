-- ===== src/Actions/Projection.antt =====
-- What the bounded policy does with an action, src/pe_sim/safety.py.
use power_electronics_ai_sim.Base.{
  ◌≡◌, true, ◌⊎◌, inl, inr, Option, none, some, arith, Bool-cases, Option-cases, Result, ok,
  >>=-returned,
}
use power_electronics_ai_sim.Number.{Number, Laws, InRange, clamp}
use power_electronics_ai_sim.Number.Order.{le_refl, clamp_inside}
use power_electronics_ai_sim.Contracts.{Payload, real}
use power_electronics_ai_sim.Actions.{
  PolicyError, float_of, ordered_bounds, Reason, lower, upper, BoundedActionPolicy,
  bounded_action_policy, project_bounded, reason_of, projected, project_action,
}

module _ {num : Number} (laws : Laws num) (as_float : Payload num.Value → Option num.Value) where
  open num use {Value, is_finite, le, lt}

  -- Bounds as `BoundedActionPolicy` accepts them.
  pub record IsOrdered (b : BoundedActionPolicy num) : Type 0 where
    pub minimum_finite : is_finite b.minimum ≡ true
    pub maximum_finite : is_finite b.maximum ≡ true
    pub ordered : le b.minimum b.maximum ≡ true

  ordered_bounds-IsOrdered :
      (minimum maximum : Value) (b : BoundedActionPolicy num)
      → ordered_bounds num minimum maximum ≡ ok b
      → IsOrdered b
  unfolding ordered_bounds
  ordered_bounds-IsOrdered minimum maximum b h =
      let low : is_finite minimum ≡ true = ground arith in
      let high : is_finite maximum ≡ true = ground arith in
      let in_order : le minimum maximum ≡ true =
        ground (arith, laws.lt_not_le maximum minimum high low) in
      let same : record { minimum = minimum; maximum = maximum } ≡ b = ground arith in
      rw (← same) (record { minimum_finite = low; maximum_finite = high; ordered = in_order })

  pub bounded_action_policy-IsOrdered :
      (low high : Payload Value) (b : BoundedActionPolicy num)
      → bounded_action_policy num as_float low high ≡ ok b
      → IsOrdered b
  unfolding bounded_action_policy
  bounded_action_policy-IsOrdered low high b h =
      let (minimum, h1, _) = >>=-returned (float_of num as_float low) _ h in
      let (maximum, h2, _) = >>=-returned (float_of num as_float high) _ h1 in
      ordered_bounds-IsOrdered minimum maximum b h2

  -- The three ways in which bounds answer a finite action.
  abbrev pub Cases :
      BoundedActionPolicy num → Value → Result PolicyError (Value × Option Reason) → Type 0
  Cases b action outcome =
      ((lt action b.minimum ≡ true) × (outcome ≡ ok (b.minimum, some lower)))
      ⊎ ((lt b.maximum action ≡ true) × (outcome ≡ ok (b.maximum, some upper)))
      ⊎ (InRange num b.minimum b.maximum action × (outcome ≡ ok (action, none)))

  bounded-Cases :
      (b : BoundedActionPolicy num) (p : Payload Value) (action : Value)
      → IsOrdered b
      → as_float p ≡ some action
      → is_finite action ≡ true
      → Cases b action (project_bounded num as_float b p)
  unfolding project_bounded projected reason_of clamp
  bounded-Cases b p action v h f =
      let below = laws.lt_not_le action b.minimum f v.minimum_finite in
      let above = laws.lt_not_le b.maximum action v.maximum_finite f in
      elim (Bool-cases (lt action b.minimum)) [
        | inl low ↦
            let not_above = laws.lt_not_le b.maximum b.minimum v.maximum_finite v.minimum_finite in
            inl (low, ground (arith, below, not_above, v.ordered))
        | inr not_low ↦ elim (Bool-cases (lt b.maximum action)) [
          | inl high ↦ inr (inl (high, ground (arith, above)))
          | inr not_high ↦ inr (inr (ground (arith, below, above, le_refl num laws action f)))
        ]
      ]

  projected_action :
      (b : BoundedActionPolicy num) (p : Payload Value) (v : Value) (r : Option Reason)
      → project_bounded num as_float b p ≡ ok (v, r)
      → (action : Value) × (as_float p ≡ some action) × (is_finite action ≡ true)
  unfolding project_bounded
  projected_action b p v r h = elim (Option-cases (as_float p)) [
    | inl missing ↦ absurd (ground arith)
    | inr (action, found) ↦ (action, found, ground arith)
  ]

  -- Where `BoundedActionPolicy` accepts its bounds and the action is a finite number, an action below
  -- the bounds gives the lower one, an action above them the upper one, each with that reason, and
  -- any other is returned as it is, without a reason.
  pub project_action-Cases :
      (low high p : Payload Value) (b : BoundedActionPolicy num) (action : Value)
      → bounded_action_policy num as_float low high ≡ ok b
      → as_float p ≡ some action
      → is_finite action ≡ true
      → Cases b action (project_action num as_float p (some low) (some high))
  unfolding project_action bounded_action_policy
  project_action-Cases low high p b action built h f =
      rw built (bounded-Cases b p action (bounded_action_policy-IsOrdered low high b built) h f)

  Cases-InRange :
      (b : BoundedActionPolicy num) (action v : Value) (r : Option Reason)
      → IsOrdered b
      → is_finite action ≡ true
      → Cases b action (ok (v, r))
      → InRange num b.minimum b.maximum v × (is_finite v ≡ true)
  Cases-InRange b action v r k f (inl (_, same)) =
      let here : b.minimum ≡ v = ground arith in
      rw (← here) ((le_refl num laws b.minimum k.minimum_finite, k.ordered), k.minimum_finite)
  Cases-InRange b action v r k f (inr (inl (_, same))) =
      let here : b.maximum ≡ v = ground arith in
      rw (← here) ((k.ordered, le_refl num laws b.maximum k.maximum_finite), k.maximum_finite)
  Cases-InRange b action v r k f (inr (inr (inside, same))) =
      let here : action ≡ v = ground arith in rw (← here) (inside, f)

  -- What the bounded policy returns lies between its bounds.
  pub project_bounded-InRange :
      (b : BoundedActionPolicy num) (p : Payload Value) (v : Value) (r : Option Reason)
      → IsOrdered b
      → project_bounded num as_float b p ≡ ok (v, r)
      → InRange num b.minimum b.maximum v
  project_bounded-InRange b p v r k h =
      let (action, found, f) = projected_action b p v r h in
      (Cases-InRange b action v r k f (rw (← h) (bounded-Cases b p action k found f))).0

  project_inside :
      (b : BoundedActionPolicy num) (v : Value)
      → IsOrdered b
      → is_finite v ≡ true
      → InRange num b.minimum b.maximum v
      → as_float (real v) ≡ some v
      → project_bounded num as_float b (real v) ≡ ok (v, none)
  unfolding project_bounded projected reason_of
  project_inside b v k f inside h = ground (
    arith,
    le_refl num laws v f,
    clamp_inside num laws b.minimum b.maximum v k.minimum_finite k.maximum_finite f inside,
  )

  -- What `project_action` returns for two bounds lies between them, and to project it again
  -- returns it as it is, without a reason.
  pub project_action_settles :
      (low high p : Payload Value) (v : Value) (r : Option Reason)
      → as_float (real v) ≡ some v
      → project_action num as_float p (some low) (some high) ≡ ok (v, r)
      → (b : BoundedActionPolicy num) × (bounded_action_policy num as_float low high ≡ ok b)
        × InRange num b.minimum b.maximum v
        × (project_action num as_float (real v) (some low) (some high) ≡ ok (v, none))
  unfolding project_action
  project_action_settles low high p v r fv h =
      let (b, h1, built) = >>=-returned (bounded_action_policy num as_float low high) _ h in
      let (action, found, f) = projected_action b p v r h1 in
      let k = bounded_action_policy-IsOrdered low high b built in
      let (inside, finite) =
        Cases-InRange b action v r k f (rw (← h1) (bounded-Cases b p action k found f)) in
      (b, built, inside, rw built (project_inside b v k finite inside fv))
