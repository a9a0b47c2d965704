-- ===== src/Compensator/Checkpoints.antt =====
-- A Compensator over any calls, and its checkpoints.
use power_electronics_ai_sim.Base.{
  ◌<◌, ◌≡◌, refl, sym, ◌∙◌, Option, some, List, [], ◌∷◌, map, length, length-map, All, arith,
  Result, ok, err, true, drop_last, ◌>>◌, >>=-returned, length-drop_last,
}
use power_electronics_ai_sim.Number.{Number, Laws}
use power_electronics_ai_sim.Contracts.{Payload, real}
use power_electronics_ai_sim.Contracts.Equality.{reals_eq}
use power_electronics_ai_sim.Compensator.{
  CompensatorError, Compensator, DelayLine, Sample, Arguments, finite_numbers, shift, observe,
  state_update, discrete_compensator,
}
use power_electronics_ai_sim.Compensator.Stored.{
  Stored, reset, restore, snapshot, load_history, load_values, matching, loaded, first_update,
}
use power_electronics_ai_sim.Compensator.Histories.{
  IsCompensator, IsLine, load_history-IsLine, discrete_compensator-IsCompensator,
}
use power_electronics_ai_sim.Compensator.Saturation.{
  IsFirst, Observed, raised, answered, observe-Observed, limited-finite, finite_output-finite,
}

-- A call of one of the methods that change the delay line.
pub data Call (num : Number) : Type 0 where
  observed : Sample num → Call num
  reset_to restored : Stored num → Call num

length-push {ℓ} :
    {A : Type ℓ} (x : A) (xs : List A) → 0 < length xs → length (x ∷ drop_last xs) ≡ length xs
length-push x [] h = absurd (omega arith)
length-push x (y ∷ ys) h = omega (arith, length-drop_last y ys)

All-drop_last {ℓ κ} : {A : Type ℓ} (P : A → Type κ) (xs : List A) → All P xs → All P (drop_last xs)
All-drop_last P [] h = tt
All-drop_last P (x ∷ []) h = tt
All-drop_last P (x ∷ y ∷ ys) h = (h.0, All-drop_last P (y ∷ ys) h.1)

module _ {num : Number} (laws : Laws num) (as_float : Payload num.Value → Option num.Value) where
  open num use {Value, is_finite}

  -- The delay line after a call, whether it returned or raised.
  unfoldable pub after : Compensator num → Call num → DelayLine num → DelayLine num
  after c (observed s) h = (observe num as_float c s h).1
  after c (reset_to state) h = (reset num as_float state h).1
  after c (restored state) h = (restore num as_float c state h).1

  unfoldable pub after_all : Compensator num → List (Call num) → DelayLine num → DelayLine num
  after_all c [] h = h
  after_all c (k ∷ ks) h = after_all c ks (after c k h)

  shift-IsLine :
      (c : Compensator num) (error applied : Value) (h : DelayLine num)
      → IsCompensator c
      → IsLine c h
      → is_finite applied ≡ true
      → IsLine c (shift num error applied h)
  shift-IsLine c error applied h v k f = record {
    inputs_kept =
        length-push error h.x_history (omega (arith, v.order, k.inputs_kept)) ∙ k.inputs_kept;
    outputs_kept =
        length-push applied h.y_history (omega (arith, v.order, k.outputs_kept)) ∙ k.outputs_kept;
    outputs_finite = (f, All-drop_last (λ x. is_finite x ≡ true) h.y_history k.outputs_finite);
  }

  observe-IsLine :
      (c : Compensator num) (s : Sample num) (h : DelayLine num)
      → IsCompensator c
      → IsLine c h
      → IsLine c (observe num as_float c s h).1
  observe-IsLine c s h v k = go (observe-Observed laws as_float c s h v)
    where
      go :
          Observed laws as_float c s h (observe num as_float c s h)
          → IsLine c (observe num as_float c s h).1
      go (raised e same) = rw same k
      go (answered n output q hn ho value same) =
          let f = finite_output-finite laws c _ h.x_history h.y_history output ho in
          rw same (shift-IsLine c _ _ h v k (limited-finite laws c output v f))

  loaded-IsLine :
      (c : Compensator num) (h : DelayLine num) (r : Result CompensatorError (DelayLine num))
      → IsLine c h
      → ((h' : DelayLine num) → r ≡ ok h' → IsLine c h')
      → IsLine c (loaded num h r).1
  loaded-IsLine c h (err e) k good = k
  loaded-IsLine c h (ok h') k good = good h' refl

  after-IsLine :
      (c : Compensator num) (call : Call num) (h : DelayLine num)
      → IsCompensator c
      → IsLine c h
      → IsLine c (after c call h)
  unfolding after
  after-IsLine c (observed s) h v k = observe-IsLine c s h v k
  after-IsLine c (reset_to state) h v k =
      unfold reset in
      loaded-IsLine c h (load_history num as_float state h) k
        (λ h' e. load_history-IsLine num as_float c state h h' k e)
  after-IsLine c (restored state) h v k =
      unfold restore in
      loaded-IsLine c h (matching num as_float c state >> load_history num as_float state h) k
        (λ h' e.
          let (u, found, matched) = >>=-returned (matching num as_float c state) _ e in
          load_history-IsLine num as_float c state h h' k found)

  after_all-IsLine :
      (c : Compensator num) (calls : List (Call num)) (h : DelayLine num)
      → IsCompensator c
      → IsLine c h
      → IsLine c (after_all c calls h)
  unfolding after_all
  after_all-IsLine c [] h v k = k
  after_all-IsLine c (call ∷ calls) h v k =
      after_all-IsLine c calls (after c call h) v (after-IsLine c call h v k)

  -- From construction on, whatever calls of `observe`, `reset` and `restore` follow and whether they
  -- return or raise, the two histories have as many entries as the denominator, and every stored
  -- output is finite.
  pub compensator-IsLine :
      (a : Arguments num) (c : Compensator num) (h : DelayLine num) (calls : List (Call num))
      → discrete_compensator num as_float a ≡ ok (c, h)
      → IsLine c (after_all c calls h)
  compensator-IsLine a c h calls built =
      let (v, k) = discrete_compensator-IsCompensator num as_float laws.nought_finite a c h built in
      after_all-IsLine c calls h v k

  module _ (as_float_real : (v : Value) → as_float (real v) ≡ some v) where
    finite_numbers-reals :
        (vs : List Value)
        → All (λ v. is_finite v ≡ true) vs
        → finite_numbers num as_float (map real vs) ≡ ok vs
    unfolding finite_numbers
    finite_numbers-reals [] f = refl
    finite_numbers-reals (v ∷ vs) f = ground (arith, as_float_real v, finite_numbers-reals vs f.1)

    load_values-reals :
        (h h0 : DelayLine num)
        → length h.x_history ≡ length h0.x_history
        → length h.y_history ≡ length h0.y_history
        → All (λ v. is_finite v ≡ true) h.x_history
        → All (λ v. is_finite v ≡ true) h.y_history
        → load_values num as_float (map real h.x_history) (map real h.y_history) h0 ≡ ok h
    unfolding load_values
    load_values-reals h h0 lx ly fx fy =
        rw
          (
            length-map real h.x_history,
            length-map real h.y_history,
            lx,
            ly,
            finite_numbers-reals h.x_history fx,
            finite_numbers-reals h.y_history fy,
          )
          (ground arith)

    matching-snapshot :
        (c : Compensator num) (h : DelayLine num)
        → IsCompensator c
        → matching num as_float c (snapshot num c h) ≡ ok tt
    unfolding matching snapshot
    matching-snapshot c h v = rw (
      reals_eq num laws as_float as_float_real c.numerator v.numerator_finite,
      reals_eq num laws as_float as_float_real c.denominator v.denominator_finite,
    )

    first_update-ok :
        (h : DelayLine num) (ys : List Value)
        → 0 < length ys
        → (y : Value) × IsFirst laws y ys × (first_update num h ys ≡ ok (state_update num h y))
    unfolding first_update
    first_update-ok h [] pos = absurd (omega arith)
    first_update-ok h (y ∷ ys) pos = (y, refl, refl)

    -- Of a constructed compensator, with finite inputs in its history, a snapshot restores: whatever
    -- delay line of the same order it is restored into, the delay line afterwards is that of the
    -- snapshot, and the call returns the update that shows it and its newest output.
    pub restore-snapshot_line :
        (c : Compensator num) (h h0 : DelayLine num)
        → IsCompensator c
        → IsLine c h
        → IsLine c h0
        → All (λ v. is_finite v ≡ true) h.x_history
        → (y : Value) × IsFirst laws y h.y_history
          × (restore num as_float c (snapshot num c h) h0 ≡ (ok (state_update num h y), h))
    unfolding restore snapshot
    restore-snapshot_line c h h0 v k k0 fx =
        let lx = k.inputs_kept ∙ sym k0.inputs_kept in
        let ly = k.outputs_kept ∙ sym k0.outputs_kept in
        let (y, newest, update) =
          first_update-ok h h.y_history (omega (arith, v.order, k.outputs_kept)) in
        (
          y,
          newest,
          rw (matching-snapshot c h v, load_values-reals h h0 lx ly fx k.outputs_finite, update),
        )
