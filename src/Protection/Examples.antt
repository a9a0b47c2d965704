-- ===== src/Protection/Examples.antt =====
-- The wrapper of Protection at concrete samples; voltages count millivolts, times microseconds.
use power_electronics_ai_sim.Base.{
  ◌+◌, ◌≡◌, refl, ◌⊎◌, true, false, Option, some, none, [], ◌∷◌, arith, ok, err, ◌>>=◌,
  if◌then◌else◌,
}
use power_electronics_ai_sim.Number.Scaled.{ℤ, pos, negsuc, scaled, scaled-Laws}
use power_electronics_ai_sim.Contracts.{
  Payload, real, natural, negative, flag, Mapping, ActionRequest, get,
}
use power_electronics_ai_sim.Protection.{
  normal, tripped, latched, ProtectionError, ProtectionPolicy, Protection, Sample, Readings, Inner,
  initial, readings, delegate, observe, observe_all,
}
use power_electronics_ai_sim.Protection.Tripping.{AllHold, IsFault}
use power_electronics_ai_sim.Protection.Latch.{observe_all_latched}
use power_electronics_ai_sim.Protection.Hiccup.{Waits, held_after, hiccup_retries}
use power_electronics_ai_sim.Protection.Invariant.{IsCoherent, wrapper-IsCoherent, observe_normal}
use power_electronics_ai_sim.Protection.Checkpoint.{
  Field, mapping, InnerMethods, no_reply, snapshot, restore, reset, restore_inner,
}
use power_electronics_ai_sim.Protection.Checkpoint.RoundTrip.{restore-snapshot}
use power_electronics_ai_sim.Protection.Checkpoint.Refusal.{
  Restores, restore_safe, flat_trip, reset_strands,
}

abbrev as_float : Payload ℤ → Option ℤ
as_float (real v) = some v
as_float (natural n) = some (pos n)
as_float (negative n) = some (negsuc n)
as_float (flag b) = some (if b then pos 1 else pos 0)
as_float p = none

-- OVP at 6 V, UVLO at 2 V, and a retry after 20 us.
abbrev policy : ProtectionPolicy scaled
policy = record {
  ovp_v = some (pos 6000);
  uvlo_v = some (pos 2000);
  ocp_a = none;
  trip_duty = pos 0;
  hiccup_s = some (pos 20);
  voltage_key = "vout";
  current_key = "inductor_current";
  uvlo_startup_mask = true;
}

abbrev latching : ProtectionPolicy scaled
latching = record policy { hiccup_s = none }

abbrev request : ActionRequest scaled
request = record {
  value = pos 1;
  unit = "normalized";
  produced_time_s = pos 0;
  target_time_s = pos 0;
  diagnostics = [];
  state_update = none;
}

-- An inner controller that counts its calls.
abbrev inner : Inner scaled ℤ
inner s (pos n) = (ok request, pos (n + 1))
inner s i = (ok request, i)

abbrev sample : ℤ → Sample scaled
sample volts = record {
  measurement = ("vout", real volts) ∷ [];
  command = [];
  timing = ("control_period_s", real (pos 10)) ∷ ("sample_time_s", real (pos 0)) ∷ [];
  state = [];
}

-- A sample with no voltage in it cannot be read.
abbrev blind : Sample scaled
blind = record (sample (pos 0)) { measurement = [] }

abbrev held : Protection scaled
held = record { state = tripped; elapsed_s = pos 0; trips = 1; started = true }

abbrev stuck : Protection scaled
stuck = record held { state = latched }

abbrev reading : ℤ → Readings scaled
reading volts = record { period = pos 10; now = pos 0; voltage = some volts; current = none }

-- One overvoltage sample trips; the sample after the hiccup runs the inner controller again.
run_trips :
    let (results, p, calls) =
      observe_all scaled as_float policy inner
        (sample (pos 5000) ∷ sample (pos 7000) ∷ sample (pos 5000) ∷ sample (pos 5000) ∷ [])
        (initial scaled)
        (pos 0) in
    (p.state ≡ normal) × (p.trips ≡ 1) × (calls ≡ pos 2)
unfolding observe_all observe
run_trips = (refl, refl, refl)

observe_all_latched_example :
    let (results, p, calls) =
      observe_all scaled as_float latching inner (blind ∷ sample (pos 5000) ∷ []) stuck (pos 0) in
    AllHold as_float latching (blind ∷ sample (pos 5000) ∷ []) results
    × (p ≡ stuck)
    × (calls ≡ pos 0)
observe_all_latched_example =
    observe_all_latched scaled-Laws as_float latching inner refl (blind ∷ sample (pos 5000) ∷ [])
      stuck (pos 0) refl

hiccup_retries_example :
    let (results, p, calls) =
      observe_all scaled as_float policy inner (sample (pos 5000) ∷ blind ∷ []) held (pos 0) in
    AllHold as_float policy (sample (pos 5000) ∷ blind ∷ []) results
    × (p ≡ record held { elapsed_s = pos 10 })
    × (calls ≡ pos 0)
    × (observe scaled as_float policy inner (sample (pos 5000)) p calls
        ≡ delegate scaled inner
            (sample (pos 5000))
            (record held { state = normal; elapsed_s = pos 0 })
            (pos 0))
unfolding held_after Waits readings
hiccup_retries_example =
    hiccup_retries scaled-Laws as_float policy inner refl (pos 20) refl
      (sample (pos 5000) ∷ blind ∷ []) held (pos 0) (sample (pos 5000)) (reading (pos 5000)) refl
      (ground arith) refl refl

wrapper-IsCoherent_example :
    IsCoherent policy
      (observe_all scaled as_float policy inner
        (sample (pos 7000) ∷ blind ∷ [])
        (initial scaled)
        (pos 0)).1
wrapper-IsCoherent_example =
    wrapper-IsCoherent as_float policy inner (sample (pos 7000) ∷ blind ∷ []) (pos 0)

observe_normal_example :
    (IsFault policy false (reading (pos 1000))
      × ((q : ActionRequest scaled) × (q.value ≡ pos 0)
          × (observe scaled as_float policy inner (sample (pos 1000)) (initial scaled) (pos 0)
              ≡ (ok q, record (initial scaled) { state = tripped; trips = 1 }, pos 0))))
    ⊎ ((¬ IsFault policy false (reading (pos 1000)))
        × (observe scaled as_float policy inner (sample (pos 1000)) (initial scaled) (pos 0)
            ≡ delegate scaled inner (sample (pos 1000)) (initial scaled) (pos 0)))
unfolding readings
observe_normal_example =
    observe_normal scaled-Laws as_float policy inner refl (sample (pos 1000)) (reading (pos 1000))
      (initial scaled) (pos 0) refl refl

-- An inner controller with a number for a state, that puts it in its snapshot.
abbrev methods : InnerMethods ℤ (Unit {0}) ℤ
methods = record {
  snapshot = some (λ i. (ok (mapping (("calls", real i) ∷ [])), i));
  restore = some (λ f i. (ok tt, pos 3));
  reset = λ given seed i. (ok no_reply, pos 0);
}

restore-snapshot_example :
    (document : Mapping (Field ℤ (Unit {0}))) × (snapshot scaled policy methods held (pos 3)
      ≡ (ok document, held, pos 3))
    × (restore scaled as_float policy methods document (initial scaled) (pos 0) ≡ (
      (restore_inner scaled methods (mapping (("calls", real (pos 3)) ∷ [])) (pos 0)).0
          >>= (λ a. ok document),
      held,
      pos 3,
    ))
restore-snapshot_example =
    restore-snapshot scaled-Laws as_float (λ v. refl) policy methods
      (λ i. (ok (mapping (("calls", real i) ∷ [])), i)) held (initial scaled) (pos 3) (pos 0)
      (mapping (("calls", real (pos 3)) ∷ []))
      (record { ovp = refl; uvlo = refl; ocp = tt; duty = refl; hiccup = refl }) refl refl refl refl
      refl

abbrev foreign : Mapping (Field ℤ (Unit {0}))
foreign = ("inner", mapping []) ∷ ("protection", mapping []) ∷ []

restore_safe_example :
    ((e : ProtectionError) × (restore scaled as_float policy methods foreign held (pos 0)
        ≡ (err e, held, pos 0)))
    ⊎ Restores as_float policy
        (get "policy" foreign)
        (restore scaled as_float policy methods foreign held (pos 0)).1
restore_safe_example = restore_safe as_float policy methods foreign held (pos 0)

reset_strands_example :
    let (result, p, i) =
      reset scaled as_float latching methods
        (some (flat_trip ℤ (Unit {0})))
        0
        (initial scaled)
        (pos 0) in
    (p.state ≡ tripped)
    × ((observe_all scaled as_float latching inner (sample (pos 5000) ∷ []) p i).1.state ≡ tripped)
reset_strands_example =
    reset_strands as_float latching refl scaled-Laws refl methods 0 (initial scaled) (pos 0) inner
      (sample (pos 5000) ∷ [])
