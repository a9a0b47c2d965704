-- ===== src/Runner/Resume/Examples.antt =====
-- A checkpoint of the bench after one window, resumed.
use power_electronics_ai_sim.Base.{◌≤◌, false, refl, none, some, true, [], ◌∷◌, ok, arith}
use power_electronics_ai_sim.Number.Scaled.{pos, scaled}
use power_electronics_ai_sim.Contracts.{real}
use power_electronics_ai_sim.Runner.State.{Checkpoint}
use power_electronics_ai_sim.Runner.Examples.{Bench, bench_world, fresh}
use power_electronics_ai_sim.Runner.Resume.{Identity, same_hashes, check_saved}
use power_electronics_ai_sim.Runner.Resume.Trust.{IsTrusted, check_saved-IsTrusted}
use power_electronics_ai_sim.Runner.Resume.Restore.{Resumption, written, loaded, resume}
use power_electronics_ai_sim.Runner.Resume.Restore.RoundTrip.{Answers, resume-written}

abbrev bench_identity : Identity
bench_identity = record {
  experiment_id = "bench-1";
  plant_id = "bench";
  controller_id = "step";
  plant_hash = "p";
  controller_hash = "c";
  contract_hashes = ("safety", "s") ∷ ("qualification", "q") ∷ [];
  experiment_spec_hash = "e";
  controller_state_protocol = "reset_serialized_state";
}

abbrev resumption : Resumption scaled Bench (Unit {0})
resumption = record {
  restore_plant = λ snapshot bench. (ok tt, record { time = pos 10; actions = [] });
  restore_controller = none;
  reset_controller = λ state c. (ok (some state), c);
  digest = λ d. "0123456789abcdef0123456789abcdef0123456789abcdef0123456789abcdef";
  of_count = λ n. pos n;
  identity = bench_identity;
}

abbrev after_one : Checkpoint scaled
after_one = record {
  next_step_index = 1;
  time_s = pos 10;
  run_start_time = pos 0;
  last_action = pos 10;
  plant_snapshot = ("time", real (pos 10)) ∷ [];
  controller_state = ("seen", real (pos 2)) ∷ [];
  samples = (("vout", real (pos 5)) ∷ []) ∷ [];
  events =
      record {
        step_index = 0;
        sample_time_s = pos 5;
        action_time_s = pos 5;
        next_time_s = pos 10;
        action_applied_time_s = pos 5;
      }
      ∷ [];
}

resume-written_example : Answers bench_world resumption true after_one fresh (
    resume bench_world resumption
      (loaded scaled
        (some "INCOMPLETE")
        (written scaled resumption.digest bench_identity after_one))
      fresh)
unfolding same_hashes
resume-written_example =
    resume-written bench_world resumption (some "INCOMPLETE") after_one fresh
      (record {
        time_finite = refl;
        time_not_negative = refl;
        action_finite = refl;
        start_finite = refl;
        indexed = omega arith;
        hash_long = refl;
        keys_distinct = refl;
        protocol_known = refl;
        protocol_held = refl;
      })
      refl refl

check_saved-IsTrusted_example :
    IsTrusted resumption.digest false bench_identity
      (written scaled resumption.digest bench_identity after_one)
    × (1 ≤ 1)
unfolding check_saved same_hashes
check_saved-IsTrusted_example =
    check_saved-IsTrusted resumption.digest false bench_identity
      (written scaled resumption.digest bench_identity after_one)
      (record {
        next_step_index = 1;
        plant_snapshot = after_one.plant_snapshot;
        controller_state = after_one.controller_state;
        samples = after_one.samples;
        events = after_one.events;
      })
      refl
