-- ===== src/Examples/Rollout.antt =====
-- The theorems on a rollout, at a concrete one: the old version is superseded by a new one, which
-- Restate does not know yet.
use restate_operator.Versions.{
  sort_by_creation, insert_by_creation, wait_out, schedule_version_removal,
  unschedule_version_removal, visit_each, visit_and_finish, finish,
}
use restate_operator.ReplicaSets.Select.{candidates}
use restate_operator.Base.{refl, ◌≡◌, pos, none, some, All, [], ◌∷◌, lookup, insert}
use restate_operator.Errors.{ReplicaSetStatus}
use restate_operator.Resources.{RestateDeployment, ReplicaSet}
use restate_operator.Effects.{ok, ◌>>=◌}
use restate_operator.Calls.{check_admin_response}
use restate_operator.Autoscaling.{plan_active_version_hpa}
use restate_operator.Cleanup.{
  is_active, in_flight_invocations, retain_for_rollback, into_map, absorb, merge,
}
use restate_operator.ReplicaSets.Select.{is_candidate}
use restate_operator.ReplicaSets.Visit.{visit, visit_inactive, retire, remove_version, keep_active}
use restate_operator.ReplicaSets.Pass.{cleanup_old_replicasets}
use restate_operator.Deletion.Finalizer.{list_deployments}
use restate_operator.Registration.{
  plan_registration, insert_id, collect_ids, owned_deployment_ids, has_other_owned,
  latest_deployment_by_service, collect_services, judge_latest, superseded,
}
use restate_operator.Rollout.Readiness.{validate_replica_set_status}
use restate_operator.Rollout.Flow.{
  RolloutWorld, conditions, Version, admin_json, latest_services, register_deployment,
  confirm_latest, validate_cluster_status, validate, record_id, register_and_confirm,
  cleanup_others, await_ready, carry_out_plan, full_pass, roll_out,
}
use restate_operator.Rollout.Guarded.{Guards, roll_out-Guards}
use restate_operator.Examples.Data.{
  metadata_of, exact_chrono, greeter_holding, old_version, world, row,
}

abbrev pub serving : ReplicaSetStatus
serving = record {
  replicas = pos 3;
  ready_replicas = some (pos 3);
  available_replicas = some (pos 3);
}

abbrev pub live : RestateDeployment
live = record greeter_holding { deletion_timestamp = none }

-- Restate knows the old version alone, and it is idle.
abbrev pub told : RolloutWorld
told = record {
  world = world (row "dp_1" 0 ∷ []);
  cluster = λ _. conditions (
      record {
        last_transition_time = none;
        message = none;
        reason = none;
        status = "True";
        type = "Ready";
      }
      ∷ []);
  decode_registered = λ _. some (record { id = "dp_2"; services = "greeter" ∷ [] });
  decode_services = λ _. some (("greeter", "dp_2") ∷ []);
}

abbrev pub unregistered : ReplicaSet
unregistered = record {
  metadata = metadata_of "greeter-new" 2 [];
  replicas = some (pos 3);
  status = some serving;
}

abbrev current : Version
current = record {
  name = "greeter-new";
  endpoint = "http://greeter-new:9080";
  use_http11 = none;
  replicaset = unregistered;
}

roll_out-Guards_example :
    All
      (Guards told exact_chrono live "apps" "u1" (old_version ∷ unregistered ∷ []) current)
      (roll_out told exact_chrono live "apps" "u1" (old_version ∷ unregistered ∷ []) current).calls
roll_out-Guards_example =
    roll_out-Guards told exact_chrono live "apps" "u1" (old_version ∷ unregistered ∷ []) current

rolled_out :
    (roll_out told exact_chrono live "apps" "u1" (old_version ∷ unregistered ∷ []) current).result
    ≡ ok none
unfolding roll_out full_pass carry_out_plan await_ready cleanup_others register_and_confirm
    record_id validate validate_cluster_status confirm_latest register_deployment latest_services
    admin_json validate_replica_set_status plan_registration insert_id collect_ids
    owned_deployment_ids has_other_owned latest_deployment_by_service collect_services judge_latest
    superseded list_deployments cleanup_old_replicasets ◌>>=◌ visit_each visit_and_finish visit
    visit_inactive retire remove_version keep_active wait_out schedule_version_removal
    plan_active_version_hpa unschedule_version_removal finish candidates is_candidate
    sort_by_creation insert_by_creation lookup insert is_active in_flight_invocations
    retain_for_rollback check_admin_response into_map absorb merge
rolled_out = refl
