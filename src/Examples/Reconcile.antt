-- ===== src/Examples/Reconcile.antt =====
-- The theorems on a whole reconcile, at one that creates its ReplicaSet, and at one that adopts it.
use restate_operator.Versions.{
  sort_by_creation, insert_by_creation, wait_out, schedule_version_removal,
  unschedule_version_removal, visit_each, visit_and_finish, finish,
}
use restate_operator.ReplicaSets.Select.{candidates}
use restate_operator.Base.{sub_i32, refl, ◌≡◌, some, none, All, [], ◌∷◌, lookup, insert, concat}
use restate_operator.Errors.{api}
use restate_operator.Resources.{RestateDeploymentStatus, ReplicaSet}
use restate_operator.Effects.{ok, Made, ◌>>=◌}
use restate_operator.Fallible
use restate_operator.Fallible.{require}
use restate_operator.Calls.{report_status, check_admin_response}
use restate_operator.Autoscaling.{plan_active_version_hpa}
use restate_operator.Cleanup.{
  is_active, in_flight_invocations, retain_for_rollback, into_map, absorb, merge,
}
use restate_operator.ReplicaSets.Select.{is_candidate}
use restate_operator.ReplicaSets.Visit.{visit, visit_inactive, retire, remove_version, keep_active}
use restate_operator.ReplicaSets.Pass.{cleanup_old_replicasets}
use restate_operator.Deletion.Finalizer.{list_deployments}
use restate_operator.Registration.{
  plan_registration, insert_id, collect_ids, owned_deployment_ids, has_other_owned,
  latest_deployment_by_service, collect_services, judge_latest, superseded,
}
use restate_operator.Endpoints.{
  cluster_service_url, validate_exactly_one_set, maybe_tunnel_url, service_url,
  in_process_tunnel_params,
}
use restate_operator.Naming.{
  encode_on, safe_encode_u32, hash_input, collision_part, generate_pod_template_hash,
  versioned_name,
}
use restate_operator.Rollout.Inject.{template_spec}
use restate_operator.Rollout.Readiness.{validate_replica_set_status}
use restate_operator.Rollout.Flow.{
  latest_services, register_deployment, confirm_latest, validate_cluster_status, validate,
  record_id, register_and_confirm, cleanup_others, await_ready, carry_out_plan, full_pass, roll_out,
}
use restate_operator.Rollout.Flow.{admin_json}
use restate_operator.Rollout.Adopt.{
  ReplicaSetWorld, found, refused, is_ours, adopt, after_create, ensure_replicaset,
}
use restate_operator.Rollout.Adopted.{
  LeavesForeign, Stays, ensure_replicaset-Stays, ensure_replicaset-LeavesForeign,
}
use restate_operator.Rollout.Reconcile.{
  Surroundings, endpoint_of, reconcile, HasRolledOut, reconcile-HasRolledOut,
}
use restate_operator.Cloud.{codes}
use restate_operator.Deletion.Finalizer.{requeue}
use restate_operator.ErrorPolicy.{ready_condition}
use restate_operator.Retry.{jitter, healthy_requeue_after}
use restate_operator.Status.{
  Displays, reconcile_replicaset_status, replicaset_verdict, status_from_replica_set,
  report_verdict, concluded_status,
}
use restate_operator.Controller.{
  latest_version_label_selector, reconcile_status, TellsTruth, reconcile_status-TellsTruth,
}
use restate_operator.Examples.Data.{metadata_of, exact_chrono, no_jitter, old_version}
use restate_operator.Examples.Rollout.{told, live, unregistered}
use restate_operator.Examples.Cloud.{plain_url, clouds}
use restate_operator.Examples.Naming.{counting}
use restate_operator.Examples.Knative.{beside}

abbrev creating : ReplicaSetWorld
creating = record { create = λ _. found unregistered; get = λ _. found unregistered }

abbrev around : Surroundings
around = record {
  told = told;
  versions = creating;
  url = plain_url;
  cluster_dns = "cluster.local";
  clouds = clouds;
  hashing = counting;
  namespace = "apps";
  store = old_version ∷ unregistered ∷ [];
  template = "{}";
  pod_spec = none;
}

reconciled : (reconcile around exact_chrono live).result ≡ ok (unregistered, none)
unfolding reconcile endpoint_of template_spec ensure_replicaset after_create
    in_process_tunnel_params service_url cluster_service_url validate_exactly_one_set
    maybe_tunnel_url Fallible.◌>>=◌ require roll_out full_pass carry_out_plan await_ready
    cleanup_others register_and_confirm record_id validate validate_cluster_status confirm_latest
    register_deployment latest_services admin_json validate_replica_set_status plan_registration
    insert_id collect_ids owned_deployment_ids has_other_owned latest_deployment_by_service
    collect_services judge_latest superseded list_deployments cleanup_old_replicasets ◌>>=◌
    visit_each visit_and_finish visit visit_inactive retire remove_version keep_active wait_out
    schedule_version_removal plan_active_version_hpa unschedule_version_removal finish candidates
    is_candidate sort_by_creation insert_by_creation lookup insert is_active in_flight_invocations
    retain_for_rollback check_admin_response into_map absorb merge concat versioned_name
    generate_pod_template_hash safe_encode_u32 encode_on hash_input collision_part codes
reconciled = refl

reconcile-HasRolledOut_example :
    HasRolledOut around exact_chrono live (reconcile around exact_chrono live).calls unregistered
reconcile-HasRolledOut_example =
    reconcile-HasRolledOut around exact_chrono live unregistered none reconciled

abbrev plain : Displays
plain = record { error = λ e. "error"; status_code = λ code. "code" }

passed :
    (reconcile_status around exact_chrono no_jitter plain some live 10 beside).result
    ≡ ok (requeue 300000000000)
unfolding reconcile_status reconcile_replicaset_status replicaset_verdict status_from_replica_set
    report_verdict concluded_status jitter sub_i32 healthy_requeue_after ready_condition
    latest_version_label_selector reconcile endpoint_of template_spec ensure_replicaset after_create
    in_process_tunnel_params service_url cluster_service_url validate_exactly_one_set
    maybe_tunnel_url Fallible.◌>>=◌ require roll_out full_pass carry_out_plan await_ready
    cleanup_others register_and_confirm record_id validate validate_cluster_status confirm_latest
    register_deployment latest_services admin_json validate_replica_set_status plan_registration
    insert_id collect_ids owned_deployment_ids has_other_owned latest_deployment_by_service
    collect_services judge_latest superseded list_deployments cleanup_old_replicasets ◌>>=◌
    visit_each visit_and_finish visit visit_inactive retire remove_version keep_active wait_out
    schedule_version_removal plan_active_version_hpa unschedule_version_removal finish candidates
    is_candidate sort_by_creation insert_by_creation lookup insert is_active in_flight_invocations
    retain_for_rollback check_admin_response into_map absorb merge concat versioned_name
    generate_pod_template_hash safe_encode_u32 encode_on hash_input collision_part codes
passed = refl

reconcile_status-TellsTruth_example :
    (status : RestateDeploymentStatus) × Made
      (report_status status)
      (reconcile_status around exact_chrono no_jitter plain some live 10 beside).calls
    × TellsTruth around exact_chrono no_jitter plain some live 10 beside status
reconcile_status-TellsTruth_example =
    reconcile_status-TellsTruth around exact_chrono no_jitter plain some live 10 beside
      (requeue 300000000000) passed

-- A version that was scheduled for removal, and is wanted again.
abbrev parked : ReplicaSet
parked = record unregistered {
  metadata =
      metadata_of "greeter-new" 2
        (("restate.dev/pod-template", "{}") ∷ ("restate.dev/remove-version-at", "||") ∷ []);
}

abbrev adopting : ReplicaSetWorld
adopting = record {
  create = λ _. refused (api 409 "AlreadyExists" "exists");
  get = λ _. found parked;
}

adopted :
    (ensure_replicaset told.world adopting live "greeter-new" "{}" (ok none)).result ≡ ok parked
unfolding ensure_replicaset after_create adopt is_ours unschedule_version_removal lookup ◌>>=◌
adopted = refl

ensure_replicaset-Stays_example :
    Stays told.world adopting live "greeter-new" "{}"
      (ensure_replicaset told.world adopting live "greeter-new" "{}" (ok none)).calls
      parked
ensure_replicaset-Stays_example =
    ensure_replicaset-Stays told.world adopting live "greeter-new" "{}" (ok none) parked adopted

ensure_replicaset-LeavesForeign_example :
    All
      (LeavesForeign told.world adopting live "greeter-new" "{}")
      (ensure_replicaset told.world adopting live "greeter-new" "{}" (ok none)).calls
ensure_replicaset-LeavesForeign_example =
    ensure_replicaset-LeavesForeign told.world adopting live "greeter-new" "{}" (ok none)
