-- ===== src/Examples/Knative.antt =====
-- The theorems on Knative mode, at a rollout of the tag `v2` over `v1`.
use restate_operator.Base.{
  ◌≡◌, ◌⊎◌, refl, pos, true, false, ℕ, String, none, some, List, [], ◌∷◌, All, Memᴰ, map, lookup,
  insert, decimal_ℤ,
}
use restate_operator.Resources.{RestateDeployment, KnativeDeploymentSpec, DeploymentMode}
use restate_operator.Effects
use restate_operator.Effects.{ok}
use restate_operator.Stateful
use restate_operator.Fallible
use restate_operator.Calls.{check_admin_response, delete_configuration}
use restate_operator.Cleanup.{
  CleanupOutcome, DeploymentUsageMap, deleting, is_active, in_flight_invocations,
  retain_for_rollback, into_map, absorb, merge,
}
use restate_operator.Cloud.{strip_prefix}
use restate_operator.Endpoints.{maybe_tunnel_url}
use restate_operator.Deletion.Finalizer.{list_deployments}
use restate_operator.Registration.{
  plan_registration, insert_id, collect_ids, owned_deployment_ids, latest_deployment_by_service,
  collect_services, judge_latest, superseded,
}
use restate_operator.Rollout.Flow.{register_deployment, confirm_latest, latest_services, admin_json}
use restate_operator.Status.{default_status}
use restate_operator.Versions.{
  sort_by_creation, insert_by_creation, visit_each, visit_and_finish, finish, wait_out,
  schedule_version_removal, unschedule_version_removal,
}
use restate_operator.Versions.Outcome.{Concludes}
use restate_operator.Versions.Spared.{Permits}
use restate_operator.Knative.{
  Configuration, Revision, Route, is_old_configuration, old_configurations, get_configuration_tag,
}
use restate_operator.Knative.Template.{
  determine_tag, validate_knative_containers, template_annotations,
}
use restate_operator.Knative.Annotated.{is_managed, or_default, template_annotations-lookup}
use restate_operator.Knative.Ready.{
  check_generation, latest_created_revision, count_replicas, check_revision_ready,
  check_route_ready, get_initial_scale, parse_i32, parse_magnitude, parse_digits,
}
use restate_operator.Knative.Endpoint.{endpoint_of_route}
use restate_operator.Knative.Register.{
  annotate, register_configuration, carry_out_action, register_or_promote_deployment,
}
use restate_operator.Knative.Cleanup.{
  keep_configuration, remove_configuration, retire_configuration, visit_unneeded,
  visit_configuration, cleanup_old_configurations,
}
use restate_operator.Knative.Removed.{
  cleanup_old_configurations-Permits, cleanup_old_configurations-Concludes,
}
use restate_operator.Knative.Apply.{
  KnativeSurroundings, applied, check_collision, find_configuration, build_configuration,
  reconcile_configuration, reconcile_route,
}
use restate_operator.Knative.Reconcile.{
  start_version, find_revision, set_latest_revision, set_url, register_and_clean_up, serve,
  reconcile_knative,
}
use restate_operator.Knative.Registered.{GuardsVersion, reconcile_knative-GuardsVersion}
use restate_operator.Knative.Reset.{TracksVersion, reconcile_knative-TracksVersion}
use restate_operator.Knative.Live.{HasServed, reconcile_knative-HasServed}
use restate_operator.Examples.Data.{metadata_of, exact_chrono, greeter_holding, world, busy_rows}
use restate_operator.Examples.Rollout.{live, told}
use restate_operator.Examples.Cloud.{plain_url, clouds}
use restate_operator.Examples.Naming.{counting}

abbrev sized : KnativeDeploymentSpec
sized = record { tag = some "v2"; min_scale = none; max_scale = some (pos 4); target = none }

abbrev tagged : RestateDeployment
tagged = record live { deployment_mode = some DeploymentMode.knative; knative = some sized }

abbrev deleted : RestateDeployment
deleted = record greeter_holding {
  deployment_mode = some DeploymentMode.knative;
  knative = some sized;
}

abbrev configuration : String → ℕ → List (String × String) → Configuration
configuration name created annotations = record {
  metadata = metadata_of name created annotations;
  template_annotations = some (("autoscaling.knative.dev/initial-scale", "2") ∷ []);
  status = some (record {
    observed_generation = some (pos 1);
    latest_created_revision_name = some "greeter-v2-00001";
  });
}

abbrev old_configuration : Configuration
old_configuration =
    configuration "greeter-v1" 1
      (("restate.dev/tag", "v1") ∷ ("restate.dev/deployment-id", "dp_1") ∷ [])

abbrev new_configuration : Configuration
new_configuration = configuration "greeter-v2" 2 (("restate.dev/tag", "v2") ∷ [])

abbrev cached : List Configuration
cached = new_configuration ∷ old_configuration ∷ []

abbrev revision : Revision
revision = record {
  metadata = metadata_of "greeter-v2-00001" 2 [];
  status = some (record {
    conditions = some (record { type = "Ready"; status = "True"; reason = ""; message = "" } ∷ []);
    desired_replicas = none;
    actual_replicas = some (pos 1);
  });
}

abbrev route : Route
route = record {
  metadata = metadata_of "greeter-v2" 2 [];
  status = some (record {
    conditions = none;
    traffic = some (some "greeter-v2-00001" ∷ []);
    url = some "http://greeter-v2.apps.svc.cluster.local";
  });
}

abbrev pub beside : KnativeSurroundings
beside = record {
  told = told;
  apply_configuration = λ _. applied new_configuration;
  apply_route = λ _. applied route;
  url = plain_url;
  cluster_dns = "cluster.local";
  clouds = clouds;
  hashing = counting;
  namespace = "apps";
  configurations = cached;
  revisions = revision ∷ [];
  template = "{}";
  containers = ok (record { name = some "greeter"; ports = some (some "h2c" ∷ []) } ∷ []);
}

reconcile_knative-GuardsVersion_example :
    All
      (GuardsVersion beside exact_chrono tagged)
      (reconcile_knative beside exact_chrono tagged default_status).0.calls
reconcile_knative-GuardsVersion_example =
    reconcile_knative-GuardsVersion beside exact_chrono tagged default_status

reconcile_knative-TracksVersion_example :
    TracksVersion beside exact_chrono tagged default_status
      (reconcile_knative beside exact_chrono tagged default_status).1
reconcile_knative-TracksVersion_example =
    reconcile_knative-TracksVersion beside exact_chrono tagged default_status

served :
    (reconcile_knative beside exact_chrono tagged default_status).0.result ≡ ok (some 1_000_000_011)
unfolding reconcile_knative start_version check_collision find_configuration build_configuration
    reconcile_configuration reconcile_route check_generation latest_created_revision
    set_latest_revision set_url serve register_and_clean_up find_revision count_replicas
    get_initial_scale parse_i32 parse_magnitude parse_digits check_revision_ready check_route_ready
    endpoint_of_route annotate register_configuration carry_out_action
    register_or_promote_deployment keep_configuration remove_configuration retire_configuration
    visit_unneeded visit_configuration cleanup_old_configurations old_configurations
    is_old_configuration get_configuration_tag sort_by_creation insert_by_creation visit_each
    visit_and_finish finish wait_out schedule_version_removal unschedule_version_removal
    register_deployment confirm_latest latest_services admin_json plan_registration insert_id
    collect_ids owned_deployment_ids latest_deployment_by_service collect_services judge_latest
    superseded list_deployments maybe_tunnel_url Fallible.◌>>=◌ Effects.◌>>=◌ Stateful.◌>>=◌
    Fallible.ok_or Fallible.require determine_tag validate_knative_containers lookup insert
    is_active in_flight_invocations retain_for_rollback into_map absorb merge check_admin_response
    strip_prefix
served = refl

reconcile_knative-HasServed_example :
    HasServed beside exact_chrono tagged
      (reconcile_knative beside exact_chrono tagged default_status).1
reconcile_knative-HasServed_example =
    reconcile_knative-HasServed beside exact_chrono tagged default_status (some 1_000_000_011)
      served

-- Restate knows the old version, and it is in use.
abbrev in_use : DeploymentUsageMap
in_use =
    (
      "dp_1",
      record { latest_for_service = false; pinned_invocations = 4; unpinned_invocations = 0 },
    )
    ∷ []

cleanup_old_configurations-Permits_example :
    All
      (λ c.
        (config : Configuration) × Memᴰ config cached
        × (is_old_configuration "apps" "u1" none config ≡ true)
        × Permits (world busy_rows) deleted deleting in_use config.metadata c)
      (cleanup_old_configurations
        (world busy_rows)
        exact_chrono
        "apps"
        "u1"
        deleted
        deleting
        in_use
        none
        cached).calls
cleanup_old_configurations-Permits_example =
    cleanup_old_configurations-Permits (world busy_rows) exact_chrono deleted deleting in_use "apps"
      "u1" none cached

-- The old version blocks the deletion, and the one that Restate does not know is gone.
abbrev blocked : CleanupOutcome
blocked = record {
  blocking =
      record {
        name = "greeter-v1";
        deployment_id = some "dp_1";
        usage = record {
          latest_for_service = false;
          pinned_invocations = 4;
          unpinned_invocations = 0;
        };
      }
      ∷ [];
  next_removal = some 10_000_000_012;
  abandoned = [];
}

blocked_ok :
    (cleanup_old_configurations
      (world busy_rows)
      exact_chrono
      "apps"
      "u1"
      deleted
      deleting
      in_use
      none
      cached).result
    ≡ ok blocked
unfolding keep_configuration remove_configuration retire_configuration visit_unneeded
    visit_configuration cleanup_old_configurations old_configurations is_old_configuration
    get_configuration_tag sort_by_creation insert_by_creation visit_each visit_and_finish finish
    wait_out schedule_version_removal unschedule_version_removal lookup is_active
    in_flight_invocations retain_for_rollback check_admin_response Effects.◌>>=◌
blocked_ok = refl

cleanup_old_configurations-Concludes_example :
    Concludes delete_configuration deleting in_use
      (map (λ config. config.metadata) (old_configurations "apps" "u1" none cached))
      (cleanup_old_configurations
        (world busy_rows)
        exact_chrono
        "apps"
        "u1"
        deleted
        deleting
        in_use
        none
        cached).calls
      blocked
cleanup_old_configurations-Concludes_example =
    cleanup_old_configurations-Concludes (world busy_rows) exact_chrono deleted deleting in_use
      "apps" "u1" none cached blocked blocked_ok

-- A user who annotates the upper bound overrides that of the spec.
abbrev user : List (String × String)
user = ("autoscaling.knative.dev/max-scale", "9") ∷ ("team", "greetings") ∷ []

template_annotations-lookup_example :
    (lookup "autoscaling.knative.dev/min-scale" (template_annotations tagged sized (some user))
      ≡ or_default (lookup "autoscaling.knative.dev/min-scale" user) (some "0"))
    × (lookup "autoscaling.knative.dev/max-scale" (template_annotations tagged sized (some user))
        ≡ or_default (lookup "autoscaling.knative.dev/max-scale" user) (some (decimal_ℤ (pos 4))))
    × (lookup "autoscaling.knative.dev/target" (template_annotations tagged sized (some user))
        ≡ or_default (lookup "autoscaling.knative.dev/target" user) none)
    × (lookup "restate.dev/deployment" (template_annotations tagged sized (some user))
        ≡ some "greeter")
    × ((is_managed "team" ≡ true)
        ⊎ (lookup "team" (template_annotations tagged sized (some user)) ≡ lookup "team" user))
template_annotations-lookup_example = template_annotations-lookup tagged sized (some user) "team"
