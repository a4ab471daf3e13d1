-- ===== src/Knative/Cleanup.antt =====
-- `cleanup_old_configurations` of src/controllers/restatedeployment/reconcilers/knative.rs, with the
-- decisions that it shares with `cleanup_old_replicasets`.
use restate_operator.Base.{
  ◌+◌, String, Option, none, some, List, [], ◌∷◌, ◌++◌, if◌then◌else◌, filter_option,
}
use restate_operator.Platform.{Chrono}
use restate_operator.Resources.{RestateDeployment, ObjectMeta}
use restate_operator.Effects.{Run, pure, ◌>>◌}
use restate_operator.Calls.{Call, delete_configuration, World, kube_call}
use restate_operator.Cleanup.{
  CleanupMode, DeploymentUsage, DeploymentUsageMap, CleanupOutcome, is_active, retain_for_rollback,
}
use restate_operator.Versions.{
  Progress, deployment_id_of, usage_of, blocking_version, record_abandoned, retain_or_remove,
  unschedule_version_removal, deregister_if_known, wait_out, remove_at_of, is_due, visit_and_finish,
}
use restate_operator.Knative.{Configuration, old_configurations}

module _ (w : World) where
  -- A Configuration that Restate still needs keeps its scale: Knative scales it.
  unfoldable pub keep_configuration : ObjectMeta → DeploymentUsage → Progress → Run Call Progress
  unfolding unschedule_version_removal
  keep_configuration m usage p = do
    unschedule_version_removal w m
    pure (record p { blocking = p.blocking ++ blocking_version m usage ∷ [] })

  -- Out of Restate first, then out of the cluster; the deletion of the Configuration, Foreground,
  -- takes its Route along.
  unfoldable pub remove_configuration :
      ObjectMeta → Option DeploymentUsage → Progress → Run Call Progress
  remove_configuration m deployment p = do
    deregister_if_known w deployment (deployment_id_of m)
    kube_call w (delete_configuration m.name)
    pure (record p { abandoned = record_abandoned m deployment p.abandoned })

  unfoldable pub retire_configuration :
      RestateDeployment
      → CleanupMode
      → ObjectMeta
      → Option DeploymentUsage
      → Progress
      → Run Call Progress
  retire_configuration rsd mode m deployment p =
      retain_or_remove (retain_for_rollback mode p.historic_count rsd.revision_history_limit)
        (pure (record p { historic_count = p.historic_count + 1 }))
        (remove_configuration m deployment p)

  module _ (chrono : Chrono) where
    unfoldable pub visit_unneeded :
        RestateDeployment
        → CleanupMode
        → ObjectMeta
        → Option DeploymentUsage
        → Progress
        → Run Call Progress
    visit_unneeded rsd mode m deployment p =
        if is_due w chrono mode m deployment
        then retire_configuration rsd mode m deployment p
        else wait_out w chrono rsd m (remove_at_of w chrono m) p

    abbrev pub keep_or_visit_unneeded :
        Option DeploymentUsage → ObjectMeta → Progress → Run Call Progress → Run Call Progress
    keep_or_visit_unneeded (some usage) m p unneeded = keep_configuration m usage p
    keep_or_visit_unneeded none m p unneeded = unneeded

    -- One turn of the loop.
    unfoldable pub visit_configuration :
        RestateDeployment
        → CleanupMode
        → DeploymentUsageMap
        → Configuration
        → Progress
        → Run Call Progress
    visit_configuration rsd mode deployments config p =
        let deployment = usage_of deployments config.metadata in
        keep_or_visit_unneeded (filter_option (λ usage. is_active usage mode) deployment)
          config.metadata p (visit_unneeded rsd mode config.metadata deployment p)

    unfoldable pub cleanup_old_configurations :
        String
        → String
        → RestateDeployment
        → CleanupMode
        → DeploymentUsageMap
        → Option String
        → List Configuration
        → Run Call CleanupOutcome
    unfolding visit_and_finish
    cleanup_old_configurations namespace rsd_uid rsd mode deployments active_tag store =
        visit_and_finish w chrono (visit_configuration rsd mode deployments)
          (old_configurations namespace rsd_uid active_tag store)
