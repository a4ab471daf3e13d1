-- ===== src/ReplicaSets/Visit.antt =====
-- The loop body of `cleanup_old_replicasets` in
-- src/controllers/restatedeployment/reconcilers/replicaset.rs: what is done with one version.
use restate_operator.Base.{
  ◌+◌, ◌==◌, String, Option, none, some, [], ◌∷◌, ◌++◌, ltb_ℤ, pos, if◌then◌else◌, is_some,
  is_some_and, filter_option,
}
use restate_operator.Errors.{Error, KubeError, api, kube_error}
use restate_operator.Platform.{Chrono}
use restate_operator.Resources.{RestateDeployment, ReplicaSet}
use restate_operator.Effects.{Run, pure, answered, ◌>>◌}
use restate_operator.Calls.{
  Call, apply_hpa, delete_hpa, delete_replicaset, scale, publish, World, kube_call, best_effort,
}
use restate_operator.Cleanup.{
  CleanupMode, DeploymentUsage, DeploymentUsageMap, is_active, is_deleting, retain_for_rollback,
}
use restate_operator.Autoscaling.{
  HpaPlan, ensure, remove_and_restore, skip, plan_active_version_hpa,
}
use restate_operator.Versions.{
  Progress, deployment_id_of, usage_of, blocking_version, record_abandoned, retain_or_remove,
  unschedule_version_removal, deregister_if_known, wait_out, remove_at_of, is_due,
}

-- `Ok(false)` on a 404; the callers ignore which.
abbrev delete_hpa_error : Option KubeError → Option Error
delete_hpa_error none = none
delete_hpa_error (some (api code reason message)) =
    if code == 404 then none else some (kube_error (api code reason message))
delete_hpa_error (some e) = some (kube_error e)

module _ (w : World) where
  abbrev pub delete_version_hpa : String → Run Call (Unit {0})
  delete_version_hpa name = answered (delete_hpa name) (delete_hpa_error (w.kube (delete_hpa name)))

  -- A failed apply is published as an event, and must not stop the cleanup of other versions.
  abbrev apply_or_warn : String → Option KubeError → Run Call (Unit {0})
  apply_or_warn name none = answered (apply_hpa name) none
  apply_or_warn name (some e) = do
    answered (apply_hpa name) none
    best_effort w (publish "AutoscalingApplyFailed")

  abbrev ensure_hpa : Option String → String → Run Call (Unit {0})
  ensure_hpa none name = pure tt
  ensure_hpa (some template) name = apply_or_warn name (w.kube (apply_hpa name))

  abbrev restore_replicas : RestateDeployment → String → Run Call (Unit {0})
  restore_replicas rsd name =
      if w.hpa_cached name
      then (do delete_version_hpa name; kube_call w (scale name rsd.replicas))
      else pure tt

  abbrev carry_out : HpaPlan → RestateDeployment → String → Run Call (Unit {0})
  carry_out ensure rsd name = ensure_hpa rsd.autoscaling name
  carry_out remove_and_restore rsd name = restore_replicas rsd name
  carry_out skip rsd name = pure tt

  -- The branch for a version that Restate still needs.
  unfoldable pub keep_active :
      RestateDeployment → CleanupMode → ReplicaSet → DeploymentUsage → Progress → Run Call Progress
  unfolding plan_active_version_hpa unschedule_version_removal
  keep_active rsd mode rs usage p = do
    carry_out (plan_active_version_hpa (is_some rsd.autoscaling) (is_deleting mode)) rsd
        rs.metadata.name
    unschedule_version_removal w rs.metadata
    pure (record p { blocking = p.blocking ++ blocking_version rs.metadata usage ∷ [] })

  abbrev pub delete_cached_hpa : String → Run Call (Unit {0})
  delete_cached_hpa name = if w.hpa_cached name then delete_version_hpa name else pure tt

  abbrev pub scale_to_zero : ReplicaSet → Run Call (Unit {0})
  scale_to_zero rs =
      if is_some_and rs.replicas (λ r. ltb_ℤ (pos 0) r)
      then kube_call w (scale rs.metadata.name (pos 0))
      else pure tt

  -- A version beyond the revision history: out of Restate first, then out of the cluster.
  unfoldable pub remove_version : ReplicaSet → Option DeploymentUsage → Progress → Run Call Progress
  remove_version rs deployment p = do
    deregister_if_known w deployment (deployment_id_of rs.metadata)
    kube_call w (delete_replicaset rs.metadata.name)
    pure (record p { abandoned = record_abandoned rs.metadata deployment p.abandoned })

  -- The branch for a version whose removal is due, or that Restate does not know.
  unfoldable pub retire :
      RestateDeployment
      → CleanupMode
      → ReplicaSet
      → Option DeploymentUsage
      → Progress
      → Run Call Progress
  retire rsd mode rs deployment p = do
    delete_cached_hpa rs.metadata.name
    scale_to_zero rs
    retain_or_remove (retain_for_rollback mode p.historic_count rsd.revision_history_limit)
        (pure (record p { historic_count = p.historic_count + 1 })) (remove_version rs deployment p)

  unfoldable pub visit_inactive :
      Chrono
      → RestateDeployment
      → CleanupMode
      → ReplicaSet
      → Option DeploymentUsage
      → Progress
      → Run Call Progress
  visit_inactive chrono rsd mode rs deployment p =
      if is_due w chrono mode rs.metadata deployment
      then retire rsd mode rs deployment p
      else wait_out w chrono rsd rs.metadata (remove_at_of w chrono rs.metadata) p

  abbrev pub keep_or_visit :
      Option DeploymentUsage
      → RestateDeployment
      → CleanupMode
      → ReplicaSet
      → Progress
      → Run Call Progress
      → Run Call Progress
  keep_or_visit (some usage) rsd mode rs p inactive = keep_active rsd mode rs usage p
  keep_or_visit none rsd mode rs p inactive = inactive

  -- One turn of the loop.
  unfoldable pub visit :
      Chrono
      → RestateDeployment
      → CleanupMode
      → DeploymentUsageMap
      → ReplicaSet
      → Progress
      → Run Call Progress
  visit chrono rsd mode deployments rs p =
      keep_or_visit
        (filter_option (λ usage. is_active usage mode) (usage_of deployments rs.metadata)) rsd mode
        rs p (visit_inactive chrono rsd mode rs (usage_of deployments rs.metadata) p)
