-- ===== src/ReplicaSets/Spares.antt =====
-- The calls of a cleanup pass over the ReplicaSets, and the versions that they are about.
use restate_operator.Base.{
  ℕ, ◌≡◌, String, Option, List, Memᴰ, true, All, arith, Option-cases, inl, inr, All-map_of,
}
use restate_operator.Platform.{Chrono}
use restate_operator.Resources.{RestateDeployment, ReplicaSet}
use restate_operator.Effects.{◌>>=◌}
use restate_operator.Calls.{World}
use restate_operator.Cleanup.{CleanupMode, DeploymentUsage, DeploymentUsageMap}
use restate_operator.Versions.{
  Progress, usage_of, remove_at_of, wait_out, unschedule_version_removal,
}
use restate_operator.Versions.Outcome.{active_usage}
use restate_operator.Versions.Spared.{IsInactive, Permits, visit_and_finish-PermittedBy}
use restate_operator.ReplicaSets.Visit.{
  keep_active, remove_version, retire, visit_inactive, visit, keep_or_visit,
}
use restate_operator.ReplicaSets.Select.{is_candidate, candidates}
use restate_operator.ReplicaSets.Order.{candidates-exact}
use restate_operator.ReplicaSets.Pass.{cleanup_old_replicasets}

module _ (w : World) (chrono : Chrono) (rsd : RestateDeployment) (mode : CleanupMode)
    (deployments : DeploymentUsageMap) (rs : ReplicaSet) where
  keep_active-Permits :
      (usage : DeploymentUsage) (p : Progress)
      → All (Permits w rsd mode deployments rs.metadata) (keep_active w rsd mode rs usage p).calls
  unfolding keep_active unschedule_version_removal ◌>>=◌
  keep_active-Permits usage p = ground arith

  module _ (h : IsInactive mode deployments rs.metadata) where
    remove_version-Permits :
        (p : Progress)
        → All
            (Permits w rsd mode deployments rs.metadata)
            (remove_version w rs (usage_of deployments rs.metadata) p).calls
    unfolding remove_version ◌>>=◌
    remove_version-Permits p = ground arith

    retire-Permits :
        (p : Progress)
        → All
            (Permits w rsd mode deployments rs.metadata)
            (retire w rsd mode rs (usage_of deployments rs.metadata) p).calls
    unfolding retire ◌>>=◌
    retire-Permits p = ground (arith, remove_version-Permits p)

    wait_out-Permits :
        (t : Option ℕ) (p : Progress)
        → All
            (Permits w rsd mode deployments rs.metadata)
            (wait_out w chrono rsd rs.metadata t p).calls
    unfolding wait_out ◌>>=◌
    wait_out-Permits t p = ground arith

    visit_inactive-Permits :
        (p : Progress)
        → All
            (Permits w rsd mode deployments rs.metadata)
            (visit_inactive w chrono rsd mode rs (usage_of deployments rs.metadata) p).calls
    unfolding visit_inactive
    visit_inactive-Permits p =
        ground (arith, retire-Permits p, wait_out-Permits (remove_at_of w chrono rs.metadata) p)

  visit-Permits :
      (p : Progress)
      → All
          (Permits w rsd mode deployments rs.metadata)
          (visit w chrono rsd mode deployments rs p).calls
  unfolding visit
  visit-Permits p = elim (Option-cases (active_usage mode deployments rs.metadata)) [
    | inl e ↦ rw (e, keep_or_visit) (visit_inactive-Permits e p)
    | inr (usage, e) ↦ rw (e, keep_or_visit) (keep_active-Permits usage p)
  ]

module _ (w : World) (chrono : Chrono) (rsd : RestateDeployment) (mode : CleanupMode)
    (deployments : DeploymentUsageMap) where
  -- Whatever the servers answer, each call of a pass that scales a version down, schedules its
  -- removal, deregisters it or deletes its ReplicaSet is about a candidate that Restate does not
  -- need in this mode; any other scaling is to the replicas of the spec; and a ReplicaSet is
  -- deleted only if Restate does not know the version or has accepted its deregistration.
  pub cleanup_old_replicasets-Permits :
      (namespace rsd_uid : String) (except_rs : Option String) (store : List ReplicaSet)
      → All
          (λ c.
            (rs : ReplicaSet) × Memᴰ rs store
            × (is_candidate namespace rsd_uid except_rs rs ≡ true)
            × Permits w rsd mode deployments rs.metadata c)
          (cleanup_old_replicasets w chrono namespace rsd_uid rsd mode deployments except_rs
            store).calls
  unfolding cleanup_old_replicasets
  cleanup_old_replicasets-Permits namespace rsd_uid except_rs store =
      let versions = candidates namespace rsd_uid except_rs store in
      All-map_of _ _ _
        (λ c k.
          let m = (candidates-exact namespace rsd_uid except_rs store k.0).0.0 k.1 in
          (k.0, m.0, m.1, k.2))
        (visit_and_finish-PermittedBy w chrono rsd mode deployments (λ rs. rs.metadata)
          (visit w chrono rsd mode deployments) (visit-Permits w chrono rsd mode deployments)
          versions)
