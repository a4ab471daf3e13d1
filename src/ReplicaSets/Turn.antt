-- ===== src/ReplicaSets/Turn.antt =====
-- What one turn of the cleanup loop over the ReplicaSets adds to the progress, when it succeeds.
use restate_operator.Base.{◌≡◌, inl, inr, none, some, arith, Option-cases}
use mathlib.Core.List.{append-nil}
use restate_operator.Platform.{Chrono}
use restate_operator.Resources.{RestateDeployment, ReplicaSet}
use restate_operator.Effects.{ok, ◌>>=◌}
use restate_operator.Calls.{delete_replicaset, World}
use restate_operator.Cleanup.{CleanupMode, DeploymentUsage, DeploymentUsageMap, retain_for_rollback}
use restate_operator.Versions.{Progress, usage_of, remove_at_of}
use restate_operator.Versions.Outcome.{Turn, active_usage, wait_out-Turn, record_abandoned-kept}
use restate_operator.ReplicaSets.Visit.{
  keep_active, remove_version, retire, visit_inactive, visit, keep_or_visit,
}

module _ (w : World) (chrono : Chrono) (rsd : RestateDeployment) (mode : CleanupMode)
    (deployments : DeploymentUsageMap) (rs : ReplicaSet) (p q : Progress) where
  keep_active-Turn :
      (usage : DeploymentUsage)
      → active_usage mode deployments rs.metadata ≡ some usage
      → (keep_active w rsd mode rs usage p).result ≡ ok q
      → Turn delete_replicaset rsd mode rs.metadata
          (some usage)
          (keep_active w rsd mode rs usage p).calls
          p
          q
  unfolding keep_active ◌>>=◌
  keep_active-Turn usage e h = ground arith

  module _ (e : active_usage mode deployments rs.metadata ≡ none) where
    remove_version-Turn :
        (remove_version w rs (usage_of deployments rs.metadata) p).result ≡ ok q
        → Turn delete_replicaset rsd mode rs.metadata none
            (remove_version w rs (usage_of deployments rs.metadata) p).calls
            p
            q
    unfolding remove_version ◌>>=◌
    remove_version-Turn h = ground (
      arith,
      append-nil p.blocking,
      record_abandoned-kept w chrono rsd mode delete_replicaset rs.metadata
          (usage_of deployments rs.metadata) p.abandoned e,
    )

    retire-Turn :
        (retire w rsd mode rs (usage_of deployments rs.metadata) p).result ≡ ok q
        → Turn delete_replicaset rsd mode rs.metadata none
            (retire w rsd mode rs (usage_of deployments rs.metadata) p).calls
            p
            q
    unfolding retire ◌>>=◌ retain_for_rollback
    retire-Turn h = ground (arith, append-nil p.blocking, remove_version-Turn)

    visit_inactive-Turn :
        (visit_inactive w chrono rsd mode rs (usage_of deployments rs.metadata) p).result ≡ ok q
        → Turn delete_replicaset rsd mode rs.metadata none
            (visit_inactive w chrono rsd mode rs (usage_of deployments rs.metadata) p).calls
            p
            q
    unfolding visit_inactive
    visit_inactive-Turn h = ground (
      arith,
      retire-Turn,
      wait_out-Turn w chrono rsd mode delete_replicaset rs.metadata
          (remove_at_of w chrono rs.metadata) p q,
    )

  pub visit-Turn :
      (visit w chrono rsd mode deployments rs p).result ≡ ok q
      → Turn delete_replicaset rsd mode rs.metadata
          (active_usage mode deployments rs.metadata)
          (visit w chrono rsd mode deployments rs p).calls
          p
          q
  unfolding visit
  visit-Turn h = elim (Option-cases (active_usage mode deployments rs.metadata)) [
    | inl e ↦ rw (e, keep_or_visit) (visit_inactive-Turn e (rw (e, keep_or_visit) at h))
    | inr (usage, e) ↦ rw (e, keep_or_visit) (keep_active-Turn usage e (rw (e, keep_or_visit) at h))
  ]
