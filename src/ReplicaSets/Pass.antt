-- ===== src/ReplicaSets/Pass.antt =====
-- One pass of `cleanup_old_replicasets` in
-- src/controllers/restatedeployment/reconcilers/replicaset.rs, from the cached objects to the outcome.
use restate_operator.Base.{String, Option, List}
use restate_operator.Platform.{Chrono}
use restate_operator.Resources.{RestateDeployment, ReplicaSet}
use restate_operator.Effects.{Run}
use restate_operator.Calls.{Call, World}
use restate_operator.Cleanup.{CleanupMode, DeploymentUsageMap, CleanupOutcome}
use restate_operator.Versions.{visit_and_finish}
use restate_operator.ReplicaSets.Select.{candidates}
use restate_operator.ReplicaSets.Visit.{visit}

module _ (w : World) (chrono : Chrono) where
  unfoldable pub cleanup_old_replicasets :
      String
      → String
      → RestateDeployment
      → CleanupMode
      → DeploymentUsageMap
      → Option String
      → List ReplicaSet
      → Run Call CleanupOutcome
  unfolding visit_and_finish
  cleanup_old_replicasets namespace rsd_uid rsd mode deployments except_rs store =
      visit_and_finish w chrono (visit w chrono rsd mode deployments)
        (candidates namespace rsd_uid except_rs store)
