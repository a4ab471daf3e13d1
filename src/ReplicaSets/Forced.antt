-- ===== src/ReplicaSets/Forced.antt =====
-- A pass of a forced deletion over the ReplicaSets.
use restate_operator.Base.{◌≡◌, refl, String, Option, none, List, []}
use restate_operator.Platform.{Chrono}
use restate_operator.Resources.{RestateDeployment, ReplicaSet}
use restate_operator.Effects.{ok}
use restate_operator.Calls.{World, delete_replicaset}
use restate_operator.Cleanup.{force_deleting, DeploymentUsageMap, CleanupOutcome}
use restate_operator.Versions.Outcome.{Concludes-forced}
use restate_operator.ReplicaSets.Pass.{cleanup_old_replicasets}
use restate_operator.ReplicaSets.Outcome.{
  IsCleared, cleanup_old_replicasets-Concludes, cleanup_old_replicasets-IsCleared,
}

module _ (w : World) (chrono : Chrono) (rsd : RestateDeployment)
    (deployments : DeploymentUsageMap) where
  -- A pass of a forced deletion whose calls succeed blocks on nothing, waits for no removal, and
  -- deletes the ReplicaSet of every candidate.
  pub cleanup_old_replicasets-forced :
      (namespace rsd_uid : String) (except_rs : Option String) (store : List ReplicaSet)
      (o : CleanupOutcome)
      → (cleanup_old_replicasets w chrono namespace rsd_uid rsd force_deleting deployments except_rs
          store).result
        ≡ ok o
      → (o.blocking ≡ [])
        × (o.next_removal ≡ none)
        × IsCleared namespace rsd_uid except_rs store
            (cleanup_old_replicasets w chrono namespace rsd_uid rsd force_deleting deployments
              except_rs store).calls
  cleanup_old_replicasets-forced namespace rsd_uid except_rs store o done =
      let next =
        Concludes-forced delete_replicaset force_deleting deployments _ _ o
          (cleanup_old_replicasets-Concludes w chrono rsd force_deleting deployments namespace
            rsd_uid except_rs store o done)
          refl in
      let c =
        cleanup_old_replicasets-IsCleared w chrono rsd force_deleting deployments namespace rsd_uid
          except_rs store o done refl next in
      (c.0, next, c.1)
