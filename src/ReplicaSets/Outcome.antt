-- ===== src/ReplicaSets/Outcome.antt =====
-- What a cleanup pass over the ReplicaSets that succeeds reports and leaves.
use restate_operator.Base.{◌≡◌, true, String, Option, none, List, [], All, filter, map, ◌⊎◌}
use restate_operator.Platform.{Chrono}
use restate_operator.Resources.{RestateDeployment, ReplicaSet, ObjectMeta}
use restate_operator.Effects.{ok, Made}
use restate_operator.Calls.{Call, delete_replicaset, World}
use restate_operator.Cleanup.{
  CleanupMode, force_deleting, DeploymentUsageMap, CleanupOutcome, is_deleting,
}
use restate_operator.Versions.Outcome.{
  blocked_in, Concludes, AllRemoved-unsorted, visit_and_finish-Concludes, Concludes-cleared,
}
use restate_operator.ReplicaSets.Select.{is_candidate, candidates}
use restate_operator.ReplicaSets.Visit.{visit}
use restate_operator.ReplicaSets.Pass.{cleanup_old_replicasets}
use restate_operator.ReplicaSets.Turn.{visit-Turn}

-- The ReplicaSet of every version of the RestateDeployment, less `except_rs`, has been deleted.
abbrev pub IsCleared : String → String → Option String → List ReplicaSet → List Call → Type 0
IsCleared namespace rsd_uid except_rs store calls =
    All (λ rs. Made (delete_replicaset rs.metadata.name) calls)
      (filter (is_candidate namespace rsd_uid except_rs) store)

-- The metadata of the candidates, newest first.
abbrev pub candidates_metadata : String → String → Option String → List ReplicaSet → List ObjectMeta
candidates_metadata namespace rsd_uid except_rs store =
    map (λ rs. rs.metadata) (candidates namespace rsd_uid except_rs store)

module _ (w : World) (chrono : Chrono) (rsd : RestateDeployment) (mode : CleanupMode)
    (deployments : DeploymentUsageMap) (namespace rsd_uid : String) (except_rs : Option String)
    (store : List ReplicaSet) (o : CleanupOutcome)
    (done : (cleanup_old_replicasets w chrono namespace rsd_uid rsd mode deployments except_rs
        store).result
      ≡ ok o) where
  -- A pass over the ReplicaSets that succeeds keeps the promise of a cleanup pass to the candidates.
  pub cleanup_old_replicasets-Concludes :
      Concludes delete_replicaset mode deployments
        (candidates_metadata namespace rsd_uid except_rs store)
        (cleanup_old_replicasets w chrono namespace rsd_uid rsd mode deployments except_rs
          store).calls
        o
  unfolding cleanup_old_replicasets
  cleanup_old_replicasets-Concludes =
      visit_and_finish-Concludes w chrono delete_replicaset rsd mode deployments (λ rs. rs.metadata)
        (visit w chrono rsd mode deployments) (visit-Turn w chrono rsd mode deployments)
        (candidates namespace rsd_uid except_rs store) o done

  -- A pass that succeeds reports as blocking exactly the candidates that Restate needs in this
  -- mode, newest first, and reports abandoned versions only in a forced deletion.
  pub cleanup_old_replicasets-blocking :
      (o.blocking
        ≡ blocked_in mode deployments (candidates_metadata namespace rsd_uid except_rs store))
      × ((mode ≡ force_deleting) ⊎ (o.abandoned ≡ []))
  cleanup_old_replicasets-blocking =
      let (blocking, abandoned, _) = cleanup_old_replicasets-Concludes in (blocking, abandoned)

  -- A pass of a deletion that succeeds with no removal left to wait for has nothing blocking it
  -- and has deleted the ReplicaSet of every candidate.
  pub cleanup_old_replicasets-IsCleared :
      is_deleting mode ≡ true
      → o.next_removal ≡ none
      → (o.blocking ≡ [])
        × IsCleared namespace rsd_uid except_rs store
            (cleanup_old_replicasets w chrono namespace rsd_uid rsd mode deployments except_rs
              store).calls
  unfolding candidates
  cleanup_old_replicasets-IsCleared d n =
      let (blocking, removed) =
        Concludes-cleared delete_replicaset mode deployments _ _ o cleanup_old_replicasets-Concludes
          d n in
      (
        blocking,
        AllRemoved-unsorted (λ rs. rs.metadata) delete_replicaset
            (is_candidate namespace rsd_uid except_rs) store _ removed,
      )
