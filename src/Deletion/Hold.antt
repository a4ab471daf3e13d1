-- ===== src/Deletion/Hold.antt =====
-- A drain with `onTimeout: hold`: `cleanup` of src/controllers/restatedeployment/controller.rs.
use restate_operator.Versions.{usage_of, deployment_id_of}
use restate_operator.Versions.Spared.{IsInactive, Permits}
use restate_operator.Base.{
  ℕ, ◌≡◌, ◌⊎◌, inl, inr, true, String, Option, none, some, List, Memᴰ, All, All-map_of, arith,
  is_some, if◌then◌else◌, filter_option, Option-cases, Bool-cases, is_empty,
}
use restate_operator.Platform.{Chrono}
use restate_operator.Resources.{
  RestateDeployment, Condition, ObjectMeta, DeletePolicy, OnTimeout, delete_policy,
  drain_on_timeout,
}
use restate_operator.Effects.{ok, pure, ◌>>=◌, All-bind}
use restate_operator.Calls.{
  Call, deregister, delete_replicaset, delete_configuration, publish, best_effort, World,
}
use restate_operator.Cleanup.{
  deleting, DeploymentUsage, DeploymentUsageMap, CleanupOutcome, for_rsd, is_active,
  in_flight_invocations,
}
use restate_operator.Deletion.Finalizer.{
  DeletionClock, list_deployments, cluster_gone, clear_stale, conclude, drain_versions, cleanup,
}
use restate_operator.Deletion.Report.{suspension_to_clear}
use restate_operator.Deletion.Teardown.{Stores, objects, teardown, teardown-Permits}

-- Restate knows of no unfinished invocation of the version.
abbrev pub IsIdle : DeploymentUsageMap → ObjectMeta → Type 0
IsIdle deployments m =
    (usage_of deployments m ≡ none)
    ⊎ ((u : DeploymentUsage) × (usage_of deployments m ≡ some u) × (in_flight_invocations u ≡ 0))

inactive-IsIdle :
    (deployments : DeploymentUsageMap) (m : ObjectMeta)
    → IsInactive deleting deployments m
    → IsIdle deployments m
unfolding is_active
inactive-IsIdle deployments m h = elim (Option-cases (usage_of deployments m)) [
  | inl e ↦ inl e
  | inr (u, e) ↦ inr (u, e, idle u (rw e at h))
]
  where
    idle :
        (u : DeploymentUsage)
        → filter_option (λ v. is_active v deleting) (some u) ≡ none
        → in_flight_invocations u ≡ 0
    idle u h = ground arith

module _ (w : World) (chrono : Chrono) (clock : DeletionClock) (rsd : RestateDeployment) where
  -- A call that takes a version out of service, in a pass that holds: the usage query has answered
  -- that the version has no unfinished invocation.
  abbrev pub StrandsNothing : Stores → Call → Type 0
  StrandsNothing stores (deregister id) =
      (m : ObjectMeta) × Memᴰ m (objects rsd stores)
      × (deployment_id_of m ≡ some id)
      × (deployments : DeploymentUsageMap) × ((list_deployments w deleting).result ≡ ok deployments)
      × IsIdle deployments m
  StrandsNothing stores (delete_replicaset name) =
      (m : ObjectMeta) × Memᴰ m (objects rsd stores)
      × (name ≡ m.name)
      × (deployments : DeploymentUsageMap) × ((list_deployments w deleting).result ≡ ok deployments)
      × IsIdle deployments m
  StrandsNothing stores (delete_configuration name) =
      (m : ObjectMeta) × Memᴰ m (objects rsd stores)
      × (name ≡ m.name)
      × (deployments : DeploymentUsageMap) × ((list_deployments w deleting).result ≡ ok deployments)
      × IsIdle deployments m
  StrandsNothing stores _ = Unit

  Permits-StrandsNothing :
      (stores : Stores) (deployments : DeploymentUsageMap) (c : Call) (m : ObjectMeta)
      → (list_deployments w deleting).result ≡ ok deployments
      → Memᴰ m (objects rsd stores)
      → Permits w rsd deleting deployments m c
      → StrandsNothing stores c
  Permits-StrandsNothing stores deployments (deregister id) m q held k =
      (m, held, k.0, deployments, q, inactive-IsIdle deployments m k.2)
  Permits-StrandsNothing stores deployments (delete_replicaset name) m q held k =
      (m, held, k.0, deployments, q, inactive-IsIdle deployments m k.1)
  Permits-StrandsNothing stores deployments (delete_configuration name) m q held k =
      (m, held, k.0, deployments, q, inactive-IsIdle deployments m k.1)
  Permits-StrandsNothing stores deployments _ m q held k = tt

  module _ (namespace : String) (stores : Stores) (deleted : is_some rsd.deletion_timestamp ≡ true)
      (drains : delete_policy rsd.restate ≡ DeletePolicy.drain)
      (holds : drain_on_timeout rsd.restate ≡ OnTimeout.hold) where
    mode_is_deleting : (now : ℕ) → for_rsd chrono rsd now ≡ deleting
    unfolding for_rsd
    mode_is_deleting now = ground arith

    list_deployments-StrandsNothing :
        All (StrandsNothing stores) (list_deployments w deleting).calls
    unfolding list_deployments
    list_deployments-StrandsNothing = ground arith

    teardown-StrandsNothing :
        (deployments : DeploymentUsageMap)
        → (list_deployments w deleting).result ≡ ok deployments
        → All
            (StrandsNothing stores)
            (teardown w chrono rsd namespace stores deleting deployments).calls
    teardown-StrandsNothing deployments q =
        All-map_of _ (StrandsNothing stores) _
          (λ c k. Permits-StrandsNothing stores deployments c k.0 q k.1 k.2)
          (teardown-Permits w chrono rsd namespace stores deleting deployments)

    conclude-StrandsNothing :
        (o : CleanupOutcome)
        → All
            (StrandsNothing stores)
            ((if is_empty o.abandoned then pure tt else best_effort w (publish "ForcedDeletion"))
              >>= λ _. conclude w chrono clock rsd o).calls
    unfolding conclude ◌>>=◌
    conclude-StrandsNothing o = ground arith

    clear_stale-StrandsNothing :
        (conditions : Option (List Condition))
        → All (StrandsNothing stores) (clear_stale w conditions).calls
    clear_stale-StrandsNothing none = tt
    clear_stale-StrandsNothing (some conditions) = (tt, tt)

    cluster_gone-StrandsNothing :
        (cluster : Option String) → All (StrandsNothing stores) (cluster_gone w cluster).calls
    unfolding cluster_gone
    cluster_gone-StrandsNothing cluster = ground arith

    drain_versions-StrandsNothing :
        All
          (StrandsNothing stores)
          (drain_versions w chrono clock rsd (teardown w chrono rsd namespace stores)).calls
    unfolding drain_versions
    drain_versions-StrandsNothing =
        rw (mode_is_deleting clock.before_query, mode_is_deleting clock.after_query)
          (All-bind P _ _ tt λ _ _. All-bind P _ _ list_deployments-StrandsNothing λ deployments q.
            All-bind P _ _ tt λ _ _.
              All-bind P _ _ (teardown-StrandsNothing deployments q)
                λ o _. conclude-StrandsNothing o)
      where
        P : Call → Type 0
        P = StrandsNothing stores

    -- Of a deleted RestateDeployment with the delete policy `drain` and `onTimeout: hold`, no call
    -- of a pass of `cleanup`, in either deployment mode, deregisters a version or deletes its
    -- ReplicaSet or Configuration unless the usage query of that pass answered that the version
    -- has no unfinished invocation, whatever the servers answer and however long the drain has
    -- lasted.
    pub cleanup-StrandsNothing :
        All
          (StrandsNothing stores)
          (cleanup w chrono clock rsd (teardown w chrono rsd namespace stores)).calls
    unfolding cleanup
    cleanup-StrandsNothing =
        All-bind _ _ _ (clear_stale-StrandsNothing (suspension_to_clear rsd)) λ _ _.
          All-bind _ _ _ (ground arith) λ _ _.
            All-bind _ _ _ (cluster_gone-StrandsNothing rsd.restate.register.cluster) λ gone _.
              elim (Bool-cases gone) [
                | inl e ↦ rw e tt
                | inr e ↦ rw e drain_versions-StrandsNothing
              ]
