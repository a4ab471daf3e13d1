-- ===== src/Deletion/Teardown.antt =====
-- What `RestateDeployment::cleanup` of src/controllers/restatedeployment/controller.rs tears down:
-- the ReplicaSets or, in Knative mode, the Configurations, by the deployment mode of the spec.
use restate_operator.Base.{
  ◌≡◌, true, String, none, List, All, if◌then◌else◌, filter, Bool-cases, map, Memᴰ, refl,
  All-map_of, [], ◌∷◌, inl, inr,
}
use restate_operator.Platform.{Chrono}
use restate_operator.Resources.{RestateDeployment, ReplicaSet, ObjectMeta, is_knative}
use restate_operator.Effects.{Run, ok, Made}
use restate_operator.Calls.{Call, World, delete_configuration}
use restate_operator.Cleanup.{CleanupMode, DeploymentUsageMap, CleanupOutcome, is_deleting}
use restate_operator.Versions.Spared.{Permits}
use restate_operator.ReplicaSets.Pass.{cleanup_old_replicasets}
use restate_operator.ReplicaSets.Outcome.{IsCleared, cleanup_old_replicasets-IsCleared}
use restate_operator.ReplicaSets.Spares.{cleanup_old_replicasets-Permits}
use restate_operator.Knative.{Configuration, is_old_configuration}
use restate_operator.Knative.Cleanup.{cleanup_old_configurations}
use restate_operator.Knative.Removed.{
  cleanup_old_configurations-Permits, cleanup_old_configurations-cleared,
}

-- The cached objects of both modes.
pub record Stores : Type 0 where
  pub replicasets : List ReplicaSet
  pub configurations : List Configuration

-- The metadata of the cached objects of the mode.
abbrev pub objects : RestateDeployment → Stores → List ObjectMeta
objects rsd stores =
    if is_knative rsd.deployment_mode
    then map (λ config. config.metadata) stores.configurations
    else map (λ rs. rs.metadata) stores.replicasets

-- Every cached version of the RestateDeployment has been deleted.
abbrev pub IsTornDown : RestateDeployment → String → Stores → List Call → Type 0
IsTornDown rsd namespace stores calls =
    if is_knative rsd.deployment_mode
    then All (λ config. Made (delete_configuration config.metadata.name) calls)
        (filter (is_old_configuration namespace rsd.uid none) stores.configurations)
    else IsCleared namespace rsd.uid none stores.replicasets calls

module _ {K : Type 0} (meta : K → ObjectMeta) where
  mem-map : (k : K) (ks : List K) → Memᴰ k ks → Memᴰ (meta k) (map meta ks)
  mem-map k [] m = elim m [ ]
  mem-map k (x ∷ xs) (Memᴰ.head e) = Memᴰ.head (rw e refl)
  mem-map k (x ∷ xs) (Memᴰ.tail m) = Memᴰ.tail (mem-map k xs m)

module _ (w : World) (chrono : Chrono) (rsd : RestateDeployment) (namespace : String)
    (stores : Stores) (mode : CleanupMode) (deployments : DeploymentUsageMap) where
  unfoldable pub teardown : Run Call CleanupOutcome
  teardown =
      if is_knative rsd.deployment_mode
      then cleanup_old_configurations w chrono namespace rsd.uid rsd mode deployments none
          stores.configurations
      else cleanup_old_replicasets w chrono namespace rsd.uid rsd mode deployments none
          stores.replicasets

  pub teardown-IsTornDown :
      (o : CleanupOutcome)
      → is_deleting mode ≡ true
      → teardown.result ≡ ok o
      → o.next_removal ≡ none
      → IsTornDown rsd namespace stores teardown.calls
  unfolding teardown
  teardown-IsTornDown o d t n = elim (Bool-cases (is_knative rsd.deployment_mode)) [
    | inl e ↦ rw e (
        cleanup_old_configurations-cleared w chrono rsd mode deployments namespace rsd.uid none
          stores.configurations o (rw e at t) d n)
    | inr e ↦
        rw e
          (cleanup_old_replicasets-IsCleared w chrono rsd mode deployments namespace rsd.uid none
            stores.replicasets o (rw e at t) d n).1
  ]

  pub teardown-Permits :
      All
        (λ c. (m : ObjectMeta) × Memᴰ m (objects rsd stores) × Permits w rsd mode deployments m c)
        teardown.calls
  unfolding teardown
  teardown-Permits = elim (Bool-cases (is_knative rsd.deployment_mode)) [
    | inl e ↦ rw e (
        All-map_of _ _ _ (λ c k. (k.0.metadata, mem-map _ _ _ k.1, k.3))
          (cleanup_old_configurations-Permits w chrono rsd mode deployments namespace rsd.uid none
            stores.configurations))
    | inr e ↦ rw e (
        All-map_of _ _ _ (λ c k. (k.0.metadata, mem-map _ _ _ k.1, k.3))
          (cleanup_old_replicasets-Permits w chrono rsd mode deployments namespace rsd.uid none
            stores.replicasets))
  ]
