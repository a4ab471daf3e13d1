-- ===== src/Clusters/Explained.antt =====
-- Lemmas on a pass of `reconcile` of src/controllers/restatecluster/controller.rs that ends with
-- `Error::Provisioned`.
use restate_operator.Base.{
  ◌≡◌, ◌≢◌, refl, ◌⊎◌, inl, inr, Bool, true, false, String, Option, none, some, List,
}
use restate_operator.Errors.{provisioned}
use restate_operator.Effects.{
  Run, Result, ok, err, panicked, answered, fail, given, ◌>>=◌, continue, Made, Made-append_right,
}
use restate_operator.StatefulSets.{
  StrategyJson, RestateClusterStorage, ClusterCache, reconcile_stateful_set,
}
use restate_operator.StatefulSets.Volumes.{PodVolumes, validate_pod_volumes}
use restate_operator.Clusters.{
  RestateClusterStatus, ClusterCall, provision_cluster, ProvisionAnswer, accepted, already_exists,
  invalid_endpoint, no_connection, refused, ClusterWorld, ClusterOptions, RestateClusterSpec,
  with_storage,
}
use restate_operator.Clusters.Provisioning.{
  TomlParser, validate_config_for_provisioning, validate_config_for_provisioning-IsJudged,
  is_pod_running, provision_endpoint, provision_error, run_provisioning,
}
use restate_operator.Clusters.Compute.{provision, ensure_provisioned, reconcile_compute}
use restate_operator.Clusters.Quiet.{
  Quiet, Quiet-bind, err_eq, reconcile_stateful_set-Quiet, validate_pod_volumes-quiet,
}
use restate_operator.Clusters.Signals.{
  call-Quiet, unless-Quiet, association-Quiet, groups-Quiet, identity-Quiet, status-quiet,
}
use restate_operator.Clusters.Status.{claim_namespace, sign, reconcile_cluster}

-- The cluster is provisioned, by this call or before it.
abbrev pub IsAccepted : ProvisionAnswer → Type 0
IsAccepted answer = (answer ≡ accepted) ⊎ (answer ≡ already_exists)

module _ {Strategy : Type 0} (w : ClusterWorld Strategy) (options : ClusterOptions)
    (spec : RestateClusterSpec) (toml : TomlParser) (namespace : String) where
  abbrev endpoint : String
  endpoint = provision_endpoint w namespace options.cluster_dns

  abbrev pub HasProvisioned : List (ClusterCall Strategy) → Type 0
  HasProvisioned calls =
      Made (provision_cluster (provision_endpoint w namespace options.cluster_dns)) calls
      × IsAccepted w.provision

  -- A run that ends with `provisioned` has provisioned the cluster.
  abbrev pub Explained : {A : Type 0} → Run (ClusterCall Strategy) A → Type 0
  Explained r = r.result ≡ err provisioned → HasProvisioned r.calls

  module _ {A B : Type 0} where
    Explained-bind :
        (m : Run (ClusterCall Strategy) A) (f : A → Run (ClusterCall Strategy) B)
        → Quiet m
        → ((a : A) → Explained (f a))
        → Explained (m >>= f)
    unfolding ◌>>=◌
    Explained-bind m f h k = go m.calls m.result h
      where
        go :
            (cs : List (ClusterCall Strategy)) (r : Result A)
            → (r ≢ err provisioned)
            → Explained (continue cs r f)
        go cs (ok a) h = λ x. let (made, took) = k a x in (Made-append_right _ cs _ made, took)
        go cs (err e) h = λ x. absurd (h (err_eq x))
        go cs panicked h = λ x. cc

  validate-quiet : validate_config_for_provisioning toml spec.config spec.env ≢ err provisioned
  validate-quiet = elim (validate_config_for_provisioning-IsJudged toml spec.config spec.env) [
    | inl (passes, _) ↦ λ x. cc
    | inr (_, fails, _) ↦ λ x. cc
  ]

  running-Quiet : (pod : String) → Quiet (is_pod_running w pod)
  unfolding is_pod_running
  running-Quiet pod = Quiet-bind _ _ (call-Quiet w _) λ _. λ x. cc

  abbrev asked_for : ProvisionAnswer → Run (ClusterCall Strategy) (Unit {0})
  asked_for answer = answered (provision_cluster endpoint) (provision_error w endpoint answer)

  asked_for-Explained :
      (answer : ProvisionAnswer)
      → w.provision ≡ answer
      → Explained (asked_for answer >>= λ _. fail {A = Unit {0}} provisioned)
  unfolding ◌>>=◌
  asked_for-Explained accepted e = λ x. (inl refl, inl e)
  asked_for-Explained already_exists e = λ x. (inl refl, inr e)
  asked_for-Explained (invalid_endpoint text) e = λ x. cc
  asked_for-Explained (no_connection text) e = λ x. cc
  asked_for-Explained (refused message code) e = λ x. cc

  provision-Explained : Explained (provision w options spec toml namespace)
  unfolding provision run_provisioning
  provision-Explained = Explained-bind _ _ validate-quiet λ _.
      Explained-bind _ _ (running-Quiet "restate-0") λ running.
        Explained-bind _ _ (unless-Quiet w options spec running _ (λ x. cc))
          λ _. asked_for-Explained w.provision refl

  ensured-Explained :
      (auto previous : Option Bool)
      → Explained (ensure_provisioned w options spec toml namespace auto previous)
  unfolding ensure_provisioned
  ensured-Explained (some true) (some true) = λ x. cc
  ensured-Explained (some true) (some false) = provision-Explained
  ensured-Explained (some true) none = provision-Explained
  ensured-Explained (some false) previous = λ x. cc
  ensured-Explained none previous = λ x. cc

  -- After a run that is explained, one that does not end with `provisioned`.
  followed-Explained :
      (m : Run (ClusterCall Strategy) (Unit {0})) (r : Result (Unit {0}))
      → Explained m
      → (r ≢ err provisioned)
      → Explained (m >>= λ _. given r)
  unfolding ◌>>=◌
  followed-Explained m r h quiet = go m.calls m.result h
    where
      go :
          (cs : List (ClusterCall Strategy)) (o : Result (Unit {0}))
          → (o ≡ err provisioned → HasProvisioned cs)
          → Explained (continue cs o (λ _. given r))
      go cs (ok a) h = λ x. absurd (quiet x)
      go cs (err e) h = h
      go cs panicked h = h

  module _ (json : StrategyJson Strategy) (storage : RestateClusterStorage)
      (cache : ClusterCache Strategy) (labels : List (String × String)) (debug : String → String)
      (volumes : PodVolumes) (previous : Option RestateClusterStatus) where
    storage-Quiet : Quiet (
        with_storage (
          reconcile_stateful_set json w.storage storage cache labels
            (validate_pod_volumes debug volumes)))
    unfolding with_storage
    storage-Quiet =
        reconcile_stateful_set-Quiet json w.storage storage cache labels _
          (validate_pod_volumes-quiet debug volumes)

    compute-Explained :
        (before : Option Bool)
        → Explained (
            reconcile_compute w options spec toml namespace json storage cache labels debug volumes
              before)
    unfolding reconcile_compute
    compute-Explained before = Explained-bind _ _ (call-Quiet w _) λ _.
        Explained-bind _ _ (call-Quiet w _) λ _.
          Explained-bind _ _ (association-Quiet w options spec _ _) λ _.
            Explained-bind _ _ (groups-Quiet w options spec) λ _.
              Explained-bind _ _ (identity-Quiet w options spec _ _) λ _.
                Explained-bind _ _ (call-Quiet w _) λ _. Explained-bind _ _ (call-Quiet w _) λ _.
                  Explained-bind _ _ (call-Quiet w _) λ _.
                    Explained-bind _ _ storage-Quiet
                      λ _. followed-Explained _ _ (ensured-Explained _ _) (status-quiet _ _)

    namespace-Quiet : (owned : Option Bool) → Quiet (claim_namespace w owned)
    namespace-Quiet (some false) = λ x. cc
    namespace-Quiet (some true) = call-Quiet w _
    namespace-Quiet none = call-Quiet w _

    sign-Quiet : (fault : Option String) → Quiet (sign w fault)
    sign-Quiet none = call-Quiet w _
    sign-Quiet (some e) = λ x. cc

    pub reconcile_cluster-Explained : Explained (
        reconcile_cluster w options spec toml namespace json storage cache labels debug volumes
          previous)
    unfolding reconcile_cluster
    reconcile_cluster-Explained = Explained-bind _ _ (call-Quiet w _) λ _.
        Explained-bind _ _ (namespace-Quiet _) λ _.
          Explained-bind _ _ (call-Quiet w _)
            λ _. Explained-bind _ _ (sign-Quiet _) λ _. compute-Explained _
