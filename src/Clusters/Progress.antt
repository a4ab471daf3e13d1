-- ===== src/Clusters/Progress.antt =====
-- The pass of `reconcile_status` of src/controllers/restatecluster/controller.rs that provisions
-- a cluster.
use restate_operator.Base.{
  ℕ, ◌≡◌, ◌≢◌, refl, sym, subst, ap, ◌∙◌, inl, inr, Bool, true, false, String, Option, none, some,
  List, Bool-cases, if◌then◌else◌,
}
use restate_operator.Errors.{Error, provisioned}
use restate_operator.Effects.{
  Run, Result, ok, err, panicked, ◌>>=◌, continue, Made, Made-append_right,
}
use restate_operator.Fallible.{ok-injective}
use restate_operator.Clusters.Quiet.{err_eq}
use restate_operator.Deletion.Finalizer.{Action, requeue}
use restate_operator.StatefulSets.{
  StrategyJson, RestateClusterStorage, ClusterCache, reconcile_stateful_set,
}
use restate_operator.StatefulSets.Volumes.{PodVolumes, validate_pod_volumes}
use restate_operator.Clusters.{
  RestateClusterStatus, ClusterCall, report_cluster_status, apply_security_group_policy,
  delete_security_group_policy, ClusterWorld, ClusterOptions, RestateClusterSpec, call_kube,
  delete_kube, with_storage,
}
use restate_operator.Clusters.Provisioning.{
  TomlParser, env_value, IsDisabled, validate_config_for_provisioning,
  validate_config_for_provisioning-IsJudged, is_pod_running, run_provisioning,
}
use restate_operator.Clusters.Compute.{
  reconcile_association, reconcile_security_groups, reconcile_workload_identity, provision,
  ensure_provisioned, reconcile_compute,
}
use restate_operator.Clusters.Explained.{IsAccepted}
use restate_operator.Clusters.Status.{
  cluster_verdict, cluster_verdict_on_error, provisioned_before, concluded_cluster_status,
  claim_namespace, reconcile_cluster, report_cluster_verdict, reconcile_cluster_status,
}

module _ {C A B : Type 0} where
  goes_on :
      (m : Run C A) (f : A → Run C B) (a : A) → m.result ≡ ok a → (m >>= f).result ≡ (f a).result
  unfolding ◌>>=◌
  goes_on m f a h = go m.calls m.result h
    where
      go : (cs : List C) (r : Result A) → r ≡ ok a → (continue cs r f).result ≡ (f a).result
      go cs (ok b) h = ap (λ x. (f x).result) (ok-injective h)
      go cs (err e) h = cc
      go cs panicked h = cc

  stops : (m : Run C A) (f : A → Run C B) (e : Error) → m.result ≡ err e → (m >>= f).result ≡ err e
  unfolding ◌>>=◌
  stops m f e h = go m.calls m.result h
    where
      go : (cs : List C) (r : Result A) → r ≡ err e → (continue cs r f).result ≡ err e
      go cs (ok b) h = cc
      go cs (err d) h = err_eq h
      go cs panicked h = cc

module _ {Strategy : Type 0} where
  -- It is recorded, and the pass is repeated at once.
  abbrev pub Recorded : Run (ClusterCall Strategy) Action → Type 0
  Recorded r =
      (r.result ≡ ok (requeue 0))
      × (status : RestateClusterStatus) × Made (report_cluster_status status) r.calls
      × (status.provisioned ≡ some true)

module _ {Strategy : Type 0} (w : ClusterWorld Strategy) (options : ClusterOptions)
    (spec : RestateClusterSpec) (toml : TomlParser) (namespace : String)
    (free : (c : ClusterCall Strategy) → w.kube c ≡ none) where
  call-ok : (c : ClusterCall Strategy) → (call_kube w c).result ≡ ok tt
  call-ok c = rw free refl

  groups-ok : (reconcile_security_groups w options spec).result ≡ ok tt
  unfolding reconcile_security_groups
  groups-ok = elim (Bool-cases options.security_group_policy_installed) [
    | inl installed ↦ rw installed (chosen _)
    | inr missing ↦ rw missing refl
  ]
    where
      chosen :
          (b : Bool)
          → (if b
              then call_kube w apply_security_group_policy
              else delete_kube w delete_security_group_policy).result
            ≡ ok tt
      chosen true = call-ok apply_security_group_policy
      chosen false = rw free refl

  module _ (disabled : IsDisabled toml spec.config (env_value spec.env))
      (running : w.pod_phase "restate-0" ≡ some (some "Running"))
      (takes : IsAccepted w.provision) where
    validated : validate_config_for_provisioning toml spec.config spec.env ≡ ok tt
    validated = elim (validate_config_for_provisioning-IsJudged toml spec.config spec.env) [
      | inl (passes, _) ↦ passes
      | inr (_, _, enabled) ↦ absurd (enabled disabled)
    ]

    pod-ok : (is_pod_running w "restate-0").result ≡ ok true
    unfolding is_pod_running
    pod-ok = goes_on _ _ tt (call-ok _) ∙ rw running refl

    taken : (run_provisioning w namespace options.cluster_dns).result ≡ ok tt
    unfolding run_provisioning
    taken = elim takes [ inl e ↦ rw e refl | inr e ↦ rw e refl ]

    provision-ends : (provision w options spec toml namespace).result ≡ err provisioned
    unfolding provision
    provision-ends =
        goes_on _ _ tt validated
        ∙ goes_on _ _ true pod-ok
        ∙ goes_on _ _ tt refl
        ∙ goes_on _ _ tt taken

    ensured-ends :
        (auto previous : Option Bool)
        → auto ≡ some true
        → previous ≢ some true
        → (ensure_provisioned w options spec toml namespace auto previous).result ≡ err provisioned
    unfolding ensure_provisioned
    ensured-ends (some true) (some true) wanted first = absurd (first refl)
    ensured-ends (some true) (some false) wanted first = provision-ends
    ensured-ends (some true) none wanted first = provision-ends
    ensured-ends (some false) previous wanted first = cc
    ensured-ends none previous wanted first = cc

    module _ (json : StrategyJson Strategy) (storage : RestateClusterStorage)
        (cache : ClusterCache Strategy) (labels : List (String × String)) (debug : String → String)
        (volumes : PodVolumes) (previous : Option RestateClusterStatus)
        (wanted : spec.auto_provision ≡ some true) (first : provisioned_before previous ≢ some true)
        (associated : (reconcile_association w options spec options.association_cluster
            spec.role_arn).result
          ≡ ok tt)
        (bound : (reconcile_workload_identity w options spec options.gcp_workload_identity
            spec.gcp_service_account).result
          ≡ ok tt)
        (stored : (reconcile_stateful_set json w.storage storage cache labels
            (validate_pod_volumes debug volumes)).result
          ≡ ok tt) where
      stored_too :
          (with_storage (
            reconcile_stateful_set json w.storage storage cache labels
              (validate_pod_volumes debug volumes))).result
          ≡ ok tt
      unfolding with_storage
      stored_too = stored

      compute-ends :
          (reconcile_compute w options spec toml namespace json storage cache labels debug volumes
            (provisioned_before previous)).result
          ≡ err provisioned
      unfolding reconcile_compute
      compute-ends =
          goes_on _ _ tt (call-ok _)
          ∙ goes_on _ _ tt (call-ok _)
          ∙ goes_on _ _ tt associated
          ∙ goes_on _ _ tt groups-ok
          ∙ goes_on _ _ tt bound
          ∙ goes_on _ _ tt (call-ok _)
          ∙ goes_on _ _ tt (call-ok _)
          ∙ goes_on _ _ tt (call-ok _)
          ∙ goes_on _ _ tt stored_too
          ∙ stops _ _ provisioned (ensured-ends _ _ wanted first)

      namespace-ok : (owned : Option Bool) → (claim_namespace w owned).result ≡ ok tt
      namespace-ok (some false) = refl
      namespace-ok (some true) = call-ok _
      namespace-ok none = call-ok _

      cluster-ends :
          w.invalid_signing_key ≡ none
          → (reconcile_cluster w options spec toml namespace json storage cache labels debug volumes
              previous).result
            ≡ err provisioned
      unfolding reconcile_cluster
      cluster-ends signed =
          goes_on _ _ tt (call-ok _)
          ∙ goes_on _ _ tt (namespace-ok _)
          ∙ goes_on _ _ tt (call-ok _)
          ∙ goes_on _ _ tt (rw signed (call-ok _))
          ∙ compute-ends

      abbrev report : ℕ → (Error → String) → Result (Unit {0}) → Run (ClusterCall Strategy) Action
      report now display r =
          report_cluster_verdict w options spec toml namespace json storage cache labels debug
            volumes previous now (cluster_verdict display r)

      report-Recorded :
          (now : ℕ) (display : Error → String) (before : List (ClusterCall Strategy))
          (r : Result (Unit {0}))
          → r ≡ err provisioned
          → Recorded (continue before (ok r) (report now display))
      unfolding cluster_verdict cluster_verdict_on_error concluded_cluster_status ◌>>=◌
      report-Recorded now display before r e =
          subst (λ x. Recorded (continue before (ok x) (report now display))) (sym e)
            (
              goes_on _ _ tt (call-ok _),
              concluded_cluster_status previous now (cluster_verdict_on_error display provisioned),
              Made-append_right _ before _ (rw free (inl refl)),
              refl,
            )

      -- If no call to the API server fails, the credentials are granted and the storage is as it
      -- should be, then a pass of `reconcile_status` over a RestateCluster that the operator has to
      -- provision and that is not recorded as provisioned, whose nodes are told not to do it and
      -- whose first pod is running, records it as provisioned and is repeated at once, if the node
      -- accepts the provisioning or answers that it was done before.
      pub reconcile_cluster_status-Recorded :
          (display : Error → String) (now : ℕ)
          → w.invalid_signing_key ≡ none
          → Recorded (
              reconcile_cluster_status w options spec toml namespace json storage cache labels debug
                volumes previous display now)
      unfolding reconcile_cluster_status ◌>>=◌
      reconcile_cluster_status-Recorded display now signed =
          report-Recorded now display _ _ (cluster-ends signed)
