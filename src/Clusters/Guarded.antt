-- ===== src/Clusters/Guarded.antt =====
-- The guards of `reconcile_compute` of src/controllers/restatecluster/reconcilers/compute.rs: the
-- credentials before the storage, and the provisioning.
use restate_operator.Base.{
  if◌then◌else◌, ◌≡◌, ◌≢◌, refl, inl, inr, ◌∙◌, Bool, true, false, String, Option, none, some, List,
  [], ◌∷◌, map, All, Bool-cases, is_some_and, str_eq, eq_iff, ap,
}
use restate_operator.Errors.{Error}
use restate_operator.Effects.{Run, ok, answered-All, All-bind, >>=-eq-ok}
use restate_operator.Fallible.{ok-injective}
use restate_operator.StatefulSets.{StorageCall, StrategyJson, RestateClusterStorage, ClusterCache}
use restate_operator.StatefulSets.Volumes.{PodVolumes}
use restate_operator.Clusters.{
  ClusterCall, apply_service_account, apply_config_map, apply_association, delete_association,
  delete_job, apply_security_group_policy, delete_security_group_policy, apply_policy_member,
  delete_policy_member, apply_service, apply_disruption_budget, on_storage, provision_cluster,
  get_pod, ClusterWorld, ClusterOptions, RestateClusterSpec, call_kube, delete_kube, with_storage,
}
use restate_operator.Clusters.Provisioning.{
  TomlParser, env_value, IsDisabled, validate_config_for_provisioning,
  validate_config_for_provisioning-IsJudged, is_pod_running, provision_endpoint, run_provisioning,
}
use restate_operator.Clusters.Compute.{
  unless, reconcile_association, reconcile_security_groups, grant_workload_identity,
  reconcile_workload_identity, provision, ensure_provisioned, reconcile_compute,
}
use restate_operator.Clusters.Guards.{
  unless-true, AreAssociated, AreBound, AreCredentialed, Guards, delete-All, check_pia-Guards,
  check_pia-ok, check_workload-Guards, check_workload-ok,
}

module _ {Strategy : Type 0} (w : ClusterWorld Strategy) (options : ClusterOptions)
    (spec : RestateClusterSpec) (toml : TomlParser) (before : Option Bool) where
  abbrev Guarded : {A : Type 0} → Run (ClusterCall Strategy) A → Type 0
  Guarded r = All (Guards w options spec toml before) r.calls

  call-All :
      (c : ClusterCall Strategy) → Guards w options spec toml before c → Guarded (call_kube w c)
  call-All c h = answered-All (Guards w options spec toml before) c _ h

  unless-Guarded : (b : Bool) (e : Error) → Guarded (unless b e)
  unless-Guarded true e = tt
  unless-Guarded false e = tt

  association-Guarded :
      (cluster role : Option String)
      → spec.role_arn ≡ role
      → Guarded (reconcile_association w options spec cluster role)
  unfolding reconcile_association
  association-Guarded (some cluster) (some role) e =
      All-bind _ _ _ (call-All apply_association tt) λ _ _.
        All-bind _ _ _ (unless-Guarded _ _) λ _ _. check_pia-Guards w options spec toml before
  association-Guarded (some cluster) none e =
      All-bind _ _ _ (delete-All w options spec toml before delete_association tt) λ _ _.
        delete-All w options spec toml before (delete_job "restate-pia-canary")
          (inr (inr (inl (refl, e))))
  association-Guarded none role e = tt

  pub association-ok :
      (cluster role : Option String)
      → (reconcile_association w options spec cluster role).result ≡ ok tt
      → AreAssociated w options spec toml before cluster role
  unfolding reconcile_association
  association-ok (some cluster) (some role) h =
      let (_, _, h1, _) = >>=-eq-ok _ _ h in
      let (_, synced, h2, _) = >>=-eq-ok _ _ h1 in
      (unless-true _ _ _ synced, check_pia-ok w options spec toml before h2)
  association-ok (some cluster) none h = tt
  association-ok none (some role) h = tt
  association-ok none none h = tt

  groups-Guarded : Guarded (reconcile_security_groups w options spec)
  unfolding reconcile_security_groups
  groups-Guarded = elim (Bool-cases options.security_group_policy_installed) [
    | inl installed ↦ rw installed (chosen _)
    | inr missing ↦ rw missing tt
  ]
    where
      chosen :
          (b : Bool)
          → Guarded (
              if b
              then call_kube w apply_security_group_policy
              else delete_kube w delete_security_group_policy)
      chosen true = call-All apply_security_group_policy tt
      chosen false = delete-All w options spec toml before delete_security_group_policy tt

  grant-Guarded :
      (email : String) (project : Option String)
      → Guarded (grant_workload_identity w options spec email project)
  unfolding grant_workload_identity
  grant-Guarded email none = tt
  grant-Guarded email (some project) =
      All-bind _ _ _ (answered-All _ (apply_policy_member project email) _ tt) λ _ _.
        All-bind _ _ _ (unless-Guarded _ _) λ _ _. check_workload-Guards w options spec toml before

  grant-ok :
      (email : String) (project : Option String)
      → (grant_workload_identity w options spec email project).result ≡ ok tt
      → AreBound w options spec toml before true (some email)
  unfolding grant_workload_identity
  grant-ok email none h = cc
  grant-ok email (some project) h =
      let (_, _, h1, _) = >>=-eq-ok _ _ h in
      let (_, ready, h2, _) = >>=-eq-ok _ _ h1 in
      (unless-true _ _ _ ready, check_workload-ok w options spec toml before h2)

  workload-Guarded :
      (wanted : Bool) (email : Option String)
      → spec.gcp_service_account ≡ email
      → Guarded (reconcile_workload_identity w options spec wanted email)
  unfolding reconcile_workload_identity
  workload-Guarded true (some email) e = grant-Guarded email _
  workload-Guarded true none e =
      All-bind _ _ _ (delete-All w options spec toml before delete_policy_member tt) λ _ _.
        delete-All w options spec toml before (delete_job "restate-wi-canary")
          (inr (inr (inr (refl, e))))
  workload-Guarded false email e = tt

  pub workload-ok :
      (wanted : Bool) (email : Option String)
      → (reconcile_workload_identity w options spec wanted email).result ≡ ok tt
      → AreBound w options spec toml before wanted email
  unfolding reconcile_workload_identity
  workload-ok true (some email) h = grant-ok email _ h
  workload-ok true none h = tt
  workload-ok false email h = tt

  storage-Guarded :
      {A : Type 0} (r : Run (StorageCall Strategy) A)
      → AreCredentialed w options spec toml before
      → Guarded (with_storage r)
  unfolding with_storage
  storage-Guarded r h = go r.calls
    where
      go :
          (calls : List (StorageCall Strategy))
          → All (Guards w options spec toml before) (map on_storage calls)
      go [] = tt
      go (c ∷ calls) = (h, go calls)

  is_running :
      (phase : Option (Option String))
      → is_some_and phase (λ p. is_some_and p (λ s. str_eq s "Running")) ≡ true
      → phase ≡ some (some "Running")
  is_running none h = cc
  is_running (some none) h = cc
  is_running (some (some s)) h = ap (λ t. some (some t)) ((eq_iff s "Running").0 h)

  pod-running :
      (is_pod_running w "restate-0").result ≡ ok true
      → w.pod_phase "restate-0" ≡ some (some "Running")
  unfolding is_pod_running
  pod-running h = let (_, _, k, _) = >>=-eq-ok _ _ h in is_running _ (ok-injective k)

  validated :
      validate_config_for_provisioning toml spec.config spec.env ≡ ok tt
      → IsDisabled toml spec.config (env_value spec.env)
  validated h = elim (validate_config_for_provisioning-IsJudged toml spec.config spec.env) [
    | inl (_, disabled) ↦ disabled
    | inr (_, fails, _) ↦ cc
  ]

  running-Guarded : (pod : String) → Guarded (is_pod_running w pod)
  unfolding is_pod_running
  running-Guarded pod = All-bind _ _ _ (call-All (get_pod pod) tt) λ _ _. tt

  module _ (namespace : String) where
    provision-Guarded :
        AreCredentialed w options spec toml before
        → spec.auto_provision ≡ some true
        → before ≢ some true
        → Guarded (provision w options spec toml namespace)
    unfolding provision run_provisioning
    provision-Guarded ready wanted first = All-bind _ _ _ tt λ _ valid.
        All-bind _ _ _ (running-Guarded "restate-0") λ running asked.
          All-bind _ _ _ (unless-Guarded running _) λ _ goes.
            All-bind _ _ _
              (answered-All _
                (provision_cluster (provision_endpoint w namespace options.cluster_dns)) _
                (
                  ready,
                  (
                    wanted,
                    first,
                    validated valid,
                    pod-running (asked ∙ ap ok (unless-true _ _ _ goes)),
                  ),
                ))
              λ _ _. tt

    provisioned-Guarded :
        (auto previous : Option Bool)
        → AreCredentialed w options spec toml before
        → spec.auto_provision ≡ auto
        → before ≡ previous
        → Guarded (ensure_provisioned w options spec toml namespace auto previous)
    unfolding ensure_provisioned
    provisioned-Guarded (some true) (some true) ready wanted is = tt
    provisioned-Guarded (some true) (some false) ready wanted is =
        provision-Guarded ready wanted (λ e. cc)
    provisioned-Guarded (some true) none ready wanted is = provision-Guarded ready wanted (λ e. cc)
    provisioned-Guarded (some false) previous ready wanted is = tt
    provisioned-Guarded none previous ready wanted is = tt

    module _ (json : StrategyJson Strategy) (storage : RestateClusterStorage)
        (cache : ClusterCache Strategy) (labels : List (String × String)) (debug : String → String)
        (volumes : PodVolumes) where
      pub reconcile_compute-Guards :
          All
            (Guards w options spec toml before)
            (reconcile_compute w options spec toml namespace json storage cache labels debug volumes
              before).calls
      unfolding reconcile_compute
      reconcile_compute-Guards = All-bind _ _ _ (call-All apply_service_account tt) λ _ _.
          All-bind _ _ _ (call-All apply_config_map tt) λ _ _.
            All-bind _ _ _ (association-Guarded _ _ refl) λ _ associated.
              All-bind _ _ _ groups-Guarded λ _ _.
                All-bind _ _ _ (workload-Guarded _ _ refl) λ _ bound.
                  All-bind _ _ _ (call-All (apply_service "restate") tt) λ _ _.
                    All-bind _ _ _ (call-All (apply_service "restate-cluster") tt) λ _ _.
                      All-bind _ _ _ (call-All apply_disruption_budget tt) λ _ _.
                        All-bind _ _ _
                          (storage-Guarded _ (association-ok _ _ associated, workload-ok _ _ bound))
                          λ _ _.
                            All-bind _ _ _
                              (provisioned-Guarded _ _
                                (association-ok _ _ associated, workload-ok _ _ bound) refl refl)
                              λ _ _. tt
