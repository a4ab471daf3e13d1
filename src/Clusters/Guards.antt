-- ===== src/Clusters/Guards.antt =====
-- What the calls of `reconcile_compute` of
-- src/controllers/restatecluster/reconcilers/compute.rs wait for, and the canaries' part of it.
use restate_operator.Base.{
  ◌≡◌, ◌≢◌, refl, ◌⊎◌, inl, inr, Bool, true, false, String, Option, none, some, All, Bool-cases,
}
use restate_operator.Errors.{Error, KubeError}
use restate_operator.Effects.{ok, answered-All, All-bind, >>=-eq-ok}
use restate_operator.Clusters.{
  ClusterCall, apply_job, delete_job, list_pods, on_storage, provision_cluster,
  report_cluster_status, ClusterWorld, ClusterOptions, RestateClusterSpec, delete_kube,
}
use restate_operator.Clusters.Canary.{
  CanaryResult, complete, failed, pending, check_canary_conditions, CanaryConfig, is_immutable,
  pia_canary, workload_canary, is_pod_identity_association_synced, is_iam_policy_member_ready,
  judge_canary, refused_canary, after_apply, run_canary_job, pods_have_token, conclude_pods,
  check_pods, conclude_pia, check_pia, conclude_workload, check_workload_identity,
}
use restate_operator.Clusters.Provisioning.{TomlParser, env_value, IsDisabled}
use restate_operator.Clusters.Compute.{unless}

pub unless-true :
    (C : Type 0) (b : Bool) (e : Error) → (unless {C = C} b e).result ≡ ok tt → b ≡ true
unless-true C true e h = refl
unless-true C false e h = cc

module _ {Strategy : Type 0} (w : ClusterWorld Strategy) (options : ClusterOptions)
    (spec : RestateClusterSpec) (toml : TomlParser) (before : Option Bool) where
  -- A pod of the canary Job has the volume with the token.
  abbrev pub HasToken : Option String → Type 0
  HasToken none = ⊥
  HasToken (some uid) = pods_have_token w uid (w.kube (list_pods "restate-pia-canary" uid)) ≡ true

  -- Where the operator has an EKS cluster and the spec a role for the pods, the association is
  -- synced, and the canary shows it.
  abbrev pub AreAssociated : Option String → Option String → Type 0
  AreAssociated (some cluster) (some role_arn) =
      (is_pod_identity_association_synced w.association ≡ true)
      × ((check_canary_conditions (w.job "restate-pia-canary") ≡ complete)
          ⊎ HasToken (w.job "restate-pia-canary").uid)
  AreAssociated _ _ = Unit

  -- Where the operator manages GCP Workload Identity and the spec has a service account, the binding
  -- is ready, and the canary shows it.
  abbrev pub AreBound : Bool → Option String → Type 0
  AreBound true (some email) =
      (is_iam_policy_member_ready w.policy_member ≡ true)
      × (check_canary_conditions (w.job "restate-wi-canary") ≡ complete)
  AreBound _ _ = Unit

  abbrev pub AreCredentialed : Type 0
  AreCredentialed =
      AreAssociated options.association_cluster spec.role_arn
      × AreBound options.gcp_workload_identity spec.gcp_service_account

  abbrev pub MayProvision : Type 0
  MayProvision =
      (spec.auto_provision ≡ some true)
      × (before ≢ some true)
      × IsDisabled toml spec.config (env_value spec.env)
      × (w.pod_phase "restate-0" ≡ some (some "Running"))

  -- The Job has failed, cannot be changed, or is not wanted any more.
  abbrev pub IsDropped : String → Type 0
  IsDropped job =
      (check_canary_conditions (w.job job) ≡ failed)
      ⊎ ((e : KubeError) × (w.kube (apply_job job) ≡ some e) × (is_immutable e ≡ true))
      ⊎ ((job ≡ "restate-pia-canary") × (spec.role_arn ≡ none))
      ⊎ ((job ≡ "restate-wi-canary") × (spec.gcp_service_account ≡ none))

  abbrev pub Guards : ClusterCall Strategy → Type 0
  Guards (on_storage c) = AreCredentialed
  Guards (provision_cluster endpoint) = AreCredentialed × MayProvision
  Guards (delete_job job) = IsDropped job
  Guards (report_cluster_status status) = ⊥
  Guards _ = Unit

  pub delete-All : (c : ClusterCall Strategy) → Guards c → All Guards (delete_kube w c).calls
  delete-All c h = answered-All Guards c _ h

  -- The canaries.
  module _ (config : CanaryConfig) where
    judge-Guards :
        (r : CanaryResult)
        → check_canary_conditions (w.job config.name) ≡ r
        → All Guards (judge_canary w config r).calls
    unfolding judge_canary
    judge-Guards complete e = tt
    judge-Guards pending e = tt
    judge-Guards failed e =
        All-bind Guards _ _ (delete-All (delete_job config.name) (inl e)) λ _ _. tt

    apply-Guards :
        (o : Option KubeError)
        → w.kube (apply_job config.name) ≡ o
        → All Guards (after_apply w config o).calls
    unfolding refused_canary
    apply-Guards none is = judge-Guards _ refl
    apply-Guards (some e) is = elim (Bool-cases (is_immutable e)) [
      | inl stuck ↦ rw stuck (
          All-bind Guards _ _ (delete-All (delete_job config.name) (inr (inl (e, is, stuck))))
            λ _ _. tt)
      | inr other ↦ rw other tt
    ]

    run_canary_job-Guards : All Guards (run_canary_job w config).calls
    unfolding run_canary_job
    run_canary_job-Guards =
        All-bind Guards _ _ (answered-All Guards (apply_job config.name) none tt)
          λ _ _. apply-Guards _ refl

    judge-complete :
        (r : CanaryResult) → (judge_canary w config r).result ≡ ok complete → r ≡ complete
    unfolding judge_canary
    judge-complete complete h = refl
    judge-complete pending h = cc
    judge-complete failed h = let (_, _, stop, _) = >>=-eq-ok _ _ h in cc

    apply-complete :
        (o : Option KubeError)
        → (after_apply w config o).result ≡ ok complete
        → check_canary_conditions (w.job config.name) ≡ complete
    unfolding refused_canary
    apply-complete none h = judge-complete _ h
    apply-complete (some e) h = elim (Bool-cases (is_immutable e)) [
      | inl stuck ↦ let (_, _, stop, _) = >>=-eq-ok _ _ (rw stuck at h) in cc
      | inr other ↦ cc (rw other at h)
    ]

    run_canary_job-complete :
        (run_canary_job w config).result ≡ ok complete
        → check_canary_conditions (w.job config.name) ≡ complete
    unfolding run_canary_job
    run_canary_job-complete h = let (_, _, k, _) = >>=-eq-ok _ _ h in apply-complete _ k

  pods-HasToken : (uid : Option String) → (check_pods w uid).result ≡ ok tt → HasToken uid
  unfolding check_pods
  pods-HasToken none h = cc
  pods-HasToken (some uid) h = let (_, _, k, _) = >>=-eq-ok _ _ h in concluded _ k
    where
      concluded : (b : Bool) → (conclude_pods w b).result ≡ ok tt → b ≡ true
      concluded true h = refl
      concluded false h = cc

  pods-Guards : (uid : Option String) → All Guards (check_pods w uid).calls
  unfolding check_pods
  pods-Guards none = tt
  pods-Guards (some uid) =
      All-bind Guards _ _ (answered-All Guards (list_pods pia_canary.name uid) none tt)
        λ _ _. concluded _
    where
      concluded : (b : Bool) → All Guards (conclude_pods w b).calls
      concluded true = tt
      concluded false = tt

  pub check_pia-Guards : All Guards (check_pia w).calls
  unfolding check_pia
  check_pia-Guards = All-bind Guards _ _ (run_canary_job-Guards pia_canary) λ r _. concluded r
    where
      concluded : (r : CanaryResult) → All Guards (conclude_pia w r).calls
      concluded complete = tt
      concluded failed = pods-Guards _
      concluded pending = pods-Guards _

  pub check_pia-ok :
      (check_pia w).result ≡ ok tt
      → (check_canary_conditions (w.job "restate-pia-canary") ≡ complete)
        ⊎ HasToken (w.job "restate-pia-canary").uid
  unfolding check_pia
  check_pia-ok h = let (r, ran, k, _) = >>=-eq-ok _ _ h in concluded r ran k
    where
      concluded :
          (r : CanaryResult)
          → (run_canary_job w pia_canary).result ≡ ok r
          → (conclude_pia w r).result ≡ ok tt
          → (check_canary_conditions (w.job "restate-pia-canary") ≡ complete)
            ⊎ HasToken (w.job "restate-pia-canary").uid
      concluded complete ran k = inl (run_canary_job-complete pia_canary ran)
      concluded failed ran k = inr (pods-HasToken _ k)
      concluded pending ran k = inr (pods-HasToken _ k)

  pub check_workload-Guards : All Guards (check_workload_identity w).calls
  unfolding check_workload_identity
  check_workload-Guards =
      All-bind Guards _ _ (run_canary_job-Guards workload_canary) λ r _. concluded r
    where
      concluded : (r : CanaryResult) → All Guards (conclude_workload w r).calls
      concluded complete = tt
      concluded failed = tt
      concluded pending = tt

  pub check_workload-ok :
      (check_workload_identity w).result ≡ ok tt
      → check_canary_conditions (w.job "restate-wi-canary") ≡ complete
  unfolding check_workload_identity
  check_workload-ok h = let (r, ran, k, _) = >>=-eq-ok _ _ h in concluded r ran k
    where
      concluded :
          (r : CanaryResult)
          → (run_canary_job w workload_canary).result ≡ ok r
          → (conclude_workload w r).result ≡ ok tt
          → check_canary_conditions (w.job "restate-wi-canary") ≡ complete
      concluded complete ran k = run_canary_job-complete workload_canary ran
      concluded failed ran k = cc
      concluded pending ran k = cc
