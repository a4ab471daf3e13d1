-- ===== src/Clusters/Canary.antt =====
-- The canary Jobs of src/controllers/restatecluster/reconcilers/compute.rs, which try out the cloud
-- credentials, and the readiness of the resources that grant them.
use restate_operator.Base.{
  ◌==◌, Bool, true, false, ◌&&◌, String, Option, none, some, List, [], ◌∷◌, str_eq, find, any,
  is_some_and, and_then, unwrap_or, if◌then◌else◌, concat,
}
use restate_operator.Errors.{KubeError, api, kube_error, not_ready}
use restate_operator.Effects.{Run, pure, fail, answered, ◌>>=◌, ◌>>◌}
use restate_operator.Clusters.{
  ClusterCall, apply_job, delete_job, list_pods, ForeignCondition, Job, ClusterWorld, delete_kube,
}
use restate_operator.Clusters.Texts.{contains}

pub data CanaryResult : Type 0 where
  complete failed pending : CanaryResult

-- The first condition that is true and terminal decides.
unfoldable pub first_terminal : List ForeignCondition → CanaryResult
first_terminal [] = pending
first_terminal (c ∷ cs) =
    let rest = first_terminal cs in
    if str_eq c.status "True"
    then if str_eq c.type "Complete"
      then complete
      else if str_eq c.type "Failed"
      then failed
      else rest
    else rest

abbrev pub check_canary_conditions : Job → CanaryResult
check_canary_conditions job = first_terminal (unwrap_or job.conditions [])

pub record CanaryConfig : Type 0 where
  pub name : String
  pub reason_prefix : String
  pub failure_message : String
  pub pending_message : String

-- The Job cannot be changed to what is applied.
unfoldable pub is_immutable : KubeError → Bool
unfolding contains
is_immutable (api code reason message) =
    code == 422 && str_eq reason "Invalid" && contains "field is immutable" message
is_immutable _ = false

abbrev pub pia_canary : CanaryConfig
pia_canary = record {
  name = "restate-pia-canary";
  reason_prefix = "PodIdentityAssociation";
  failure_message =
      "Canary pod did not receive Pod Identity credentials; PIA webhook may need to catch up";
  pending_message = "Canary Job has not yet succeeded; PIA webhook may need to catch up";
}

abbrev pub workload_canary : CanaryConfig
workload_canary = record {
  name = "restate-wi-canary";
  reason_prefix = "WorkloadIdentity";
  failure_message =
      "Canary pod could not obtain a Workload Identity token from the GKE metadata server; check that Workload Identity is enabled and the IAM binding is correct";
  pending_message = "Canary Job has not yet succeeded; Workload Identity may need to propagate";
}

abbrev has_token_volume : Option (List String) → Bool
has_token_volume volumes =
    is_some_and volumes (λ vs. any (λ v. str_eq v "eks-pod-identity-token") vs)

unfoldable pub pia_canary_pods_verdict : List (Option (List String)) → Option Bool
pia_canary_pods_verdict [] = none
pia_canary_pods_verdict (pod ∷ pods) = some (any has_token_volume (pod ∷ pods))

abbrev condition_of : String → Option (List ForeignCondition) → Option ForeignCondition
condition_of type conditions = and_then conditions (λ cs. find (λ c. str_eq c.type type) cs)

abbrev pub is_true : String → Option (List ForeignCondition) → Bool
is_true type conditions = is_some_and (condition_of type conditions) (λ c. str_eq c.status "True")

abbrev pub is_pod_identity_association_synced : Option (List ForeignCondition) → Bool
is_pod_identity_association_synced = is_true "ACK.ResourceSynced"

abbrev pub is_iam_policy_member_ready : Option (List ForeignCondition) → Bool
is_iam_policy_member_ready = is_true "Ready"

module _ {Strategy : Type 0} (w : ClusterWorld Strategy) where
  abbrev waits : {A : Type 0} → CanaryConfig → String → String → Run (ClusterCall Strategy) A
  waits config suffix message =
      fail (not_ready message (concat (config.reason_prefix ∷ suffix ∷ [])) none)

  -- By the result of the applied Job.
  unfoldable pub judge_canary :
      CanaryConfig → CanaryResult → Run (ClusterCall Strategy) CanaryResult
  judge_canary config failed = do
    delete_kube w (delete_job config.name)
    waits config "CanaryFailed" config.failure_message
  judge_canary config result = pure result

  -- The Job that cannot be changed is deleted, to be created again by a later pass.
  unfoldable pub refused_canary : CanaryConfig → KubeError → Run (ClusterCall Strategy) CanaryResult
  unfolding is_immutable
  refused_canary config e =
      if is_immutable e
      then (do
        delete_kube w (delete_job config.name)
        waits config "CanaryPending"
            "Canary Job has not yet succeeded; recreated Job after tolerations change")
      else fail (kube_error e)

  abbrev pub after_apply : CanaryConfig → Option KubeError → Run (ClusterCall Strategy) CanaryResult
  after_apply config none = judge_canary config (check_canary_conditions (w.job config.name))
  after_apply config (some e) = refused_canary config e

  unfoldable pub run_canary_job : CanaryConfig → Run (ClusterCall Strategy) CanaryResult
  run_canary_job config = do
    answered (apply_job config.name) none
    after_apply config (w.kube (apply_job config.name))

  abbrev pub pods_have_token : String → Option KubeError → Bool
  pods_have_token uid none = unwrap_or (pia_canary_pods_verdict (w.pods pia_canary.name uid)) false
  pods_have_token uid (some e) = false

  abbrev pub conclude_pods : Bool → Run (ClusterCall Strategy) (Unit {0})
  conclude_pods true = pure tt
  conclude_pods false = waits pia_canary "CanaryPending" pia_canary.pending_message

  -- An error of the listing is not one of the check.
  unfoldable pub check_pods : Option String → Run (ClusterCall Strategy) (Unit {0})
  unfolding pia_canary_pods_verdict
  check_pods none = waits pia_canary "CanaryPending" pia_canary.pending_message
  check_pods (some uid) = do
    answered (list_pods pia_canary.name uid) none
    conclude_pods (pods_have_token uid (w.kube (list_pods pia_canary.name uid)))

  abbrev pub conclude_pia : CanaryResult → Run (ClusterCall Strategy) (Unit {0})
  conclude_pia complete = pure tt
  conclude_pia _ = check_pods (w.job pia_canary.name).uid

  unfoldable pub check_pia : Run (ClusterCall Strategy) (Unit {0})
  check_pia = do result ← run_canary_job pia_canary; conclude_pia result

  abbrev pub conclude_workload : CanaryResult → Run (ClusterCall Strategy) (Unit {0})
  conclude_workload complete = pure tt
  conclude_workload _ = waits workload_canary "CanaryPending" workload_canary.pending_message

  unfoldable pub check_workload_identity : Run (ClusterCall Strategy) (Unit {0})
  check_workload_identity = do result ← run_canary_job workload_canary; conclude_workload result
