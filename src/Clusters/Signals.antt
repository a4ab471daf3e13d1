-- ===== src/Clusters/Signals.antt =====
-- Lemmas on `Error::Provisioned`, and the parts of `reconcile_compute` of
-- src/controllers/restatecluster/reconcilers/compute.rs.
use restate_operator.Base.{
  ℤ, ◌≢◌, inl, inr, Bool, true, false, String, Option, none, some, Bool-cases, if◌then◌else◌, arith,
}
use restate_operator.Errors.{Error, KubeError, api, service, hyper_error, other, provisioned}
use restate_operator.Effects.{err}
use restate_operator.Clusters.{
  StatefulSetStatus, ClusterCall, apply_security_group_policy, delete_security_group_policy,
  ClusterWorld, ClusterOptions, RestateClusterSpec, error_of, tolerated, call_kube, delete_kube,
}
use restate_operator.Clusters.Canary.{
  CanaryResult, complete, failed, pending, CanaryConfig, is_immutable, pia_canary, workload_canary,
  judge_canary, refused_canary, after_apply, run_canary_job, conclude_pods, check_pods,
  conclude_pia, check_pia, conclude_workload, check_workload_identity,
}
use restate_operator.Clusters.Compute.{
  unless, reconcile_association, reconcile_security_groups, grant_workload_identity, member_answer,
  reconcile_workload_identity, validate_stateful_set_status,
}
use restate_operator.Clusters.Quiet.{Quiet, Quiet-bind, answered-Quiet}

pub error_of-quiet : (o : Option KubeError) → error_of o ≢ some provisioned
error_of-quiet none = λ x. cc
error_of-quiet (some e) = λ x. cc

tolerated-quiet : (o : Option KubeError) → tolerated o ≢ some provisioned
tolerated-quiet none = λ x. cc
tolerated-quiet (some (api code reason message)) = λ x. ground arith
tolerated-quiet (some (service e)) = λ x. cc
tolerated-quiet (some (hyper_error e)) = λ x. cc
tolerated-quiet (some (other e)) = λ x. cc

module _ {Strategy : Type 0} (w : ClusterWorld Strategy) where
  pub call-Quiet : (c : ClusterCall Strategy) → Quiet (call_kube w c)
  call-Quiet c = answered-Quiet c _ (error_of-quiet (w.kube c))

  delete-Quiet : (c : ClusterCall Strategy) → Quiet (delete_kube w c)
  delete-Quiet c = answered-Quiet c _ (tolerated-quiet (w.kube c))

  module _ (config : CanaryConfig) where
    judge-Quiet : (r : CanaryResult) → Quiet (judge_canary w config r)
    unfolding judge_canary
    judge-Quiet complete = λ x. cc
    judge-Quiet pending = λ x. cc
    judge-Quiet failed = Quiet-bind _ _ (delete-Quiet _) λ _. λ x. cc

    apply-Quiet : (o : Option KubeError) → Quiet (after_apply w config o)
    unfolding refused_canary
    apply-Quiet none = judge-Quiet _
    apply-Quiet (some e) = elim (Bool-cases (is_immutable e)) [
      | inl stuck ↦ rw stuck (Quiet-bind _ _ (delete-Quiet _) λ _. λ x. cc)
      | inr fails ↦ rw fails (λ x. cc)
    ]

    canary-Quiet : Quiet (run_canary_job w config)
    unfolding run_canary_job
    canary-Quiet = Quiet-bind _ _ (λ x. cc) λ _. apply-Quiet _

  pods-Quiet : (uid : Option String) → Quiet (check_pods w uid)
  unfolding check_pods
  pods-Quiet none = λ x. cc
  pods-Quiet (some uid) = Quiet-bind _ _ (λ x. cc) λ _. concluded _
    where
      concluded : (b : Bool) → Quiet (conclude_pods w b)
      concluded true = λ x. cc
      concluded false = λ x. cc

  pia-Quiet : Quiet (check_pia w)
  unfolding check_pia
  pia-Quiet = Quiet-bind _ _ (canary-Quiet pia_canary) concluded
    where
      concluded : (r : CanaryResult) → Quiet (conclude_pia w r)
      concluded complete = λ x. cc
      concluded failed = pods-Quiet _
      concluded pending = pods-Quiet _

  workload-Quiet : Quiet (check_workload_identity w)
  unfolding check_workload_identity
  workload-Quiet = Quiet-bind _ _ (canary-Quiet workload_canary) concluded
    where
      concluded : (r : CanaryResult) → Quiet (conclude_workload w r)
      concluded complete = λ x. cc
      concluded failed = λ x. cc
      concluded pending = λ x. cc

  module _ (options : ClusterOptions) (spec : RestateClusterSpec) where
    pub unless-Quiet :
        (b : Bool) (e : Error) → (e ≢ provisioned) → Quiet (unless {C = ClusterCall Strategy} b e)
    unless-Quiet true e h = λ x. cc
    unless-Quiet false e h = λ x. h cc

    pub association-Quiet :
        (cluster role : Option String) → Quiet (reconcile_association w options spec cluster role)
    unfolding reconcile_association
    association-Quiet (some cluster) (some role) =
        Quiet-bind _ _ (call-Quiet _)
          λ _. Quiet-bind _ _ (unless-Quiet _ _ (λ x. cc)) λ _. pia-Quiet
    association-Quiet (some cluster) none = Quiet-bind _ _ (delete-Quiet _) λ _. delete-Quiet _
    association-Quiet none role = λ x. cc

    pub groups-Quiet : Quiet (reconcile_security_groups w options spec)
    unfolding reconcile_security_groups
    groups-Quiet = elim (Bool-cases options.security_group_policy_installed) [
      | inl installed ↦ rw installed (chosen _)
      | inr missing ↦ rw missing (λ x. cc)
    ]
      where
        chosen :
            (b : Bool)
            → Quiet (
                if b
                then call_kube w apply_security_group_policy
                else delete_kube w delete_security_group_policy)
        chosen true = call-Quiet _
        chosen false = delete-Quiet _

    member-quiet : (o : Option KubeError) → member_answer w options spec o ≢ some provisioned
    member-quiet none = λ x. cc
    member-quiet (some (api code reason message)) = λ x. ground arith
    member-quiet (some (service e)) = λ x. cc
    member-quiet (some (hyper_error e)) = λ x. cc
    member-quiet (some (other e)) = λ x. cc

    grant-Quiet :
        (email : String) (project : Option String)
        → Quiet (grant_workload_identity w options spec email project)
    unfolding grant_workload_identity
    grant-Quiet email none = λ x. cc
    grant-Quiet email (some project) =
        Quiet-bind _ _ (answered-Quiet _ _ (member-quiet _))
          λ _. Quiet-bind _ _ (unless-Quiet _ _ (λ x. cc)) λ _. workload-Quiet

    pub identity-Quiet :
        (wanted : Bool) (email : Option String)
        → Quiet (reconcile_workload_identity w options spec wanted email)
    unfolding reconcile_workload_identity
    identity-Quiet true (some email) = grant-Quiet email _
    identity-Quiet true none = Quiet-bind _ _ (delete-Quiet _) λ _. delete-Quiet _
    identity-Quiet false email = λ x. cc

pub status-quiet :
    (status : Option StatefulSetStatus) (expected : ℤ)
    → validate_stateful_set_status status expected ≢ err provisioned
unfolding validate_stateful_set_status
status-quiet none expected = λ x. cc
status-quiet (some status) expected = λ x. ground arith
