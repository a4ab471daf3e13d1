-- ===== src/Rollout/Readiness.antt =====
-- `validate_replica_set_status` and the condition test of `validate_cluster_status` in
-- src/controllers/restatedeployment/controller.rs.
use restate_operator.Base.{
  ℤ, pos, Bool, not, ◌≡◌, ◌↔◌, ◌≤ℤ◌, String, Option, none, some, List, [], ◌∷◌, arith, find, str_eq,
  is_some_and, unwrap_or, if◌then◌else◌, ltb_ℤ, eqb_ℤ, concat, decimal_ℤ, pos_part, neg_part, ◌+◌,
}
use restate_operator.Errors.{ReplicaSetStatus, deployment_not_ready}
use restate_operator.Resources.{Condition}
use restate_operator.Effects.{Result, ok, err}

abbrev not_ready : String → String → ReplicaSetStatus → Result (Unit {0})
not_ready message reason status = err (deployment_not_ready message reason none (some status))

abbrev counted : String → ℤ → String → ℤ → String → String
counted before n between expected after =
    concat (before ∷ decimal_ℤ n ∷ between ∷ decimal_ℤ expected ∷ after ∷ [])

abbrev validate_counts : ReplicaSetStatus → ℤ → ℤ → ℤ → Result (Unit {0})
validate_counts status ready_replicas available_replicas expected =
    if not (eqb_ℤ status.replicas expected)
    then not_ready
        (counted "ReplicaSet has " status.replicas " replicas instead of the expected " expected
          "; it may be scaling up or down")
        "ReplicaSetScaling" status
    else if ltb_ℤ ready_replicas expected
    then not_ready
        (counted "ReplicaSet has " ready_replicas " ready replicas instead of the expected "
          expected "; a pod may not be ready")
        "ReplicaSetPodNotReady" status
    else if ltb_ℤ available_replicas expected
    then not_ready
        (counted "ReplicaSet has " available_replicas " available replicas instead of the expected "
          expected "; a pod may not be available")
        "ReplicaSetPodNotAvailable" status
    else ok tt

unfoldable pub validate_replica_set_status : Option ReplicaSetStatus → ℤ → Result (Unit {0})
validate_replica_set_status none expected = err (
    deployment_not_ready "ReplicaSet has no status set; it may have just been created"
      "ReplicaSetNoStatus" none none)
validate_replica_set_status (some status) expected =
    validate_counts status (unwrap_or status.ready_replicas (pos 0))
      (unwrap_or status.available_replicas (pos 0)) expected

-- The `Ready` condition of the RestateCluster has the status `True`.
abbrev pub is_cluster_ready : List Condition → Bool
is_cluster_ready conditions =
    is_some_and (find (λ cond. str_eq cond.type "Ready") conditions)
      (λ cond. str_eq cond.status "True")

-- Every expected replica exists, is ready and is available.
abbrev pub IsServing : ℤ → Option ReplicaSetStatus → Type 0
IsServing expected none = ⊥
IsServing expected (some status) =
    (pos_part status.replicas + neg_part expected ≡ pos_part expected + neg_part status.replicas)
    × (expected ≤ℤ unwrap_or status.ready_replicas (pos 0))
    × (expected ≤ℤ unwrap_or status.available_replicas (pos 0))

-- The status of a ReplicaSet is accepted exactly if it has the expected number of replicas and at
-- least that many are ready and are available.
pub validate_replica_set_status-IsServing :
    (status : Option ReplicaSetStatus) (expected : ℤ)
    → (validate_replica_set_status status expected ≡ ok tt) ↔ IsServing expected status
unfolding validate_replica_set_status
validate_replica_set_status-IsServing none expected = (λ h. cc, λ h. absurd h)
validate_replica_set_status-IsServing (some status) expected =
    (λ h. ground arith, λ h. ground arith)
