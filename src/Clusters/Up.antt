-- ===== src/Clusters/Up.antt =====
-- What a pass of `reconcile_compute` of
-- src/controllers/restatecluster/reconcilers/compute.rs that succeeds says of the cluster.
use restate_operator.Base.{
  refl, ℤ, pos, ◌+◌, pos_part, neg_part, ◌≡◌, ◌≢◌, ◌↔◌, arith, ◌⊎◌, inl, inr, Bool, true, false,
  String, Option, none, some, List, unwrap_or,
}
use restate_operator.Effects.{ok, >>=-eq-ok}
use restate_operator.StatefulSets.{StrategyJson, RestateClusterStorage, ClusterCache}
use restate_operator.StatefulSets.Volumes.{PodVolumes}
use restate_operator.Clusters.{ClusterWorld, ClusterOptions, RestateClusterSpec, StatefulSetStatus}
use restate_operator.Clusters.Provisioning.{TomlParser}
use restate_operator.Clusters.Compute.{
  validate_stateful_set_status, provision, ensure_provisioned, reconcile_compute,
}
use restate_operator.Clusters.Guards.{AreCredentialed}
use restate_operator.Clusters.Guarded.{association-ok, workload-ok}

abbrev pub IsSame : ℤ → ℤ → Type 0
IsSame a b = pos_part a + neg_part b ≡ pos_part b + neg_part a

-- Every expected replica exists, there is no other, and each is ready.
abbrev pub AreReady : ℤ → Option StatefulSetStatus → Type 0
AreReady expected none = ⊥
AreReady expected (some status) =
    IsSame status.replicas expected × IsSame (unwrap_or status.ready_replicas (pos 0)) expected

pub validate_stateful_set_status-AreReady :
    (status : Option StatefulSetStatus) (expected : ℤ)
    → (validate_stateful_set_status status expected ≡ ok tt) ↔ AreReady expected status
unfolding validate_stateful_set_status
validate_stateful_set_status-AreReady none expected = (λ h. cc, λ h. absurd h)
validate_stateful_set_status-AreReady (some status) expected =
    (λ h. ground arith, λ h. ground arith)

module _ {Strategy : Type 0} (w : ClusterWorld Strategy) (options : ClusterOptions)
    (spec : RestateClusterSpec) (toml : TomlParser) (before : Option Bool) where
  -- The operator has not to provision the cluster, or has done so.
  abbrev pub IsProvisioned : Option Bool → Option Bool → Type 0
  IsProvisioned auto done = (auto ≢ some true) ⊎ (done ≡ some true)

  abbrev pub IsUp : Type 0
  IsUp =
      AreReady (unwrap_or spec.replicas (pos 1)) w.stateful_set
      × IsProvisioned spec.auto_provision before
      × AreCredentialed w options spec toml before

  module _ (namespace : String) where
    provision-fails : ¬ ((provision w options spec toml namespace).result ≡ ok tt)
    unfolding provision
    provision-fails h =
        let (_, _, h1, _) = >>=-eq-ok _ _ h in
        let (_, _, h2, _) = >>=-eq-ok _ _ h1 in
        let (_, _, h3, _) = >>=-eq-ok _ _ h2 in let (_, _, h4, _) = >>=-eq-ok _ _ h3 in cc

    ensured :
        (auto previous : Option Bool)
        → (ensure_provisioned w options spec toml namespace auto previous).result ≡ ok tt
        → IsProvisioned auto previous
    unfolding ensure_provisioned
    ensured (some true) (some true) h = inr refl
    ensured (some true) (some false) h = absurd (provision-fails h)
    ensured (some true) none h = absurd (provision-fails h)
    ensured (some false) previous h = inl (λ e. cc)
    ensured none previous h = inl (λ e. cc)

    module _ (json : StrategyJson Strategy) (storage : RestateClusterStorage)
        (cache : ClusterCache Strategy) (labels : List (String × String)) (debug : String → String)
        (volumes : PodVolumes) where
      pub reconcile_compute-IsUp :
          (reconcile_compute w options spec toml namespace json storage cache labels debug volumes
              before).result
            ≡ ok tt
          → IsUp
      unfolding reconcile_compute
      reconcile_compute-IsUp h =
          let (_, _, h1, _) = >>=-eq-ok _ _ h in
          let (_, _, h2, _) = >>=-eq-ok _ _ h1 in
          let (_, associated, h3, _) = >>=-eq-ok _ _ h2 in
          let (_, _, h4, _) = >>=-eq-ok _ _ h3 in
          let (_, bound, h5, _) = >>=-eq-ok _ _ h4 in
          let (_, _, h6, _) = >>=-eq-ok _ _ h5 in
          let (_, _, h7, _) = >>=-eq-ok _ _ h6 in
          let (_, _, h8, _) = >>=-eq-ok _ _ h7 in
          let (_, _, h9, _) = >>=-eq-ok _ _ h8 in
          let (_, provisioned, ready, _) = >>=-eq-ok _ _ h9 in
          (
            (validate_stateful_set_status-AreReady _ _).0 ready,
            ensured _ _ provisioned,
            (
              association-ok w options spec toml before _ _ associated,
              workload-ok w options spec toml before _ _ bound,
            ),
          )
