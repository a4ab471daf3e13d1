-- ===== src/Clusters/Truth.antt =====
-- What `reconcile_status` of src/controllers/restatecluster/controller.rs writes to the status of a
-- RestateCluster.
use restate_operator.Base.{
  ℕ, ◌≡◌, refl, ap, ◌∙◌, ◌⊎◌, inl, inr, Bool, true, false, String, Option, none, some, List, [],
  str_eq, unwrap_or, if◌then◌else◌, All, All-map_of,
}
use restate_operator.Errors.{Error, provisioned}
use restate_operator.Effects.{
  Run, Result, ok, err, panicked, answered, >>=-eq-ok, All-bind, answered-All,
}
use restate_operator.Fallible.{ok-injective}
use restate_operator.Rollout.Readiness.{is_cluster_ready}
use restate_operator.Deletion.Finalizer.{Action}
use restate_operator.StatefulSets.{StrategyJson, RestateClusterStorage, ClusterCache}
use restate_operator.StatefulSets.Volumes.{PodVolumes}
use restate_operator.StatefulSets.History.{AllSince, AllSince-bind, All-AllSince}
use restate_operator.Clusters.{
  RestateClusterStatus, ClusterCall, get_namespace, apply_namespace, reconcile_network_policies,
  reconcile_signing_key, report_cluster_status, ClusterWorld, ClusterOptions, RestateClusterSpec,
  call_kube, error_of,
}
use restate_operator.Clusters.Provisioning.{TomlParser}
use restate_operator.Clusters.Guards.{Guards}
use restate_operator.Clusters.Guarded.{reconcile_compute-Guards}
use restate_operator.Clusters.Up.{IsUp, reconcile_compute-IsUp}
use restate_operator.Clusters.Explained.{HasProvisioned, reconcile_cluster-Explained}
use restate_operator.Clusters.Status.{
  ClusterVerdict, cluster_verdict_on_error, cluster_verdict, provisioned_before,
  concluded_cluster_status, claim_namespace, sign, reconcile_cluster, report_cluster_verdict,
  reconcile_cluster_status,
}

module _ {Strategy : Type 0} (w : ClusterWorld Strategy) (options : ClusterOptions)
    (spec : RestateClusterSpec) (toml : TomlParser) (namespace : String)
    (previous : Option RestateClusterStatus) where
  -- Ready is reported only of a cluster that is up, and the cluster is recorded as provisioned as it
  -- was before, or after a call that has provisioned it.
  abbrev pub Truthful : List (ClusterCall Strategy) → ClusterCall Strategy → Type 0
  Truthful calls (report_cluster_status status) =
      ((is_cluster_ready (unwrap_or status.conditions []) ≡ false)
        ⊎ IsUp w options spec toml (provisioned_before previous))
      × ((status.provisioned ≡ provisioned_before previous)
          ⊎ ((status.provisioned ≡ some true) × HasProvisioned w options spec toml namespace calls))
  Truthful calls _ = Unit

  abbrev IsNoReport : ClusterCall Strategy → Type 0
  IsNoReport (report_cluster_status status) = ⊥
  IsNoReport _ = Unit

  no_report-Truthful :
      (calls : List (ClusterCall Strategy)) (c : ClusterCall Strategy)
      → IsNoReport c
      → Truthful calls c
  no_report-Truthful calls (report_cluster_status status) h = absurd h
  no_report-Truthful calls c h = tt

  Guards-IsNoReport :
      (c : ClusterCall Strategy)
      → Guards w options spec toml (provisioned_before previous) c
      → IsNoReport c
  Guards-IsNoReport (report_cluster_status status) h = h
  Guards-IsNoReport c h = tt

  -- What a verdict is truthful of.
  abbrev Backs : List (ClusterCall Strategy) → ClusterVerdict → Type 0
  Backs calls v =
      ((str_eq v.ready "True" ≡ false) ⊎ IsUp w options spec toml (provisioned_before previous))
      × ((v.set_provisioned ≡ false) ⊎ HasProvisioned w options spec toml namespace calls)

  ready_status :
      (now : ℕ) (v : ClusterVerdict)
      → is_cluster_ready (unwrap_or (concluded_cluster_status previous now v).conditions [])
        ≡ str_eq v.ready "True"
  unfolding concluded_cluster_status
  ready_status now v = refl

  concluded-Truthful :
      (calls : List (ClusterCall Strategy)) (now : ℕ) (v : ClusterVerdict)
      → Backs calls v
      → Truthful calls (report_cluster_status (concluded_cluster_status previous now v))
  unfolding concluded_cluster_status
  concluded-Truthful calls now v (ready, done) = (ready, recorded v.set_provisioned done)
    where
      recorded :
          (b : Bool)
          → (b ≡ false) ⊎ HasProvisioned w options spec toml namespace calls
          → ((if b then some true else provisioned_before previous) ≡ provisioned_before previous)
            ⊎ (((if b then some true else provisioned_before previous) ≡ some true)
                × HasProvisioned w options spec toml namespace calls)
      recorded false d = inl refl
      recorded true (inl e) = cc
      recorded true (inr d) = inr (refl, d)

  -- An error is never reported as ready, and only `provisioned` as provisioned.
  module _ (display : Error → String) where
    on_error :
        (e : Error)
        → (str_eq (cluster_verdict_on_error display e).ready "True" ≡ false)
          × (((cluster_verdict_on_error display e).set_provisioned ≡ false) ⊎ (e ≡ provisioned))
    unfolding cluster_verdict_on_error
    on_error provisioned = (refl, inr refl)
    on_error e = (refl, inl refl)

    module _ (json : StrategyJson Strategy) (storage : RestateClusterStorage)
        (cache : ClusterCache Strategy) (labels : List (String × String)) (debug : String → String)
        (volumes : PodVolumes) (now : ℕ) where
      abbrev pass : Run (ClusterCall Strategy) (Unit {0})
      pass =
          reconcile_cluster w options spec toml namespace json storage cache labels debug volumes
            previous

      abbrev report : Option ClusterVerdict → Run (ClusterCall Strategy) Action
      report =
          report_cluster_verdict w options spec toml namespace json storage cache labels debug
            volumes previous now

      pass-IsUp : pass.result ≡ ok tt → IsUp w options spec toml (provisioned_before previous)
      unfolding reconcile_cluster
      pass-IsUp h =
          let (_, _, h1, _) = >>=-eq-ok _ _ h in
          let (_, _, h2, _) = >>=-eq-ok _ _ h1 in
          let (_, _, h3, _) = >>=-eq-ok _ _ h2 in
          let (_, _, h4, _) = >>=-eq-ok _ _ h3 in
          reconcile_compute-IsUp w options spec toml (provisioned_before previous) namespace json
            storage cache labels debug volumes h4

      call-IsNoReport :
          (c : ClusterCall Strategy) → IsNoReport c → All IsNoReport (call_kube w c).calls
      call-IsNoReport c h = answered-All IsNoReport c _ h

      namespace-IsNoReport : (owned : Option Bool) → All IsNoReport (claim_namespace w owned).calls
      namespace-IsNoReport (some false) = tt
      namespace-IsNoReport (some true) = call-IsNoReport apply_namespace tt
      namespace-IsNoReport none = call-IsNoReport apply_namespace tt

      sign-IsNoReport : (fault : Option String) → All IsNoReport (sign w fault).calls
      sign-IsNoReport none = call-IsNoReport reconcile_signing_key tt
      sign-IsNoReport (some e) = (tt, tt)

      pass-IsNoReport : All IsNoReport pass.calls
      unfolding reconcile_cluster
      pass-IsNoReport = All-bind IsNoReport _ _ (call-IsNoReport get_namespace tt) λ _ _.
          All-bind IsNoReport _ _ (namespace-IsNoReport _) λ _ _.
            All-bind IsNoReport _ _ (call-IsNoReport reconcile_network_policies tt) λ _ _.
              All-bind IsNoReport _ _ (sign-IsNoReport _) λ _ _.
                All-map_of _ _ _ Guards-IsNoReport (
                  reconcile_compute-Guards w options spec toml (provisioned_before previous)
                    namespace json storage cache labels debug volumes)

      reported :
          (v : ClusterVerdict)
          → Backs pass.calls v
          → AllSince Truthful pass.calls (report (some v)).calls
      reported v h = AllSince-bind Truthful pass.calls _ _ (asked (error_of (w.kube c))) λ _ _. tt
        where
          c : ClusterCall Strategy
          c = report_cluster_status (concluded_cluster_status previous now v)

          asked : (o : Option Error) → AllSince Truthful pass.calls (answered c o).calls
          asked none = (concluded-Truthful pass.calls now v h, tt)
          asked (some e) = (concluded-Truthful pass.calls now v h, tt)

      report-Since :
          (r : Result (Unit {0}))
          → pass.result ≡ r
          → AllSince Truthful pass.calls (report (cluster_verdict display r)).calls
      unfolding cluster_verdict
      report-Since panicked is = tt
      report-Since (ok a) is = reported _ (inr (pass-IsUp is), inl refl)
      report-Since (err e) is =
          let (unready, kept) = on_error e in reported _ (inl unready, recorded kept)
        where
          recorded :
              ((cluster_verdict_on_error display e).set_provisioned ≡ false) ⊎ (e ≡ provisioned)
              → ((cluster_verdict_on_error display e).set_provisioned ≡ false)
                ⊎ HasProvisioned w options spec toml namespace pass.calls
          recorded (inl same) = inl same
          recorded (inr done) = inr (
              reconcile_cluster-Explained w options spec toml namespace json storage cache labels
                debug volumes previous (is ∙ ap err done))

      -- Whatever the servers answer, what a pass of `reconcile_status` writes to the status has
      -- Ready true only of a RestateCluster whose StatefulSet has exactly the expected replicas, each
      -- ready, whose cloud credentials were confirmed where the operator is configured to manage them,
      -- and which the operator has provisioned if it has to; and it leaves the record of the provisioning as it was, or sets it after a call of the
      -- same pass that provisioned the cluster or found it so.
      pub reconcile_cluster_status-TellsTruth :
          AllSince Truthful []
            (reconcile_cluster_status w options spec toml namespace json storage cache labels debug
              volumes previous display now).calls
      unfolding reconcile_cluster_status
      reconcile_cluster_status-TellsTruth =
          AllSince-bind Truthful [] _ _
            (All-AllSince Truthful IsNoReport no_report-Truthful [] _ pass-IsNoReport)
            λ outcome is. report-Since outcome (ok-injective is)
