-- ===== src/Rollout/Guarded.antt =====
-- The conditions under which a rollout registers its version, forces the registration, and
-- deletes a ReplicaSet.
use restate_operator.Versions.{deployment_id_of}
use restate_operator.Versions.Spared.{Permits}
use restate_operator.Base.{
  map, ◌≡◌, ◌≢◌, ◌⊎◌, inl, inr, refl, ◌∙◌, sym, Bool, true, false, String, Option, none, some, List,
  All, All-map_of, arith, eq_refl, str_eq, Bool-cases, is_empty,
}
use restate_operator.Errors.{Error, deployment_not_ready}
use restate_operator.Platform.{Chrono}
use restate_operator.Resources.{ObjectMeta, RestateDeployment, ReplicaSet, Condition}
use restate_operator.Effects.{Result, ok, err, panicked, ◌>>=◌, >>=-eq-ok, All-bind}
use restate_operator.Calls.{Call, register_endpoint, list_services, delete_replicaset, Reading}
use restate_operator.Cleanup.{rollout, DeploymentUsageMap}
use restate_operator.ReplicaSets.Select.{is_candidate}
use restate_operator.ReplicaSets.Spares.{cleanup_old_replicasets-Permits}
use restate_operator.Deletion.Finalizer.{list_deployments}
use restate_operator.Registration.{
  RegistrationAction, register, promote, already_latest, conflict, RegisteredDeployment, force,
  overwrite, owned_deployment_ids, has_other_owned,
}
use restate_operator.Registration.Plan.{IsJustified, plan_registration-IsJustified}
use restate_operator.Rollout.Readiness.{
  is_cluster_ready, IsServing, validate_replica_set_status-IsServing,
}
use restate_operator.Rollout.Flow.{
  RolloutWorld, conditions, Version, admin_json, latest_services, register_deployment,
  confirm_latest, validate_cluster_status, validate, record_id, register_and_confirm,
  cleanup_others, await_ready, carry_out_plan, full_pass, roll_out, free_capacity, on_valid,
  announce, try_shortcut, routes_any,
}

except_differs :
    (namespace rsd_uid name : String) (rs : ReplicaSet)
    → is_candidate namespace rsd_uid (some name) rs ≡ true
    → rs.metadata.name ≢ name
unfolding is_candidate
except_differs namespace rsd_uid name rs h e = elim (Bool-cases (str_eq rs.metadata.name name)) [
  | inl same ↦ ground (arith, same)
  | inr differs ↦ ground (arith, rw e at differs, eq_refl name)
]

module _ (w : RolloutWorld) (chrono : Chrono) (rsd : RestateDeployment) (namespace rsd_uid : String)
    (store : List ReplicaSet) (v : Version) where
  -- The RestateCluster that the deployment is registered against, if there is one, is ready.
  abbrev pub IsClusterReady : Option String → Type 0
  IsClusterReady none = Unit
  IsClusterReady (some name) =
      (cs : List Condition) × (w.cluster name ≡ conditions cs) × (is_cluster_ready cs ≡ true)

  -- The usage query has answered that another version of the RestateDeployment is latest in the
  -- place of this one.
  abbrev pub IsRollback : Type 0
  IsRollback =
      (deployments : DeploymentUsageMap) × ((list_deployments w.world rollout).result
        ≡ ok deployments)
      × (other : String) × IsJustified (deployment_id_of v.replicaset.metadata) deployments
          (owned_deployment_ids (map (λ rs. rs.metadata) store) namespace rsd_uid) (promote other)

  -- A registration wants the version serving and its cluster ready, and a forced one a rollback;
  -- the ReplicaSet of the version is not deleted.
  abbrev pub Guards : Call → Type 0
  Guards (register_endpoint uri use_http11 forced) =
      IsServing rsd.replicas v.replicaset.status
      × IsClusterReady rsd.restate.register.cluster
      × ((forced ≡ false) ⊎ IsRollback)
  Guards (delete_replicaset name) = name ≢ v.name
  Guards _ = Unit

  admin_json-Guards :
      {A : Type 0} (decode : String → Option A) (c : Call)
      → Guards c
      → All Guards (admin_json w.world decode c).calls
  unfolding admin_json
  admin_json-Guards decode c h = ground arith

  latest_services-Guards :
      (reading : Reading) → All Guards (latest_services w chrono rsd reading).calls
  unfolding latest_services
  latest_services-Guards reading =
      All-bind _ _ _ (admin_json-Guards w.decode_services (list_services reading) tt) (λ a e. tt)

  Permits-Guards :
      (deployments : DeploymentUsageMap) (c : Call) (m : ObjectMeta)
      → m.name ≢ v.name
      → Permits w.world rsd rollout deployments m c
      → Guards c
  Permits-Guards deployments (register_endpoint uri use_http11 forced) m h k = absurd k
  Permits-Guards deployments (delete_replicaset name) m h k = λ e. h (sym k.0 ∙ e)
  Permits-Guards deployments _ m h k = tt

  cleanup_others-Guards :
      (deployments : DeploymentUsageMap)
      → All Guards (cleanup_others w chrono rsd namespace rsd_uid store v deployments).calls
  unfolding cleanup_others
  cleanup_others-Guards deployments =
      All-map_of _ Guards _
        (λ c k.
          Permits-Guards deployments c k.0.metadata
            (except_differs namespace rsd_uid v.name k.0 k.2) k.3)
        (cleanup_old_replicasets-Permits w.world chrono rsd rollout deployments namespace rsd_uid
          (some v.name) store)

  confirm_latest-Guards :
      (registered : RegisteredDeployment)
      → All Guards (confirm_latest w chrono rsd registered).calls
  unfolding confirm_latest
  confirm_latest-Guards registered = elim (Bool-cases (is_empty registered.services)) [
    | inl e ↦ rw e tt
    | inr e ↦ rw e (All-bind _ _ _ (latest_services-Guards Reading.confirmation) (λ a e. tt))
  ]

  record_id-Guards : (id : String) → All Guards (record_id w chrono rsd v id).calls
  unfolding record_id ◌>>=◌
  record_id-Guards id = ground arith

  validate_cluster_status-IsClusterReady :
      (cluster : Option String)
      → (validate_cluster_status w chrono rsd cluster).result ≡ ok tt
      → IsClusterReady cluster
  unfolding validate_cluster_status
  validate_cluster_status-IsClusterReady none h = tt
  validate_cluster_status-IsClusterReady (some name) h = ground arith

  abbrev pub IsReady : Type 0
  IsReady = IsServing rsd.replicas v.replicaset.status × IsClusterReady rsd.restate.register.cluster

  validate-IsReady : (validate w chrono rsd v).result ≡ ok tt → IsReady
  unfolding validate
  validate-IsReady h =
      let (_, cluster, replicas, _) =
        >>=-eq-ok (validate_cluster_status w chrono rsd rsd.restate.register.cluster) _ h in
      (
        (validate_replica_set_status-IsServing v.replicaset.status rsd.replicas).0 replicas,
        validate_cluster_status-IsClusterReady rsd.restate.register.cluster cluster,
      )

  validate-Guards : All Guards (validate w chrono rsd v).calls
  unfolding validate validate_cluster_status ◌>>=◌
  validate-Guards = ground arith

  free_capacity-Guards :
      (e : Error) (deployments : DeploymentUsageMap)
      → All Guards (free_capacity w chrono rsd namespace rsd_uid store v e deployments).calls
  free_capacity-Guards (deployment_not_ready message reason requeue_after status) deployments =
      All-bind _ _ _ (cleanup_others-Guards deployments) (λ a e. tt)
  free_capacity-Guards e deployments = tt

  free_capacity_fails :
      (e : Error) (deployments : DeploymentUsageMap)
      → (free_capacity w chrono rsd namespace rsd_uid store v e deployments).result ≢ ok tt
  free_capacity_fails (deployment_not_ready message reason requeue_after status) deployments h =
      let (_, _, k, _) = >>=-eq-ok _ _ h in cc
  free_capacity_fails e deployments h = cc

  on_valid_lem :
      (valid : Result (Unit {0})) (deployments : DeploymentUsageMap)
      → All Guards (on_valid w chrono rsd namespace rsd_uid store v valid deployments).calls
        × ((on_valid w chrono rsd namespace rsd_uid store v valid deployments).result ≡ ok tt
            → valid ≡ ok tt)
  on_valid_lem (ok u) deployments = (tt, λ h. refl)
  on_valid_lem (err e) deployments =
      (free_capacity-Guards e deployments, λ h. absurd (free_capacity_fails e deployments h))
  on_valid_lem panicked deployments = (tt, λ h. cc)

  await_ready-IsReady :
      (deployments : DeploymentUsageMap)
      → (await_ready w chrono rsd namespace rsd_uid store v deployments).result ≡ ok tt
      → IsReady
  unfolding await_ready
  await_ready-IsReady deployments h =
      let (valid, e, k, _) = >>=-eq-ok _ _ h in
      validate-IsReady (validated e ((on_valid_lem valid deployments).1 k))
    where
      validated :
          {valid : Result (Unit {0})}
          → ok (validate w chrono rsd v).result ≡ ok valid
          → valid ≡ ok tt
          → (validate w chrono rsd v).result ≡ ok tt
      validated e k = cc

  await_ready-Guards :
      (deployments : DeploymentUsageMap)
      → All Guards (await_ready w chrono rsd namespace rsd_uid store v deployments).calls
  unfolding await_ready
  await_ready-Guards deployments =
      All-bind _ _ _ validate-Guards (λ valid e. (on_valid_lem valid deployments).0)

  register_and_confirm-Guards :
      (action : RegistrationAction) (deployments : DeploymentUsageMap)
      → IsReady
      → (force (overwrite action) ≡ false) ⊎ IsRollback
      → All Guards (register_and_confirm w chrono rsd v action deployments).calls
  unfolding register_and_confirm register_deployment
  register_and_confirm-Guards action deployments ready justified =
      All-bind _ _ _ (admin_json-Guards w.decode_registered _ (ready.0, ready.1, justified))
        λ registered _. All-bind _ _ _ (record_id-Guards registered.id) λ _ _.
          All-bind _ _ _ (confirm_latest-Guards registered)
            λ _ _. All-bind _ _ _ (announced action) (λ _ _. tt)
    where
      announced : (a : RegistrationAction) → All Guards (announce w chrono rsd a).calls
      announced (promote other) = ground arith
      announced register = tt
      announced (already_latest id) = tt
      announced conflict = tt

  carry_out_plan-Guards :
      (action : RegistrationAction) (deployments : DeploymentUsageMap)
      → (force (overwrite action) ≡ false) ⊎ IsRollback
      → All Guards (carry_out_plan w chrono rsd namespace rsd_uid store v action deployments).calls
  unfolding carry_out_plan
  carry_out_plan-Guards conflict deployments justified = tt
  carry_out_plan-Guards (already_latest id) deployments justified = tt
  carry_out_plan-Guards register deployments justified =
      All-bind _ _ _ (await_ready-Guards deployments) λ _ e.
        register_and_confirm-Guards register deployments (await_ready-IsReady deployments e)
          justified
  carry_out_plan-Guards (promote other) deployments justified =
      All-bind _ _ _ (await_ready-Guards deployments) λ _ e.
        register_and_confirm-Guards (promote other) deployments (await_ready-IsReady deployments e)
          justified

  justifies :
      (a : RegistrationAction) (deployments : DeploymentUsageMap)
      → (list_deployments w.world rollout).result ≡ ok deployments
      → IsJustified
          (deployment_id_of v.replicaset.metadata)
          deployments
          (owned_deployment_ids (map (λ rs. rs.metadata) store) namespace rsd_uid)
          a
      → (force (overwrite a) ≡ false) ⊎ IsRollback
  justifies register deployments q j = inl refl
  justifies (already_latest id) deployments q j = inl refl
  justifies conflict deployments q j = inl refl
  justifies (promote other) deployments q j = inr (deployments, q, other, j)

  list_deployments-Guards : All Guards (list_deployments w.world rollout).calls
  unfolding list_deployments
  list_deployments-Guards = ground arith

  full_pass-Guards : All Guards (full_pass w chrono rsd namespace rsd_uid store v).calls
  unfolding full_pass
  full_pass-Guards = All-bind _ _ _ list_deployments-Guards λ queried q.
      All-bind _ _ _
        (carry_out_plan-Guards _ queried (
          justifies _ queried q
            (plan_registration-IsJustified (deployment_id_of v.replicaset.metadata) queried
              (owned_deployment_ids (map (λ rs. rs.metadata) store) namespace rsd_uid)).0))
        λ deployments _. All-bind _ _ _ (cleanup_others-Guards deployments) (λ _ _. tt)

  -- Whatever the servers answer, a rollout registers its version only while the ReplicaSet has
  -- every expected replica ready and available and the RestateCluster, if there is one, is ready;
  -- it forces the registration only if Restate has just answered that another version of the same
  -- RestateDeployment is latest in its place; and it never deletes the ReplicaSet of its version.
  pub roll_out-Guards : All Guards (roll_out w chrono rsd namespace rsd_uid store v).calls
  unfolding roll_out
  roll_out-Guards =
      tried (has_other_owned store namespace rsd_uid v.name)
        (deployment_id_of v.replicaset.metadata)
    where
      tried :
          (others : Bool) (recorded : Option String)
          → All Guards (try_shortcut w chrono rsd namespace rsd_uid store v others recorded).calls
      tried true recorded = full_pass-Guards
      tried false none = full_pass-Guards
      tried false (some id) = All-bind _ _ _ (latest_services-Guards Reading.shortcut) λ latest _.
          elim (Bool-cases (routes_any w chrono rsd namespace rsd_uid store v latest id)) [
            | inl e ↦ rw e tt
            | inr e ↦ rw e full_pass-Guards
          ]
