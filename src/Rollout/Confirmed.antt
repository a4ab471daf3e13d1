-- ===== src/Rollout/Confirmed.antt =====
-- What a rollout that succeeds has been told by Restate.
use restate_operator.Versions.{deployment_id_of}
use restate_operator.Base.{
  map, ℕ, ◌≡◌, ◌⊎◌, inl, inr, refl, Bool, true, false, String, Option, none, some, List, All, arith,
  lookup, Bool-cases, is_empty, [],
}
use restate_operator.Platform.{Chrono}
use restate_operator.Resources.{RestateDeployment, ReplicaSet}
use restate_operator.Effects.{ok, >>=-eq-ok}
use restate_operator.Calls.{shortcut, confirmation}
use restate_operator.Cleanup.{rollout, DeploymentUsageMap}
use restate_operator.Deletion.Finalizer.{list_deployments}
use restate_operator.Registration.{
  RegistrationAction, register, promote, already_latest, conflict, RegisteredDeployment, force,
  overwrite, owned_deployment_ids, has_other_owned, is_latest,
}
use restate_operator.Registration.Plan.{IsJustified, plan_registration-IsJustified}
use restate_operator.Registration.Confirm.{judge_latest-confirms}
use restate_operator.Rollout.Flow.{
  RolloutWorld, Version, latest_services, register_deployment, confirm_latest, register_and_confirm,
  carry_out_plan, full_pass, roll_out, try_shortcut, routes_any,
}

module _ (w : RolloutWorld) (chrono : Chrono) (rsd : RestateDeployment) where
  -- Restate has named the deployment, and routes to it every service that it found at the endpoint.
  abbrev pub IsRouted : RegisteredDeployment → Type 0
  IsRouted registered =
      (registered.services ≡ [])
      ⊎ ((latest : List (String × String)) × ((latest_services w chrono rsd confirmation).result
            ≡ ok latest)
          × All (λ service. lookup service latest ≡ some registered.id) registered.services)

  pub confirm_latest-IsRouted :
      (registered : RegisteredDeployment)
      → (confirm_latest w chrono rsd registered).result ≡ ok tt
      → IsRouted registered
  unfolding confirm_latest
  confirm_latest-IsRouted registered h = elim (Bool-cases (is_empty registered.services)) [
    | inl e ↦ inl (ground arith)
    | inr e ↦
        let (latest, q, k, _) =
          >>=-eq-ok (latest_services w chrono rsd confirmation) _ (rw e at h) in
        inr (latest, q, (judge_latest-confirms latest registered).0 k)
  ]

  module _ (namespace rsd_uid : String) (store : List ReplicaSet) (v : Version) where
    -- Restate has answered that it routes to the version: for a lone version that some service has
    -- its recorded id, for one that was latest already that the usage query says so, and otherwise
    -- in the confirmation of its registration.
    abbrev pub IsLive : Type 0
    IsLive =
        ((id : String) × (deployment_id_of v.replicaset.metadata ≡ some id)
          × (has_other_owned store namespace rsd_uid v.name ≡ false)
          × (latest : List (String × String)) × ((latest_services w chrono rsd shortcut).result
              ≡ ok latest)
          × (routes_any w chrono rsd namespace rsd_uid store v latest id ≡ true))
        ⊎ ((deployments : DeploymentUsageMap) × (id : String) × ((list_deployments w.world
                rollout).result
              ≡ ok deployments)
            × (deployment_id_of v.replicaset.metadata ≡ some id)
            × (is_latest deployments id ≡ true))
        ⊎ ((registered : RegisteredDeployment) × (forced : Bool) × ((register_deployment w chrono
                rsd v.endpoint v.use_http11 forced).result
              ≡ ok registered)
            × IsRouted registered)

    register_and_confirm-IsLive :
        (action : RegistrationAction) (deployments after : DeploymentUsageMap)
        → (register_and_confirm w chrono rsd v action deployments).result ≡ ok after
        → IsLive
    unfolding register_and_confirm
    register_and_confirm-IsLive action deployments after h =
        let (registered, e, h1, _) = >>=-eq-ok _ _ h in
        let (_, _, h2, _) = >>=-eq-ok _ _ h1 in
        let (_, routed, _, _) = >>=-eq-ok _ _ h2 in
        inr
          (inr (registered, force (overwrite action), e, confirm_latest-IsRouted registered routed))

    carry_out_plan-IsLive :
        (action : RegistrationAction) (deployments after : DeploymentUsageMap)
        → (list_deployments w.world rollout).result ≡ ok deployments
        → IsJustified
            (deployment_id_of v.replicaset.metadata)
            deployments
            (owned_deployment_ids (map (λ rs. rs.metadata) store) namespace rsd_uid)
            action
        → (carry_out_plan w chrono rsd namespace rsd_uid store v action deployments).result
          ≡ ok after
        → IsLive
    unfolding carry_out_plan
    carry_out_plan-IsLive conflict deployments after q j h = cc
    carry_out_plan-IsLive (already_latest id) deployments after q j h =
        inr (inl (deployments, id, q, j.0, j.1))
    carry_out_plan-IsLive register deployments after q j h =
        let (_, _, k, _) = >>=-eq-ok _ _ h in
        register_and_confirm-IsLive register deployments after k
    carry_out_plan-IsLive (promote other) deployments after q j h =
        let (_, _, k, _) = >>=-eq-ok _ _ h in
        register_and_confirm-IsLive (promote other) deployments after k

    full_pass-IsLive :
        (next : Option ℕ)
        → (full_pass w chrono rsd namespace rsd_uid store v).result ≡ ok next
        → IsLive
    unfolding full_pass
    full_pass-IsLive next h =
        let (queried, q, h1, _) = >>=-eq-ok _ _ h in
        let (after, c, _, _) = >>=-eq-ok _ _ h1 in
        carry_out_plan-IsLive _ queried after q
          (plan_registration-IsJustified (deployment_id_of v.replicaset.metadata) queried
            (owned_deployment_ids (map (λ rs. rs.metadata) store) namespace rsd_uid)).0
          c

    -- A rollout succeeds only if Restate has answered that it routes to the version: if it is the
    -- only one, that some service has its recorded id; if it was latest already, that the usage
    -- query says so; and otherwise that every service that the registration found is routed to it.
    pub roll_out-IsLive :
        (next : Option ℕ)
        → (roll_out w chrono rsd namespace rsd_uid store v).result ≡ ok next
        → IsLive
    unfolding roll_out
    roll_out-IsLive next h =
        tried (has_other_owned store namespace rsd_uid v.name)
          (deployment_id_of v.replicaset.metadata) refl refl h
      where
        tried :
            (others : Bool) (recorded : Option String)
            → has_other_owned store namespace rsd_uid v.name ≡ others
            → deployment_id_of v.replicaset.metadata ≡ recorded
            → (try_shortcut w chrono rsd namespace rsd_uid store v others recorded).result ≡ ok next
            → IsLive
        tried true recorded o r h = full_pass-IsLive next h
        tried false none o r h = full_pass-IsLive next h
        tried false (some id) o r h =
            let (latest, q, k, _) = >>=-eq-ok _ _ h in
            elim (Bool-cases (routes_any w chrono rsd namespace rsd_uid store v latest id)) [
              | inl e ↦ inl (id, r, o, latest, q, e)
              | inr e ↦ full_pass-IsLive next (rw e at k)
            ]
