-- ===== src/Versions/Spared.antt =====
-- The calls of a cleanup pass, and the versions that they are about, for any loop body whose
-- calls are each permitted.
use restate_operator.Base.{
  ◌≡◌, refl, ◌⊎◌, String, none, some, List, [], ◌∷◌, Memᴰ, true, All, arith, is_some, All-map_of,
}
use restate_operator.Platform.{Chrono}
use restate_operator.Resources.{RestateDeployment, ObjectMeta}
use restate_operator.Effects.{Run, All-bind}
use restate_operator.Calls.{
  Call, scale, schedule, deregister, delete_replicaset, delete_configuration, register_endpoint,
  unschedule, World,
}
use restate_operator.Cleanup.{CleanupMode, DeploymentUsageMap}
use restate_operator.Versions.{
  Progress, first_progress, usage_of, deployment_id_of, deregistration_error, finish, visit_each,
  visit_and_finish,
}
use restate_operator.Versions.Outcome.{active_usage}

-- Restate does not need the version, in this mode.
abbrev pub IsInactive : CleanupMode → DeploymentUsageMap → ObjectMeta → Type 0
IsInactive mode deployments m = active_usage mode deployments m ≡ none

-- Restate does not know the version, or has accepted its deregistration.
abbrev pub IsReleased : World → DeploymentUsageMap → ObjectMeta → Type 0
IsReleased w deployments m =
    (usage_of deployments m ≡ none)
    ⊎ ((id : String) × (deployment_id_of m ≡ some id)
        × (deregistration_error w (w.admin (deregister id)) ≡ none))

-- What may be done to the version `m`: the calls that take it out of service want it inactive, and
-- its object is deleted only when it is released. Nothing is registered.
abbrev pub Permits :
    World → RestateDeployment → CleanupMode → DeploymentUsageMap → ObjectMeta → Call → Type 0
Permits w rsd mode deployments m (scale name n) =
    (name ≡ m.name) × ((n ≡ rsd.replicas) ⊎ IsInactive mode deployments m)
Permits w rsd mode deployments m (schedule name t) = (name ≡ m.name) × IsInactive mode deployments m
Permits w rsd mode deployments m (unschedule name) = name ≡ m.name
Permits w rsd mode deployments m (deregister id) =
    (deployment_id_of m ≡ some id)
    × (is_some (usage_of deployments m) ≡ true)
    × IsInactive mode deployments m
Permits w rsd mode deployments m (delete_replicaset name) =
    (name ≡ m.name) × IsInactive mode deployments m × IsReleased w deployments m
Permits w rsd mode deployments m (delete_configuration name) =
    (name ≡ m.name) × IsInactive mode deployments m × IsReleased w deployments m
Permits w rsd mode deployments m (register_endpoint uri use_http11 forced) = ⊥
Permits w rsd mode deployments m _ = Unit

finish_silent : (w : World) (chrono : Chrono) (p : Progress) → (finish w chrono p).calls ≡ []
unfolding finish
finish_silent w chrono p = ground arith

module _ (w : World) (chrono : Chrono) (rsd : RestateDeployment) (mode : CleanupMode)
    (deployments : DeploymentUsageMap) {K : Type 0} (meta : K → ObjectMeta)
    (visit : K → Progress → Run Call Progress)
    (permitted : (k : K) (p : Progress)
      → All (Permits w rsd mode deployments (meta k)) (visit k p).calls) where
  -- A call is permitted by one of the versions.
  abbrev pub PermittedBy : List K → Call → Type 0
  PermittedBy versions c = (k : K) × Memᴰ k versions × Permits w rsd mode deployments (meta k) c

  visit_each-PermittedBy :
      (versions : List K) (p : Progress)
      → All (PermittedBy versions) (visit_each visit versions p).calls
  unfolding visit_each
  visit_each-PermittedBy [] p = tt
  visit_each-PermittedBy (k ∷ rest) p =
      All-bind (PermittedBy (k ∷ rest)) (visit k p) _
        (All-map_of (Permits w rsd mode deployments (meta k)) (PermittedBy (k ∷ rest)) _
          (λ c h. (k, Memᴰ.head refl, h)) (permitted k p))
        λ p' e.
          All-map_of (PermittedBy rest) (PermittedBy (k ∷ rest)) _
            (λ c h. (h.0, Memᴰ.tail h.1, h.2)) (visit_each-PermittedBy rest p')

  pub visit_and_finish-PermittedBy :
      (versions : List K)
      → All (PermittedBy versions) (visit_and_finish w chrono visit versions).calls
  unfolding visit_and_finish
  visit_and_finish-PermittedBy versions =
      All-bind _ (visit_each visit versions first_progress) _
        (visit_each-PermittedBy versions first_progress) (λ p e. rw (finish_silent w chrono p) tt)
