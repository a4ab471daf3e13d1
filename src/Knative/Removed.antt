-- ===== src/Knative/Removed.antt =====
-- What a pass over the Configurations removes, what it spares and what it reports.
use mathlib.Core.List.{append-nil}
use restate_operator.Base.{
  ◌≡◌, true, String, Option, none, some, List, Memᴰ, All, All-map_of, arith, Option-cases, inl, inr,
  filter, map,
}
use restate_operator.Platform.{Chrono}
use restate_operator.Resources.{RestateDeployment, ObjectMeta}
use restate_operator.Effects.{ok, ◌>>=◌, Made}
use restate_operator.Calls.{delete_configuration, World}
use restate_operator.Cleanup.{
  CleanupMode, DeploymentUsage, DeploymentUsageMap, CleanupOutcome, is_deleting,
  retain_for_rollback,
}
use restate_operator.Versions.{
  Progress, usage_of, remove_at_of, wait_out, unschedule_version_removal,
}
use restate_operator.Versions.Order.{mem-sort_filter}
use restate_operator.Versions.Outcome.{
  Turn, active_usage, wait_out-Turn, record_abandoned-kept, Concludes, visit_and_finish-Concludes,
  AllRemoved-unsorted, Concludes-cleared,
}
use restate_operator.Versions.Spared.{IsInactive, Permits, visit_and_finish-PermittedBy}
use restate_operator.Knative.{Configuration, is_old_configuration, old_configurations}
use restate_operator.Knative.Cleanup.{
  keep_configuration, remove_configuration, retire_configuration, visit_unneeded,
  visit_configuration, keep_or_visit_unneeded, cleanup_old_configurations,
}

module _ (w : World) (chrono : Chrono) (rsd : RestateDeployment) (mode : CleanupMode)
    (deployments : DeploymentUsageMap) (m : ObjectMeta) where
  keep_configuration-Permits :
      (usage : DeploymentUsage) (p : Progress)
      → All (Permits w rsd mode deployments m) (keep_configuration w m usage p).calls
  unfolding keep_configuration unschedule_version_removal ◌>>=◌
  keep_configuration-Permits usage p = ground arith

  keep_configuration-Turn :
      (usage : DeploymentUsage) (p q : Progress)
      → active_usage mode deployments m ≡ some usage
      → (keep_configuration w m usage p).result ≡ ok q
      → Turn delete_configuration rsd mode m (some usage) (keep_configuration w m usage p).calls p q
  unfolding keep_configuration ◌>>=◌
  keep_configuration-Turn usage p q e h = ground arith

  module _ (e : IsInactive mode deployments m) where
    remove_configuration-Permits :
        (p : Progress)
        → All
            (Permits w rsd mode deployments m)
            (remove_configuration w m (usage_of deployments m) p).calls
    unfolding remove_configuration ◌>>=◌
    remove_configuration-Permits p = ground arith

    visit_unneeded-Permits :
        (p : Progress)
        → All
            (Permits w rsd mode deployments m)
            (visit_unneeded w chrono rsd mode m (usage_of deployments m) p).calls
    unfolding visit_unneeded retire_configuration wait_out ◌>>=◌
    visit_unneeded-Permits p = ground (arith, remove_configuration-Permits p)

    remove_configuration-Turn :
        (p q : Progress)
        → (remove_configuration w m (usage_of deployments m) p).result ≡ ok q
        → Turn delete_configuration rsd mode m none
            (remove_configuration w m (usage_of deployments m) p).calls
            p
            q
    unfolding remove_configuration ◌>>=◌
    remove_configuration-Turn p q h = ground (
      arith,
      append-nil p.blocking,
      record_abandoned-kept w chrono rsd mode delete_configuration m (usage_of deployments m)
          p.abandoned e,
    )

    visit_unneeded-Turn :
        (p q : Progress)
        → (visit_unneeded w chrono rsd mode m (usage_of deployments m) p).result ≡ ok q
        → Turn delete_configuration rsd mode m none
            (visit_unneeded w chrono rsd mode m (usage_of deployments m) p).calls
            p
            q
    unfolding visit_unneeded retire_configuration retain_for_rollback
    visit_unneeded-Turn p q h = ground (
      arith,
      append-nil p.blocking,
      remove_configuration-Turn p q,
      wait_out-Turn w chrono rsd mode delete_configuration m (remove_at_of w chrono m) p q,
    )

module _ (w : World) (chrono : Chrono) (rsd : RestateDeployment) (mode : CleanupMode)
    (deployments : DeploymentUsageMap) where
  visit_configuration-Permits :
      (config : Configuration) (p : Progress)
      → All
          (Permits w rsd mode deployments config.metadata)
          (visit_configuration w chrono rsd mode deployments config p).calls
  unfolding visit_configuration
  visit_configuration-Permits config p =
      let m = config.metadata in
      elim (Option-cases (active_usage mode deployments m)) [
        | inl e ↦
            rw (e, keep_or_visit_unneeded)
              (visit_unneeded-Permits w chrono rsd mode deployments m e p)
        | inr (usage, e) ↦
            rw (e, keep_or_visit_unneeded)
              (keep_configuration-Permits w chrono rsd mode deployments m usage p)
      ]

  visit_configuration-Turn :
      (config : Configuration) (p q : Progress)
      → (visit_configuration w chrono rsd mode deployments config p).result ≡ ok q
      → Turn delete_configuration rsd mode config.metadata
          (active_usage mode deployments config.metadata)
          (visit_configuration w chrono rsd mode deployments config p).calls
          p
          q
  unfolding visit_configuration
  visit_configuration-Turn config p q h =
      let m = config.metadata in
      elim (Option-cases (active_usage mode deployments m)) [
        | inl e ↦
            rw (e, keep_or_visit_unneeded)
              (visit_unneeded-Turn w chrono rsd mode deployments m e p q
                (rw (e, keep_or_visit_unneeded) at h))
        | inr (usage, e) ↦
            rw (e, keep_or_visit_unneeded)
              (keep_configuration-Turn w chrono rsd mode deployments m usage p q e
                (rw (e, keep_or_visit_unneeded) at h))
      ]

  module _ (namespace rsd_uid : String) (active_tag : Option String)
      (store : List Configuration) where
    -- Whatever the servers answer, each call of a pass over the Configurations that schedules a
    -- removal, deregisters a version or deletes its Configuration is about one of the old
    -- Configurations of the RestateDeployment, which Restate does not need in this mode; and a
    -- Configuration is deleted only if Restate does not know it or has accepted its
    -- deregistration.
    pub cleanup_old_configurations-Permits :
        All
          (λ c.
            (config : Configuration) × Memᴰ config store
            × (is_old_configuration namespace rsd_uid active_tag config ≡ true)
            × Permits w rsd mode deployments config.metadata c)
          (cleanup_old_configurations w chrono namespace rsd_uid rsd mode deployments active_tag
            store).calls
    unfolding cleanup_old_configurations old_configurations
    cleanup_old_configurations-Permits =
        All-map_of _ _ _
          (λ c k.
            let m =
              (mem-sort_filter (λ config. config.metadata)
                  (is_old_configuration namespace rsd_uid active_tag) store k.0).0
                k.1 in
            (k.0, m.0, m.1, k.2))
          (visit_and_finish-PermittedBy w chrono rsd mode deployments (λ config. config.metadata)
            (visit_configuration w chrono rsd mode deployments) visit_configuration-Permits
            (old_configurations namespace rsd_uid active_tag store))

    module _ (o : CleanupOutcome)
        (done : (cleanup_old_configurations w chrono namespace rsd_uid rsd mode deployments
            active_tag store).result
          ≡ ok o) where
      -- A pass over the Configurations that succeeds does what a cleanup pass promises: it reports
      -- as blocking exactly the old Configurations that Restate needs in this mode, newest first;
      -- it reports abandoned ones only in a forced deletion; and a deletion either is not forced
      -- and waits for a removal, or has nothing blocking it and has deleted every old
      -- Configuration.
      pub cleanup_old_configurations-Concludes :
          Concludes delete_configuration mode deployments
            (map
              (λ config. config.metadata)
              (old_configurations namespace rsd_uid active_tag store))
            (cleanup_old_configurations w chrono namespace rsd_uid rsd mode deployments active_tag
              store).calls
            o
      unfolding cleanup_old_configurations
      cleanup_old_configurations-Concludes =
          visit_and_finish-Concludes w chrono delete_configuration rsd mode deployments
            (λ config. config.metadata) (visit_configuration w chrono rsd mode deployments)
            visit_configuration-Turn (old_configurations namespace rsd_uid active_tag store) o done

      pub cleanup_old_configurations-cleared :
          is_deleting mode ≡ true
          → o.next_removal ≡ none
          → All
              (λ config.
                Made
                  (delete_configuration config.metadata.name)
                  (cleanup_old_configurations w chrono namespace rsd_uid rsd mode deployments
                    active_tag store).calls)
              (filter (is_old_configuration namespace rsd_uid active_tag) store)
      unfolding old_configurations
      cleanup_old_configurations-cleared d n =
          AllRemoved-unsorted (λ config. config.metadata) delete_configuration
            (is_old_configuration namespace rsd_uid active_tag) store _
            (Concludes-cleared delete_configuration mode deployments _ _ o
              cleanup_old_configurations-Concludes d n).1
