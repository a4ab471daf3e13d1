-- ===== src/Versions/Outcome.antt =====
-- What a cleanup pass that succeeds reports and leaves, for any loop body whose turns each add to
-- the progress what `Turn` says.
use mathlib.Core.List.{append-nil, append_assoc}
use restate_operator.Base.{
  ◌≤◌, ◌≡◌, ◌≢◌, refl, sym, ◌∙◌, ap, true, String, ℕ, Option, none, some, List, [], ◌∷◌, ◌++◌, All,
  All-mem, All-of_mem, filter, mem-of_filter, ◌⊎◌, inl, inr, arith, pos_part, filter_option, map,
  Bool,
}
use restate_operator.Platform.{Chrono}
use restate_operator.Resources.{RestateDeployment, ObjectMeta}
use restate_operator.Effects.{Run, ok, ◌>>=◌, >>=-eq-ok, Made, Made-append_left, Made-append_right}
use restate_operator.Calls.{Call, World}
use restate_operator.Cleanup.{
  CleanupMode, rollout, deleting, force_deleting, DeploymentUsage, DeploymentUsageMap,
  BlockingVersion, CleanupOutcome, is_active, is_deleting,
}
use restate_operator.Versions.{
  Progress, first_progress, usage_of, blocking_version, wait_out, finish, visit_each,
  visit_and_finish, sort_by_creation, record_abandoned,
}
use restate_operator.Versions.Order.{mem-sort_filter}

-- The version as it blocks a deletion, if it does.
abbrev pub blocked_by : ObjectMeta → Option DeploymentUsage → List BlockingVersion
blocked_by m none = []
blocked_by m (some usage) = blocking_version m usage ∷ []

abbrev pub active_usage : CleanupMode → DeploymentUsageMap → ObjectMeta → Option DeploymentUsage
active_usage mode deployments m =
    filter_option (λ usage. is_active usage mode) (usage_of deployments m)

-- The versions that Restate needs in this mode, in the order of the visits.
abbrev pub blocked_in : CleanupMode → DeploymentUsageMap → List ObjectMeta → List BlockingVersion
blocked_in mode deployments [] = []
blocked_in mode deployments (m ∷ rest) =
    blocked_by m (active_usage mode deployments m) ++ blocked_in mode deployments rest

-- What one turn of the loop adds to the progress, where `removal` names the call that deletes the
-- object of a version.
pub record Turn (removal : String → Call) (rsd : RestateDeployment) (mode : CleanupMode)
    (m : ObjectMeta) (active : Option DeploymentUsage) (calls : List Call) (p q : Progress)
    : Type 0 where
  pub blocking : q.blocking ≡ p.blocking ++ blocked_by m active
  pub abandoned : mode ≢ force_deleting → q.abandoned ≡ p.abandoned
  pub next_kept : q.next_removal ≡ none → p.next_removal ≡ none
  pub removed :
      is_deleting mode ≡ true → active ≡ none → q.next_removal ≡ none → Made (removal m.name) calls
  pub retained :
      p.historic_count ≤ pos_part rsd.revision_history_limit
      → q.historic_count ≤ pos_part rsd.revision_history_limit
  pub forced : mode ≡ force_deleting → q.next_removal ≡ p.next_removal

-- What the visits of the versions add to the progress.
pub record Visits (removal : String → Call) (rsd : RestateDeployment) (mode : CleanupMode)
    (deployments : DeploymentUsageMap) (versions : List ObjectMeta) (calls : List Call)
    (p q : Progress) : Type 0 where
  pub blocking : q.blocking ≡ p.blocking ++ blocked_in mode deployments versions
  pub abandoned : mode ≢ force_deleting → q.abandoned ≡ p.abandoned
  pub next_kept : q.next_removal ≡ none → p.next_removal ≡ none
  pub removed :
      is_deleting mode ≡ true
      → q.next_removal ≡ none
      → All (λ m. active_usage mode deployments m ≡ none → Made (removal m.name) calls) versions
  pub retained :
      p.historic_count ≤ pos_part rsd.revision_history_limit
      → q.historic_count ≤ pos_part rsd.revision_history_limit
  pub forced : mode ≡ force_deleting → q.next_removal ≡ p.next_removal

-- Every one of the versions has been deleted.
abbrev pub AllRemoved : (String → Call) → List ObjectMeta → List Call → Type 0
AllRemoved removal versions calls = All (λ m. Made (removal m.name) calls) versions

-- What a cleanup pass promises, whatever the versions are: it reports as blocking those that Restate
-- needs in this mode, abandons one only in a forced deletion, and a deletion waits for a removal or
-- has deleted every version; a forced one has.
abbrev pub Concludes :
    (String → Call)
    → CleanupMode
    → DeploymentUsageMap
    → List ObjectMeta
    → List Call
    → CleanupOutcome
    → Type 0
Concludes removal mode deployments versions calls o =
    (o.blocking ≡ blocked_in mode deployments versions)
    × ((mode ≡ force_deleting) ⊎ (o.abandoned ≡ []))
    × ((mode ≡ rollout)
        ⊎ ((mode ≡ deleting) × (t : ℕ) × (o.next_removal ≡ some t))
        ⊎ ((o.next_removal ≡ none) × (o.blocking ≡ []) × AllRemoved removal versions calls))

-- A forced deletion needs no version.
none_forced :
    (deployments : DeploymentUsageMap) (versions : List ObjectMeta)
    → blocked_in force_deleting deployments versions ≡ []
unfolding is_active
none_forced deployments [] = refl
none_forced deployments (m ∷ rest) =
    rw (filter-none (usage_of deployments m)) (none_forced deployments rest)
  where
    filter-none :
        (usage : Option DeploymentUsage)
        → filter_option (λ u. is_active u force_deleting) usage ≡ none
    filter-none usage = ground arith

module _ (w : World) (chrono : Chrono) (rsd : RestateDeployment) (mode : CleanupMode)
    (removal : String → Call) where
  pub wait_out-Turn :
      (m : ObjectMeta) (t : Option ℕ) (p q : Progress)
      → mode ≢ force_deleting
      → (wait_out w chrono rsd m t p).result ≡ ok q
      → Turn removal rsd mode m none (wait_out w chrono rsd m t p).calls p q
  unfolding wait_out ◌>>=◌
  wait_out-Turn m t p q n h = ground (arith, append-nil p.blocking)

  -- The abandoned versions of a removal, where the version is not needed in this mode.
  pub record_abandoned-kept :
      (m : ObjectMeta) (usage : Option DeploymentUsage) (abandoned : List BlockingVersion)
      → filter_option (λ u. is_active u mode) usage ≡ none
      → mode ≢ force_deleting
      → record_abandoned m usage abandoned ≡ abandoned
  unfolding is_active
  record_abandoned-kept m usage abandoned e h = ground arith

  pub finish-outcome :
      (p : Progress) (o : CleanupOutcome)
      → (finish w chrono p).result ≡ ok o
      → (o.blocking ≡ p.blocking)
        × (o.abandoned ≡ p.abandoned)
        × (o.next_removal ≡ none → (p.next_removal ≡ none) × (o.blocking ≡ []))
        × (p.next_removal ≡ none → p.blocking ≡ [] → o.next_removal ≡ none)
  unfolding finish
  finish-outcome p o h = ground arith

module _ (w : World) (chrono : Chrono) (removal : String → Call) (rsd : RestateDeployment)
    (mode : CleanupMode) (deployments : DeploymentUsageMap) {K : Type 0} (meta : K → ObjectMeta)
    (visit : K → Progress → Run Call Progress)
    (turns : (k : K) (p q : Progress)
      → (visit k p).result ≡ ok q
      → Turn removal rsd mode
          (meta k)
          (active_usage mode deployments (meta k))
          (visit k p).calls
          p
          q) where
  All-later :
      (cs ds : List Call) (versions : List ObjectMeta)
      → All (λ m. active_usage mode deployments m ≡ none → Made (removal m.name) ds) versions
      → All
          (λ m. active_usage mode deployments m ≡ none → Made (removal m.name) (cs ++ ds))
          versions
  All-later cs ds [] h = tt
  All-later cs ds (m ∷ rest) h =
      (λ e. Made-append_right (removal m.name) cs ds (h.0 e), All-later cs ds rest h.1)

  Visits-cons :
      (m : ObjectMeta) (rest : List ObjectMeta) (cs ds : List Call) (p p' q : Progress)
      → Turn removal rsd mode m (active_usage mode deployments m) cs p p'
      → Visits removal rsd mode deployments rest ds p' q
      → Visits removal rsd mode deployments (m ∷ rest) (cs ++ ds) p q
  Visits-cons m rest cs ds p p' q t v = record {
    blocking =
        v.blocking
        ∙ ap (λ bs. bs ++ blocked_in mode deployments rest) t.blocking
        ∙ append_assoc p.blocking _ _;
    abandoned = λ h. v.abandoned h ∙ t.abandoned h;
    next_kept = λ h. t.next_kept (v.next_kept h);
    removed = λ d h. (
      λ e. Made-append_left (removal m.name) cs ds (t.removed d e (v.next_kept h)),
      All-later cs ds rest (v.removed d h),
    );
    retained = λ h. v.retained (t.retained h);
    forced = λ h. v.forced h ∙ t.forced h;
  }

  visit_each-Visits :
      (versions : List K) (p q : Progress)
      → (visit_each visit versions p).result ≡ ok q
      → Visits removal rsd mode deployments
          (map meta versions)
          (visit_each visit versions p).calls
          p
          q
  unfolding visit_each
  visit_each-Visits [] p q h = ground (arith, append-nil p.blocking)
  visit_each-Visits (k ∷ rest) p q h =
      let (p', e, next, calls) = >>=-eq-ok (visit k p) (λ p'. visit_each visit rest p') h in
      rw calls (
        Visits-cons (meta k) (map meta rest) _ _ p p' q (turns k p p' e)
          (visit_each-Visits rest p' q next))

  removed_if_inactive :
      (versions : List ObjectMeta) (calls : List Call)
      → blocked_in mode deployments versions ≡ []
      → All (λ m. active_usage mode deployments m ≡ none → Made (removal m.name) calls) versions
      → AllRemoved removal versions calls
  removed_if_inactive [] calls b h = tt
  removed_if_inactive (m ∷ rest) calls b h =
      let (none_here, none_later) = split (active_usage mode deployments m) b in
      (h.0 none_here, removed_if_inactive rest calls none_later h.1)
    where
      split :
          (active : Option DeploymentUsage)
          → blocked_by m active ++ blocked_in mode deployments rest ≡ []
          → (active ≡ none) × (blocked_in mode deployments rest ≡ [])
      split none b = (refl, b)
      split (some usage) b = cc

  AllRemoved-later :
      (versions : List ObjectMeta) (cs ds : List Call)
      → AllRemoved removal versions cs
      → AllRemoved removal versions (cs ++ ds)
  AllRemoved-later [] cs ds h = tt
  AllRemoved-later (m ∷ rest) cs ds h =
      (Made-append_left (removal m.name) cs ds h.0, AllRemoved-later rest cs ds h.1)

  -- What becomes of a deletion: it waits for a removal, or it is done.
  concluded :
      (versions : List K) (m : CleanupMode) (next : Option ℕ) (blocking : List BlockingVersion)
      (calls : List Call)
      → (is_deleting m ≡ true
          → next ≡ none
          → (blocking ≡ []) × AllRemoved removal (map meta versions) calls)
      → (m ≡ force_deleting → next ≡ none)
      → (m ≡ rollout)
        ⊎ ((m ≡ deleting) × (t : ℕ) × (next ≡ some t))
        ⊎ ((next ≡ none) × (blocking ≡ []) × AllRemoved removal (map meta versions) calls)
  concluded versions rollout next blocking calls done forced = inl refl
  concluded versions deleting (some t) blocking calls done forced = inr (inl (refl, t, refl))
  concluded versions deleting none blocking calls done forced =
      let d = done refl refl in inr (inr (refl, d.0, d.1))
  concluded versions force_deleting next blocking calls done forced =
      let d = done refl (forced refl) in inr (inr (forced refl, d.0, d.1))

  unforced :
      (m : CleanupMode) (abandoned : List BlockingVersion)
      → (m ≢ force_deleting → abandoned ≡ [])
      → (m ≡ force_deleting) ⊎ (abandoned ≡ [])
  unforced rollout abandoned h = inr (h (λ e. cc))
  unforced deleting abandoned h = inr (h (λ e. cc))
  unforced force_deleting abandoned h = inl refl

  pub visit_and_finish-Concludes :
      (versions : List K) (o : CleanupOutcome)
      → (visit_and_finish w chrono visit versions).result ≡ ok o
      → Concludes removal mode deployments
          (map meta versions)
          (visit_and_finish w chrono visit versions).calls
          o
  unfolding visit_and_finish
  visit_and_finish-Concludes versions o done =
      let (p, e, k, calls) =
        >>=-eq-ok (visit_each visit versions first_progress) (finish w chrono) done in
      let v = visit_each-Visits versions first_progress p e in
      let f = finish-outcome w chrono rsd mode removal p o k in
      let blocking = f.0 ∙ v.blocking in
      let unblocked = λ (h : mode ≡ force_deleting).
        v.blocking
        ∙ ap (λ m. blocked_in m deployments (map meta versions)) h
        ∙ none_forced deployments (map meta versions) in
      (
        blocking,
        unforced mode o.abandoned (λ h. f.1 ∙ v.abandoned h),
        concluded versions mode o.next_removal o.blocking _
            (λ d n. (
              (f.2 n).1,
              rw calls (
                  AllRemoved-later (map meta versions) _ _ (
                    removed_if_inactive (map meta versions) _ (sym blocking ∙ (f.2 n).1)
                      (v.removed d (f.2 n).0))),
            ))
            (λ h. f.3 (v.forced h) (unblocked h)),
      )

-- The versions that were removed in their order are those that the filter picks.
pub AllRemoved-unsorted :
    {K : Type 0} (meta : K → ObjectMeta) (removal : String → Call) (p : K → Bool) (store : List K)
    (calls : List Call)
    → AllRemoved removal (map meta (sort_by_creation meta (filter p store))) calls
    → All (λ k. Made (removal (meta k).name) calls) (filter p store)
AllRemoved-unsorted {K} meta removal p store calls h = All-of_mem P (filter p store) (λ k m.
    All-mem P (sort_by_creation meta (filter p store))
      (unmap (sort_by_creation meta (filter p store)) h)
      ((mem-sort_filter meta p store k).1 (mem-of_filter p store m)))
  where
    P : K → Type 0
    P k = Made (removal (meta k).name) calls

    unmap : (ks : List K) → AllRemoved removal (map meta ks) calls → All P ks
    unmap [] h = tt
    unmap (k ∷ ks) h = (h.0, unmap ks h.1)

module _ (removal : String → Call) (mode : CleanupMode) (deployments : DeploymentUsageMap)
    (versions : List ObjectMeta) (calls : List Call) (o : CleanupOutcome)
    (concludes : Concludes removal mode deployments versions calls o) where
  pub Concludes-cleared :
      is_deleting mode ≡ true
      → o.next_removal ≡ none
      → (o.blocking ≡ []) × AllRemoved removal versions calls
  Concludes-cleared d n = elim concludes.2 [
    | inl e ↦ ground arith
    | inr (inl (e, t, scheduled)) ↦ cc
    | inr (inr (e, blocking, removed)) ↦ (blocking, removed)
  ]

  pub Concludes-forced : mode ≡ force_deleting → o.next_removal ≡ none
  Concludes-forced f = elim concludes.2 [
    | inl e ↦ ground arith
    | inr (inl (e, t, scheduled)) ↦ ground arith
    | inr (inr (e, blocking, removed)) ↦ e
  ]
