-- ===== src/Rollout/Adopted.antt =====
-- Which ReplicaSets a rollout takes for its version.
use restate_operator.Versions.{remove_version_at_annotation, unschedule_version_removal}
use restate_operator.Base.{
  ap, eq_iff, ◌&&◌, Bool, Option, none, some, [], ◌∷◌, arith, is_some_and, ◌≡◌, refl, true, false,
  ◌⊎◌, inl, inr, String, List, All, str_eq, is_some, lookup, Bool-cases,
}
use restate_operator.Errors.{api, kube_error}
use restate_operator.Resources.{RestateDeployment, ReplicaSet, OwnerReference}
use restate_operator.Effects.{
  Result, ok, err, panicked, All-bind, >>=-Made, Made, answered-All, answered-Made,
}
use restate_operator.Calls.{
  Call, create_replicaset, get_replicaset, propagate_replicas, propagate_annotations, unschedule,
  World,
}
use restate_operator.Rollout.Inject.{Value}
use restate_operator.Rollout.Adopt.{
  ReplicaSetReply, found, refused, ReplicaSetWorld, is_ours, first_owner, pod_template_annotation,
  reply_result, get_existing, adopt, after_create, ensure_replicaset,
}

ok_eq : {a b : ReplicaSet} → ok a ≡ ok b → a ≡ b
ok_eq h = cc

result_eq : {a b : Result ReplicaSet} → ok a ≡ ok b → a ≡ b
result_eq h = cc

reply-found : (r : ReplicaSetReply) {rs : ReplicaSet} → reply_result r ≡ ok rs → r ≡ found rs
reply-found (found x) h = cc
reply-found (refused x) h = cc

-- The first owner of a ReplicaSet is this one.
abbrev pub HasFirstOwner : String → List OwnerReference → Type 0
HasFirstOwner uid [] = ⊥
HasFirstOwner uid (owner ∷ owners) = owner.uid ≡ uid

first_owner-HasFirstOwner :
    (uid : String) (owners : List OwnerReference)
    → is_some_and (first_owner owners) (λ owner. str_eq owner.uid uid) ≡ true
    → HasFirstOwner uid owners
first_owner-HasFirstOwner uid [] h = cc
first_owner-HasFirstOwner uid (owner ∷ owners) h = (eq_iff owner.uid uid).0 h

same_template :
    (recorded : Option String) (template : String)
    → is_some_and recorded (λ t. str_eq t template) ≡ true
    → recorded ≡ some template
same_template none template h = cc
same_template (some t) template h = ap some ((eq_iff t template).0 h)

and_true : (a b : Bool) → (a && b) ≡ true → (a ≡ true) × (b ≡ true)
and_true a b h = ground arith

module _ (w : World) (versions : ReplicaSetWorld) (rsd : RestateDeployment)
    (name template : String) where
  -- The ReplicaSet of this name that exists has this RestateDeployment as its first owner, and was
  -- made from the same template.
  abbrev pub IsAdopted : ReplicaSet → Type 0
  IsAdopted rs =
      (versions.get name ≡ found rs)
      × HasFirstOwner rsd.uid rs.metadata.owner_references
      × (lookup pod_template_annotation rs.metadata.annotations ≡ some template)

  ours-IsAdopted :
      (rs : ReplicaSet)
      → versions.get name ≡ found rs
      → is_ours rsd template rs ≡ true
      → IsAdopted rs
  unfolding is_ours
  ours-IsAdopted rs e ours =
      let (owned, same) = and_true _ _ ours in
      (
        e,
        first_owner-HasFirstOwner rsd.uid rs.metadata.owner_references owned,
        same_template _ template same,
      )

  abbrev pub LeavesForeign : Call → Type 0
  LeavesForeign (create_replicaset n) = n ≡ name
  LeavesForeign (get_replicaset n) = n ≡ name
  LeavesForeign (propagate_replicas n replicas) =
      (n ≡ name) × (replicas ≡ rsd.replicas) × (rs : ReplicaSet) × IsAdopted rs
  LeavesForeign (propagate_annotations n) = (n ≡ name) × (rs : ReplicaSet) × IsAdopted rs
  LeavesForeign (unschedule n) = (rs : ReplicaSet) × IsAdopted rs × (n ≡ rs.metadata.name)
  LeavesForeign _ = ⊥

  unscheduled-LeavesForeign :
      (rs : ReplicaSet)
      → IsAdopted rs
      → All LeavesForeign (unschedule_version_removal w rs.metadata).calls
  unfolding unschedule_version_removal
  unscheduled-LeavesForeign rs ours =
      elim (Bool-cases (is_some (lookup remove_version_at_annotation rs.metadata.annotations))) [
        | inl e ↦ rw e (answered-All LeavesForeign (unschedule rs.metadata.name) _ (rs, ours, refl))
        | inr e ↦ rw e tt
      ]

  adopt-LeavesForeign :
      (rs : ReplicaSet)
      → versions.get name ≡ found rs
      → All LeavesForeign (adopt w versions rsd name template rs).calls
  unfolding adopt
  adopt-LeavesForeign rs e = elim (Bool-cases (is_ours rsd template rs)) [
    | inl ours ↦
        let is = ours-IsAdopted rs e ours in
        rw ours (
          All-bind _ _ _
            (answered-All LeavesForeign (propagate_replicas name rsd.replicas) _
              (refl, refl, rs, is))
            λ _ _.
              All-bind _ _ _
                (answered-All LeavesForeign (propagate_annotations name) _ (refl, rs, is))
                λ _ _. All-bind _ _ _ (unscheduled-LeavesForeign rs is) (λ _ _. tt))
    | inr other ↦ rw other tt
  ]

  -- The version stays: it has just been created, or it is adopted and a removal that was scheduled
  -- for it has been called off.
  abbrev pub Stays : List Call → ReplicaSet → Type 0
  Stays calls rs =
      (versions.create name ≡ found rs)
      ⊎ (IsAdopted rs
          × ((is_some (lookup remove_version_at_annotation rs.metadata.annotations) ≡ false)
              ⊎ Made (unschedule rs.metadata.name) calls))

  unscheduled-Made :
      (rs : ReplicaSet)
      → is_some (lookup remove_version_at_annotation rs.metadata.annotations) ≡ true
      → Made (unschedule rs.metadata.name) (unschedule_version_removal w rs.metadata).calls
  unfolding unschedule_version_removal
  unscheduled-Made rs e = rw e (answered-Made (unschedule rs.metadata.name) _)

  called_off_later :
      (rs : ReplicaSet) (calls : List Call)
      → (Made (unschedule rs.metadata.name) (unschedule_version_removal w rs.metadata).calls
          → Made (unschedule rs.metadata.name) calls)
      → (is_some (lookup remove_version_at_annotation rs.metadata.annotations) ≡ false)
        ⊎ Made (unschedule rs.metadata.name) calls
  called_off_later rs calls later =
      elim (Bool-cases (is_some (lookup remove_version_at_annotation rs.metadata.annotations))) [
        | inl scheduled ↦ inr (later (unscheduled-Made rs scheduled))
        | inr e ↦ inl e
      ]

  adopt-Stays :
      (existing rs : ReplicaSet)
      → versions.get name ≡ found existing
      → (adopt w versions rsd name template existing).result ≡ ok rs
      → Stays (adopt w versions rsd name template existing).calls rs
  unfolding adopt
  adopt-Stays existing rs e h = elim (Bool-cases (is_ours rsd template existing)) [
    | inl ours ↦
        let (_, _, h1, _, later1) = >>=-Made _ _ (rw ours at h) in
        let (_, _, h2, _, later2) = >>=-Made _ _ h1 in
        let (_, _, h3, called_off, _) = >>=-Made _ _ h2 in
        rw (← ok_eq h3, ours)
          (inr (
            ours-IsAdopted existing e ours,
            called_off_later existing _ (λ s. later1 _ (later2 _ (called_off _ s))),
          ))
    | inr other ↦ cc
  ]

  after_create-LeavesForeign :
      (created : Result ReplicaSet)
      → All LeavesForeign (after_create w versions rsd name template created).calls
  unfolding after_create
  after_create-LeavesForeign (ok rs) = tt
  after_create-LeavesForeign (err (kube_error (api code reason message))) =
      elim (Bool-cases (str_eq reason "AlreadyExists")) [
        | inl e ↦ rw e (
            All-bind _ (get_existing w versions rsd name template) _ (refl, tt)
              (λ rs k. adopt-LeavesForeign rs (reply-found (versions.get name) k)))
        | inr e ↦ rw e tt
      ]
  after_create-LeavesForeign (err e) = tt
  after_create-LeavesForeign panicked = tt

  pub Stays-later :
      (before after : List Call) (rs : ReplicaSet)
      → ((c : Call) → Made c before → Made c after)
      → Stays before rs
      → Stays after rs
  Stays-later before after rs later (inl created) = inl created
  Stays-later before after rs later (inr (adopted, inl unscheduled)) =
      inr (adopted, inl unscheduled)
  Stays-later before after rs later (inr (adopted, inr off)) = inr (adopted, inr (later _ off))

  after_create-Stays :
      (created : Result ReplicaSet) (rs : ReplicaSet)
      → reply_result (versions.create name) ≡ created
      → (after_create w versions rsd name template created).result ≡ ok rs
      → Stays (after_create w versions rsd name template created).calls rs
  unfolding after_create
  after_create-Stays (ok made) rs e h = inl (reply-found (versions.create name) (rw (← ok_eq h) e))
  after_create-Stays (err (kube_error (api code reason message))) rs e h =
      elim (Bool-cases (str_eq reason "AlreadyExists")) [
        | inl exists ↦
            let (existing, got, h1, _, later) =
              >>=-Made (get_existing w versions rsd name template) _ (rw exists at h) in
            rw exists (
              Stays-later _ _ rs later
                (adopt-Stays existing rs (reply-found (versions.get name) got) h1))
        | inr fails ↦ cc
      ]
  after_create-Stays (err e) rs k h = cc
  after_create-Stays panicked rs e h = cc

  -- Whatever its outcome, a rollout that looks for the ReplicaSet of its version creates and reads
  -- only the one of that name, and scales, annotates or unschedules it, to the replicas of the spec,
  -- only if it has the RestateDeployment as its first owner and was made from the same template; it
  -- makes no other call.
  pub ensure_replicaset-LeavesForeign :
      (pod_spec : Result (Option Value))
      → All LeavesForeign (ensure_replicaset w versions rsd name template pod_spec).calls
  unfolding ensure_replicaset
  ensure_replicaset-LeavesForeign (ok spec) =
      All-bind LeavesForeign _ _ (refl, tt) (λ created _. after_create-LeavesForeign created)
  ensure_replicaset-LeavesForeign (err e) = tt
  ensure_replicaset-LeavesForeign panicked = tt

  -- A ReplicaSet that a rollout takes for its version has either just been created under its name,
  -- or it exists under that name with the RestateDeployment as its first owner and the same
  -- template, and a removal that was scheduled for it has been called off.
  pub ensure_replicaset-Stays :
      (pod_spec : Result (Option Value)) (rs : ReplicaSet)
      → (ensure_replicaset w versions rsd name template pod_spec).result ≡ ok rs
      → Stays (ensure_replicaset w versions rsd name template pod_spec).calls rs
  unfolding ensure_replicaset
  ensure_replicaset-Stays (ok spec) rs h =
      let (created, is, h1, _, later) = >>=-Made _ _ h in
      Stays-later _ _ rs later (after_create-Stays created rs (result_eq is) h1)
  ensure_replicaset-Stays (err e) rs h = cc
  ensure_replicaset-Stays panicked rs h = cc
