-- ===== src/Registration/Plan.antt =====
-- What justifies each action of the registration plan of
-- src/controllers/restatedeployment/registration.rs.
use restate_operator.Base.{
  ◌≡◌, ◌≢◌, refl, sym, ◌⊎◌, inl, inr, Bool, true, false, not, String, Option, none, some, List, [],
  ◌∷◌, Memᴰ, arith, filter, find, str_eq, eq_iff, lookup, mem-of_filter, mem-filter, Bool-cases,
  Option-cases,
}
use restate_operator.Cleanup.{DeploymentUsage, DeploymentUsageMap}
use restate_operator.Registration.{
  promote_or_conflict, plan_known, RegistrationAction, register, promote, already_latest, conflict,
  keep, overwrite, is_latest, plan_registration,
}

module _ {ℓ} {A : Type ℓ} where
  find-some : (p : A → Bool) (xs : List A) {x : A} → find p xs ≡ some x → Memᴰ x xs × (p x ≡ true)
  find-some p [] h = cc
  find-some p (y ∷ ys) {x} h = elim (Bool-cases (p y)) [
    | inl e ↦ go e (ground arith)
    | inr e ↦ let (m, k) = find-some p ys (rw e at h) in (Memᴰ.tail m, k)
  ]
    where
      go : p y ≡ true → y ≡ x → Memᴰ x (y ∷ ys) × (p x ≡ true)
      go e q = (Memᴰ.head (sym q), rw (← q) e)

  find-none : (p : A → Bool) (xs : List A) → find p xs ≡ none → {x : A} → Memᴰ x xs → p x ≡ false
  find-none p [] h m = elim m [ ]
  find-none p (y ∷ ys) h {x} (Memᴰ.head e) = rw e (ground arith)
  find-none p (y ∷ ys) h {x} (Memᴰ.tail m) = find-none p ys (ground arith) m

-- The evidence for an action, in what was recorded and in what Restate said.
abbrev pub IsJustified :
    Option String → DeploymentUsageMap → List String → RegistrationAction → Type 0
IsJustified recorded deployments owned register =
    (recorded ≡ none) ⊎ ((id : String) × (recorded ≡ some id) × (lookup id deployments ≡ none))
IsJustified recorded deployments owned (already_latest id) =
    (recorded ≡ some id) × (is_latest deployments id ≡ true)
IsJustified recorded deployments owned (promote other) =
    (id : String) × (recorded ≡ some id)
    × (is_latest deployments id ≡ false)
    × (other ≢ id)
    × Memᴰ other owned
    × (is_latest deployments other ≡ true)
IsJustified recorded deployments owned conflict =
    (id : String) × (recorded ≡ some id)
    × (is_latest deployments id ≡ false)
    × ((other : String) → Memᴰ other owned → is_latest deployments other ≡ false)

-- The search for the version of ours that holds latest.
superseding :
    (id : String) (deployments : DeploymentUsageMap) (owned : List String) (u : DeploymentUsage)
    → lookup id deployments ≡ some u
    → u.latest_for_service ≡ false
    → IsJustified (some id) deployments owned (
        promote_or_conflict
          (find (is_latest deployments) (filter (λ other. not (str_eq other id)) owned)))
superseding id deployments owned u e l =
    let is_other = λ (other : String). not (str_eq other id) in
    let not_latest : is_latest deployments id ≡ false = rw e l in
    elim (Option-cases (find (is_latest deployments) (filter is_other owned))) [
      | inl n ↦ rw n (
        id,
        refl,
        not_latest,
        λ other m. elim (Bool-cases (str_eq other id)) [
          | inl same ↦ rw ((eq_iff other id).0 same) not_latest
          | inr differs ↦
              find-none (is_latest deployments) (filter is_other owned) n
                (mem-filter is_other owned (rw differs) m)
        ],
      )
      | inr (other, f) ↦
          let (m, latest) = find-some (is_latest deployments) (filter is_other owned) f in
          let (held, differs) = mem-of_filter is_other owned m in
          rw f (id, refl, not_latest, λ same. ground (arith, eq_iff other id), held, latest)
    ]

-- The registration plan follows from the evidence: `register` if nothing is recorded or Restate
-- does not know the id, `already_latest` if the recorded version is latest, `promote` if another
-- version of the RestateDeployment holds latest instead, `conflict` if none of them does; and only
-- `promote` overwrites.
pub plan_registration-IsJustified :
    (recorded : Option String) (deployments : DeploymentUsageMap) (owned : List String)
    → IsJustified recorded deployments owned (plan_registration recorded deployments owned)
      × ((overwrite (plan_registration recorded deployments owned) ≡ keep)
          ⊎ ((other : String) × (plan_registration recorded deployments owned ≡ promote other)))
unfolding plan_registration
plan_registration-IsJustified recorded deployments owned =
    (go recorded, overwrites (plan_registration recorded deployments owned))
  where
    overwrites :
        (a : RegistrationAction) → (overwrite a ≡ keep) ⊎ ((other : String) × (a ≡ promote other))
    overwrites register = inl refl
    overwrites (promote other) = inr (other, refl)
    overwrites (already_latest id) = inl refl
    overwrites conflict = inl refl

    go :
        (r : Option String)
        → IsJustified r deployments owned (plan_registration r deployments owned)
    go none = inl refl
    go (some id) = elim (Option-cases (lookup id deployments)) [
      | inl e ↦ rw (e, plan_known) (inr (id, refl, e))
      | inr (u, e) ↦ elim (Bool-cases u.latest_for_service) [
        | inl l ↦ rw (e, plan_known, l) (refl, rw e l)
        | inr l ↦ rw (e, plan_known, l) (superseding id deployments owned u e l)
      ]
    ]
