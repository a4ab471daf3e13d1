-- ===== src/Registration/Confirm.antt =====
-- `confirm_latest` of src/controllers/restatedeployment/registration.rs.
use restate_operator.Base.{
  ◌≡◌, refl, ◌↔◌, true, false, not, String, Option, none, some, List, [], ◌∷◌, All, arith, filter,
  is_empty, str_eq, eq_iff, Bool-cases, inl, inr, is_some_and, lookup,
}
use restate_operator.Effects.{ok}
use restate_operator.Registration.{RegisteredDeployment, routes_to, superseded, judge_latest}

is_empty-filter :
    (latest : List (String × String)) (id : String) (services : List String)
    → (is_empty (filter (λ service. not (routes_to latest id service)) services) ≡ true)
      ↔ All (λ service. lookup service latest ≡ some id) services
is_empty-filter latest id [] = (λ h. tt, λ h. refl)
is_empty-filter latest id (service ∷ rest) = elim (Bool-cases (routes_to latest id service)) [
  | inl e ↦ rw e (
    λ h. (routed (lookup service latest) e, (is_empty-filter latest id rest).0 h),
    λ h. (is_empty-filter latest id rest).1 h.1,
  )
  | inr e ↦ rw e (λ h. cc, λ h. absurd (unrouted h.0 e))
]
  where
    routed : (o : Option String) → is_some_and o (λ other. str_eq other id) ≡ true → o ≡ some id
    routed none h = cc
    routed (some other) h = rw ((eq_iff other id).0 h)

    unrouted : lookup service latest ≡ some id → routes_to latest id service ≡ false → ⊥
    unrouted h e = ground (arith, eq_iff id id)

-- A registration is confirmed exactly if Restate routes every service found at the endpoint to the
-- registered deployment.
pub judge_latest-confirms :
    (latest : List (String × String)) (registered : RegisteredDeployment)
    → (judge_latest latest registered ≡ ok tt)
      ↔ All (λ service. lookup service latest ≡ some registered.id) registered.services
unfolding judge_latest superseded
judge_latest-confirms latest registered =
    let e = is_empty-filter latest registered.id registered.services in
    (λ h. e.0 (ground arith), λ h. rw (e.1 h))
