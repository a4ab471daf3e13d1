-- ===== src/Cleanup/Usage.antt =====
-- The usage map of src/controllers/restatedeployment/cleanup.rs, from the rows of the usage
-- query.
use restate_operator.Base.{
  ◌∙◌, sym, subst, ap, Bool-cases, inl, inr, ◌+◌, ◌^◌, ◌≤◌, ◌<◌, ◌≡◌, refl, String, Option, none,
  some, List, [], ◌∷◌, true, arith, str_eq, eq_iff, eq_refl, lookup, insert, lookup-insert,
  if◌then◌else◌, Memᴰ, max_zero, All,
}
use restate_operator.Cleanup.{
  DeploymentUsage, DeploymentUsageMap, DeploymentUsageRow, merge, merge_into, usage_of_row, absorb,
  into_map, in_flight_invocations, is_active, rollout, deleting, force_deleting, CleanupMode,
}

-- What the rows say of one deployment, starting from what is known: the rows that name it, merged
-- in their order.
abbrev pub usage_in :
    String → Option DeploymentUsage → List DeploymentUsageRow → Option DeploymentUsage
usage_in id known [] = known
usage_in id known (row ∷ rows) =
    usage_in id
      (if str_eq row.deployment_id id then some (merge_into known (usage_of_row row)) else known)
      rows

lookup-absorb_row :
    (id : String) (m : DeploymentUsageMap) (d : String) (u : DeploymentUsage)
    → lookup id (insert d (merge_into (lookup d m) u) m)
      ≡ (if str_eq d id then some (merge_into (lookup id m) u) else lookup id m)
lookup-absorb_row id m d u =
    rw (lookup-insert d id (merge_into (lookup d m) u) m)
      (elim (Bool-cases (str_eq d id)) [ inl e ↦ rw (e, (eq_iff d id).0 e) | inr e ↦ rw e ])

absorb-usage_in :
    (id : String) (m : DeploymentUsageMap) (rows : List DeploymentUsageRow)
    → lookup id (absorb m rows) ≡ usage_in id (lookup id m) rows
unfolding absorb
absorb-usage_in id m [] = refl
absorb-usage_in id m (row ∷ rows) =
    let u = usage_of_row row in
    let d = row.deployment_id in
    absorb-usage_in id (insert d (merge_into (lookup d m) u) m) rows
    ∙ ap (λ known. usage_in id known rows) (lookup-absorb_row id m d u)

-- For every deployment id the usage map holds the merge of the rows that name it, in their order,
-- and nothing if no row does.
pub into_map-usage_in :
    (id : String) (rows : List DeploymentUsageRow)
    → lookup id (into_map rows) ≡ usage_in id none rows
unfolding into_map lookup
into_map-usage_in id rows = absorb-usage_in id [] rows

-- `u` argues at least as strongly as `v` for keeping a deployment.
pub record Covers (u v : DeploymentUsage) : Type 0 where
  pub latest : v.latest_for_service ≡ true → u.latest_for_service ≡ true
  pub pinned : v.pinned_invocations ≤ u.pinned_invocations
  pub unpinned : v.unpinned_invocations ≤ u.unpinned_invocations

merge-Covers : (w u v : DeploymentUsage) → Covers w (merge u v) → Covers w u × Covers w v
unfolding merge
merge-Covers w u v c = (
  record {
    latest = λ h. c.latest (rw h);
    pinned = omega (arith, c.pinned);
    unpinned = omega (arith, c.unpinned);
  },
  record {
    latest = λ h. c.latest (ground arith);
    pinned = omega (arith, c.pinned);
    unpinned = omega (arith, c.unpinned);
  },
)

usage_in-keeps :
    (id : String) (v : DeploymentUsage) (rows : List DeploymentUsageRow)
    → (u : DeploymentUsage) × (usage_in id (some v) rows ≡ some u) × Covers u v
usage_in-keeps id v [] =
    (v, refl, record { latest = λ h. h; pinned = omega arith; unpinned = omega arith })
usage_in-keeps id v (row ∷ rows) = elim (Bool-cases (str_eq row.deployment_id id)) [
  | inl e ↦
      let (u, found, c) = usage_in-keeps id (merge v (usage_of_row row)) rows in
      (u, rw e found, (merge-Covers u v (usage_of_row row) c).0)
  | inr e ↦ let (u, found, c) = usage_in-keeps id v rows in (u, rw e found, c)
]

abbrev CoveredBy : DeploymentUsageRow → Option DeploymentUsage → List DeploymentUsageRow → Type 0
CoveredBy row known rows =
    (u : DeploymentUsage) × (usage_in row.deployment_id known rows ≡ some u)
    × Covers u (usage_of_row row)

covered_first :
    (row : DeploymentUsageRow) (known : Option DeploymentUsage) (rows : List DeploymentUsageRow)
    → CoveredBy row known (row ∷ rows)
covered_first row none rows =
    rw (eq_refl row.deployment_id) (usage_in-keeps row.deployment_id (usage_of_row row) rows)
covered_first row (some v) rows =
    let id = row.deployment_id in
    let (u, found, c) = usage_in-keeps id (merge v (usage_of_row row)) rows in
    (u, rw (eq_refl id) found, (merge-Covers u v (usage_of_row row) c).1)

usage_in-covers :
    (known : Option DeploymentUsage) (rows : List DeploymentUsageRow) {row : DeploymentUsageRow}
    → Memᴰ row rows
    → CoveredBy row known rows
usage_in-covers known [] m = elim m [ ]
usage_in-covers known (r ∷ rows) {row} (Memᴰ.head e) =
    subst (λ r'. CoveredBy row known (r' ∷ rows)) e (covered_first row known rows)
usage_in-covers known (r ∷ rows) {row} (Memᴰ.tail m) =
    usage_in-covers
      (if str_eq r.deployment_id row.deployment_id
        then some (merge_into known (usage_of_row r))
        else known)
      rows m

-- The counts that the query returns are i64.
abbrev pub FitsRow : DeploymentUsageRow → Type 0
FitsRow row =
    (max_zero row.pinned_invocations < 2 ^ 63) × (max_zero row.unpinned_invocations < 2 ^ 63)

abbrev Fits : DeploymentUsage → Type 0
Fits u = (u.pinned_invocations < 2 ^ 63) × (u.unpinned_invocations < 2 ^ 63)

abbrev FitsKnown : Option DeploymentUsage → Type 0
FitsKnown none = Unit
FitsKnown (some u) = Fits u

merge_into-Fits :
    (known : Option DeploymentUsage) (row : DeploymentUsageRow)
    → FitsKnown known
    → FitsRow row
    → Fits (merge_into known (usage_of_row row))
merge_into-Fits none row k h = h
merge_into-Fits (some v) row k h = unfold merge in omega arith

usage_in-Fits :
    (id : String) (known : Option DeploymentUsage) (rows : List DeploymentUsageRow)
    → FitsKnown known
    → All FitsRow rows
    → FitsKnown (usage_in id known rows)
usage_in-Fits id known [] k h = k
usage_in-Fits id known (row ∷ rows) k h = elim (Bool-cases (str_eq row.deployment_id id)) [
  | inl e ↦ rw e (
      usage_in-Fits id (some (merge_into known (usage_of_row row))) rows
        (merge_into-Fits known row k h.0) h.1)
  | inr e ↦ rw e (usage_in-Fits id known rows k h.1)
]

-- The sum of the two counts of a deployment does not wrap, since each comes from an i64.
pub in_flight_invocations-exact :
    (id : String) (rows : List DeploymentUsageRow) (u : DeploymentUsage)
    → All FitsRow rows
    → lookup id (into_map rows) ≡ some u
    → in_flight_invocations u ≡ u.pinned_invocations + u.unpinned_invocations
unfolding in_flight_invocations
in_flight_invocations-exact id rows u h e =
    let fits : FitsKnown (some u) =
      subst FitsKnown (sym (into_map-usage_in id rows) ∙ e) (usage_in-Fits id none rows tt h) in
    omega arith

active-Covers :
    (mode : CleanupMode) (u v : DeploymentUsage)
    → Covers u v
    → Fits u
    → is_active v mode ≡ true
    → is_active u mode ≡ true
unfolding is_active in_flight_invocations
active-Covers rollout u v c f h = ground arith
active-Covers deleting u v c f h = ground arith
active-Covers force_deleting u v c f h = h

-- A deployment that one row of the usage query shows to be needed in a mode is read as needed,
-- whatever other rows name it and in whatever order; and its in-flight count does not wrap, where
-- the counts of the rows are i64.
pub into_map-active :
    (mode : CleanupMode) (rows : List DeploymentUsageRow) (row : DeploymentUsageRow)
    → All FitsRow rows
    → Memᴰ row rows
    → is_active (usage_of_row row) mode ≡ true
    → (u : DeploymentUsage) × (lookup row.deployment_id (into_map rows) ≡ some u)
      × (is_active u mode ≡ true)
      × (in_flight_invocations u ≡ u.pinned_invocations + u.unpinned_invocations)
into_map-active mode rows row fits m h =
    let (u, found, c) = usage_in-covers none rows m in
    let id = row.deployment_id in
    let held = into_map-usage_in id rows ∙ found in
    let f : FitsKnown (some u) = subst FitsKnown found (usage_in-Fits id none rows tt fits) in
    (
      u,
      held,
      active-Covers mode u (usage_of_row row) c f h,
      in_flight_invocations-exact id rows u fits held,
    )
