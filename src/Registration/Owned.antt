-- ===== src/Registration/Owned.antt =====
-- What src/controllers/restatedeployment/registration.rs reads off the cached versions.
use Prim.Native.Nat.{Ordering}
use Prim.Native.String.{compare}
use text.Mathlib.TextEquality.{path_by_compare}
use mathlib.Core.Option.{some-injective}
use restate_operator.Versions.{deployment_id_of}
use restate_operator.ReplicaSets.Select.{candidates}
use restate_operator.Base.{
  ◌≡◌, refl, ◌⊎◌, inl, inr, ◌↔◌, Bool, true, false, String, none, some, List, [], ◌∷◌, Memᴰ, filter,
  mem-of_filter, mem-filter, Bool-cases, Option-cases, any, sym, ap, ◌∙◌,
}
use restate_operator.Resources.{ReplicaSet, ObjectMeta}
use restate_operator.ReplicaSets.Select.{is_candidate}
use restate_operator.Versions.Order.{sort-nil}
use restate_operator.Registration.{
  is_owned, insert_id, insert_if_recorded, collect_ids, owned_deployment_ids, has_other_owned,
}

compare-cases : (o : Ordering) → (o ≡ Ordering.lt) ⊎ (o ≡ Ordering.eq) ⊎ (o ≡ Ordering.gt)
compare-cases Ordering.lt = inl refl
compare-cases Ordering.eq = inr (inl refl)
compare-cases Ordering.gt = inr (inr refl)

mem-insert_id : (id x : String) (xs : List String) → Memᴰ id (x ∷ xs) ↔ Memᴰ id (insert_id x xs)
unfolding insert_id
mem-insert_id id x [] = (λ m. m, λ m. m)
mem-insert_id id x (y ∷ ys) = elim (compare-cases (compare x y)) [
  | inl e ↦ rw (e, insert_id) (λ m. m, λ m. m)
  | inr (inl e) ↦ rw (e, insert_id) (absorb (path_by_compare x y e), λ m. Memᴰ.tail m)
  | inr (inr e) ↦ rw (e, insert_id) (push (mem-insert_id id x ys).0, pull (mem-insert_id id x ys).1)
]
  where
    absorb : x ≡ y → Memᴰ id (x ∷ y ∷ ys) → Memᴰ id (y ∷ ys)
    absorb q (Memᴰ.head e) = Memᴰ.head (e ∙ q)
    absorb q (Memᴰ.tail m) = m

    push :
        (Memᴰ id (x ∷ ys) → Memᴰ id (insert_id x ys))
        → Memᴰ id (x ∷ y ∷ ys)
        → Memᴰ id (y ∷ insert_id x ys)
    push f (Memᴰ.head e) = Memᴰ.tail (f (Memᴰ.head e))
    push f (Memᴰ.tail (Memᴰ.head e)) = Memᴰ.head e
    push f (Memᴰ.tail (Memᴰ.tail m)) = Memᴰ.tail (f (Memᴰ.tail m))

    skip : Memᴰ id (x ∷ ys) → Memᴰ id (x ∷ y ∷ ys)
    skip (Memᴰ.head e) = Memᴰ.head e
    skip (Memᴰ.tail m) = Memᴰ.tail (Memᴰ.tail m)

    pull :
        (Memᴰ id (insert_id x ys) → Memᴰ id (x ∷ ys))
        → Memᴰ id (y ∷ insert_id x ys)
        → Memᴰ id (x ∷ y ∷ ys)
    pull f (Memᴰ.head e) = Memᴰ.tail (Memᴰ.head e)
    pull f (Memᴰ.tail m) = skip (f m)

abbrev Records : String → List ObjectMeta → Type 0
Records id versions = (o : ObjectMeta) × Memᴰ o versions × (deployment_id_of o ≡ some id)

mem-collect_ids :
    (id : String) (versions : List ObjectMeta)
    → Records id versions ↔ Memᴰ id (collect_ids versions)
unfolding collect_ids
mem-collect_ids id [] = (λ r. elim r.1 [ ], λ m. elim m [ ])
mem-collect_ids id (o ∷ rest) = elim (Option-cases (deployment_id_of o)) [
  | inl e ↦
      rw (e, insert_if_recorded)
        (
          λ r. (mem-collect_ids id rest).0 (later e r),
          λ m. let (x, k, q) = (mem-collect_ids id rest).1 m in (x, Memᴰ.tail k, q),
        )
  | inr (x, e) ↦
      rw (e, insert_if_recorded)
        (
          λ r. (mem-insert_id id x (collect_ids rest)).0 (held x e (mem-collect_ids id rest).0 r),
          λ m. found x e (mem-collect_ids id rest).1 ((mem-insert_id id x (collect_ids rest)).1 m),
        )
]
  where
    later : deployment_id_of o ≡ none → Records id (o ∷ rest) → Records id rest
    later e (y, Memᴰ.head q, k) =
        let impossible : none ≡ some id = sym e ∙ ap deployment_id_of (sym q) ∙ k in cc
    later e (y, Memᴰ.tail m, k) = (y, m, k)

    held :
        (x : String)
        → deployment_id_of o ≡ some x
        → (Records id rest → Memᴰ id (collect_ids rest))
        → Records id (o ∷ rest)
        → Memᴰ id (x ∷ collect_ids rest)
    held x e f (y, Memᴰ.head q, k) =
        Memᴰ.head (some-injective id x (sym k ∙ ap deployment_id_of q ∙ e))
    held x e f (y, Memᴰ.tail m, k) = Memᴰ.tail (f (y, m, k))

    found :
        (x : String)
        → deployment_id_of o ≡ some x
        → (Memᴰ id (collect_ids rest) → Records id rest)
        → Memᴰ id (x ∷ collect_ids rest)
        → Records id (o ∷ rest)
    found x e f (Memᴰ.head q) = (o, Memᴰ.head refl, e ∙ ap some (sym q))
    found x e f (Memᴰ.tail m) = let (y, k, q) = f m in (y, Memᴰ.tail k, q)

-- The owned deployment ids are exactly those recorded on the cached versions that carry the owner
-- reference of the RestateDeployment in its namespace.
pub owned_deployment_ids-exact :
    (store : List ObjectMeta) (namespace rsd_uid id : String)
    → Memᴰ id (owned_deployment_ids store namespace rsd_uid) ↔ (
        (o : ObjectMeta) × Memᴰ o store
        × (is_owned namespace rsd_uid o ≡ true)
        × (deployment_id_of o ≡ some id))
unfolding owned_deployment_ids
owned_deployment_ids-exact store namespace rsd_uid id =
    let p = is_owned namespace rsd_uid in
    let c = mem-collect_ids id (filter p store) in
    (
      λ m.
          let (o, k, q) = c.1 m in
          let (held, owned) = mem-of_filter p store k in (o, held, owned, q),
      λ r. c.0 (r.0, mem-filter p store r.2 r.1, r.3),
    )

any-filter {ℓ} : {A : Type ℓ} (p : A → Bool) (xs : List A) → (any p xs ≡ false) ↔ (filter p xs ≡ [])
any-filter p [] = (λ h. refl, λ h. refl)
any-filter p (x ∷ xs) = elim (Bool-cases (p x)) [
  | inl e ↦ rw e (λ h. cc, λ h. cc)
  | inr e ↦ rw e (any-filter p xs)
]

-- The shortcut that skips the cleanup finds no other owned version exactly if the cleanup that
-- spares the current version would visit none.
pub has_other_owned-candidates :
    (store : List ReplicaSet) (namespace rsd_uid except_name : String)
    → (has_other_owned store namespace rsd_uid except_name ≡ false)
      ↔ (candidates namespace rsd_uid (some except_name) store ≡ [])
unfolding has_other_owned candidates is_candidate
has_other_owned-candidates store namespace rsd_uid except_name =
    let p = is_candidate namespace rsd_uid (some except_name) in
    let a = any-filter p store in
    let s = sort-nil (λ rs. rs.metadata) (filter p store) in (λ h. s.0 (a.0 h), λ h. a.1 (s.1 h))
