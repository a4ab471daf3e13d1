-- ===== src/StatefulSets/Reasons.antt =====
-- What a StatefulSet is deleted for, and what its remembered update strategy is dropped for.
use restate_operator.Base.{
  ℤ, true, false, ◌&&◌, ◌≡◌, ◌≢◌, refl, sym, ◌∙◌, ap, ◌⊎◌, inl, inr, String, Option, none, some,
  List, [], ◌∷◌, All, arith, Bool-cases, str_eq, eq_iff, is_some_and,
}
use restate_operator.Effects.{ok, All-bind, >>=-eq-ok, Made, answered-All}
use restate_operator.StatefulSets.{
  StorageCall, apply_pvc, remember, forget, get_cluster, delete_orphaning, apply_stateful_set,
  own_strategy, StrategyJson, StorageWorld, RestateClusterStorage, PersistentVolumeClaim,
  CachedStatefulSet, ClusterCache, has_labels, await_bound, apply_claims, has_storage, requests,
  same_text, strategy_of,
}

module _ {Strategy : Type 0} (json : StrategyJson Strategy) (w : StorageWorld Strategy)
    (storage : RestateClusterStorage) (cache : ClusterCache Strategy)
    (labels : List (String × String)) where
  -- The claim is not of this cluster, or the API server has answered that it is bound.
  abbrev pub IsSettled : PersistentVolumeClaim → Type 0
  IsSettled pvc = (has_labels labels pvc ≡ false) ⊎ (w.pvc_phase pvc.name ≡ some "Bound")

  -- The cached StatefulSet is to be replaced: it is not on its way out, and has another storage.
  abbrev pub IsReplaced : CachedStatefulSet Strategy → Type 0
  IsReplaced existing =
      (cache.stateful_set ≡ some existing)
      × (existing.deleting ≡ false)
      × ((existing.storage_request ≢ some (some storage.storage_request_bytes))
          ⊎ (existing.volume_attributes_class_name ≢ storage.volume_attributes_class_name))

  abbrev pub Justified : List (StorageCall Strategy) → StorageCall Strategy → Type 0
  Justified before (delete_orphaning uid) =
      All IsSettled cache.claims
      × (existing : CachedStatefulSet Strategy) × IsReplaced existing
      × (uid ≡ existing.uid)
      × Made (remember (json.encode (strategy_of json w storage cache existing))) before
  Justified before (remember text) =
      (existing : CachedStatefulSet Strategy) × IsReplaced existing
      × (text ≡ json.encode (strategy_of json w storage cache existing))
  Justified before forget =
      ((existing : CachedStatefulSet Strategy) × (cache.stateful_set ≡ some existing)
        × Made (apply_stateful_set none) before)
      ⊎ ((text : String) × (strategy : Strategy) × (cache.stateful_set ≡ none)
          × (w.annotation ≡ some text)
          × (json.decode text ≡ some strategy)
          × Made (apply_stateful_set (some strategy)) before
          × Made (own_strategy strategy) before)
  Justified before _ = Unit

  is_bound :
      (phase : Option String)
      → is_some_and phase (λ p. str_eq p "Bound") ≡ true
      → phase ≡ some "Bound"
  is_bound none h = cc
  is_bound (some p) h = ap some ((eq_iff p "Bound").0 h)

  awaited :
      (name : String)
      → (await_bound json w storage cache name).result ≡ ok tt
      → w.pvc_phase name ≡ some "Bound"
  awaited name h =
      elim (Bool-cases (is_some_and (w.pvc_phase name) (λ phase. str_eq phase "Bound"))) [
        | inl e ↦ is_bound (w.pvc_phase name) e
        | inr e ↦ cc (rw e at h)
      ]

  pub apply_claims-IsSettled :
      (claims : List PersistentVolumeClaim)
      → (apply_claims json w storage cache labels claims).result ≡ ok tt
      → All IsSettled claims
  unfolding apply_claims
  apply_claims-IsSettled [] h = tt
  apply_claims-IsSettled (pvc ∷ pvcs) h = elim (Bool-cases (has_labels labels pvc)) [
    | inl ours ↦
        let (_, _, h1, _) = >>=-eq-ok _ _ (rw ours at h) in
        let (_, bound, rest, _) = >>=-eq-ok _ _ h1 in
        (inr (awaited pvc.name bound), apply_claims-IsSettled pvcs rest)
    | inr other ↦ (inl other, apply_claims-IsSettled pvcs (rw other at h))
  ]

  -- A call that needs no reason.
  abbrev pub IsPlain : StorageCall Strategy → Type 0
  IsPlain (delete_orphaning uid) = ⊥
  IsPlain forget = ⊥
  IsPlain (remember text) = ⊥
  IsPlain _ = Unit

  pub plain-Justified :
      (before : List (StorageCall Strategy)) (c : StorageCall Strategy)
      → IsPlain c
      → Justified before c
  plain-Justified before (apply_pvc n) h = tt
  plain-Justified before (remember s) h = absurd h
  plain-Justified before get_cluster h = tt
  plain-Justified before (apply_stateful_set s) h = tt
  plain-Justified before (own_strategy s) h = tt
  plain-Justified before forget h = absurd h
  plain-Justified before (delete_orphaning u) h = absurd h

  await_bound-IsPlain : (name : String) → All IsPlain (await_bound json w storage cache name).calls
  await_bound-IsPlain name =
      elim (Bool-cases (is_some_and (w.pvc_phase name) (λ phase. str_eq phase "Bound"))) [
        | inl e ↦ rw e tt
        | inr e ↦ rw e tt
      ]

  pub apply_claims-IsPlain :
      (claims : List PersistentVolumeClaim)
      → All IsPlain (apply_claims json w storage cache labels claims).calls
  unfolding apply_claims
  apply_claims-IsPlain [] = tt
  apply_claims-IsPlain (pvc ∷ pvcs) = elim (Bool-cases (has_labels labels pvc)) [
    | inl ours ↦ rw ours (
        All-bind IsPlain _ _ (answered-All IsPlain (apply_pvc pvc.name) _ tt) λ _ _.
          All-bind IsPlain _ _ (await_bound-IsPlain pvc.name) λ _ _. apply_claims-IsPlain pvcs)
    | inr other ↦ rw other (apply_claims-IsPlain pvcs)
  ]

  same_text_refl : (s t : Option String) → s ≡ t → same_text s t ≡ true
  same_text_refl none none e = refl
  same_text_refl (some s) (some t) e = (eq_iff s t).1 (some_eq e)
    where
      some_eq : {x y : String} → some x ≡ some y → x ≡ y
      some_eq h = cc
  same_text_refl none (some t) e = cc
  same_text_refl (some s) none e = cc

  requests_refl : (bytes : ℤ) → requests (some (some bytes)) bytes ≡ true
  requests_refl bytes = ground arith

  pub other_storage :
      (existing : CachedStatefulSet Strategy)
      → has_storage json w storage cache existing ≡ false
      → (existing.storage_request ≢ some (some storage.storage_request_bytes))
        ⊎ (existing.volume_attributes_class_name ≢ storage.volume_attributes_class_name)
  unfolding has_storage
  other_storage existing h =
      elim (Bool-cases (requests existing.storage_request storage.storage_request_bytes)) [
        | inl same ↦ inr (λ e. cc (
            sym h
            ∙ ap
                (λ b.
                  b
                  && same_text existing.volume_attributes_class_name
                      storage.volume_attributes_class_name)
                same
            ∙ same_text_refl _ _ e))
        | inr differs ↦ inl (λ e. cc (
            sym differs
            ∙ ap (λ r. requests r storage.storage_request_bytes) e
            ∙ requests_refl storage.storage_request_bytes))
      ]
