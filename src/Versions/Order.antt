-- ===== src/Versions/Order.antt =====
-- Lemmas on the sort by creation time.
use restate_operator.Base.{
  ◌≡◌, refl, inl, inr, true, false, Bool, List, [], ◌∷◌, Memᴰ, arith, filter, mem-filter,
  mem-of_filter, Bool-cases, none, some, ℕ, ◌↔◌, Option,
}
use restate_operator.Resources.{ObjectMeta}
use restate_operator.Versions.{is_newer, insert_by_creation, sort_by_creation}

module _ {K : Type 0} (meta : K → ObjectMeta) where
  mem-of_insert : (x k : K) (xs : List K) → Memᴰ x (insert_by_creation meta k xs) → Memᴰ x (k ∷ xs)
  unfolding insert_by_creation
  mem-of_insert x k [] m = m
  mem-of_insert x k (y ∷ xs) m =
      elim (Bool-cases (is_newer (meta y).creation_timestamp (meta k).creation_timestamp)) [
        | inl e ↦ go (mem-of_insert x k xs) (rw e at m)
        | inr e ↦ rw e at m
      ]
    where
      skip : Memᴰ x (k ∷ xs) → Memᴰ x (k ∷ y ∷ xs)
      skip (Memᴰ.head e) = Memᴰ.head e
      skip (Memᴰ.tail k) = Memᴰ.tail (Memᴰ.tail k)

      go :
          (Memᴰ x (insert_by_creation meta k xs) → Memᴰ x (k ∷ xs))
          → Memᴰ x (y ∷ insert_by_creation meta k xs)
          → Memᴰ x (k ∷ y ∷ xs)
      go rest (Memᴰ.head e) = Memᴰ.tail (Memᴰ.head e)
      go rest (Memᴰ.tail k) = skip (rest k)

  mem-insert : (x k : K) (xs : List K) → Memᴰ x (k ∷ xs) → Memᴰ x (insert_by_creation meta k xs)
  unfolding insert_by_creation
  mem-insert x k [] m = m
  mem-insert x k (y ∷ xs) m =
      elim (Bool-cases (is_newer (meta y).creation_timestamp (meta k).creation_timestamp)) [
        | inl e ↦ rw e (go (mem-insert x k xs) m)
        | inr e ↦ rw e m
      ]
    where
      go :
          (Memᴰ x (k ∷ xs) → Memᴰ x (insert_by_creation meta k xs))
          → Memᴰ x (k ∷ y ∷ xs)
          → Memᴰ x (y ∷ insert_by_creation meta k xs)
      go rest (Memᴰ.head e) = Memᴰ.tail (rest (Memᴰ.head e))
      go rest (Memᴰ.tail (Memᴰ.head e)) = Memᴰ.head e
      go rest (Memᴰ.tail (Memᴰ.tail k)) = Memᴰ.tail (rest (Memᴰ.tail k))

  mem-of_sort : (x : K) (xs : List K) → Memᴰ x (sort_by_creation meta xs) → Memᴰ x xs
  unfolding sort_by_creation
  mem-of_sort x [] m = m
  mem-of_sort x (k ∷ rest) m =
      go (mem-of_sort x rest) (mem-of_insert x k (sort_by_creation meta rest) m)
    where
      go :
          (Memᴰ x (sort_by_creation meta rest) → Memᴰ x rest)
          → Memᴰ x (k ∷ sort_by_creation meta rest)
          → Memᴰ x (k ∷ rest)
      go ih (Memᴰ.head e) = Memᴰ.head e
      go ih (Memᴰ.tail k) = Memᴰ.tail (ih k)

  mem-sort : (x : K) (xs : List K) → Memᴰ x xs → Memᴰ x (sort_by_creation meta xs)
  unfolding sort_by_creation
  mem-sort x [] m = m
  mem-sort x (k ∷ rest) m = mem-insert x k (sort_by_creation meta rest) (go (mem-sort x rest) m)
    where
      go :
          (Memᴰ x rest → Memᴰ x (sort_by_creation meta rest))
          → Memᴰ x (k ∷ rest)
          → Memᴰ x (k ∷ sort_by_creation meta rest)
      go ih (Memᴰ.head e) = Memᴰ.head e
      go ih (Memᴰ.tail k) = Memᴰ.tail (ih k)

  -- No version of the list is newer than the one before it.
  abbrev pub IsNewestFirst : List K → Type 0
  IsNewestFirst [] = Unit
  IsNewestFirst (x ∷ []) = Unit
  IsNewestFirst (x ∷ y ∷ xs) =
      (is_newer (meta y).creation_timestamp (meta x).creation_timestamp ≡ false)
      × IsNewestFirst (y ∷ xs)

  older-of_newer : (a b : Option ℕ) → is_newer a b ≡ true → is_newer b a ≡ false
  older-of_newer none b h = cc
  older-of_newer (some a) none h = refl
  older-of_newer (some a) (some b) h = ground arith

  insert-IsNewestFirst :
      (k : K) (xs : List K) → IsNewestFirst xs → IsNewestFirst (insert_by_creation meta k xs)
  unfolding insert_by_creation
  insert-IsNewestFirst k [] h = tt
  insert-IsNewestFirst k (x ∷ []) h =
      elim (Bool-cases (is_newer (meta x).creation_timestamp (meta k).creation_timestamp)) [
        | inl e ↦
            rw e (older-of_newer (meta x).creation_timestamp (meta k).creation_timestamp e, tt)
        | inr e ↦ rw e (e, tt)
      ]
  insert-IsNewestFirst k (x ∷ y ∷ xs) h = ground (
    arith,
    insert-IsNewestFirst k (y ∷ xs) h.1,
    older-of_newer (meta x).creation_timestamp (meta k).creation_timestamp,
  )

  pub sort-IsNewestFirst : (xs : List K) → IsNewestFirst (sort_by_creation meta xs)
  unfolding sort_by_creation
  sort-IsNewestFirst [] = tt
  sort-IsNewestFirst (k ∷ rest) =
      insert-IsNewestFirst k (sort_by_creation meta rest) (sort-IsNewestFirst rest)

  pub mem-sort_filter :
      (p : K → Bool) (store : List K) (k : K)
      → Memᴰ k (sort_by_creation meta (filter p store)) ↔ (Memᴰ k store × (p k ≡ true))
  mem-sort_filter p store k = (
    λ m. mem-of_filter p store (mem-of_sort k (filter p store) m),
    λ h. mem-sort k (filter p store) (mem-filter p store h.1 h.0),
  )

  pub sort-nil : (xs : List K) → (xs ≡ []) ↔ (sort_by_creation meta xs ≡ [])
  unfolding sort_by_creation insert_by_creation
  sort-nil [] = (λ h. refl, λ h. refl)
  sort-nil (k ∷ rest) = (λ h. cc, λ h. absurd (not_empty (sort_by_creation meta rest) h))
    where
      not_empty : (ys : List K) → ¬ (insert_by_creation meta k ys ≡ [])
      not_empty [] h = cc
      not_empty (y ∷ ys) h = ground arith
