-- ===== src/Base/Lists.antt =====
-- Lists with Boolean tests, measured by native numbers, and association lists keyed by text.
use Prim.Native.Nat.{ℕ, suc, ◌+◌}
use Prim.Native.String.{String}
use mathlib.Core.Path.{◌≡◌, refl}
use mathlib.Core.Bool.{Bool, true, false, ◌||◌}
use mathlib.Core.Logic.{inl, inr}
use mathlib.Core.Option.{Option, none, some}
use mathlib.Core.List.{List, [], ◌∷◌, ◌++◌, Memᴰ}
use text.Mathlib.Text.{◌==◌ as str_eq}
use text.Mathlib.TextEquality.{eq_iff}
use native.Mathlib.Omega.{arith}
use restate_operator.Base.Tests.{if◌then◌else◌, Bool-cases, is_some, unwrap_or}

module _ {ℓ} {A : Type ℓ} where
  abbrev pub length : List A → ℕ
  length [] = 0
  length (x ∷ xs) = suc (length xs)

  pub length-append : (xs ys : List A) → length (xs ++ ys) ≡ length xs + length ys
  length-append [] ys = omega arith
  length-append (x ∷ xs) ys = omega (arith, length-append xs ys)

  -- `Iterator::filter`, `any` and `find` on a Boolean test.
  abbrev pub filter : (A → Bool) → List A → List A
  filter p [] = []
  filter p (x ∷ xs) = let rest = filter p xs in if p x then x ∷ rest else rest

  abbrev pub any : (A → Bool) → List A → Bool
  any p [] = false
  any p (x ∷ xs) = if p x then true else any p xs

  abbrev pub find : (A → Bool) → List A → Option A
  find p [] = none
  find p (x ∷ xs) = if p x then some x else find p xs

  abbrev pub is_empty : List A → Bool
  is_empty [] = true
  is_empty (x ∷ xs) = false

  -- A predicate on every element.
  abbrev pub All {κ} : (A → Type κ) → List A → Type κ
  All P [] = Unit
  All P (x ∷ xs) = P x × All P xs

  pub All-append {κ} : (P : A → Type κ) (xs ys : List A) → All P xs → All P ys → All P (xs ++ ys)
  All-append P [] ys h k = k
  All-append P (x ∷ xs) ys h k = (h.0, All-append P xs ys h.1 k)

  pub All-map_of {κ μ} :
      (P : A → Type κ) (Q : A → Type μ) (xs : List A) → ((x : A) → P x → Q x) → All P xs → All Q xs
  All-map_of P Q [] f h = tt
  All-map_of P Q (x ∷ xs) f h = (f x h.0, All-map_of P Q xs f h.1)

  pub All-of_mem {κ} : (P : A → Type κ) (xs : List A) → ((x : A) → Memᴰ x xs → P x) → All P xs
  All-of_mem P [] f = tt
  All-of_mem P (x ∷ xs) f = (f x (Memᴰ.head refl), All-of_mem P xs (λ y m. f y (Memᴰ.tail m)))

  pub filter-append :
      (p : A → Bool) (xs ys : List A) → filter p (xs ++ ys) ≡ filter p xs ++ filter p ys
  filter-append p [] ys = refl
  filter-append p (x ∷ xs) ys = ground (arith, filter-append p xs ys)

  pub any-append : (p : A → Bool) (xs ys : List A) → any p (xs ++ ys) ≡ (any p xs || any p ys)
  any-append p [] ys = refl
  any-append p (x ∷ xs) ys = ground (arith, any-append p xs ys)

  pub mem-filter :
      (p : A → Bool) {x : A} (xs : List A) → p x ≡ true → Memᴰ x xs → Memᴰ x (filter p xs)
  mem-filter p [] h m = elim m [ ]
  mem-filter p {x} (y ∷ xs) h (Memᴰ.head e) = rw (← e, h) (Memᴰ.head refl)
  mem-filter p {x} (y ∷ xs) h (Memᴰ.tail m) = elim (Bool-cases (p y)) [
    | inl e ↦ rw e (Memᴰ.tail (mem-filter p xs h m))
    | inr e ↦ rw e (mem-filter p xs h m)
  ]

  pub mem-of_filter :
      (p : A → Bool) {x : A} (xs : List A) → Memᴰ x (filter p xs) → Memᴰ x xs × (p x ≡ true)
  mem-of_filter p [] m = elim m [ ]
  mem-of_filter p {x} (y ∷ xs) m = elim (Bool-cases (p y)) [
    | inl e ↦ go (mem-of_filter p xs) (rw e at m) e
    | inr e ↦ let (k, h) = mem-of_filter p xs (rw e at m) in (Memᴰ.tail k, h)
  ]
    where
      go :
          (Memᴰ x (filter p xs) → Memᴰ x xs × (p x ≡ true))
          → Memᴰ x (y ∷ filter p xs)
          → p y ≡ true
          → Memᴰ x (y ∷ xs) × (p x ≡ true)
      go rest (Memᴰ.head e) h = (Memᴰ.head e, rw e h)
      go rest (Memᴰ.tail k) h = (Memᴰ.tail (rest k).0, (rest k).1)

  pub All-mem {κ} : (P : A → Type κ) {x : A} (xs : List A) → All P xs → Memᴰ x xs → P x
  All-mem P [] h m = elim m [ ]
  All-mem P (y ∷ xs) h (Memᴰ.head e) = rw e h.0
  All-mem P (y ∷ xs) h (Memᴰ.tail m) = All-mem P xs h.1 m

-- An association list for a `HashMap<String, V>` or a `BTreeMap<String, V>`.
module _ {ℓ} {V : Type ℓ} where
  unfoldable pub lookup : String → List (String × V) → Option V
  lookup key [] = none
  lookup key (entry ∷ rest) = if str_eq entry.0 key then some entry.1 else lookup key rest

  -- `HashMap::insert`: the new value replaces an old one.
  unfoldable pub insert : String → V → List (String × V) → List (String × V)
  insert key value [] = (key, value) ∷ []
  insert key value (entry ∷ rest) =
      let others = insert key value rest in
      if str_eq entry.0 key then (key, value) ∷ rest else entry ∷ others

  pub lookup-insert :
      (key other : String) (value : V) (entries : List (String × V))
      → lookup other (insert key value entries)
        ≡ (if str_eq key other then some value else lookup other entries)
  unfolding lookup insert
  lookup-insert key other value [] = refl
  lookup-insert key other value (entry ∷ rest) =
      let ih = lookup-insert key other value rest in
      let (name, held) = entry in
      ground (arith, ih, eq_iff name other, eq_iff name key, eq_iff key other)

module _ {ℓ} {V : Type ℓ} where
  -- `BTreeMap::remove`, and `entry(key).or_insert(value)`.
  unfoldable pub remove : String → List (String × V) → List (String × V)
  remove key [] = []
  remove key (entry ∷ rest) =
      let others = remove key rest in if str_eq entry.0 key then others else entry ∷ others

  unfoldable pub or_insert : String → V → List (String × V) → List (String × V)
  unfolding lookup insert
  or_insert key value entries =
      if is_some (lookup key entries) then entries else insert key value entries

  pub lookup-remove :
      (key other : String) (entries : List (String × V))
      → lookup other (remove key entries)
        ≡ (if str_eq key other then none else lookup other entries)
  unfolding lookup remove
  lookup-remove key other [] = ground arith
  lookup-remove key other (entry ∷ rest) =
      let ih = lookup-remove key other rest in
      let (name, held) = entry in
      ground (arith, ih, eq_iff name other, eq_iff name key, eq_iff key other)

  pub lookup-or_insert :
      (key other : String) (value : V) (entries : List (String × V))
      → lookup other (or_insert key value entries) ≡ (
          if str_eq key other
          then some (unwrap_or (lookup key entries) value)
          else lookup other entries)
  unfolding or_insert
  lookup-or_insert key other value entries =
      ground (arith, lookup-insert key other value entries, eq_iff key other)
