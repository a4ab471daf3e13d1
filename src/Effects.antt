-- ===== src/Effects.antt =====
-- Code that calls the Kubernetes API server and the Restate admin API. A run is the list of the
-- calls that were made, in order, and the result; `?` stops it at the first error, and a failed
-- `expect` at a panic. What the servers answer is a parameter of the code that calls them.
use restate_operator.Base.{
  ◌≡◌, refl, Option, none, some, List, [], ◌∷◌, ◌++◌, All, All-append, ◌⊎◌, inl, inr,
}
use restate_operator.Errors.{Error}

pub data Result {ℓ} (A : Type ℓ) : Type ℓ where
  ok : A → Result A
  err : Error → Result A
  panicked : Result A

pub record Run (C A : Type 0) : Type 0 where
  pub calls : List C
  pub result : Result A

module _ {C A : Type 0} where
  abbrev pub pure : A → Run C A
  pure a = record { calls = []; result = ok a }

  abbrev pub fail : Error → Run C A
  fail e = record { calls = []; result = err e }

  -- A result that takes no call.
  abbrev pub given : Result A → Run C A
  given r = record { calls = []; result = r }

  -- A failed `expect`.
  abbrev pub panic : Run C A
  panic = record { calls = []; result = panicked }

module _ {C : Type 0} where
  -- A call that returns nothing of interest, with the error that it was answered with.
  abbrev pub answered : C → Option Error → Run C (Unit {0})
  answered c none = record { calls = c ∷ []; result = ok tt }
  answered c (some e) = record { calls = c ∷ []; result = err e }

module _ {C A B : Type 0} where
  abbrev pub continue : List C → Result A → (A → Run C B) → Run C B
  continue cs (ok a) f = record { calls = cs ++ (f a).calls; result = (f a).result }
  continue cs (err e) f = record { calls = cs; result = err e }
  continue cs panicked f = record { calls = cs; result = panicked }

  infixl 5 ◌>>=◌ ◌>>◌
  unfoldable pub ◌>>=◌ : Run C A → (A → Run C B) → Run C B
  m >>= f = continue m.calls m.result f

  abbrev pub ◌>>◌ : Run C A → Run C B → Run C B
  m >> k = m >>= λ _. k

  -- What holds of every call of both parts holds of every call.
  pub All-bind :
      (P : C → Type 0) (m : Run C A) (f : A → Run C B)
      → All P m.calls
      → ((a : A) → m.result ≡ ok a → All P (f a).calls)
      → All P (m >>= f).calls
  unfolding ◌>>=◌
  All-bind P m f h k = go m.calls m.result h k
    where
      go :
          (cs : List C) (r : Result A)
          → All P cs
          → ((a : A) → r ≡ ok a → All P (f a).calls)
          → All P (continue cs r f).calls
      go cs (ok a) h k = All-append P cs (f a).calls h (k a refl)
      go cs (err e) h k = h
      go cs panicked h k = h

  -- A run that succeeded is two runs that did, and made the calls of both.
  pub >>=-eq-ok :
      (m : Run C A) (f : A → Run C B) {b : B}
      → (m >>= f).result ≡ ok b
      → (a : A) × (m.result ≡ ok a)
        × ((f a).result ≡ ok b)
        × ((m >>= f).calls ≡ m.calls ++ (f a).calls)
  unfolding ◌>>=◌
  >>=-eq-ok m f {b} h = go m.calls m.result h
    where
      go :
          (cs : List C) (r : Result A)
          → (continue cs r f).result ≡ ok b
          → (a : A) × (r ≡ ok a)
            × ((f a).result ≡ ok b)
            × ((continue cs r f).calls ≡ cs ++ (f a).calls)
      go cs (ok a) h = (a, refl, h, refl)
      go cs (err e) h = cc
      go cs panicked h = cc

module _ {C : Type 0} where
  -- The call is among those that were made.
  abbrev pub Made : C → List C → Type 0
  Made c [] = ⊥
  Made c (x ∷ xs) = (c ≡ x) ⊎ Made c xs

  pub Made-append_left : (c : C) (xs ys : List C) → Made c xs → Made c (xs ++ ys)
  Made-append_left c [] ys h = absurd h
  Made-append_left c (x ∷ xs) ys (inl e) = inl e
  Made-append_left c (x ∷ xs) ys (inr k) = inr (Made-append_left c xs ys k)

  pub Made-append_right : (c : C) (xs ys : List C) → Made c ys → Made c (xs ++ ys)
  Made-append_right c [] ys h = h
  Made-append_right c (x ∷ xs) ys h = inr (Made-append_right c xs ys h)

module _ {C A B : Type 0} where
  -- The two parts of a run that succeeded, with the calls of each.
  pub >>=-Made :
      (m : Run C A) (f : A → Run C B) {b : B}
      → (m >>= f).result ≡ ok b
      → (a : A) × (m.result ≡ ok a)
        × ((f a).result ≡ ok b)
        × ((c : C) → Made c m.calls → Made c (m >>= f).calls)
        × ((c : C) → Made c (f a).calls → Made c (m >>= f).calls)
  >>=-Made m f h =
      let (a, e, k, calls) = >>=-eq-ok m f h in
      (
        a,
        e,
        k,
        λ c made. rw calls (Made-append_left c m.calls (f a).calls made),
        λ c made. rw calls (Made-append_right c m.calls (f a).calls made),
      )

module _ {C : Type 0} where
  pub answered-Made : (c : C) (e : Option Error) → Made c (answered c e).calls
  answered-Made c none = inl refl
  answered-Made c (some e) = inl refl

  pub answered-All : (P : C → Type 0) (c : C) (e : Option Error) → P c → All P (answered c e).calls
  answered-All P c none h = (h, tt)
  answered-All P c (some e) h = (h, tt)
