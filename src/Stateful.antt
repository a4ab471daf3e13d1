-- ===== src/Stateful.antt =====
-- Code that changes a state in place while it makes calls: what it has changed stays when `?` stops
-- it. `status: &mut RestateDeploymentStatus` of the Knative reconciler is such a state.
use restate_operator.Base.{◌≡◌, refl, List, [], ◌++◌, All, All-append}
use restate_operator.Effects.{Run, Result, ok, err, panicked}

abbrev pub Stateful : Type 0 → Type 0 → Type 0 → Type 0
Stateful C S A = S → Run C A × S

module _ {C S : Type 0} where
  abbrev pub return : {A : Type 0} → A → Stateful C S A
  return a s = (record { calls = []; result = ok a }, s)

  -- A run that does not see the state, and a change of the state.
  abbrev pub run : {A : Type 0} → Run C A → Stateful C S A
  run r s = (r, s)

  abbrev pub update : (S → S) → Stateful C S (Unit {0})
  update f s = (record { calls = []; result = ok tt }, f s)

  module _ {A B : Type 0} where
    abbrev pub go_on : List C → Result A → S → (A → Stateful C S B) → Run C B × S
    go_on cs (ok a) s f =
        (record { calls = cs ++ (f a s).0.calls; result = (f a s).0.result }, (f a s).1)
    go_on cs (err e) s f = (record { calls = cs; result = err e }, s)
    go_on cs panicked s f = (record { calls = cs; result = panicked }, s)

    infixl 5 ◌>>=◌ ◌>>◌
    unfoldable pub ◌>>=◌ : Stateful C S A → (A → Stateful C S B) → Stateful C S B
    (m >>= f) s = go_on (m s).0.calls (m s).0.result (m s).1 f

    abbrev pub ◌>>◌ : Stateful C S A → Stateful C S B → Stateful C S B
    m >> k = m >>= λ _. k

    -- What holds of every call of both parts holds of every call.
    pub All-bind :
        (P : C → Type 0) (m : Stateful C S A) (f : A → Stateful C S B) (s : S)
        → All P (m s).0.calls
        → ((a : A) → (m s).0.result ≡ ok a → All P (f a (m s).1).0.calls)
        → All P ((m >>= f) s).0.calls
    unfolding ◌>>=◌
    All-bind P m f s h k = go (m s).0.calls (m s).0.result h k
      where
        go :
            (cs : List C) (r : Result A)
            → All P cs
            → ((a : A) → r ≡ ok a → All P (f a (m s).1).0.calls)
            → All P (go_on cs r (m s).1 f).0.calls
        go cs (ok a) h k = All-append P cs (f a (m s).1).0.calls h (k a refl)
        go cs (err e) h k = h
        go cs panicked h k = h

    -- What holds of the state after each part holds at the end, wherever the run stops.
    pub holds-bind :
        (I : S → Type 0) (m : Stateful C S A) (f : A → Stateful C S B) (s : S)
        → I (m s).1
        → ((a : A) → (m s).0.result ≡ ok a → I (f a (m s).1).1)
        → I ((m >>= f) s).1
    unfolding ◌>>=◌
    holds-bind I m f s h k = go (m s).0.calls (m s).0.result k
      where
        go :
            (cs : List C) (r : Result A)
            → ((a : A) → r ≡ ok a → I (f a (m s).1).1)
            → I (go_on cs r (m s).1 f).1
        go cs (ok a) k = k a refl
        go cs (err e) k = h
        go cs panicked k = h

    -- A run that succeeded is two runs that did, and ends in the state of the second.
    pub >>=-eq-ok :
        (m : Stateful C S A) (f : A → Stateful C S B) (s : S) {b : B}
        → ((m >>= f) s).0.result ≡ ok b
        → (a : A) × ((m s).0.result ≡ ok a)
          × ((f a (m s).1).0.result ≡ ok b)
          × (((m >>= f) s).1 ≡ (f a (m s).1).1)
    unfolding ◌>>=◌
    >>=-eq-ok m f s {b} h = go (m s).0.calls (m s).0.result h
      where
        go :
            (cs : List C) (r : Result A)
            → (go_on cs r (m s).1 f).0.result ≡ ok b
            → (a : A) × (r ≡ ok a)
              × ((f a (m s).1).0.result ≡ ok b)
              × ((go_on cs r (m s).1 f).1 ≡ (f a (m s).1).1)
        go cs (ok a) h = (a, refl, h, refl)
        go cs (err e) h = cc
        go cs panicked h = cc
