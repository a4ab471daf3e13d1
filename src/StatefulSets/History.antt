-- ===== src/StatefulSets/History.antt =====
-- What holds of each call of a run after the calls before it.
use restate_operator.Base.{◌≡◌, refl, sym, subst, inl, inr, List, [], ◌∷◌, ◌++◌, All}
use restate_operator.Effects.{Run, Result, ok, err, panicked, ◌>>=◌, continue, Made}
use mathlib.Core.List.{append_assoc, append-nil}

module _ {C : Type 0} (P : List C → C → Type 0) where
  -- After `before`, each call satisfies `P` of the calls that precede it.
  abbrev pub AllSince : List C → List C → Type 0
  AllSince before [] = Unit
  AllSince before (c ∷ cs) = P before c × AllSince (before ++ c ∷ []) cs

  pub AllSince-append :
      (before xs ys : List C)
      → AllSince before xs
      → AllSince (before ++ xs) ys
      → AllSince before (xs ++ ys)
  AllSince-append before [] ys h k = rw append-nil at k
  AllSince-append before (x ∷ xs) ys h k =
      (h.0, AllSince-append (before ++ x ∷ []) xs ys h.1 (rw append_assoc k))

  pub All-AllSince :
      (Q : C → Type 0)
      → ((before : List C) (c : C) → Q c → P before c)
      → (before cs : List C) → All Q cs
      → AllSince before cs
  All-AllSince Q q before [] h = tt
  All-AllSince Q q before (c ∷ cs) h = (q before c h.0, All-AllSince Q q (before ++ c ∷ []) cs h.1)

  pub Made-AllSince :
      (c : C) (before cs : List C)
      → Made c cs
      → AllSince before cs
      → (earlier : List C) × P earlier c
  Made-AllSince c before (x ∷ xs) (inl e) h = (before, subst (P before) (sym e) h.0)
  Made-AllSince c before (x ∷ xs) (inr made) h = Made-AllSince c (before ++ x ∷ []) xs made h.1
  Made-AllSince c before [] made h = absurd made

  module _ {A B : Type 0} where
    pub AllSince-bind :
        (before : List C) (m : Run C A) (f : A → Run C B)
        → AllSince before m.calls
        → ((a : A) → m.result ≡ ok a → AllSince (before ++ m.calls) (f a).calls)
        → AllSince before (m >>= f).calls
    unfolding ◌>>=◌
    AllSince-bind before m f h k = go m.calls m.result h k
      where
        go :
            (cs : List C) (r : Result A)
            → AllSince before cs
            → ((a : A) → r ≡ ok a → AllSince (before ++ cs) (f a).calls)
            → AllSince before (continue cs r f).calls
        go cs (ok a) h k = AllSince-append before cs (f a).calls h (k a refl)
        go cs (err e) h k = h
        go cs panicked h k = h
