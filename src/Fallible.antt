-- ===== src/Fallible.antt =====
-- Code that fails with an `Error` and makes no calls: `?` on a `Result`.
use restate_operator.Base.{◌≡◌, refl, Bool, true, false, Option, none, some}
use restate_operator.Errors.{Error}
use restate_operator.Effects.{Result, ok, err, panicked}

module _ {ℓ κ} {A : Type ℓ} {B : Type κ} where
  infixl 5 ◌>>=◌
  unfoldable pub ◌>>=◌ : Result A → (A → Result B) → Result B
  panicked >>= next = panicked
  err e >>= next = err e
  ok a >>= next = next a

  -- What a chain that succeeded went through.
  pub >>=-eq-ok :
      (first : Result A) (next : A → Result B) {b : B}
      → (first >>= next) ≡ ok b
      → (a : A) × (first ≡ ok a) × (next a ≡ ok b)
  unfolding ◌>>=◌
  >>=-eq-ok panicked next h = cc
  >>=-eq-ok (err e) next h = cc
  >>=-eq-ok (ok a) next h = (a, refl, h)

-- `let Some(a) = o else { return Err(e) }`, and `if bad { return Err(e) }`.
unfoldable pub ok_or {ℓ} : {A : Type ℓ} → Option A → Error → Result A
ok_or none e = err e
ok_or (some a) e = ok a

unfoldable pub require : Bool → Error → Result (Unit {0})
require true e = ok tt
require false e = err e

pub require-ok : (b : Bool) (e : Error) → require b e ≡ ok tt → b ≡ true
unfolding require
require-ok true e h = refl
require-ok false e h = cc

pub ok_or-ok {ℓ} : {A : Type ℓ} (o : Option A) (e : Error) {a : A} → ok_or o e ≡ ok a → o ≡ some a
unfolding ok_or
ok_or-ok none e h = cc
ok_or-ok (some b) e h = cc

pub ok-injective {ℓ} : {A : Type ℓ} {a b : A} → ok a ≡ ok b → a ≡ b
ok-injective h = cc
