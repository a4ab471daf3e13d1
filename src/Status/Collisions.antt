-- ===== src/Status/Collisions.antt =====
-- What a hash collision leads to: `rsd_status.collision_count` and the hash of the next pass.
use restate_operator.Base.{
  ℕ, ℤ, pos, negsuc, zero, suc, ◌≡◌, ◌≢◌, refl, ◌∙◌, subst, String, Option, none, some, List, ◌++◌,
  arith, suc_i32, unwrap_or,
}
use restate_operator.Errors.{hash_collision}
use restate_operator.Platform.{Chrono, Random}
use restate_operator.Resources.{RestateDeployment, RestateDeploymentStatus, Condition}
use restate_operator.Effects.{ok}
use restate_operator.Deletion.Finalizer.{requeue}
use restate_operator.Cloud.InProcess.{InProcessTunnelParams}
use restate_operator.Naming.{
  Hashing, hash_input, collision_count_of, count_in, tunnel_if, http11_part, bytes_if,
}
use restate_operator.Naming.Injective.{IsCount, append-split, collision_part-injective}
use restate_operator.Status.{Displays, default_status, status_of, of_error, concluded_status}

suc_i32-differs : (c : ℤ) → IsCount (some c) → IsCount (some (suc_i32 c)) × (suc_i32 c ≢ c)
unfolding suc_i32
suc_i32-differs (pos n) h = ground arith
suc_i32-differs (negsuc zero) h = (omega arith, λ e. cc)
suc_i32-differs (negsuc (suc n)) h = (omega arith, λ e. ground arith)

counted :
    (c : Option ℤ)
    → IsCount c
    → IsCount (some (suc_i32 (unwrap_or c (pos 0)))) × (some (suc_i32 (unwrap_or c (pos 0))) ≢ c)
counted none k = ((suc_i32-differs (pos 0) (omega arith)).0, λ e. cc)
counted (some c) k = ((suc_i32-differs c k).0, λ e. (suc_i32-differs c k).1 (some_eq e))
  where
    some_eq : {a b : ℤ} → some a ≡ some b → a ≡ b
    some_eq p = cc

count-status_of :
    (s : Option RestateDeploymentStatus) → count_in s ≡ (unwrap_or s default_status).collision_count
count-status_of none = refl
count-status_of (some s) = refl

module _ (h : Hashing) where
  prefix_cancel : (xs : List ℕ) {us vs : List ℕ} → xs ++ us ≡ xs ++ vs → us ≡ vs
  prefix_cancel xs e = (append-split xs xs refl e).1

  -- The next pass after a hash collision, over the same template and tunnel, is at once, and hashes
  -- other bytes, where the collision count of the status is an i32: the count has changed, even
  -- where it wraps.
  pub of_error-rehashes :
      (chrono : Chrono) (random : Random) (display : Displays) (now : ℕ)
      (existing_ready : Option Condition) (rsd : RestateDeployment)
      (selector : Option (Option String)) (template : String)
      (params : Option InProcessTunnelParams)
      → IsCount (collision_count_of rsd)
      → let v =
          of_error chrono random display now existing_ready rsd.replicas
            (status_of rsd)
            hash_collision in
        (v.result ≡ ok (requeue 0))
        × (hash_input h
              (record rsd {
                status =
                    some (concluded_status chrono random display now existing_ready rsd selector v);
              })
              template
              params
            ≢ hash_input h rsd template params)
  unfolding of_error concluded_status hash_input
  of_error-rehashes chrono random display now existing_ready rsd selector template params count =
      let same = count-status_of rsd.status in
      let next = counted (status_of rsd).collision_count (subst IsCount same count) in
      (
        refl,
        λ e. next.1 (
            collision_part-injective h _ _ next.0 count (
              prefix_cancel (tunnel_if h params) (
                prefix_cancel (http11_part h rsd.restate.use_http11) (
                  prefix_cancel (bytes_if h rsd.restate.service_path) (
                    prefix_cancel (bytes_if h rsd.restate.register.cluster)
                      (prefix_cancel (h.bytes template) e)))))
            ∙ same),
      )
