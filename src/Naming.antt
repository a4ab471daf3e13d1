-- ===== src/Naming.antt =====
-- The name of a version, `generate_pod_template_hash` and `safe_encode_u32` of
-- src/controllers/restatedeployment/reconcilers/replicaset.rs: what is hashed, and how the hash is
-- spelled. The bytes of a text and the FNV hash come from outside the repository.
pub mod Encoding
pub mod Injective
use Prim.Native.Char.{Char}
use restate_operator.Base.{
  ℕ, ℤ, pos, negsuc, zero, suc, ◌+◌, ◌-◌, ◌*◌, ◌/◌, ◌%◌, ◌^◌, ◌<◌, ◌==◌, ltb, ◌≡◌, Bool, true,
  String, Option, none, some, List, [], ◌∷◌, ◌++◌, length, if◌then◌else◌, concat,
}
use restate_operator.Resources.{RestateDeployment, RestateDeploymentStatus}
use restate_operator.Cloud.{codes, all}
use restate_operator.Cloud.InProcess.{InProcessTunnelParams}

-- `str::as_bytes` and `fnv::FnvHasher` over all that was written. Equal bytes are equal texts, and
-- the bytes of an ASCII text are its code points.
pub record Hashing : Type 0 where
  pub bytes : String → List ℕ
  pub fnv : List ℕ → ℕ
  pub bytes-injective : (s t : String) → bytes s ≡ bytes t → s ≡ t
  pub bytes-ascii : (s : String) → all (λ c. ltb c 128) (codes s) ≡ true → bytes s ≡ codes s

-- `to_be_bytes` of `width` bytes.
unfoldable pub be_bytes : ℕ → ℕ → List ℕ
be_bytes zero n = []
be_bytes (suc width) n = be_bytes width (n / 256) ++ (n % 256) ∷ []

-- An i32 as the u32 that it is stored as.
abbrev pub as_u32 : ℤ → ℕ
as_u32 (pos n) = n
as_u32 (negsuc n) = 2 ^ 32 - 1 - n

abbrev pub letter : ℕ → Char
letter zero = "4"
letter (suc zero) = "5"
letter (suc (suc zero)) = "6"
letter (suc (suc (suc zero))) = "7"
letter (suc (suc (suc (suc zero)))) = "8"
letter (suc (suc (suc (suc (suc zero))))) = "9"
letter (suc (suc (suc (suc (suc (suc zero)))))) = "b"
letter (suc (suc (suc (suc (suc (suc (suc zero))))))) = "c"
letter (suc (suc (suc (suc (suc (suc (suc (suc zero)))))))) = "d"
letter _ = "f"

-- `while val > 0`, with fuel; the number itself is enough.
unfoldable pub encode_on : ℕ → ℕ → String
encode_on zero val = ""
encode_on (suc fuel) val =
    let rest = encode_on fuel (val / 10) in
    if val == 0 then "" else String.◌∷◌ (letter (val % 10)) rest

unfoldable pub safe_encode_u32 : ℕ → String
unfolding encode_on
safe_encode_u32 val = encode_on val val

abbrev pub count_in : Option RestateDeploymentStatus → Option ℤ
count_in none = none
count_in (some status) = status.collision_count

abbrev pub collision_count_of : RestateDeployment → Option ℤ
collision_count_of rsd = count_in rsd.status

module _ (h : Hashing) where
  abbrev pub bytes_if : Option String → List ℕ
  bytes_if none = []
  bytes_if (some s) = h.bytes s

  -- A text with its length in front.
  unfoldable pub prefixed : String → List ℕ
  prefixed s = be_bytes 8 (length (h.bytes s)) ++ h.bytes s

  abbrev pub proxy_part : Option String → List ℕ
  proxy_part none = []
  proxy_part (some base) = h.bytes "proxy_base_url=" ++ prefixed base

  -- What an in-process tunnel adds.
  unfoldable pub tunnel_part : InProcessTunnelParams → List ℕ
  tunnel_part p =
      h.bytes "tunnel_mode=in-process"
      ++ (prefixed p.environment_id
          ++ (prefixed p.region ++ (prefixed p.signing_public_key ++ proxy_part p.proxy_base_url)))

  abbrev pub tunnel_if : Option InProcessTunnelParams → List ℕ
  tunnel_if none = []
  tunnel_if (some p) = tunnel_part p

  abbrev pub http11_part : Option Bool → List ℕ
  http11_part (some true) = h.bytes "use_http11"
  http11_part _ = []

  unfoldable pub collision_part : Option ℤ → List ℕ
  collision_part none = []
  collision_part (some count) = be_bytes 4 (as_u32 count)

  -- All that `generate_pod_template_hash` writes to the hasher.
  unfoldable pub hash_input : RestateDeployment → String → Option InProcessTunnelParams → List ℕ
  hash_input rsd pod_template params =
      h.bytes pod_template
      ++ (bytes_if rsd.restate.register.cluster
          ++ (bytes_if rsd.restate.service_path
              ++ (http11_part rsd.restate.use_http11
                  ++ (tunnel_if params ++ collision_part (collision_count_of rsd)))))

  -- The first four of the eight bytes of the hash.
  unfoldable pub generate_pod_template_hash :
      RestateDeployment → String → Option InProcessTunnelParams → String
  generate_pod_template_hash rsd pod_template params =
      safe_encode_u32 (h.fnv (hash_input rsd pod_template params) % 2 ^ 64 / 2 ^ 32)

  unfoldable pub versioned_name : RestateDeployment → String → Option InProcessTunnelParams → String
  versioned_name rsd pod_template params =
      concat (rsd.name ∷ "-" ∷ generate_pod_template_hash rsd pod_template params ∷ [])
