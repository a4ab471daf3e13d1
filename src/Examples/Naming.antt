-- ===== src/Examples/Naming.antt =====
-- The theorems on the name of a version, at concrete ones.
use text.Mathlib.TextEquality.{Char-path}
use restate_operator.Base.{ℕ, ◌≡◌, ◌≤◌, refl, String, pos, none, some, List, ◌∷◌, arith, length}
use restate_operator.Cloud.{codes}
use restate_operator.Cloud.InProcess.{InProcessTunnelParams}
use restate_operator.Naming.{Hashing, safe_encode_u32}
use restate_operator.Naming.Injective.{IsHashable, tunnel_part-injective}
use restate_operator.Naming.Encoding.{decode, safe_encode_u32-decodes}

pub codes-injective : (s t : String) → codes s ≡ codes t → s ≡ t
unfolding codes
codes-injective String.[] String.[] e = refl
codes-injective String.[] (String.◌∷◌ c t) e = cc
codes-injective (String.◌∷◌ c s) String.[] e = cc
codes-injective (String.◌∷◌ c s) (String.◌∷◌ d t) e =
    let front = Char-path c d (head_eq e) in
    let rest = codes-injective s t (tail_eq e) in λ i. String.◌∷◌ (front i) (rest i)
  where
    head_eq : {x y : ℕ} {xs ys : List ℕ} → x ∷ xs ≡ y ∷ ys → x ≡ y
    head_eq k = cc

    tail_eq : {x y : ℕ} {xs ys : List ℕ} → x ∷ xs ≡ y ∷ ys → xs ≡ ys
    tail_eq k = cc

-- The hash is the number of the bytes.
abbrev pub counting : Hashing
counting = record {
  bytes = codes;
  fnv = λ bytes. length bytes;
  bytes-injective = codes-injective;
  bytes-ascii = λ s e. refl;
}

abbrev tunnel : InProcessTunnelParams
tunnel = record {
  environment_id = "env_1";
  region = "us";
  signing_public_key = "publickeyv1_x";
  proxy_base_url = none;
}

tunnel-IsHashable : IsHashable counting tunnel
unfolding codes
tunnel-IsHashable = record {
  environment_id_sized = omega arith;
  region_sized = omega arith;
  key_sized = omega arith;
  proxy_sized = tt;
}

tunnel_part-injective_example : (tunnel ≡ tunnel) × (some (pos 1) ≡ some (pos 1))
tunnel_part-injective_example =
    tunnel_part-injective counting tunnel tunnel (some (pos 1)) (some (pos 1)) tunnel-IsHashable
      tunnel-IsHashable (omega arith) (omega arith) refl

safe_encode_u32-decodes_example :
    (decode (safe_encode_u32 4096) ≡ 4096) × (length (codes (safe_encode_u32 4096)) ≤ 10)
safe_encode_u32-decodes_example = safe_encode_u32-decodes 4096 (omega arith)
