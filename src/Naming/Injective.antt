-- ===== src/Naming/Injective.antt =====
-- The bytes that an in-process tunnel adds to the hash of a version.
use restate_operator.Base.{
  ℕ, ℤ, pos, negsuc, zero, suc, ◌/◌, ◌%◌, ◌^◌, ◌<◌, ◌≤◌, ◌≡◌, refl, sym, ◌∙◌, ap, String, Option,
  none, some, List, [], ◌∷◌, ◌++◌, arith, length, length-append,
}
use native.Mathlib.Nat.{pow-suc}
use mathlib.Core.List.{append_assoc}
use restate_operator.Cloud.{codes}
use restate_operator.Cloud.InProcess.{InProcessTunnelParams}
use restate_operator.Naming.{
  Hashing, be_bytes, as_u32, prefixed, proxy_part, tunnel_part, collision_part,
}

module _ {A : Type 0} where
  pub append-split :
      (xs ys : List A) {us vs : List A}
      → length xs ≡ length ys
      → xs ++ us ≡ ys ++ vs
      → (xs ≡ ys) × (us ≡ vs)
  append-split [] [] e h = (refl, h)
  append-split [] (y ∷ ys) e h = absurd (omega arith)
  append-split (x ∷ xs) [] e h = absurd (omega arith)
  append-split (x ∷ xs) (y ∷ ys) e h =
      let (p, q) = append-split xs ys (omega arith) (tail_eq h) in (cc, q)
    where
      tail_eq : {a b : A} {l r : List A} → a ∷ l ≡ b ∷ r → l ≡ r
      tail_eq k = cc

head_eq : {x y : ℕ} → x ∷ [] ≡ y ∷ [] → x ≡ y
head_eq h = cc

length-be_bytes : (width n : ℕ) → length (be_bytes width n) ≡ width
unfolding be_bytes
length-be_bytes zero n = refl
length-be_bytes (suc width) n = omega (
  arith,
  length-append {0} (be_bytes width (n / 256)) (n % 256 ∷ []),
  length-be_bytes width (n / 256),
)

be_bytes-injective :
    (width a b : ℕ)
    → a < 256 ^ width
    → b < 256 ^ width
    → be_bytes width a ≡ be_bytes width b
    → a ≡ b
unfolding be_bytes
be_bytes-injective zero a b ha hb e = omega arith
be_bytes-injective (suc width) a b ha hb e =
    let (front, last) =
      append-split (be_bytes width (a / 256)) (be_bytes width (b / 256))
        (length-be_bytes width (a / 256) ∙ sym (length-be_bytes width (b / 256))) e in
    let upper =
      be_bytes-injective width (a / 256) (b / 256) (omega (arith, rw pow-suc at ha))
        (omega (arith, rw pow-suc at hb)) front in
    let lower = head_eq last in omega arith

-- A collision count of an i32.
abbrev pub IsCount : Option ℤ → Type 0
IsCount none = Unit
IsCount (some (pos n)) = n < 2 ^ 31
IsCount (some (negsuc n)) = n < 2 ^ 31

as_u32-bounded : (c : ℤ) → IsCount (some c) → as_u32 c < 256 ^ 4
as_u32-bounded (pos n) h = omega arith
as_u32-bounded (negsuc n) h = omega arith

as_u32-injective : (c d : ℤ) → IsCount (some c) → IsCount (some d) → as_u32 c ≡ as_u32 d → c ≡ d
as_u32-injective (pos n) (pos m) hc hd e = ap pos e
as_u32-injective (pos n) (negsuc m) hc hd e = absurd (omega arith)
as_u32-injective (negsuc n) (pos m) hc hd e = absurd (omega arith)
as_u32-injective (negsuc n) (negsuc m) hc hd e = ap negsuc (omega arith)

module _ (h : Hashing) where
  -- A text is not longer than a u64 counts.
  abbrev pub IsSized : String → Type 0
  IsSized s = length (h.bytes s) < 256 ^ 8

  prefixed-split :
      (s t : String) {us vs : List ℕ}
      → IsSized s
      → IsSized t
      → prefixed h s ++ us ≡ prefixed h t ++ vs
      → (s ≡ t) × (us ≡ vs)
  unfolding prefixed
  prefixed-split s t hs ht e =
      let (sizes, texts) =
        append-split (be_bytes 8 (length (h.bytes s))) (be_bytes 8 (length (h.bytes t)))
          (length-be_bytes 8 _ ∙ sym (length-be_bytes 8 _))
          (rw append_assoc at rw append_assoc at e) in
      let (same, rest) =
        append-split (h.bytes s) (h.bytes t) (be_bytes-injective 8 _ _ hs ht sizes) texts in
      (h.bytes-injective s t same, rest)

  abbrev IsProxySized : Option String → Type 0
  IsProxySized none = Unit
  IsProxySized (some base) = IsSized base

  tag_is_long : 4 < length (h.bytes "proxy_base_url=")
  unfolding codes
  tag_is_long = rw (h.bytes-ascii "proxy_base_url=" refl) (omega arith)

  length-collision_part : (c : Option ℤ) → length (collision_part h c) ≤ 4
  unfolding collision_part
  length-collision_part none = omega arith
  length-collision_part (some c) = omega (arith, length-be_bytes 4 (as_u32 c))

  pub collision_part-injective :
      (c d : Option ℤ) → IsCount c → IsCount d → collision_part h c ≡ collision_part h d → c ≡ d
  unfolding collision_part
  collision_part-injective none none hc hd e = refl
  collision_part-injective none (some d) hc hd e =
      absurd (omega (arith, ap length e, length-be_bytes 4 (as_u32 d)))
  collision_part-injective (some c) none hc hd e =
      absurd (omega (arith, ap length e, length-be_bytes 4 (as_u32 c)))
  collision_part-injective (some c) (some d) hc hd e = ap some (
      as_u32-injective c d hc hd
        (be_bytes-injective 4 _ _ (as_u32-bounded c hc) (as_u32-bounded d hd) e))

  proxy_is_long : (base : String) (us : List ℕ) → 4 < length (proxy_part h (some base) ++ us)
  proxy_is_long base us = omega (
    arith,
    tag_is_long,
    length-append {0} (h.bytes "proxy_base_url=" ++ prefixed h base) us,
    length-append {0} (h.bytes "proxy_base_url=") (prefixed h base),
  )

  proxy_part-split :
      (a b : Option String) (c d : Option ℤ)
      → IsProxySized a
      → IsProxySized b
      → IsCount c
      → IsCount d
      → proxy_part h a ++ collision_part h c ≡ proxy_part h b ++ collision_part h d
      → (a ≡ b) × (c ≡ d)
  proxy_part-split none none c d ha hb hc hd e = (refl, collision_part-injective c d hc hd e)
  proxy_part-split none (some b) c d ha hb hc hd e =
      absurd
        (omega (arith, ap length e, length-collision_part c, proxy_is_long b (collision_part h d)))
  proxy_part-split (some a) none c d ha hb hc hd e =
      absurd
        (omega (arith, ap length e, length-collision_part d, proxy_is_long a (collision_part h c)))
  proxy_part-split (some a) (some b) c d ha hb hc hd e =
      let (_, rest) =
        append-split (h.bytes "proxy_base_url=") (h.bytes "proxy_base_url=") refl
          (regroup a (collision_part h c) b (collision_part h d) e) in
      let (same, counts) = prefixed-split a b ha hb rest in
      (ap some same, collision_part-injective c d hc hd counts)
    where
      regroup :
          (x : String) (us : List ℕ) (y : String) (vs : List ℕ)
          → proxy_part h (some x) ++ us ≡ proxy_part h (some y) ++ vs
          → h.bytes "proxy_base_url=" ++ (prefixed h x ++ us)
            ≡ h.bytes "proxy_base_url=" ++ (prefixed h y ++ vs)
      regroup x us y vs k =
          sym (append_assoc (h.bytes "proxy_base_url=") (prefixed h x) us)
          ∙ k
          ∙ append_assoc (h.bytes "proxy_base_url=") (prefixed h y) vs

  -- All texts of the parameters are no longer than a u64 counts.
  pub record IsHashable (p : InProcessTunnelParams) : Type 0 where
    pub environment_id_sized : IsSized p.environment_id
    pub region_sized : IsSized p.region
    pub key_sized : IsSized p.signing_public_key
    pub proxy_sized : IsProxySized p.proxy_base_url

  tunnel_part-spread :
      (p : InProcessTunnelParams) (us : List ℕ)
      → tunnel_part h p ++ us
        ≡ h.bytes "tunnel_mode=in-process"
          ++ (prefixed h p.environment_id
              ++ (prefixed h p.region
                  ++ (prefixed h p.signing_public_key ++ (proxy_part h p.proxy_base_url ++ us))))
  unfolding tunnel_part
  tunnel_part-spread p us = simp append_assoc

  -- Where the parameters of two in-process tunnels, or the collision counts after them, differ, the
  -- bytes that they add to the hash differ: no field runs into the next. This holds for texts that
  -- a u64 can measure and counts of an i32.
  pub tunnel_part-injective :
      (p q : InProcessTunnelParams) (c d : Option ℤ)
      → IsHashable p
      → IsHashable q
      → IsCount c
      → IsCount d
      → tunnel_part h p ++ collision_part h c ≡ tunnel_part h q ++ collision_part h d
      → (p ≡ q) × (c ≡ d)
  tunnel_part-injective p q c d hp hq hc hd e =
      let (_, e1) =
        append-split (h.bytes "tunnel_mode=in-process") (h.bytes "tunnel_mode=in-process") refl (
          sym (tunnel_part-spread p (collision_part h c))
          ∙ e
          ∙ tunnel_part-spread q (collision_part h d)) in
      let (id, e2) =
        prefixed-split p.environment_id q.environment_id hp.environment_id_sized
          hq.environment_id_sized e1 in
      let (region, e3) = prefixed-split p.region q.region hp.region_sized hq.region_sized e2 in
      let (key, e4) =
        prefixed-split p.signing_public_key q.signing_public_key hp.key_sized hq.key_sized e3 in
      let (proxy, counts) =
        proxy_part-split p.proxy_base_url q.proxy_base_url c d hp.proxy_sized hq.proxy_sized hc hd
          e4 in
      (
        λ i. record {
          environment_id = id i;
          region = region i;
          signing_public_key = key i;
          proxy_base_url = proxy i;
        },
        counts,
      )
