-- ===== src/Cloud/Accepted.antt =====
-- Which environments `InProcessTunnelParams::from_rce` accepts, and the parameters that it makes.
use Prim.Native.Char.{code}
use Prim.Native.String.{◌++◌}
use text.Mathlib.TextLemmas.{nil-append, cons-append, append-nil}
use restate_operator.Base.{
  ◌≡◌, ◌≢◌, ◌↔◌, refl, sym, ◌∙◌, ap, Bool, true, false, not, ◌&&◌, String, Option, none, some, [],
  ◌∷◌, All, arith, concat, is_empty, ==_iff, List, ℕ,
}
use restate_operator.Effects.{ok}
use restate_operator.Fallible.{◌>>=◌, require, >>=-eq-ok, require-ok, ok-injective}
use restate_operator.Cloud.{
  UrlLibrary, Parsed, parsed, parse_error, RestateCloudEnvironment, codes, all, is_id_char,
  starts_with, strip_prefix, unprefixed_environment_id, proxy_origin,
}
use restate_operator.Cloud.InProcess.{InProcessTunnelParams, check_parsed, check_origin, from_rce}
use restate_operator.Cloud.Regions.{IsLabel, split_dots, region_ok-labels}

strip_prefix-append : (p s : String) → strip_prefix p (p ++ s) ≡ some s
unfolding strip_prefix
strip_prefix-append String.[] s = rw nil-append
strip_prefix-append (String.◌∷◌ c p) s =
    rw cons-append (rw ((==_iff (code c) (code c)).1 refl) (strip_prefix-append p s))

unprefixed-env : (s : String) → unprefixed_environment_id (concat ("env_" ∷ s ∷ [])) ≡ s
unfolding unprefixed_environment_id concat
unprefixed-env s = rw (append-nil, strip_prefix-append)

is_named : {cs : List ℕ} → cs ≢ [] → is_empty cs ≡ false
is_named {cs = []} h = absurd (h refl)
is_named {cs = c ∷ cs} h = refl

not_empty : (cs : List ℕ) → not (is_empty cs) ≡ true → cs ≢ []
not_empty cs h e = cc (sym h ∙ ap (λ xs. not (is_empty xs)) e)

and_true : (a b : Bool) → (a && b) ≡ true → (a ≡ true) × (b ≡ true)
and_true a b h = ground arith

module _ (url : UrlLibrary) (rce : RestateCloudEnvironment) where
  abbrev unprefixed : String
  unprefixed = unprefixed_environment_id rce.environment_id

  -- What the clients of an in-process tunnel want of an environment.
  abbrev pub HasOrigin : Option String → Type 0
  HasOrigin none = Unit
  HasOrigin (some base) =
      (origin : String) × (proxy_origin url rce.region (some base) ≡ parsed origin)

  pub record IsTunnelReady : Type 0 where
    pub id_is_named : codes unprefixed ≢ []
    pub id_is_plain : all is_id_char (codes unprefixed) ≡ true
    pub region_is_dns : All IsLabel (split_dots (codes rce.region))
    pub key_is_public : starts_with rce.signing_public_key "publickeyv1_" ≡ true
    pub has_origin : HasOrigin rce.proxy_base_url

  abbrev pub params_of : InProcessTunnelParams
  params_of = record {
    environment_id = concat ("env_" ∷ unprefixed ∷ []);
    region = rce.region;
    signing_public_key = rce.signing_public_key;
    proxy_base_url = rce.proxy_base_url;
  }

  accepted_origin : (base : Option String) → check_origin url rce base ≡ ok tt → HasOrigin base
  accepted_origin none h = tt
  accepted_origin (some base) h = go (proxy_origin url rce.region (some base)) refl h
    where
      go :
          (origin : Parsed)
          → proxy_origin url rce.region (some base) ≡ origin
          → check_parsed url rce base origin ≡ ok tt
          → HasOrigin (some base)
      go (parsed origin) e h = (origin, e)
      go (parse_error message) e h = cc

  origin_accepted : (base : Option String) → HasOrigin base → check_origin url rce base ≡ ok tt
  origin_accepted none h = refl
  origin_accepted (some base) (origin, e) = rw e

  from_rce-inverted :
      (params : InProcessTunnelParams)
      → from_rce url rce ≡ ok params
      → IsTunnelReady × (params ≡ params_of)
  unfolding from_rce
  from_rce-inverted params h =
      let (_, id, h1) = >>=-eq-ok _ _ h in
      let (_, region, h2) = >>=-eq-ok _ _ h1 in
      let (_, key, h3) = >>=-eq-ok _ _ h2 in
      let (_, origin, done) = >>=-eq-ok _ _ h3 in
      let plain = and_true (not (is_empty (codes unprefixed))) _ (require-ok _ _ id) in
      (
        record {
          id_is_named = not_empty _ plain.0;
          id_is_plain = plain.1;
          region_is_dns = (region_ok-labels (codes rce.region)).0 (require-ok _ _ region);
          key_is_public = require-ok _ _ key;
          has_origin = accepted_origin rce.proxy_base_url origin;
        },
        sym (ok-injective done),
      )

  ready-from_rce : IsTunnelReady → from_rce url rce ≡ ok params_of
  unfolding from_rce ◌>>=◌ require
  ready-from_rce h = rw (
    is_named h.id_is_named,
    h.id_is_plain,
    (region_ok-labels (codes rce.region)).1 h.region_is_dns,
    h.key_is_public,
    origin_accepted rce.proxy_base_url h.has_origin,
  )

  -- The parameters of an in-process tunnel are made exactly of the environments whose id is not
  -- empty and of letters, digits, `_` and `-`, whose region is DNS labels with dots between, whose
  -- key is public and whose proxy URL, if there is one, has an origin; and their environment id is
  -- that of the environment, with the one prefix `env_`.
  pub from_rce-accepts :
      (params : InProcessTunnelParams)
      → ((from_rce url rce ≡ ok params) ↔ (IsTunnelReady × (params ≡ params_of)))
        × (unprefixed_environment_id params_of.environment_id ≡ unprefixed)
  from_rce-accepts params = (
    (from_rce-inverted params, λ h. ready-from_rce h.0 ∙ ap ok (sym h.1)),
    unprefixed-env unprefixed,
  )
