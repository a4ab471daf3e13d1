-- ===== src/Cloud.antt =====
-- src/resources/restatecloudenvironments.rs: a Restate Cloud environment, the URLs through which
-- the operator and Restate reach each other, and the parameters of an in-process tunnel.
-- A `Url` is its serialization, and the crate `url` is a parameter; a text is read by its code
-- points.

pub mod InProcess
pub mod Regions
pub mod Accepted
use Prim.Native.Char.{Char, code}
use restate_operator.Base.{
  ℕ, ℤ, Bool, true, false, not, ◌&&◌, ◌||◌, ◌==◌, leb, String, Option, none, some, List, [], ◌∷◌,
  map, is_empty, if◌then◌else◌, unwrap_or, and_then, concat, decimal, decimal_ℤ, lookup,
}
use restate_operator.Errors.{
  Error, invalid_restate_config, invalid_url, secret_not_found, secret_key_not_found,
  invalid_bearer_token,
}
use restate_operator.Effects.{Result, ok, err, panicked}
use restate_operator.Fallible.{◌>>=◌, ok_or, require}

-- `url::ParseError`, as the text that it displays.
pub data Parsed : Type 0 where
  parsed parse_error : String → Parsed

-- The operations of the crate `url` that the code calls, and how `{:?}` formats a text.
pub record UrlLibrary : Type 0 where
  pub parse : String → Parsed
  pub join : String → String → Parsed
  pub set_path : String → String → String
  -- `set_query` and `set_fragment` from another URL
  pub set_query_of : String → String → String
  pub scheme : String → String
  pub host_str : String → Option String
  pub port : String → Option ℕ
  pub port_or_known_default : String → Option ℕ
  pub path : String → String
  pub debug : String → String

pub record SecretReference : Type 0 where
  pub name : String
  pub key : String

pub record RestateCloudEnvironment : Type 0 where
  pub name : Option String
  pub uid : Option String
  pub environment_id : String
  pub region : String
  pub signing_public_key : String
  pub authentication : SecretReference
  pub proxy_base_url : Option String

-- A Secret's data: each value with the text that its trimmed bytes are, if they are UTF-8.
pub record Secret : Type 0 where
  pub contents : List (String × Option String)

-- `Result<Url, url::ParseError>` with `?`.
abbrev pub url_result : Parsed → Result String
url_result (parsed url) = ok url
url_result (parse_error e) = err (invalid_url e)

-- `Option::expect`
abbrev pub expect {ℓ} : {A : Type ℓ} → Option A → Result A
expect none = panicked
expect (some a) = ok a

-- `str::starts_with`, and what is left behind the prefix.
unfoldable pub strip_prefix : String → String → Option String
strip_prefix String.[] s = some s
strip_prefix (String.◌∷◌ c p) String.[] = none
strip_prefix (String.◌∷◌ c p) (String.◌∷◌ d s) =
    let rest = strip_prefix p s in if code c == code d then rest else none

abbrev pub starts_with : String → String → Bool
starts_with s p = elim (strip_prefix p s) [ none ↦ false | some rest ↦ true ]

-- `str::trim_start_matches` of "/"
unfoldable pub trim_slashes : String → String
trim_slashes String.[] = ""
trim_slashes (String.◌∷◌ c s) =
    let rest = trim_slashes s in if code c == b'/' then rest else String.◌∷◌ c s

-- `unprefixed_environment_id`, of an environment and of the parameters of a tunnel.
unfoldable pub unprefixed_environment_id : String → String
unfolding strip_prefix
unprefixed_environment_id id = unwrap_or (strip_prefix "env_" id) id

-- The code points of a text.
unfoldable pub codes : String → List ℕ
codes String.[] = []
codes (String.◌∷◌ c s) = code c ∷ codes s

abbrev pub is_lowercase : ℕ → Bool
is_lowercase c = leb b'a' c && leb c b'z'

abbrev pub is_digit : ℕ → Bool
is_digit c = leb b'0' c && leb c b'9'

abbrev pub is_alphanumeric : ℕ → Bool
is_alphanumeric c = is_lowercase c || (leb b'A' c && leb c b'Z') || is_digit c

abbrev pub is_id_char : ℕ → Bool
is_id_char c = is_alphanumeric c || c == b'_' || c == b'-'

abbrev pub is_label_char : ℕ → Bool
is_label_char c = is_lowercase c || is_digit c || c == b'-'

abbrev pub all : (ℕ → Bool) → List ℕ → Bool
all p [] = true
all p (c ∷ cs) = p c && all p cs

abbrev pub starts_with_dot : List ℕ → Bool
starts_with_dot [] = false
starts_with_dot (c ∷ cs) = c == b'.'

unfoldable pub ends_with_dot : List ℕ → Bool
ends_with_dot [] = false
ends_with_dot (c ∷ []) = c == b'.'
ends_with_dot (c ∷ d ∷ cs) = ends_with_dot (d ∷ cs)

-- `contains("..")`
unfoldable pub has_double_dot : List ℕ → Bool
has_double_dot [] = false
has_double_dot (c ∷ cs) = (c == b'.' && starts_with_dot cs) || has_double_dot cs

unfoldable pub region_ok : List ℕ → Bool
unfolding ends_with_dot has_double_dot
region_ok region =
    not (is_empty region)
    && not (starts_with_dot region)
    && not (ends_with_dot region)
    && not (has_double_dot region)
    && all (λ c. is_label_char c || c == b'.') region

module _ (url : UrlLibrary) where
  abbrev origin_of : String → Parsed
  origin_of base = elim (url.host_str base) [
    | none ↦ parse_error "empty host"
    | some host ↦ parsed (
        concat
          (url.scheme base ∷ "://" ∷ host ∷ ":" ∷ decimal (unwrap_or (url.port base) 9080) ∷ []))
  ]

  abbrev pub origin_of_base : Parsed → Parsed
  origin_of_base (parsed base) = origin_of base
  origin_of_base (parse_error e) = parse_error e

  -- The scheme and authority that deployments are registered under.
  unfoldable pub proxy_origin : String → Option String → Parsed
  proxy_origin region none =
      parsed (concat ("https://tunnel." ∷ region ∷ ".restate.cloud:9080" ∷ []))
  proxy_origin region (some base) = origin_of_base (url.parse base)

  unfoldable pub admin_url : RestateCloudEnvironment → Result String
  admin_url rce = url_result (
      url.parse (
        concat (
          "https://"
          ∷ unprefixed_environment_id rce.environment_id
          ∷ ".env."
          ∷ rce.region
          ∷ ".restate.cloud:9070"
          ∷ [])))

  -- The URL of a Service through the tunnel of an environment.
  unfoldable pub tunnel_url : RestateCloudEnvironment → String → Result String
  tunnel_url rce service_url = do
    tunnel_name ← expect rce.uid
    port ← expect (url.port_or_known_default service_url)
    host ← expect (url.host_str service_url)
    origin ← url_result (proxy_origin rce.region rce.proxy_base_url)
    base ← url_result (
        url.parse (
          concat (
            origin
            ∷ "/"
            ∷ unprefixed_environment_id rce.environment_id
            ∷ "/"
            ∷ tunnel_name
            ∷ "/"
            ∷ url.scheme service_url
            ∷ "/"
            ∷ host
            ∷ "/"
            ∷ decimal port
            ∷ "/"
            ∷ [])))
    joined ← url_result (url.join base (trim_slashes (url.path service_url)))
    ok (url.set_query_of joined service_url)

-- The Secrets in the operator's own namespace, by name.
abbrev pub SecretStore : Type 0
SecretStore = String → Option Secret

unfoldable pub bearer_token : SecretStore → RestateCloudEnvironment → Result String
bearer_token secrets rce = do
  let reference = rce.authentication
  secret ← ok_or (secrets reference.name) (secret_not_found reference.name)
  token ←
      ok_or (lookup reference.key secret.contents)
        (secret_key_not_found reference.key reference.name)
  ok_or token invalid_bearer_token
