-- ===== src/Endpoints/Tokens.antt =====
-- Where the operator sends the token of a Restate Cloud environment.
use restate_operator.Base.{◌≡◌, refl, sym, ◌∙◌, subst, String, Option, none, some}
use restate_operator.Resources.{RestateAdminEndpoint, ServiceReference}
use restate_operator.Effects.{ok}
use restate_operator.Fallible.{>>=-eq-ok, ok-injective, ok_or-ok}
use restate_operator.Cloud
use restate_operator.Cloud.{
  UrlLibrary, RestateCloudEnvironment, SecretStore, url_result, Parsed, parsed, parse_error,
}
use restate_operator.Endpoints.{
  CloudStore, find_cloud, admin_url, admin_url_of, bearer_token, AdminRequest, request,
}

url_result-ok : (p : Parsed) {u : String} → url_result p ≡ ok u → p ≡ parsed u
url_result-ok (parsed v) h = cc
url_result-ok (parse_error e) h = cc

module _ (url : UrlLibrary) (cluster_dns : String) (clouds : CloudStore)
    (secrets : SecretStore) where
  -- The environment that a token is of.
  abbrev Owns : String → String → RestateCloudEnvironment → Type 0
  Owns name token rce =
      (find_cloud clouds name ≡ ok rce) × (Cloud.bearer_token secrets rce ≡ ok token)

  found_in :
      (name : String) {rce : RestateCloudEnvironment}
      → find_cloud clouds name ≡ ok rce
      → clouds name ≡ some rce
  unfolding find_cloud
  found_in name h = ok_or-ok _ _ h

  no_token :
      (token : Option String)
      → bearer_token url cluster_dns clouds secrets none ≡ ok token
      → none ≡ token
  unfolding bearer_token
  no_token token h = ok-injective h

  bearer_token-Owns :
      (name : String) (token : Option String)
      → bearer_token url cluster_dns clouds secrets (some name) ≡ ok token
      → (t : String) × (token ≡ some t) × (rce : RestateCloudEnvironment) × Owns name t rce
  unfolding bearer_token
  bearer_token-Owns name token h =
      let (rce, found, h1) = >>=-eq-ok _ _ h in
      let (t, read, done) = >>=-eq-ok _ _ h1 in (t, sym (ok-injective done), rce, (found, read))

  admin_url_of-cloud :
      (cluster : Option String) (name : String) (service : Option ServiceReference)
      (u : Option String) (base : String)
      → admin_url_of url cluster_dns clouds cluster (some name) service u ≡ ok base
      → ((cluster ≡ none) × (service ≡ none) × (u ≡ none))
        × (rce : RestateCloudEnvironment) × (find_cloud clouds name ≡ ok rce)
        × (Cloud.admin_url url rce ≡ ok base)
  unfolding admin_url_of
  admin_url_of-cloud none name none none base h =
      let (rce, found, read) = >>=-eq-ok _ _ h in ((refl, refl, refl), rce, found, read)
  admin_url_of-cloud none name none (some u) base h = cc
  admin_url_of-cloud none name (some s) none base h = cc
  admin_url_of-cloud none name (some s) (some u) base h = cc
  admin_url_of-cloud (some c) name none none base h = cc
  admin_url_of-cloud (some c) name none (some u) base h = cc
  admin_url_of-cloud (some c) name (some s) none base h = cc
  admin_url_of-cloud (some c) name (some s) (some u) base h = cc

  module _ (e : RestateAdminEndpoint) (path : String) where
    -- The token is that of the environment that the endpoint names, no other field of the endpoint
    -- is set, and the URL is below the admin URL of that environment; an endpoint that names no
    -- environment sends no token.
    abbrev pub GoesHome : String → Option String → Type 0
    GoesHome u none = e.cloud ≡ none
    GoesHome u (some token) =
        (name : String) × (rce : RestateCloudEnvironment) × (e.cloud ≡ some name)
        × (clouds name ≡ some rce)
        × ((e.cluster ≡ none) × (e.service ≡ none) × (e.url ≡ none))
        × (Cloud.bearer_token secrets rce ≡ ok token)
        × (base : String) × (Cloud.admin_url url rce ≡ ok base)
        × (url.join base path ≡ parsed u)

    -- A request to the admin API carries the token of a Restate Cloud environment exactly if the
    -- endpoint names that environment, and then it goes below the admin URL of that environment
    -- and the endpoint names nothing else.
    pub request-GoesHome :
        (r : AdminRequest)
        → request url cluster_dns clouds secrets e path ≡ ok r
        → GoesHome r.url r.bearer_token
    unfolding request admin_url
    request-GoesHome r h =
        let (token, held, h1) = >>=-eq-ok _ _ h in
        let (base, reached, h2) = >>=-eq-ok _ _ h1 in
        let (joined, below, done) = >>=-eq-ok _ _ h2 in
        let made = ok-injective done in
        subst (λ (x : AdminRequest). GoesHome x.url x.bearer_token) made
          (go e.cloud refl token base joined held reached (url_result-ok _ below))
      where
        go :
            (cloud : Option String)
            → e.cloud ≡ cloud
            → (token : Option String) (base joined : String)
            → bearer_token url cluster_dns clouds secrets cloud ≡ ok token
            → admin_url_of url cluster_dns clouds e.cluster cloud e.service e.url ≡ ok base
            → url.join base path ≡ parsed joined
            → GoesHome joined token
        go none named token base joined held reached below =
            subst (GoesHome joined) (no_token token held) named
        go (some name) named token base joined held reached below =
            let (t, is, rce, owns) = bearer_token-Owns name token held in
            let (alone, other, found', admin) =
              admin_url_of-cloud e.cluster name e.service e.url base reached in
            subst (GoesHome joined) (sym is) (
              name,
              rce,
              named,
              found_in name owns.0,
              alone,
              owns.1,
              base,
              subst (λ x. Cloud.admin_url url x ≡ ok base) (ok-injective (sym found' ∙ owns.0))
                  admin,
              below,
            )
