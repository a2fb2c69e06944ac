-- ===== src/OAuth/Discovered.antt =====
-- What a discovery that succeeds has established.
use familiar_fleet.Base.{
  true, ◌≡◌, ◌≢◌, ◌⊎◌, inl, inr, Option, none, some, List, [], ◌∷◌, ◌++◌, Text, codes, text_eq,
  eq_iff, refl, arith, Option-cases,
}
use familiar_fleet.Endpoint.{Urls, canonical_endpoint}
use familiar_fleet.Enroll.{Response}
use familiar_fleet.OAuth.{
  OidcDiscovery, OauthError, fetch_json, has_s256, check_discovery, discover_resource,
  discover_oidc,
}

module _ (urls : Urls) (get : Text → Option Response) (decode_resource : Text → Option (List Text))
    (decode_discovery : Text → Option OidcDiscovery) where
  abbrev resource_url : Text → Text
  resource_url base = base ++ codes "/.well-known/oauth-protected-resource"

  abbrev discovery_url : Text → Text
  discovery_url issuer = issuer ++ codes "/.well-known/openid-configuration"

  -- The chain from the endpoint to the document.
  pub record IsDiscovered (endpoint : Text) (doc : OidcDiscovery) : Type 0 where
    pub base : Text
    pub base_canonical : canonical_endpoint urls endpoint ≡ some base
    pub server : Text
    pub others : List Text
    pub servers : fetch_json get decode_resource (resource_url base) ≡ inr (server ∷ others)
    pub issuer : Text
    pub server_canonical : canonical_endpoint urls server ≡ some issuer
    pub document : fetch_json get decode_discovery (discovery_url issuer) ≡ inr doc
    pub issuer_same : canonical_endpoint urls doc.issuer ≡ some issuer
    pub authorization : canonical_endpoint urls doc.authorization_endpoint ≢ none
    pub token : canonical_endpoint urls doc.token_endpoint ≢ none
    pub s256 : has_s256 urls get decode_resource decode_discovery doc.code_challenge_methods ≡ true

  module _ (endpoint : Text) (doc : OidcDiscovery) where
    by_document :
        (base server : Text) (others : List Text) (issuer : Text) (d : OauthError ⊎ OidcDiscovery)
        → canonical_endpoint urls endpoint ≡ some base
        → fetch_json get decode_resource (resource_url base) ≡ inr (server ∷ others)
        → canonical_endpoint urls server ≡ some issuer
        → fetch_json get decode_discovery (discovery_url issuer) ≡ d
        → check_discovery urls get decode_resource decode_discovery issuer d ≡ inr doc
        → IsDiscovered endpoint doc
    by_document base server others issuer (inl e) b s c f h = absurd (ground arith)
    by_document base server others issuer (inr found) b s c f h =
        elim (Option-cases (canonical_endpoint urls found.issuer)) [
          | inl n ↦ absurd (ground (arith, n))
          | inr (named, m) ↦ record {
            base = base;
            base_canonical = b;
            server = server;
            others = others;
            servers = s;
            issuer = issuer;
            server_canonical = c;
            document = ground (arith, f);
            issuer_same = ground (arith, m, eq_iff named issuer);
            authorization = ground (arith, m);
            token = ground (arith, m);
            s256 = ground (arith, m);
          }
        ]

    by_servers :
        (base : Text) (r : OauthError ⊎ List Text)
        → canonical_endpoint urls endpoint ≡ some base
        → fetch_json get decode_resource (resource_url base) ≡ r
        → discover_resource urls get decode_resource decode_discovery r ≡ inr doc
        → IsDiscovered endpoint doc
    by_servers base (inl e) b s h = absurd (ground arith)
    by_servers base (inr []) b s h = absurd (ground arith)
    by_servers base (inr (server ∷ others)) b s h =
        elim (Option-cases (canonical_endpoint urls server)) [
          | inl n ↦ absurd (ground (arith, n))
          | inr (issuer, c) ↦
              by_document base server others issuer
                (fetch_json get decode_discovery (discovery_url issuer)) b s c refl
                (ground (arith, c))
        ]

    -- A discovery that succeeds has gone from the canonical endpoint to its metadata, from the first
    -- authorization server there to the document of that issuer, which names the same issuer, has
    -- two endpoints that are canonical, and offers S256 if it says what it offers.
    pub discover_oidc-IsDiscovered :
        discover_oidc urls get decode_resource decode_discovery endpoint ≡ inr doc
        → IsDiscovered endpoint doc
    unfolding discover_oidc
    discover_oidc-IsDiscovered h = elim (Option-cases (canonical_endpoint urls endpoint)) [
      | inl n ↦ absurd (ground (arith, n))
      | inr (base, b) ↦
          by_servers base (fetch_json get decode_resource (resource_url base)) b refl
            (ground (arith, b))
    ]
