-- ===== src/OAuth/Start/Bound.antt =====
-- What an authorization that the browser is sent to is bound to.
use familiar_fleet.Base.{
  sym, All, bind-some, subst, Option-cases, Bool-cases, ◌∙◌, ap, subst, map, ℕ, false, ◌≡◌, Option,
  some, List, [], ◌∷◌, Text, codes, text_eq, ◌==◌, eq_iff, if◌then◌else◌, ◌⊎◌, inl, inr, arith,
  refl,
}
use familiar_fleet.Endpoint.{Url, canonical_endpoint}
use familiar_fleet.OAuth.{
  OauthError, OidcDiscovery, OauthParameters, discover_oidc, new_oauth_parameters, authorize_query,
  exchange_form, redirect_uri_at,
}
use familiar_fleet.OAuth.Discovered.{IsDiscovered, discover_oidc-IsDiscovered}
use familiar_fleet.OAuth.Start.{
  Values, values, del, set, set_each, Outside, Opened, authorize_values, build_authorize_url,
  open_browser, opened_as, opened_by, open_at, open_discovered, open_connect,
}
use familiar_fleet.State.{EnrollmentRequest}
use familiar_fleet.OAuth.Flow.{Flow, TokenRequest, token_request, Reach}
use familiar_fleet.OAuth.Flow.Requests.{IsRequest, Reach-requests}

values-del_same : (k : Text) (q : Values) → values k (del k q) ≡ []
values-del_same k [] = refl
values-del_same k ((j, v) ∷ q) = ground (arith, values-del_same k q)

values-del_other : (j k : Text) → (j == k) ≡ false → (q : Values) → values j (del k q) ≡ values j q
values-del_other j k h [] = refl
values-del_other j k h ((i, v) ∷ q) = ground (arith, h, values-del_other j k h q, eq_iff k i)

values-set :
    (j k v : Text) (q : Values) → values j (set k v q) ≡ (if j == k then v ∷ [] else values j q)
values-set j k v q = elim (Bool-cases (j == k)) [
  | inl e ↦ ground (arith, e, eq_iff j k, values-del_same k q)
  | inr e ↦ ground (arith, e, values-del_other j k e q)
]

-- The values of a key behind a series of `Set`: that of the last one for the key, or those before.
abbrev given : Text → Values → List Text → List Text
given j [] vs = vs
given j ((k, v) ∷ ps) vs = given j ps (if j == k then v ∷ [] else vs)

values-set_each : (j : Text) (ps q : Values) → values j (set_each ps q) ≡ given j ps (values j q)
values-set_each j [] q = refl
values-set_each j ((k, v) ∷ ps) q =
    values-set_each j ps (set k v q) ∙ ap (given j ps) (values-set j k v q)

module _ (random : ℕ → ℕ → Option Text) (digest : Text → Text) where
  challenge_of :
      (p : OauthParameters)
      → new_oauth_parameters random digest ≡ some p
      → p.challenge ≡ digest p.verifier
  unfolding new_oauth_parameters
  challenge_of p h =
      let (state, e, after_state) = bind-some (random 0 24) _ p h in
      let (nonce, g, after_nonce) = bind-some (random 1 24) _ p after_state in
      let (verifier, k, made) = bind-some (random 2 32) _ p after_nonce in ground (arith, made)

module _ (w : Outside) (request : EnrollmentRequest) (endpoint : Text) where
  -- A request to the token endpoint is for the authorization that a query has asked for.
  pub record Matches (o : Opened) (query : Values) (r : TokenRequest) : Type 0 where
    pub token_endpoint : r.endpoint ≡ o.discovery.token_endpoint
    pub client : values (codes "client_id") query ≡ values (codes "client_id") r.form
    pub redirect : values (codes "redirect_uri") query ≡ values (codes "redirect_uri") r.form
    pub challenge :
        values (codes "code_challenge") query ≡ map w.digest (values (codes "code_verifier") r.form)

  -- The query that the browser is sent with, and what is posted for a code.
  pub record IsBound (o : Opened) : Type 0 where
    pub base : Text
    pub canonical : canonical_endpoint w.urls endpoint ≡ some base
    pub same_endpoint : o.connection.endpoint ≡ base
    pub discovered : IsDiscovered w.urls w.get w.decode_resource w.decode_discovery base o.discovery
    pub port : ℕ
    pub bound : w.listener ≡ some port
    pub here : o.connection.redirect_uri ≡ redirect_uri_at port
    pub location : Url
    pub parsed : w.urls.parse o.discovery.authorization_endpoint ≡ some location
    pub query : Values
    pub sent : o.url ≡ w.urls.print (record location { raw_query = w.encode_query query })
    pub state : values (codes "state") query ≡ o.connection.state ∷ []
    pub nonce : values (codes "nonce") query ≡ o.connection.nonce ∷ []
    pub method : values (codes "code_challenge_method") query ≡ codes "S256" ∷ []
    pub matches : (code : Text) → Matches o query (token_request o.connection code)

  abbrev url_at : ℕ → OauthParameters → Url → Text
  url_at port p u =
      w.urls.print
        (record u { raw_query = w.encode_query (authorize_values w (redirect_uri_at port) p u) })

  by_command :
      (base : Text) (doc : OidcDiscovery) (port : ℕ) (p : OauthParameters) (u : Url)
      (b : OauthError ⊎ Text) (o : Opened)
      → canonical_endpoint w.urls endpoint ≡ some base
      → IsDiscovered w.urls w.get w.decode_resource w.decode_discovery base doc
      → w.listener ≡ some port
      → p.challenge ≡ w.digest p.verifier
      → w.urls.parse doc.authorization_endpoint ≡ some u
      → opened_by w request base doc (redirect_uri_at port) p (url_at port p u) b ≡ inr o
      → IsBound o
  unfolding authorize_query exchange_form
  by_command base doc port p u (inl e) o c d l g m h = absurd (ground (arith, h))
  by_command base doc port p u (inr command) o c d l g m h =
      let made = opened_as w request base doc (redirect_uri_at port) p (url_at port p u) command in
      let ps = authorize_query (redirect_uri_at port) p in
      let q = w.decode_query u.raw_query in
      subst IsBound {x = made} (ground (arith, h)) (record {
        base = base;
        canonical = c;
        same_endpoint = refl;
        discovered = d;
        port = port;
        bound = l;
        here = refl;
        location = u;
        parsed = m;
        query = set_each ps q;
        sent = refl;
        state = values-set_each (codes "state") ps q;
        nonce = values-set_each (codes "nonce") ps q;
        method = values-set_each (codes "code_challenge_method") ps q;
        matches = λ code. record {
          token_endpoint = refl;
          client = values-set_each (codes "client_id") ps q;
          redirect = values-set_each (codes "redirect_uri") ps q;
          challenge = values-set_each (codes "code_challenge") ps q ∙ ap (λ x. x ∷ []) g;
        };
      })

  by_parameters :
      (base : Text) (doc : OidcDiscovery) (port : ℕ) (o : Opened)
      → canonical_endpoint w.urls endpoint ≡ some base
      → IsDiscovered w.urls w.get w.decode_resource w.decode_discovery base doc
      → w.listener ≡ some port
      → open_at w request base doc (some port) ≡ inr o
      → IsBound o
  unfolding build_authorize_url
  by_parameters base doc port o c d l h =
      elim (Option-cases (new_oauth_parameters w.random w.digest)) [
        | inl n ↦ absurd (ground (arith, h, n))
        | inr (p, e) ↦ elim (Option-cases (w.urls.parse doc.authorization_endpoint)) [
          | inl n ↦ absurd (ground (arith, h, e, n))
          | inr (u, m) ↦
              by_command base doc port p u (open_browser w) o c d l
                (challenge_of w.random w.digest p e) m (ground (arith, h, e, m))
        ]
      ]

  by_discovery :
      (base : Text) (r : OauthError ⊎ OidcDiscovery) (o : Opened)
      → canonical_endpoint w.urls endpoint ≡ some base
      → discover_oidc w.urls w.get w.decode_resource w.decode_discovery base ≡ r
      → open_discovered w request base r ≡ inr o
      → IsBound o
  by_discovery base (inl e) o c d h = absurd (ground (arith, h))
  by_discovery base (inr doc) o c d h = elim (Option-cases w.listener) [
    | inl n ↦ absurd (ground (arith, h, n))
    | inr (port, l) ↦
        by_parameters base doc port o c
          (discover_oidc-IsDiscovered w.urls w.get w.decode_resource w.decode_discovery base doc d)
          l (ground (arith, h, l))
  ]

  opened-IsBound : (o : Opened) → open_connect w request endpoint ≡ inr o → IsBound o
  unfolding open_connect
  opened-IsBound o h = elim (Option-cases (canonical_endpoint w.urls endpoint)) [
    | inl n ↦ absurd (ground (arith, h, n))
    | inr (base, c) ↦
        by_discovery base (discover_oidc w.urls w.get w.decode_resource w.decode_discovery base) o c
          refl (ground (arith, c, h))
  ]

  requests-Matches :
      (o : Opened) (query : Values)
      → ((code : Text) → Matches o query (token_request o.connection code))
      → (rs : List TokenRequest) → All (IsRequest o.connection) rs
      → All (Matches o query) rs
  requests-Matches o query m [] h = tt
  requests-Matches o query m (r ∷ rs) ((code, e), h) =
      (subst (Matches o query) (sym e) (m code), requests-Matches o query m rs h)

  -- A `Connect` that has opened the browser has sent it to the authorization endpoint of the document
  -- that was discovered from the canonical endpoint, with a query in which the state and the nonce
  -- are, once each, those that the flow checks, and the redirect URI is the listener's address. In
  -- every flow that is reached from there, each request to the token endpoint goes to the one of that
  -- document, with the client and the redirect URI of the query, and with a verifier whose digest is
  -- the challenge of the query.
  pub open_connect-IsBound :
      (o : Opened)
      → open_connect w request endpoint ≡ inr o
      → (f : Flow) → Reach o.connection f
      → (b : IsBound o) × All (Matches o b.query) f.exchanges
  open_connect-IsBound o h f r =
      let b = opened-IsBound o h in
      (b, requests-Matches o b.query b.matches f.exchanges (Reach-requests o.connection r))
