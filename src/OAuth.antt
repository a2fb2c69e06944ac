-- ===== src/OAuth.antt =====
-- internal/client/oauth.go: discovery, the exchange of the authorization code, and the checks on what
-- comes back. HTTP, net/url, encoding/json, SHA-256 and the random source are parameters.
pub mod Flow
pub mod Discovered
pub mod Tokens
pub mod Start
use familiar_fleet.Base.{
  ◌>>=◌, ℕ, ◌%◌, Bool, true, false, not, ◌&&◌, ◌||◌, Option, none, some, List, [], ◌∷◌, ◌++◌, Text,
  codes, nat_eq, text_eq, ◌==◌, ◌!=◌, ltb, length, contains, if◌then◌else◌, ◌⊎◌, inl, inr,
}
use familiar_fleet.Text.{split, itoa}
use familiar_fleet.Endpoint.{Urls, canonical_endpoint}
use familiar_fleet.Enroll.{Response, is_success, max_response}
use familiar_fleet.State.PublicKey.{decode_base64}

abbrev pub oidc_client_id : Text
oidc_client_id = codes "familiar-desktop"

abbrev pub oidc_redirect_port : ℕ
oidc_redirect_port = 17421

abbrev pub oidc_scope : Text
oidc_scope = codes "openid profile email"

pub record OidcDiscovery : Type 0 where
  pub issuer : Text
  pub authorization_endpoint : Text
  pub token_endpoint : Text
  pub code_challenge_methods : List Text

pub data OauthError : Type 0 where
  bad_endpoint : OauthError
  fetch_failed : OauthError
  fetch_status : ℕ → OauthError
  fetch_too_large : OauthError
  fetch_undecodable : OauthError
  no_authorization_server : OauthError
  invalid_issuer : OauthError
  issuer_mismatch : OauthError
  invalid_discovered_endpoint : OauthError
  no_s256 : OauthError
  token_exchange_failed : OauthError
  token_unreadable : OauthError
  token_too_large : OauthError
  token_undecodable : OauthError
  token_status : ℕ → OauthError
  token_missing : OauthError
  invalid_id_token : OauthError
  invalid_id_token_payload : OauthError
  id_token_missing_nonce : OauthError
  id_token_nonce_mismatch : OauthError
  state_mismatch : OauthError
  authorization_denied : Text → OauthError
  omitted_code : OauthError
  authorization_timed_out : OauthError
  callback_server : OauthError
  form_timed_out : OauthError
  enrollment_error : OauthError
  finalize_error : OauthError
  callback_unbound : OauthError
  no_parameters : OauthError
  invalid_authorize_url : OauthError
  no_browser_command : OauthError
  browser_not_found : OauthError
  browser_not_started : OauthError

abbrev decode_fetched {ℓ} : {A : Type ℓ} → Option A → OauthError ⊎ A
decode_fetched none = inl fetch_undecodable
decode_fetched (some a) = inr a

abbrev fetch_body {ℓ} : {A : Type ℓ} → (Text → Option A) → Option Text → OauthError ⊎ A
fetch_body decode none = inl fetch_failed
fetch_body decode (some body) =
    if ltb max_response (length body) then inl fetch_too_large else decode_fetched (decode body)

abbrev fetch_response {ℓ} : {A : Type ℓ} → (Text → Option A) → Option Response → OauthError ⊎ A
fetch_response decode none = inl fetch_failed
fetch_response decode (some r) =
    if not (is_success r.status) then inl (fetch_status r.status) else fetch_body decode r.body

-- fetchJSON
unfoldable pub fetch_json {ℓ} :
    {A : Type ℓ} → (Text → Option Response) → (Text → Option A) → Text → OauthError ⊎ A
fetch_json get decode url = fetch_response decode (get url)

module _ (urls : Urls) (get : Text → Option Response) (decode_resource : Text → Option (List Text))
    (decode_discovery : Text → Option OidcDiscovery) where
  -- the first authorization server of the metadata
  abbrev pub advertised : List Text → Option Text
  advertised [] = none
  advertised (server ∷ _) = if server == [] then none else some server

  abbrev pub same_issuer : Text → Option Text → Bool
  same_issuer issuer none = false
  same_issuer issuer (some found) = found == issuer

  abbrev is_given : Option Text → Bool
  is_given none = false
  is_given (some _) = true

  abbrev pub has_s256 : List Text → Bool
  has_s256 [] = true
  has_s256 (m ∷ ms) = contains (m ∷ ms) (codes "S256")

  abbrev pub check_discovery : Text → OauthError ⊎ OidcDiscovery → OauthError ⊎ OidcDiscovery
  check_discovery issuer (inl e) = inl e
  check_discovery issuer (inr doc) =
      if not (same_issuer issuer (canonical_endpoint urls doc.issuer))
      then inl issuer_mismatch
      else if not (is_given (canonical_endpoint urls doc.authorization_endpoint))
          || not (is_given (canonical_endpoint urls doc.token_endpoint))
      then inl invalid_discovered_endpoint
      else if not (has_s256 doc.code_challenge_methods)
      then inl no_s256
      else inr doc

  abbrev pub discover_at : Option Text → OauthError ⊎ OidcDiscovery
  discover_at none = inl invalid_issuer
  discover_at (some issuer) =
      check_discovery issuer
        (fetch_json get decode_discovery (issuer ++ codes "/.well-known/openid-configuration"))

  abbrev pub discover_from : Option Text → OauthError ⊎ OidcDiscovery
  discover_from none = inl no_authorization_server
  discover_from (some server) = discover_at (canonical_endpoint urls server)

  abbrev pub discover_resource : OauthError ⊎ List Text → OauthError ⊎ OidcDiscovery
  discover_resource (inl e) = inl e
  discover_resource (inr servers) = discover_from (advertised servers)

  abbrev pub discover_base : Option Text → OauthError ⊎ OidcDiscovery
  discover_base none = inl bad_endpoint
  discover_base (some base) =
      discover_resource
        (fetch_json get decode_resource (base ++ codes "/.well-known/oauth-protected-resource"))

  -- DiscoverOIDC
  unfoldable pub discover_oidc : Text → OauthError ⊎ OidcDiscovery
  discover_oidc endpoint = discover_base (canonical_endpoint urls endpoint)

pub record OauthParameters : Type 0 where
  pub state : Text
  pub nonce : Text
  pub verifier : Text
  pub challenge : Text

-- NewOAuthParameters; `random i n` is what the `i`-th call of `randomURLString` returns for `n` bytes, and
-- `digest` is the SHA-256 of a text in the URL alphabet
unfoldable pub new_oauth_parameters :
    (random : ℕ → ℕ → Option Text) (digest : Text → Text) → Option OauthParameters
new_oauth_parameters random digest = do
  state ← random 0 24
  nonce ← random 1 24
  verifier ← random 2 32
  some (record { state = state; nonce = nonce; verifier = verifier; challenge = digest verifier })

-- The parameters that `BuildAuthorizeURL` sets in the query, each once.
unfoldable pub authorize_query : (redirect_uri : Text) → OauthParameters → List (Text × Text)
authorize_query redirect_uri p =
    (codes "response_type", codes "code")
    ∷ (codes "client_id", oidc_client_id)
    ∷ (codes "redirect_uri", redirect_uri)
    ∷ (codes "scope", oidc_scope)
    ∷ (codes "state", p.state)
    ∷ (codes "nonce", p.nonce)
    ∷ (codes "code_challenge", p.challenge)
    ∷ (codes "code_challenge_method", codes "S256")
    ∷ []

-- The form that `ExchangeCode` posts.
unfoldable pub exchange_form : (code verifier redirect_uri : Text) → List (Text × Text)
exchange_form code verifier redirect_uri =
    (codes "grant_type", codes "authorization_code")
    ∷ (codes "code", code)
    ∷ (codes "code_verifier", verifier)
    ∷ (codes "redirect_uri", redirect_uri)
    ∷ (codes "client_id", oidc_client_id)
    ∷ []

-- redirectURI of `Connect`
unfoldable pub redirect_uri_at : ℕ → Text
redirect_uri_at port = codes "http://127.0.0.1:" ++ (itoa port ++ codes "/callback")

pub record TokenResponse : Type 0 where
  pub access_token : Text
  pub id_token : Text

module _ (decode_token : Text → Option TokenResponse) where
  abbrev pub token_decoded : ℕ → Option TokenResponse → OauthError ⊎ TokenResponse
  token_decoded status none = inl token_undecodable
  token_decoded status (some token) =
      if not (is_success status)
      then inl (token_status status)
      else if token.access_token == []
      then inl token_missing
      else inr token

  abbrev pub token_body : ℕ → Option Text → OauthError ⊎ TokenResponse
  token_body status none = inl token_unreadable
  token_body status (some body) =
      if ltb max_response (length body)
      then inl token_too_large
      else token_decoded status (decode_token body)

  -- `ExchangeCode` from the response on
  unfoldable pub exchange_code : Option Response → OauthError ⊎ TokenResponse
  exchange_code none = inl token_exchange_failed
  exchange_code (some r) = token_body r.status r.body

-- base64.RawURLEncoding: line ends are passed over, and there is no padding
abbrev url_byte : ℕ → ℕ
url_byte c =
    if c == b'-'
    then b'+'
    else if c == b'_'
    then b'/'
    else if c == b'+' || c == b'/' || c == b'='
    then 0
    else c

abbrev url_bytes : Text → Text
url_bytes [] = []
url_bytes (c ∷ s) = if c == 13 || c == 10 then url_bytes s else url_byte c ∷ url_bytes s

abbrev padding : ℕ → Text
padding r = if r == 2 then b'=' ∷ b'=' ∷ [] else if r == 3 then b'=' ∷ [] else []

unfoldable pub decode_raw_url : Text → Option Text
decode_raw_url s =
    let t = url_bytes s in
    if length t % 4 == 1 then none else decode_base64 (t ++ padding (length t % 4))

module _ (nonce_claim : Text → Option Text) where
  abbrev pub check_nonce : Text → Option Text → Option OauthError
  check_nonce expected none = some id_token_missing_nonce
  check_nonce expected (some nonce) =
      if nonce == []
      then some id_token_missing_nonce
      else if nonce != expected
      then some id_token_nonce_mismatch
      else none

  abbrev pub check_payload : Text → Option Text → Option OauthError
  check_payload expected none = some invalid_id_token_payload
  check_payload expected (some payload) = check_nonce expected (nonce_claim payload)

  abbrev pub check_parts : Text → List Text → Option OauthError
  check_parts expected (head ∷ payload ∷ signature ∷ []) =
      check_payload expected (decode_raw_url payload)
  check_parts expected _ = some invalid_id_token

  -- ValidateIDTokenNonce: the error, if there is one. `nonce_claim` is the claim of a payload that
  -- decodes, and an empty text where it has none.
  unfoldable pub validate_id_token_nonce : (id_token expected : Text) → Option OauthError
  validate_id_token_nonce id_token expected =
      if id_token == [] then none else check_parts expected (split b'.' id_token)
