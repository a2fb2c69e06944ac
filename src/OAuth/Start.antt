-- ===== src/OAuth/Start.antt =====
-- `Connect` of internal/client/oauth.go up to the opened browser, with `BuildAuthorizeURL` and
-- `OpenBrowser`.
pub mod Bound
use familiar_fleet.Base.{
  ◌>>=◌, ℕ, Bool, true, false, Option, none, some, List, [], ◌∷◌, Text, codes, text_eq, ◌==◌,
  if◌then◌else◌, ◌⊎◌, inl, inr,
}
use familiar_fleet.Endpoint.{Url, Urls, canonical_endpoint}
use familiar_fleet.Enroll.{Response}
use familiar_fleet.OAuth.{
  OauthError, OidcDiscovery, OauthParameters, TokenResponse, discover_oidc, new_oauth_parameters,
  authorize_query, redirect_uri_at, callback_unbound, no_parameters, invalid_authorize_url,
  no_browser_command, browser_not_found, browser_not_started, bad_endpoint,
}
use familiar_fleet.OAuth.Flow.{Connection}
use familiar_fleet.State.{Enrollment, EnrollmentRequest}
use familiar_fleet.State.Files.{Codec}

-- url.Values, whose order means nothing
abbrev pub Values : Type 0
Values = List (Text × Text)

abbrev pub values : Text → Values → List Text
values k [] = []
values k ((j, v) ∷ q) = if k == j then v ∷ values k q else values k q

abbrev pub del : Text → Values → Values
del k [] = []
del k ((j, v) ∷ q) = if k == j then del k q else (j, v) ∷ del k q

-- Values.Set
abbrev pub set : Text → Text → Values → Values
set k v q = (k, v) ∷ del k q

abbrev pub set_each : Values → Values → Values
set_each [] q = q
set_each ((k, v) ∷ ps) q = set_each ps (set k v q)

-- What `Connect` is given, and what stands outside: net/url with its query encoding, the HTTP answers to a GET, encoding/json, the
-- random source and SHA-256, the listener's port where it can be bound, runtime.GOOS, exec.LookPath, and whether a
-- command starts.
pub record Outside : Type 0 where
  pub urls : Urls
  pub decode_query : Text → Values
  pub encode_query : Values → Text
  pub get : Text → Option Response
  pub decode_resource : Text → Option (List Text)
  pub decode_discovery : Text → Option OidcDiscovery
  pub random : ℕ → ℕ → Option Text
  pub digest : Text → Text
  pub listener : Option ℕ
  pub goos : Text
  pub look_path : Text → Option Text
  pub starts : Bool
  pub codec : Codec Enrollment
  pub is_ip : Text → Bool
  pub decode_token : Text → Option TokenResponse
  pub nonce_claim : Text → Option Text

-- What is there once the browser is open: what the goroutines of the flow go by, the discovery,
-- and the command that was started with its argument.
pub record Opened : Type 0 where
  pub connection : Connection
  pub discovery : OidcDiscovery
  pub command : Text
  pub url : Text

module _ (w : Outside) where
  abbrev pub authorize_values : Text → OauthParameters → Url → Values
  authorize_values redirect_uri p u =
      set_each (authorize_query redirect_uri p) (w.decode_query u.raw_query)

  -- BuildAuthorizeURL
  unfoldable pub build_authorize_url : Text → Text → OauthParameters → Option Text
  build_authorize_url endpoint redirect_uri p = do
    u ← w.urls.parse endpoint
    some
        (w.urls.print (record u { raw_query = w.encode_query (authorize_values redirect_uri p u) }))

  abbrev pub browser_command : Option Text
  browser_command =
      if w.goos == codes "darwin"
      then some (codes "open")
      else if w.goos == codes "linux"
      then some (codes "xdg-open")
      else none

  abbrev pub browser_found : Option Text → OauthError ⊎ Text
  browser_found none = inl browser_not_found
  browser_found (some path) = if w.starts then inr path else inl browser_not_started

  abbrev pub browser_named : Option Text → OauthError ⊎ Text
  browser_named none = inl no_browser_command
  browser_named (some command) = browser_found (w.look_path command)

  -- OpenBrowser: the command that was started with the URL
  unfoldable pub open_browser : OauthError ⊎ Text
  open_browser = browser_named browser_command

  module _ (request : EnrollmentRequest) (endpoint : Text) where
    abbrev pub connection_for : OidcDiscovery → Text → OauthParameters → Connection
    connection_for doc redirect_uri p = record {
      urls = w.urls;
      codec = w.codec;
      is_ip = w.is_ip;
      decode_token = w.decode_token;
      nonce_claim = w.nonce_claim;
      endpoint = endpoint;
      request = request;
      state = p.state;
      nonce = p.nonce;
      token_endpoint = doc.token_endpoint;
      verifier = p.verifier;
      redirect_uri = redirect_uri;
    }

    abbrev pub opened_as : OidcDiscovery → Text → OauthParameters → Text → Text → Opened
    opened_as doc redirect_uri p url command = record {
      connection = connection_for doc redirect_uri p;
      discovery = doc;
      command = command;
      url = url;
    }

    abbrev pub opened_by :
        OidcDiscovery → Text → OauthParameters → Text → OauthError ⊎ Text → OauthError ⊎ Opened
    opened_by doc redirect_uri p url (inl e) = inl e
    opened_by doc redirect_uri p url (inr command) = inr (opened_as doc redirect_uri p url command)

    abbrev pub open_url : OidcDiscovery → Text → OauthParameters → Option Text → OauthError ⊎ Opened
    open_url doc redirect_uri p none = inl invalid_authorize_url
    open_url doc redirect_uri p (some url) = opened_by doc redirect_uri p url open_browser

    abbrev pub open_with : OidcDiscovery → Text → Option OauthParameters → OauthError ⊎ Opened
    open_with doc redirect_uri none = inl no_parameters
    open_with doc redirect_uri (some p) =
        open_url doc redirect_uri p (build_authorize_url doc.authorization_endpoint redirect_uri p)

    abbrev pub open_at : OidcDiscovery → Option ℕ → OauthError ⊎ Opened
    open_at doc none = inl callback_unbound
    open_at doc (some port) =
        open_with doc (redirect_uri_at port) (new_oauth_parameters w.random w.digest)

    abbrev pub open_discovered : OauthError ⊎ OidcDiscovery → OauthError ⊎ Opened
    open_discovered (inl e) = inl e
    open_discovered (inr doc) = open_at doc w.listener

  abbrev pub open_canonical : EnrollmentRequest → Option Text → OauthError ⊎ Opened
  open_canonical request none = inl bad_endpoint
  open_canonical request (some endpoint) =
      open_discovered request endpoint
        (discover_oidc w.urls w.get w.decode_resource w.decode_discovery endpoint)

  -- Connect, up to the opened browser
  unfoldable pub open_connect : EnrollmentRequest → Text → OauthError ⊎ Opened
  open_connect request endpoint = open_canonical request (canonical_endpoint w.urls endpoint)
