-- ===== src/Endpoint.antt =====
-- `CanonicalEndpoint` of internal/client/state.go. net/url is the parameter `Urls`: its parser, its
-- printer, the host without its port, and whether a host is a loopback address of net.ParseIP, with
-- strings.ToLower, which is not for ASCII alone. `force_query` is a `?` with nothing behind it.
pub mod Secure
use familiar_fleet.Base.{
  Bool, true, false, not, ◌&&◌, ◌||◌, Option, none, some, [], Text, codes, nat_eq, text_eq, ◌==◌,
  ◌!=◌, if◌then◌else◌,
}
use familiar_fleet.Text.{trim_space, trim_right, to_lower}

pub record Url : Type 0 where
  pub scheme : Text
  pub opaque : Text
  pub has_user : Bool
  pub host : Text
  pub path : Text
  pub raw_path : Text
  pub force_query : Bool
  pub raw_query : Text
  pub fragment : Text

pub record Urls : Type 0 where
  pub parse : Text → Option Url
  pub print : Url → Text
  pub hostname : Url → Text
  pub is_loopback : Text → Bool
  pub to_lower : Text → Text

abbrev pub https : Text
https = codes "https"

-- the first test of `CanonicalEndpoint`
abbrev pub is_plain : Url → Bool
is_plain u =
    u.host != [] && not u.has_user && u.raw_query == [] && u.fragment == [] && u.opaque == []

abbrev pub trim_slashes : Url → Url
trim_slashes u = record u {
  path = trim_right (λ c. c == b'/') u.path;
  raw_path = trim_right (λ c. c == b'/') u.raw_path;
}

module _ (urls : Urls) where
  abbrev pub lower : Url → Url
  lower u = record u { scheme = urls.to_lower u.scheme; host = urls.to_lower u.host }

  abbrev pub is_local : Url → Bool
  is_local u =
      u.scheme == codes "http"
      && (urls.hostname u == codes "localhost" || urls.is_loopback (urls.hostname u))

  abbrev canonical_of : Option Url → Option Text
  canonical_of none = none
  canonical_of (some u) =
      if not (is_plain u)
      then none
      else if (lower u).scheme != https && not (is_local (lower u))
      then none
      else some (urls.print (trim_slashes (lower u)))

  -- CanonicalEndpoint: `none` is the error
  unfoldable pub canonical_endpoint : Text → Option Text
  canonical_endpoint raw = canonical_of (urls.parse (trim_space raw))

  abbrev pub is_some : Option Text → Bool
  is_some none = false
  is_some (some _) = true

  -- ValidateEndpoint: whether there is no error
  unfoldable pub validate_endpoint : Text → Bool
  validate_endpoint raw = is_some (canonical_endpoint raw)
