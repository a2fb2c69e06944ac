-- ===== src/Endpoint/Secure.antt =====
-- What a canonical endpoint is.
use familiar_fleet.Base.{
  ℕ, Bool, true, false, ◌≡◌, ◌≢◌, ◌⊎◌, inl, inr, some, [], Text, text_eq, eq_iff, refl, arith,
  Option-cases, nat_eq, ◌∷◌, ◌&&◌, all, ◌==◌, if◌then◌else◌,
}
use familiar_fleet.Text.{trim_space, trim_right}
use familiar_fleet.Endpoint.{Url, Urls, https, is_local, lower, trim_slashes, canonical_endpoint}

-- A URL that is accepted: in lower case HTTPS, or HTTP on this machine, with nothing but a host and a
-- path, and perhaps a `?` with nothing behind it.
pub record IsSecure (urls : Urls) (u : Url) : Type 0 where
  pub scheme : ((lower urls u).scheme ≡ https) ⊎ (is_local urls (lower urls u) ≡ true)
  pub host : u.host ≢ []
  pub user : u.has_user ≡ false
  pub query : u.raw_query ≡ []
  pub fragment : u.fragment ≡ []
  pub opaque : u.opaque ≡ []

abbrev pub last_is : (ℕ → Bool) → Text → Bool
last_is p [] = false
last_is p (c ∷ []) = p c
last_is p (c ∷ d ∷ s) = last_is p (d ∷ s)

all_of_trimmed : (p : ℕ → Bool) (s : Text) → trim_right p s ≡ [] → all p s ≡ true
unfolding trim_right
all_of_trimmed p [] h = refl
all_of_trimmed p (c ∷ s) h = ground arith

last_is-trim_right : (p : ℕ → Bool) (s : Text) → last_is p (trim_right p s) ≡ false
unfolding trim_right
last_is-trim_right p [] = refl
last_is-trim_right p (c ∷ s) = by_rest (trim_right p s) refl (last_is-trim_right p s)
  where
    by_rest :
        (r : Text)
        → trim_right p s ≡ r
        → last_is p (trim_right p s) ≡ false
        → last_is p (if p c && all p s then [] else c ∷ trim_right p s) ≡ false
    by_rest [] e h = ground (arith, e, all_of_trimmed p s)
    by_rest (d ∷ r) e h = ground (arith, e)

-- `CanonicalEndpoint` accepts only the text of a URL that, in lower case, is HTTPS or is HTTP on this
-- machine, and that has a host, and no user, no fragment, no opaque part and no text of a query; what
-- it returns is printed from that URL with its scheme and host in lower case and with a path that does
-- not end in a slash. A `?` with nothing behind it stays.
pub canonical_endpoint-IsSecure :
    (urls : Urls) (raw t : Text)
    → canonical_endpoint urls raw ≡ some t
    → (u : Url) × (urls.parse (trim_space raw) ≡ some u)
      × IsSecure urls u
      × (t ≡ urls.print (trim_slashes (lower urls u)))
      × ((trim_slashes (lower urls u)).force_query ≡ u.force_query)
      × (last_is (λ c. c == b'/') (trim_slashes (lower urls u)).path ≡ false)
unfolding canonical_endpoint
canonical_endpoint-IsSecure urls raw t h = elim (Option-cases (urls.parse (trim_space raw))) [
  | inl e ↦ absurd (ground arith)
  | inr (u, e) ↦ (
    u,
    e,
    record {
      scheme = ground (arith, e, eq_iff (lower urls u).scheme https);
      host = ground (arith, e, eq_iff u.host []);
      user = ground (arith, e);
      query = ground (arith, e, eq_iff u.raw_query []);
      fragment = ground (arith, e, eq_iff u.fragment []);
      opaque = ground (arith, e, eq_iff u.opaque []);
    },
    ground (arith, e),
    refl,
    last_is-trim_right (λ c. c == b'/') u.path,
  )
]
