-- ===== src/Cli/HostKey.antt =====
-- `applyHostKey` of cmd/familiar-fleet/main.go: the key by which ssh will know the tunnel's host.
use familiar_fleet.Base.{
  ◌≡◌, ◌≢◌, ◌↔◌, refl, [], Text, text_eq, ◌==◌, ◌!=◌, if◌then◌else◌, ◌⊎◌, inl, inr, arith, eq_iff,
}
use familiar_fleet.State.{Enrollment}
use familiar_fleet.State.PublicKey.{KeyError, normalize_public_key}

pub data HostKeyError : Type 0 where
  omitted : HostKeyError
  bad_supplied bad_server : KeyError → HostKeyError
  differ : HostKeyError

abbrev agreeing : Text → KeyError ⊎ Text → HostKeyError ⊎ Text
agreeing key (inl e) = inl (bad_server e)
agreeing key (inr server_key) = if key != server_key then inl differ else inr key

abbrev with_supplied : Text → KeyError ⊎ Text → HostKeyError ⊎ Text
with_supplied server (inl e) = inl (bad_supplied e)
with_supplied server (inr key) =
    if server != [] then agreeing key (normalize_public_key server) else inr key

abbrev only_server : KeyError ⊎ Text → HostKeyError ⊎ Text
only_server (inl e) = inl (bad_server e)
only_server (inr key) = inr key

-- the key that is kept, of the supplied one and the server's
unfoldable pub host_key_of : (supplied server : Text) → HostKeyError ⊎ Text
host_key_of supplied server =
    if supplied == []
    then (if server == [] then inl omitted else only_server (normalize_public_key server))
    else with_supplied server (normalize_public_key supplied)

abbrev keep : Enrollment → HostKeyError ⊎ Text → HostKeyError ⊎ Enrollment
keep e (inl x) = inl x
keep e (inr key) = inr (record e { tunnel_host_key = key })

-- applyHostKey
unfoldable pub apply_host_key : Enrollment → (supplied : Text) → HostKeyError ⊎ Enrollment
apply_host_key e supplied = keep e (host_key_of supplied e.tunnel_host_key)

-- A key that may be trusted: one at least was given, and each that was given is this key.
pub record IsTrusted (supplied server key : Text) : Type 0 where
  pub given : (supplied ≢ []) ⊎ (server ≢ [])
  pub supplied_is : (supplied ≡ []) ⊎ (normalize_public_key supplied ≡ inr key)
  pub server_is : (server ≡ []) ⊎ (normalize_public_key server ≡ inr key)

module _ (supplied server key : Text) where
  host_key_of_sound : host_key_of supplied server ≡ inr key → IsTrusted supplied server key
  unfolding host_key_of
  host_key_of_sound h =
      by_keys (normalize_public_key supplied) refl (normalize_public_key server) refl
    where
      by_keys :
          (x : KeyError ⊎ Text)
          → normalize_public_key supplied ≡ x
          → (y : KeyError ⊎ Text) → normalize_public_key server ≡ y
          → IsTrusted supplied server key
      by_keys (inl x) e (inl y) f = ground (arith, h, e, f, eq_iff supplied [], eq_iff server [])
      by_keys (inl x) e (inr y) f = ground (arith, h, e, f, eq_iff supplied [], eq_iff server [])
      by_keys (inr x) e (inl y) f = ground (arith, h, e, f, eq_iff supplied [], eq_iff server [])
      by_keys (inr x) e (inr y) f =
          ground (arith, h, e, f, eq_iff supplied [], eq_iff server [], eq_iff x y)

  host_key_of_complete : IsTrusted supplied server key → host_key_of supplied server ≡ inr key
  unfolding host_key_of
  host_key_of_complete t = ground (arith, t, eq_iff supplied [], eq_iff server [], eq_iff key key)

-- `applyHostKey` accepts an enrollment exactly when a key was supplied or sent and each such key
-- normalizes to one and the same key; the enrollment keeps that key and is else as it was.
pub apply_host_key_iff :
    (e r : Enrollment) (supplied : Text)
    → apply_host_key e supplied ≡ inr r ↔ (
        (key : Text) × IsTrusted supplied e.tunnel_host_key key
        × (r ≡ record e { tunnel_host_key = key }))
unfolding apply_host_key
apply_host_key_iff e r supplied = (
  by_key (host_key_of supplied e.tunnel_host_key) refl,
  λ (key, t, same). ground (arith, host_key_of_complete supplied e.tunnel_host_key key t, same),
)
  where
    by_key :
        (x : HostKeyError ⊎ Text)
        → host_key_of supplied e.tunnel_host_key ≡ x
        → keep e x ≡ inr r
        → (key : Text) × IsTrusted supplied e.tunnel_host_key key
          × (r ≡ record e { tunnel_host_key = key })
    by_key (inl x) f h = absurd (cc)
    by_key (inr key) f h =
        (key, host_key_of_sound supplied e.tunnel_host_key key f, ground (arith, h))
