-- ===== src/Config/Forwarding.antt =====
-- The arguments of the tunnel's ssh.
use familiar_fleet.Base.{
  append_assoc, ◌≤◌, length, append-nil, ℕ, suc, Bool, true, ◌≡◌, none, List, [], ◌∷◌, ◌++◌, Text,
  codes, nat_eq, text_eq, eq_iff, all, arith, refl, ap, sym, ◌∙◌, ◌⊎◌, inl, inr, ℤ, pos, negsuc,
}
use familiar_fleet.Text.{itoa, is_digit, has_prefix}
use familiar_fleet.Text.Bytes.{is_not, all-append, itoa-all, weaken-all}
use familiar_fleet.State.{Paths, Enrollment, validate_enrollment}
use familiar_fleet.State.Grammar.{is_user_byte}
use familiar_fleet.State.Safe.{is_host_byte, IsSafe, validate_enrollment-IsSafe}
use familiar_fleet.Config.{itoa_int, local_port, tunnel_args, tunnel_args_for_port, replace_all}

-- What ssh is to be given.
abbrev pub forwarding_args : Paths → Enrollment → ℕ → List Text
forwarding_args paths e port =
    codes "-F"
    ∷ codes "/dev/null"
    ∷ codes "-N"
    ∷ codes "-T"
    ∷ codes "-o"
    ∷ codes "BatchMode=yes"
    ∷ codes "-o"
    ∷ codes "IdentitiesOnly=yes"
    ∷ codes "-o"
    ∷ (codes "IdentityFile=" ++ paths.tunnel_key)
    ∷ codes "-o"
    ∷ (codes "UserKnownHostsFile=" ++ paths.known_hosts)
    ∷ codes "-o"
    ∷ codes "GlobalKnownHostsFile=/dev/null"
    ∷ codes "-o"
    ∷ codes "StrictHostKeyChecking=yes"
    ∷ codes "-o"
    ∷ codes "CheckHostIP=no"
    ∷ codes "-o"
    ∷ codes "ExitOnForwardFailure=yes"
    ∷ codes "-o"
    ∷ codes "ServerAliveInterval=15"
    ∷ codes "-o"
    ∷ codes "ServerAliveCountMax=3"
    ∷ codes "-o"
    ∷ codes "ConnectTimeout=15"
    ∷ codes "-o"
    ∷ codes "ConnectionAttempts=1"
    ∷ codes "-o"
    ∷ codes "RequestTTY=no"
    ∷ codes "-o"
    ∷ codes "ForwardAgent=no"
    ∷ codes "-o"
    ∷ codes "ClearAllForwardings=no"
    ∷ codes "-p"
    ∷ itoa_int e.tunnel_ssh_port
    ∷ codes "-R"
    ∷ (codes "127.0.0.1:" ++ (itoa_int e.port ++ (codes ":127.0.0.1:" ++ itoa port)))
    ∷ codes "--"
    ∷ (e.tunnel_user ++ b'@' ∷ e.tunnel_host)
    ∷ []

abbrev pub plain : ℕ → Bool
plain = is_not b'%'

abbrev fill : ℕ → Text → Text
fill port = replace_all local_port (itoa port) 0

fill-plain : (port : ℕ) (s : Text) → all plain s ≡ true → fill port s ≡ s
unfolding replace_all has_prefix
fill-plain port [] h = refl
fill-plain port (c ∷ s) h = ground (arith, h, fill-plain port s)

fill_end : (port : ℕ) (s : Text) → all plain s ≡ true → fill port (s ++ local_port) ≡ s ++ itoa port
unfolding replace_all has_prefix
fill_end port [] h = append-nil (itoa port)
fill_end port (c ∷ s) h = ground (arith, h, fill_end port s)

digit_plain : (c : ℕ) → is_digit c ≡ true → plain c ≡ true
digit_plain c h = ground (arith, h, eq_iff c b'%')

user_plain : (c : ℕ) → is_user_byte c ≡ true → plain c ≡ true
user_plain c h = ground (arith, h, eq_iff c b'%')

host_plain : (c : ℕ) → is_host_byte c ≡ true → plain c ≡ true
host_plain c h = ground (arith, h, eq_iff c b'%')

itoa-plain : (n : ℕ) → all plain (itoa n) ≡ true
itoa-plain n = weaken-all is_digit plain digit_plain (itoa n) (itoa-all n)

itoa_int-plain : (n : ℤ) → all plain (itoa_int n) ≡ true
itoa_int-plain (pos n) = itoa-plain n
itoa_int-plain (negsuc n) = ground (arith, itoa-plain (suc n))

host_text_plain :
    (is_ip : Text → Bool)
    → ((s : Text) → is_ip s ≡ true → all plain s ≡ true)
    → (s : Text) → (is_ip s ≡ true) ⊎ ((all is_host_byte s ≡ true) × (length s ≤ 253))
    → all plain s ≡ true
host_text_plain is_ip ip_plain s (inl h) = ip_plain s h
host_text_plain is_ip ip_plain s (inr (h, short)) = weaken-all is_host_byte plain host_plain s h

remote_filled :
    (n : ℤ) (port : ℕ)
    → fill port (itoa_int n ++ (codes ":127.0.0.1:" ++ local_port))
      ≡ itoa_int n ++ (codes ":127.0.0.1:" ++ itoa port)
remote_filled n port =
    ap (fill port) (sym (append_assoc (itoa_int n) (codes ":127.0.0.1:") local_port))
    ∙ fill_end port (itoa_int n ++ codes ":127.0.0.1:")
        (all-append plain (itoa_int n) (codes ":127.0.0.1:") (itoa_int-plain n) refl)
    ∙ append_assoc (itoa_int n) (codes ":127.0.0.1:") (itoa port)

destination_plain :
    (user host : Text)
    → all plain user ≡ true
    → all plain host ≡ true
    → all plain (user ++ b'@' ∷ host) ≡ true
destination_plain user host hu hh = all-append plain user (b'@' ∷ host) hu hh

module _ (paths : Paths) (e : Enrollment) (port : ℕ) (key_plain : all plain paths.tunnel_key ≡ true)
    (hosts_plain : all plain paths.known_hosts ≡ true) (is_ip : Text → Bool)
    (ip_plain : (s : Text) → is_ip s ≡ true → all plain s ≡ true) where
  -- For an enrollment that passed validation, and where the paths of the tunnel's key and of the
  -- known hosts have no `%` and no text that `is_ip` accepts has one, the arguments for a port are
  -- exactly those with that port's digits after the last colon of the forwarding, and every other
  -- argument is as TunnelArgs built it: the key and the known hosts at their own paths, the
  -- remote forwarding bound to the loopback address, and the destination after `--`.
  pub tunnel_args_for_port-forwarding_args :
      validate_enrollment is_ip e ≡ none
      → tunnel_args_for_port paths e port ≡ forwarding_args paths e port
  unfolding tunnel_args_for_port tunnel_args replace_all has_prefix
  tunnel_args_for_port-forwarding_args valid =
      let safe : IsSafe is_ip e = validate_enrollment-IsSafe is_ip e valid in
      cc (
        fill-plain port paths.tunnel_key key_plain,
        fill-plain port paths.known_hosts hosts_plain,
        fill-plain port (itoa_int e.tunnel_ssh_port) (itoa_int-plain e.tunnel_ssh_port),
        remote_filled e.port port,
        fill-plain port (e.tunnel_user ++ b'@' ∷ e.tunnel_host) (
            destination_plain e.tunnel_user e.tunnel_host
              (weaken-all is_user_byte plain user_plain e.tunnel_user safe.user.0)
              (host_text_plain is_ip ip_plain e.tunnel_host safe.host)),
      )
