-- ===== src/Config.antt =====
-- internal/client/config.go: quoting, the files of the callback sshd, and the arguments of the
-- reverse tunnel's ssh.
pub mod Configured
pub mod Directives
pub mod Quoting
pub mod Forwarding
use familiar_fleet.Base.{
  zero, ◌-◌, ℕ, Bool, true, false, not, ◌&&◌, ◌||◌, Option, none, some, List, [], ◌∷◌, ◌++◌, Text,
  codes, nat_eq, text_eq, ◌==◌, ◌!=◌, leb, length, drop, if◌then◌else◌, ℤ, pos, negsuc, int_is, ◌⊎◌,
  inl, inr, map, suc,
}
use familiar_fleet.Text.{contains_any, itoa, join_with, has_prefix, replace_byte}
use familiar_fleet.State.{Paths, Enrollment}
use familiar_fleet.State.Grammar.{match_user}
use familiar_fleet.State.PublicKey.{KeyError, normalize_public_key}

-- shellQuote
unfoldable pub shell_quote : Text → Text
shell_quote s = 39 ∷ (replace_byte 39 (39 ∷ 92 ∷ 39 ∷ 39 ∷ []) s ++ 39 ∷ [])

-- strings.NewReplacer of a backslash and of a double quote
unfoldable pub escape : Text → Text
escape [] = []
escape (c ∷ s) =
    let rest = escape s in
    if c == 92 then 92 ∷ 92 ∷ rest else if c == 34 then 92 ∷ 34 ∷ rest else c ∷ rest

-- sshdQuote, and tomlString of internal/client/paneshell.go
unfoldable pub sshd_quote : Text → Text
sshd_quote s = 34 ∷ (escape s ++ 34 ∷ [])

pub data ConfigError : Type 0 where
  unsafe_user : ConfigError
  invalid_port : ConfigError
  controller_key : KeyError → ConfigError
  rendezvous_key : KeyError → ConfigError
  invalid_herdr_path : ConfigError

-- strconv.Itoa
abbrev pub itoa_int : ℤ → Text
itoa_int (pos n) = itoa n
itoa_int (negsuc n) = b'-' ∷ itoa (suc n)

-- A file that `atomicWrite` is given: its path, its content and its mode.
pub record Written : Type 0 where
  pub path : Text
  pub content : Text
  pub mode : ℕ

abbrev line : Text → Text
line s = s ++ 10 ∷ []

unfoldable pub authorized_keys_text : Text → Text
authorized_keys_text controller =
    codes "no-port-forwarding,no-agent-forwarding,no-X11-forwarding,no-pty "
    ++ (controller ++ line (codes " familiar-fleet-controller"))

unfoldable pub known_name : Enrollment → Text
known_name e =
    if int_is e.tunnel_ssh_port 22
    then e.tunnel_host
    else b'[' ∷ (e.tunnel_host ++ (codes "]:" ++ itoa_int e.tunnel_ssh_port))

unfoldable pub wrapper_text : Text → Text
wrapper_text herdr =
    line (codes "#!/bin/sh") ++ (codes "exec " ++ (shell_quote herdr ++ line (codes " \"$@\"")))

unfoldable pub bridge_text : Text → Text
bridge_text dir =
    line (codes "#!/bin/sh")
    ++ (codes "PATH="
        ++ (shell_quote dir
            ++ (line (codes ":${PATH:-/usr/local/bin:/usr/bin:/bin:/usr/sbin:/sbin}")
                ++ (line (codes "export PATH")
                    ++ (line (codes "test -n \"${SSH_ORIGINAL_COMMAND:-}\" || exit 64")
                        ++ line (codes "exec /bin/sh -c \"$SSH_ORIGINAL_COMMAND\""))))))

unfoldable pub sshd_lines : Paths → Text → ℕ → List Text
sshd_lines paths local_user port =
    codes "AddressFamily inet"
    ∷ codes "ListenAddress 127.0.0.1"
    ∷ (codes "Port " ++ itoa port)
    ∷ (codes "HostKey " ++ sshd_quote paths.host_key)
    ∷ (codes "PidFile " ++ sshd_quote paths.sshd_pid)
    ∷ (codes "AuthorizedKeysFile " ++ sshd_quote paths.authorized_keys)
    ∷ (codes "AllowUsers " ++ local_user)
    ∷ codes "AuthenticationMethods publickey"
    ∷ codes "PubkeyAuthentication yes"
    ∷ codes "PasswordAuthentication no"
    ∷ codes "KbdInteractiveAuthentication no"
    ∷ codes "ChallengeResponseAuthentication no"
    ∷ codes "PermitEmptyPasswords no"
    ∷ codes "UsePAM no"
    ∷ codes "PermitRootLogin no"
    ∷ codes "StrictModes yes"
    ∷ codes "AllowAgentForwarding no"
    ∷ codes "AllowTcpForwarding no"
    ∷ codes "GatewayPorts no"
    ∷ codes "X11Forwarding no"
    ∷ codes "PermitTunnel no"
    ∷ codes "PermitTTY no"
    ∷ codes "PermitUserEnvironment no"
    ∷ codes "PermitUserRC no"
    ∷ (codes "ForceCommand " ++ sshd_quote paths.ssh_bridge)
    ∷ codes "LogLevel VERBOSE"
    ∷ codes "Subsystem sftp internal-sftp"
    ∷ []
    ∷ []

-- the configuration of sshd
abbrev pub sshd_config_text : Paths → Text → ℕ → Text
sshd_config_text paths local_user port = join_with (10 ∷ []) (sshd_lines paths local_user port)

abbrev pub rendezvous_files :
    Paths → Enrollment → Text → Text → ℕ → KeyError ⊎ Text → List Written × Option ConfigError
rendezvous_files paths e local_user herdr port (inl x) = ([], some (rendezvous_key x))
rendezvous_files paths e local_user herdr port (inr host_key) =
    let known : Written = record {
      path = paths.known_hosts;
      content = known_name e ++ b' ' ∷ line host_key;
      mode = 0o600;
    } in
    if contains_any herdr (13 ∷ 10 ∷ []) then (known ∷ [], some invalid_herdr_path) else (
      known
          ∷ record { path = paths.herdr_wrapper; content = wrapper_text herdr; mode = 0o700 }
          ∷ record { path = paths.ssh_bridge; content = bridge_text paths.dir; mode = 0o700 }
          ∷ record {
            path = paths.sshd_config;
            content = sshd_config_text paths local_user port;
            mode = 0o600;
          }
          ∷ [],
      none,
    )

abbrev pub after_file :
    Written → List Written × Option ConfigError → List Written × Option ConfigError
after_file f (fs, e) = (f ∷ fs, e)

abbrev pub controller_files :
    Paths → Enrollment → Text → Text → ℕ → KeyError ⊎ Text → List Written × Option ConfigError
controller_files paths e local_user herdr port (inl x) = ([], some (controller_key x))
controller_files paths e local_user herdr port (inr controller) =
    after_file
      (record {
        path = paths.authorized_keys;
        content = authorized_keys_text controller;
        mode = 0o600;
      })
      (rendezvous_files paths e local_user herdr port (normalize_public_key e.tunnel_host_key))

-- WriteRuntimeConfig: the files that it writes, in their order, where each write succeeds, and the
-- error, if there is one
unfoldable pub write_runtime_config :
    Paths
    → Enrollment
    → (local_user herdr_path : Text) → (port : ℕ) → List Written × Option ConfigError
write_runtime_config paths e local_user herdr_path port =
    if not (match_user local_user)
    then ([], some unsafe_user)
    else if not (leb 1 port && leb port 65535)
    then ([], some invalid_port)
    else controller_files paths e local_user herdr_path port
        (normalize_public_key e.controller_public_key)

abbrev option_o : List Text → List Text
option_o [] = []
option_o (s ∷ ss) = codes "-o" ∷ s ∷ option_o ss

abbrev pub local_port : Text
local_port = codes "%LOCAL_PORT%"

-- TunnelArgs
unfoldable pub tunnel_args : Paths → Enrollment → List Text
tunnel_args paths e =
    codes "-F"
    ∷ codes "/dev/null"
    ∷ codes "-N"
    ∷ codes "-T"
    ∷ (option_o (
          codes "BatchMode=yes"
          ∷ codes "IdentitiesOnly=yes"
          ∷ (codes "IdentityFile=" ++ paths.tunnel_key)
          ∷ (codes "UserKnownHostsFile=" ++ paths.known_hosts)
          ∷ codes "GlobalKnownHostsFile=/dev/null"
          ∷ codes "StrictHostKeyChecking=yes"
          ∷ codes "CheckHostIP=no"
          ∷ codes "ExitOnForwardFailure=yes"
          ∷ codes "ServerAliveInterval=15"
          ∷ codes "ServerAliveCountMax=3"
          ∷ codes "ConnectTimeout=15"
          ∷ codes "ConnectionAttempts=1"
          ∷ codes "RequestTTY=no"
          ∷ codes "ForwardAgent=no"
          ∷ codes "ClearAllForwardings=no"
          ∷ [])
        ++ (codes "-p"
            ∷ itoa_int e.tunnel_ssh_port
            ∷ codes "-R"
            ∷ (codes "127.0.0.1:" ++ (itoa_int e.port ++ (codes ":127.0.0.1:" ++ local_port)))
            ∷ codes "--"
            ∷ (e.tunnel_user ++ b'@' ∷ e.tunnel_host)
            ∷ []))

-- strings.ReplaceAll from left to right; `skip` bytes of a match are still to be passed over
unfoldable pub replace_all : (old new : Text) → ℕ → Text → Text
replace_all old new skip [] = []
replace_all old new (suc skip) (c ∷ s) = replace_all old new skip s
replace_all old new zero (c ∷ s) =
    let passed = replace_all old new (length old - 1) s in
    let rest = replace_all old new 0 s in if has_prefix (c ∷ s) old then new ++ passed else c ∷ rest

-- TunnelArgsForPort
unfoldable pub tunnel_args_for_port : Paths → Enrollment → ℕ → List Text
tunnel_args_for_port paths e port = map (replace_all local_port (itoa port) 0) (tunnel_args paths e)
