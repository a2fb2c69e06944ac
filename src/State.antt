-- ===== src/State.antt =====
-- internal/client/state.go: where the state lives, and the validation of an enrollment. `is_ip` is
-- net.ParseIP's verdict, and `absolute` is filepath.Abs.
pub mod PublicKey
pub mod Files
pub mod Grammar
pub mod Safe
use familiar_fleet.Base.{
  ℕ, Bool, true, false, not, ◌&&◌, ◌||◌, Option, none, some, List, [], ◌∷◌, ◌++◌, Text, codes,
  nat_eq, text_eq, ◌==◌, ◌!=◌, leb, ltb, length, all, any, if◌then◌else◌, ℤ, pos, negsuc,
}
use familiar_fleet.Text.{is_control, contains_any, has_prefix, has_suffix, split}
use familiar_fleet.FilePath.{join}
use familiar_fleet.Descriptor
use familiar_fleet.Descriptor.{RuntimeDescriptor, DescriptorError, no_runtime_descriptor}
use familiar_fleet.State.PublicKey.{KeyError, validate_public_key}
use familiar_fleet.State.Grammar.{match_label, match_node_id, match_user, match_session}

pub record Paths : Type 0 where
  pub dir : Text
  pub state : Text
  pub log : Text
  pub tunnel_key : Text
  pub tunnel_public_key : Text
  pub host_key : Text
  pub host_public_key : Text
  pub authorized_keys : Text
  pub known_hosts : Text
  pub sshd_config : Text
  pub sshd_pid : Text
  pub herdr_wrapper : Text
  pub ssh_bridge : Text
  pub runtime_dir : Text
  pub pi_dir : Text
  pub pane_shell : Text
  pub herdr_config : Text
  pub secrets_dir : Text
  pub tiamat_url_file : Text
  pub tiamat_token_file : Text

abbrev pub program_name : Text
program_name = codes "familiar-fleet"

-- ResolveStateDir: `none` for an empty home directory
unfoldable pub resolve_state_dir :
    (override : Text) (euid : ℕ) (xdg_state_home home : Text) → Option Text
resolve_state_dir override euid xdg_state_home home =
    if override != []
    then some override
    else if euid == 0
    then some (codes "/var/lib/familiar-fleet")
    else if xdg_state_home != []
    then some (join (xdg_state_home ∷ program_name ∷ []))
    else if home == []
    then none
    else some (join (home ∷ codes ".local" ∷ codes "state" ∷ program_name ∷ []))

abbrev pub paths_in : Text → Paths
paths_in abs = record {
  dir = abs;
  state = join (abs ∷ codes "state.json" ∷ []);
  log = join (abs ∷ codes "familiar-fleet.log" ∷ []);
  tunnel_key = join (abs ∷ codes "tunnel_ed25519" ∷ []);
  tunnel_public_key = join (abs ∷ codes "tunnel_ed25519.pub" ∷ []);
  host_key = join (abs ∷ codes "sshd_host_ed25519" ∷ []);
  host_public_key = join (abs ∷ codes "sshd_host_ed25519.pub" ∷ []);
  authorized_keys = join (abs ∷ codes "authorized_keys" ∷ []);
  known_hosts = join (abs ∷ codes "known_hosts" ∷ []);
  sshd_config = join (abs ∷ codes "sshd_config" ∷ []);
  sshd_pid = join (abs ∷ codes "sshd.pid" ∷ []);
  herdr_wrapper = join (abs ∷ codes "herdr" ∷ []);
  ssh_bridge = join (abs ∷ codes "ssh-bridge" ∷ []);
  runtime_dir = join (abs ∷ codes "runtime" ∷ []);
  pi_dir = join (abs ∷ codes "runtime" ∷ codes "pi" ∷ []);
  pane_shell = join (abs ∷ codes "pane-shell" ∷ []);
  herdr_config = join (abs ∷ codes "herdr-config.toml" ∷ []);
  secrets_dir = join (abs ∷ codes "secrets" ∷ []);
  tiamat_url_file = join (abs ∷ codes "secrets" ∷ codes "tiamat.url" ∷ []);
  tiamat_token_file = join (abs ∷ codes "secrets" ∷ codes "tiamat.token" ∷ []);
}

abbrev pub is_unsafe_dir : Text → Bool
is_unsafe_dir abs = contains_any abs (codes ":'") || any is_control abs

abbrev pub checked_paths : Text → Option Paths
checked_paths abs = if is_unsafe_dir abs then none else some (paths_in abs)

abbrev pub paths_of : (Text → Option Text) → Option Text → Option Paths
paths_of absolute none = none
paths_of absolute (some dir) = elim (absolute dir) [ none ↦ none | some abs ↦ checked_paths abs ]

-- StatePaths; a home directory that is not found is an empty one
unfoldable pub state_paths :
    (absolute : Text → Option Text) (override : Text) (euid : ℕ) (xdg_state_home home : Text)
    → Option Paths
state_paths absolute override euid xdg_state_home home =
    paths_of absolute (resolve_state_dir override euid xdg_state_home home)

pub record EnrollmentRequest : Type 0 where
  pub host : Text
  pub tunnel_public_key : Text
  pub ssh_host_public_key : Text
  pub ssh_user : Text

pub record Enrollment : Type 0 where
  pub node_id : Text
  pub host : Text
  pub port : ℤ
  pub tunnel_host : Text
  pub tunnel_ssh_port : ℤ
  pub tunnel_user : Text
  pub remote_session : Text
  pub controller_public_key : Text
  pub runtime : RuntimeDescriptor
  pub tunnel_host_key : Text

pub data EnrollmentError : Type 0 where
  invalid_node_id : EnrollmentError
  invalid_host_label : EnrollmentError
  invalid_reverse_port : EnrollmentError
  invalid_tunnel_host : EnrollmentError
  invalid_tunnel_ssh_port : EnrollmentError
  invalid_tunnel_user : EnrollmentError
  wrong_remote_session : EnrollmentError
  invalid_ssh_user : EnrollmentError
  controller_public_key : KeyError → EnrollmentError
  tunnel_public_key : KeyError → EnrollmentError
  ssh_host_public_key : KeyError → EnrollmentError
  runtime_descriptor : DescriptorError → EnrollmentError
  tunnel_host_key : KeyError → EnrollmentError

abbrev pub is_port : ℤ → Bool
is_port (pos n) = leb 1 n && leb n 65535
is_port (negsuc n) = false

abbrev pub blame_key :
    (KeyError → EnrollmentError) → Option KeyError → Option EnrollmentError → Option EnrollmentError
blame_key field none rest = rest
blame_key field (some e) rest = some (field e)

abbrev pub blame_descriptor :
    Option DescriptorError → Option EnrollmentError → Option EnrollmentError
blame_descriptor none rest = rest
blame_descriptor (some e) rest = some (runtime_descriptor e)

-- ValidateEnrollmentRequest: the error, if there is one
unfoldable pub validate_enrollment_request : EnrollmentRequest → Option EnrollmentError
validate_enrollment_request r =
    if not (match_label r.host)
    then some invalid_host_label
    else if not (match_user r.ssh_user)
    then some invalid_ssh_user
    else blame_key tunnel_public_key (validate_public_key r.tunnel_public_key)
        (blame_key ssh_host_public_key (validate_public_key r.ssh_host_public_key) none)

module _ (is_ip : Text → Bool) where
  -- validHost
  unfoldable pub valid_host : Text → Bool
  valid_host s =
      if is_ip s
      then true
      else if ltb 253 (length s) || has_prefix s (codes ".") || has_suffix s (codes ".")
      then false
      else all match_label (split b'.' s)

  -- ValidateEnrollment: the error, if there is one
  unfoldable pub validate_enrollment : Enrollment → Option EnrollmentError
  validate_enrollment e =
      if not (match_node_id e.node_id)
      then some invalid_node_id
      else if not (match_label e.host)
      then some invalid_host_label
      else if not (is_port e.port)
      then some invalid_reverse_port
      else if not (valid_host e.tunnel_host)
      then some invalid_tunnel_host
      else if not (is_port e.tunnel_ssh_port)
      then some invalid_tunnel_ssh_port
      else if not (match_user e.tunnel_user)
      then some invalid_tunnel_user
      else if not (match_session e.remote_session) || e.remote_session != program_name
      then some wrong_remote_session
      else blame_key controller_public_key (validate_public_key e.controller_public_key) (
          blame_descriptor (Descriptor.validate e.runtime) (
            if e.tunnel_host_key != []
            then blame_key tunnel_host_key (validate_public_key e.tunnel_host_key) none
            else none))
