-- ===== src/Cli/Node.antt =====
-- `run`, `runtimeCommand`, `prepareEnrollment`, `connect` and `debugEnroll` of
-- cmd/familiar-fleet/main.go, up to the call that then runs until the node is stopped. What they
-- print is not modelled.
pub mod Guarded
pub mod Started
use familiar_fleet.Base.{
  ℕ, Bool, true, false, not, ◌&&◌, ◌||◌, Option, none, some, List, [], ◌∷◌, ◌++◌, Text, codes,
  text_eq, ◌==◌, ◌!=◌, if◌then◌else◌, ◌⊎◌, inl, inr, pos,
}
use familiar_fleet.Text.{split}
use familiar_fleet.Host.{
  Io, World, pure, raise, attempt, map_err, guard, ◌>>=◌, ◌>>◌, FilePath, Entry, Entries, directory,
  lstat, chmod, mkdir_all, open_append, no_op, Error, message, wrap, prepare_state,
  not_real_directory, unsafe_state_path, not_connected, already_connected, connect_options,
  unknown_user, unknown_hostname, wrong_user, bad_log, bad_endpoint, needs_endpoint,
  tunnel_identity, host_identity, bad_token, enrollment_failed, host_key_refused, save_enrollment,
  activate_enrolled, no_usable_runtime, rolled_back_unpruned, unknown_subcommand,
  executable_not_found,
}
use familiar_fleet.Store.{Store, Status, status, rollback}
use familiar_fleet.Store.GcRoots.{prune_gc_roots}
use familiar_fleet.Applier.{Tools, RuntimeApplier, RuntimeApplyResult, apply, true_up}
use familiar_fleet.Endpoint.{Urls, canonical_endpoint}
use familiar_fleet.Enroll.{EnrollError, Post, Response, TokenError, enroll, read_token}
use familiar_fleet.Enroll.Keys.{ensure_key}
use familiar_fleet.State.{Paths, Enrollment, EnrollmentRequest, state_paths}
use familiar_fleet.State.Files.{Codec, Saved, load_state, save_state}
use familiar_fleet.Environment.Prepare.{
  Node, Surroundings, HerdrEnvironment, prepare_herdr_environment, runtime_store,
}
use familiar_fleet.Cli.{Options, Invocation}
use familiar_fleet.Cli.Binary.{find_binary_path}
use familiar_fleet.Cli.HostKey.{HostKeyError, apply_host_key}

-- What the program finds around it.
pub record Machine : Type 0 where
  pub tools : Tools
  pub codec : Codec Saved
  pub enrollment_codec : Codec Enrollment
  pub urls : Urls
  pub is_ip : Text → Bool
  pub keygen : Text → FilePath → FilePath → Bool × List (FilePath × Entry)
  pub send : Post → Option Response
  pub absolute : Text → Option Text
  pub look_path : Text → Option Text
  pub eval_symlinks : Text → Option Text
  pub euid : ℕ
  pub xdg_state_home : Text
  pub home : Text
  pub is_darwin : Bool
  pub user : Option Text
  pub hostname : Option Text
  pub environ : List Text
  pub token_variable : Text
  pub token_entry : Text → Option Entry
  pub around : Surroundings

-- What is called at last, or what the command has done.
pub data Launch : Type 0 where
  version_printed : Launch
  runtime_status : Status → Launch
  runtime_rolled_back : Text → Launch
  runtime_applied : RuntimeApplyResult → Launch
  stop_session : (herdr : Text) → Launch
  open_browser : (endpoint name username : Text) → EnrollmentRequest → Launch
  already_enrolled : Saved → Launch
  enrolled : Enrollment → Launch
  run_tunnel : Saved → (ssh sshd : Text) → Launch
  run_herdr : Saved → HerdrEnvironment → Launch
  run_interactive : Saved → HerdrEnvironment → (ssh sshd : Text) → Launch

abbrev pub require : {A : Type 0} → Option A → Error → Io A
require none e = raise e
require (some a) e = pure a

abbrev is_real_directory : Entry → Bool
is_real_directory directory = true
is_real_directory _ = false

abbrev first_label : List Text → Text
first_label [] = []
first_label (l ∷ _) = l

-- EnsureStateDir; the mode of a directory is not kept
unfoldable pub ensure_state_dir : FilePath → Io (Unit {0})
ensure_state_dir dir = do
  mkdir_all dir
  info ← lstat dir
  guard (is_real_directory info) not_real_directory

module _ (m : Machine) where
  abbrev pub node_at : Paths → Node
  node_at p = record { root = split b'/' p.dir; paths = p; is_darwin = m.is_darwin }

  abbrev pub state_file : Node → FilePath
  state_file n = n.root ++ codes "state.json" ∷ []

  abbrev pub find_binary : Text → Io Text
  find_binary name =
      require (find_binary_path m.look_path m.absolute m.eval_symlinks name)
        (message executable_not_found)

  -- applier
  abbrev pub applier : Node → Options → RuntimeApplier
  applier n o = record { store = runtime_store n; nix = o.nix; nix_store = o.nix_store }

  -- OpenLog
  unfoldable pub open_log : Node → Io (Unit {0})
  open_log n = do
    open_append (n.root ++ codes "familiar-fleet.log" ∷ []) 0o600
    chmod (n.root ++ codes "familiar-fleet.log" ∷ []) 0o600

  abbrev pub status_result : Status → Option Error → Io Launch
  status_result s none = pure (runtime_status s)
  status_result s (some e) = raise (message no_usable_runtime)

  -- `parseInvocation` has seen to it that there is an argument
  abbrev pub apply_argument : Node → Options → List Text → Io Launch
  apply_argument n o [] = raise (message unknown_subcommand)
  apply_argument n o (i ∷ _) = do r ← apply m.tools (applier n o) i; pure (runtime_applied r)

  -- runtimeCommand
  unfoldable pub runtime_command : Node → Options → List Text → Io Launch
  runtime_command n o [] = raise (message unknown_subcommand)
  runtime_command n o (c ∷ args) =
      if c == codes "status"
      then (status (runtime_store n) >>= λ s. status_result s s.current.problem)
      else if c == codes "rollback"
      then (do
        target ← rollback (runtime_store n)
        map_err (wrap rolled_back_unpruned) (prune_gc_roots (runtime_store n))
        pure (runtime_rolled_back target))
      else if c == codes "apply"
      then (apply_argument n o args)
      else raise (message unknown_subcommand)

  -- prepareEnrollment
  unfoldable pub prepare_enrollment : Node → Options → Io (EnrollmentRequest × Text)
  prepare_enrollment n o = do
    keygen ← find_binary o.keygen
    tunnel ←
        map_err (wrap tunnel_identity)
          (ensure_key (m.keygen keygen) n.root (codes "tunnel_ed25519"))
    host ←
        map_err (wrap host_identity)
          (ensure_key (m.keygen keygen) n.root (codes "sshd_host_ed25519"))
    user ← require m.user (message unknown_user)
    pure (
      record { host = []; tunnel_public_key = tunnel; ssh_host_public_key = host; ssh_user = user },
      user,
    )

  -- shortHostname
  unfoldable pub short_hostname : Io Text
  short_hostname = do
    name ← require m.hostname (message unknown_hostname)
    pure (first_label (split b'.' name))

  abbrev pub accept_key : HostKeyError ⊎ Enrollment → Io Enrollment
  accept_key (inl e) = raise (message host_key_refused)
  accept_key (inr e) = pure e

  -- what `connect` gives to `Connect` as `finalize`, and what `debugEnroll` does likewise
  unfoldable pub store_enrollment :
      Node → Options → (endpoint username : Text) → Enrollment → Io Enrollment
  store_enrollment n o endpoint username e = do
    kept ← accept_key (apply_host_key e o.host_key)
    map_err (wrap save_enrollment) (
        save_state m.codec m.urls m.is_ip (state_file n)
          (record { version = pos 0; endpoint = endpoint; ssh_user = username; enrollment = kept }))
    pure kept

  -- connect, up to `Connect`
  unfoldable pub connect : Node → Options → Text → Io Launch
  connect n o raw_endpoint = do
    endpoint ← require (canonical_endpoint m.urls raw_endpoint) (message bad_endpoint)
    (request, username) ← prepare_enrollment n o
    name ← short_hostname
    pure (open_browser endpoint name username request)

  -- connect, from the enrollment on
  unfoldable pub finish_connect : Node → Options → Enrollment → Io RuntimeApplyResult
  finish_connect n o e = map_err (wrap activate_enrolled) (true_up m.tools (applier n o) e.runtime)

  abbrev pub chosen_name : Text → Io Text
  chosen_name name = if name == [] then short_hostname else pure name

  abbrev pub accept_token : TokenError ⊎ Text → Io Text
  accept_token (inl e) = raise (message bad_token)
  accept_token (inr t) = pure t

  abbrev pub accept_enrollment : EnrollError ⊎ Enrollment → Io Enrollment
  accept_enrollment (inl e) = raise (message enrollment_failed)
  accept_enrollment (inr e) = pure e

  -- debugEnroll without a saved state
  unfoldable pub enroll_node : Node → Options → Io Launch
  enroll_node n o = do
    guard (o.endpoint != []) needs_endpoint
    endpoint ← require (canonical_endpoint m.urls o.endpoint) (message bad_endpoint)
    (request, username) ← prepare_enrollment n o
    name ← chosen_name o.name
    token ← accept_token (read_token m.token_entry m.token_variable o.token_file)
    e ← accept_enrollment (
        enroll m.enrollment_codec m.is_ip m.urls m.send endpoint token
          (record request { host = name }))
    kept ← store_enrollment n o endpoint username e
    pure (enrolled kept)

  -- debugEnroll
  unfoldable pub debug_enroll : Node → Options → Option Saved → Io Launch
  debug_enroll n o (some s) = pure (already_enrolled s)
  debug_enroll n o none = enroll_node n o

  -- runTunnel, up to `RunTunnel`
  unfoldable pub launch_tunnel : Node → Options → Saved → Io Launch
  launch_tunnel n o s = do
    ssh ← find_binary o.ssh
    sshd ← find_binary o.sshd
    map_err (wrap bad_log) (open_log n)
    pure (run_tunnel s ssh sshd)

  -- `run`, from the environment of the Herdr server on
  unfoldable pub launch_interactive : Node → Options → Saved → HerdrEnvironment → Io Launch
  launch_interactive n o s env = do
    ssh ← find_binary o.ssh
    sshd ← find_binary o.sshd
    map_err (wrap bad_log) (open_log n)
    pure (run_interactive s env ssh sshd)

  -- `run`, from the true-up on
  unfoldable pub launch_node : Node → Invocation → Saved → (herdr : Text) → Io Launch
  launch_node n inv s herdr = do
    applied ← true_up m.tools (applier n inv.options) s.enrollment.runtime
    env ← prepare_herdr_environment n m.around herdr m.environ
    if inv.command == codes "herdr"
        then pure (run_herdr s env)
        else launch_interactive n inv.options s env

  -- `run`, from the test of the user on
  unfoldable pub launch_as : Node → Invocation → Saved → Io Launch
  launch_as n inv s = do
    user ← require m.user (message unknown_user)
    guard (user == s.ssh_user) wrong_user
    herdr ← find_binary inv.options.herdr
    if inv.command == codes "tunnel"
        then launch_tunnel n inv.options s
        else launch_node n inv s herdr

  abbrev pub connect_argument : Node → Options → List Text → Io Launch
  connect_argument n o [] = raise (message bad_endpoint)
  connect_argument n o (url ∷ _) = connect n o url

  -- `run`, from the loaded state on
  unfoldable pub run_with : Node → Invocation → Option Saved → Io Launch
  run_with n inv none =
      if inv.command == codes "connect"
      then (if inv.options.token_file != [] || inv.options.name != []
          then raise (message connect_options)
          else connect_argument n inv.options inv.args)
      else if inv.command == codes "enroll"
      then debug_enroll n inv.options none
      else raise (message not_connected)
  run_with n inv (some s) =
      if inv.command == codes "connect"
      then raise (message already_connected)
      else if inv.command == codes "enroll"
      then debug_enroll n inv.options (some s)
      else launch_as n inv s

  -- `run`, from the prepared state directory on
  unfoldable pub run_prepared : Node → Invocation → Io Launch
  run_prepared n inv =
      if inv.command == codes "runtime"
      then runtime_command n inv.options inv.args
      else if inv.command == codes "stop"
      then (find_binary inv.options.herdr >>= λ herdr. pure (stop_session herdr))
      else (load_state m.codec m.urls m.is_ip (state_file n) >>= run_with n inv)

  -- `run`, from the paths on
  unfoldable pub run_in : Node → Invocation → Io Launch
  run_in n inv = do map_err (wrap prepare_state) (ensure_state_dir n.root); run_prepared n inv

  abbrev pub run_at : Invocation → Option Paths → Io Launch
  run_at inv none = raise (message unsafe_state_path)
  run_at inv (some p) = run_in (node_at p) inv

  -- `run` of a command line that was parsed
  unfoldable pub run : Invocation → Io Launch
  run inv =
      if inv.command == codes "version"
      then pure version_printed
      else run_at inv (state_paths m.absolute inv.options.state_dir m.euid m.xdg_state_home m.home)
