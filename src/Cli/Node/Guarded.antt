-- ===== src/Cli/Node/Guarded.antt =====
-- What holds when `run` starts something.
use familiar_fleet.Base.{
  ◌∙◌, Option-cases, Bool, true, false, ◌≡◌, refl, sym, subst, Option, none, some, List, [], ◌∷◌,
  Text, codes, text_eq, ◌==◌, ◌!=◌, ◌||◌, eq_iff, arith, if◌then◌else◌,
}
use familiar_fleet.Host.{
  executable_not_found, World, Outcome, ok, ◌>>=◌, map_err, guard, wrong_user, pure, message,
  unknown_user, Error, wrap, prepare_state,
}
use familiar_fleet.Host.Answers.{Answers, bind-Answers}
use familiar_fleet.Applier.{apply}
use familiar_fleet.State.{Paths, state_paths}
use familiar_fleet.State.Files.{Saved, load_state}
use familiar_fleet.State.Files.Accepted.{IsAccepted, AcceptedIf, load_state-IsAccepted}
use familiar_fleet.Environment.Prepare.{Node}
use familiar_fleet.Cli.Node.Started.{
  loading, require-world, IsOwned, IsFresh, Launched, launch_tunnel-Launched, launch_node-Launched,
}
use familiar_fleet.Cli.{Invocation}
use familiar_fleet.Cli.Node.{
  executable_not_found, find_binary_path, unknown_subcommand, status_result, status, prune_gc_roots,
  rolled_back_unpruned, runtime_store, rollback, short_hostname, prepare_enrollment, apply_argument,
  not_connected, connect_options, already_connected, bad_endpoint, raise, needs_endpoint,
  connect_argument, Status, canonical_endpoint, Machine, Launch, version_printed,
  runtime_rolled_back, stop_session, require, node_at, state_file, find_binary, applier,
  ensure_state_dir, runtime_command, connect, enroll_node, debug_enroll, launch_tunnel, launch_node,
  launch_as, run_with, run_prepared, run_in, run_at, run,
}

module _ (m : Machine) (n : Node) (inv : Invocation) (begun : World) where
  abbrev Started : Launch → World → Type 0
  Started = Launched m n inv begun

  user-Launched :
      (s : Saved)
      → (loading m n begun).0 ≡ ok (some s)
      → IsAccepted m.codec m.urls m.is_ip s
      → (w : World) → w ≡ (loading m n begun).1
      → Answers Started (launch_as m n inv s w)
  unfolding launch_as
  user-Launched s r a w begins =
      bind-Answers Started _ (require m.user (message unknown_user)) w (λ user h.
        bind-Answers Started _ (guard (user == s.ssh_user) wrong_user) _ (λ _ g.
          bind-Answers Started _ (find_binary m inv.options.herdr) _ (λ herdr _.
            by_command (record { read = r; accepted = a; user = same user _ h g }) herdr _
              (require-world
                  (find_binary_path m.look_path m.absolute m.eval_symlinks inv.options.herdr)
                  (message executable_not_found) _
                ∙ guard-world (user == s.ssh_user) _
                ∙ require-world m.user (message unknown_user) w
                ∙ begins)
              (inv.command == codes "tunnel"))))
    where
      guard-world : (b : Bool) (v : World) → (guard b wrong_user v).1 ≡ v
      guard-world true v = refl
      guard-world false v = refl

      same :
          (user : Text) (v : World)
          → (require m.user (message unknown_user) w).0 ≡ ok user
          → (guard (user == s.ssh_user) wrong_user v).0 ≡ ok tt
          → m.user ≡ some s.ssh_user
      same user v h g = ground (arith, h, g, eq_iff user s.ssh_user, Option-cases m.user)

      by_command :
          IsOwned m n inv begun s
          → (herdr : Text) (v : World) → v ≡ (loading m n begun).1
          → (b : Bool)
          → Answers Started
              ((if b then launch_tunnel m n inv.options s else launch_node m n inv s herdr) v)
      by_command o herdr v e true = launch_tunnel-Launched m n inv begun s o v
      by_command o herdr v e false = launch_node-Launched m n inv begun s o herdr v e

  connect-Launched :
      IsFresh m n inv begun
      → (url : Text) (w : World) → Answers Started (connect m n inv.options url w)
  unfolding connect
  connect-Launched f url w =
      bind-Answers Started _ (require (canonical_endpoint m.urls url) (message bad_endpoint)) w
        (λ endpoint _.
          bind-Answers Started _ (prepare_enrollment m n inv.options) _
            (λ p _. bind-Answers Started _ (short_hostname m) _ (λ name _. f)))

  enroll_node-Launched :
      IsFresh m n inv begun → (w : World) → Answers Started (enroll_node m n inv.options w)
  unfolding enroll_node
  enroll_node-Launched f w =
      bind-Answers Started _ (guard (inv.options.endpoint != []) needs_endpoint) w (λ _ _.
        bind-Answers Started _
          (require (canonical_endpoint m.urls inv.options.endpoint) (message bad_endpoint)) _
          (λ endpoint _. bind-Answers Started _ (prepare_enrollment m n inv.options) _ (λ p _.
            bind-Answers Started _ _ _ (λ name _. bind-Answers Started _ _ _ (λ token _.
              bind-Answers Started _ _ _ (λ e _. bind-Answers Started _ _ _ (λ kept _. f)))))))

  connect_argument-Launched :
      IsFresh m n inv begun
      → (args : List Text) (w : World) → Answers Started (connect_argument m n inv.options args w)
  connect_argument-Launched f [] w = tt
  connect_argument-Launched f (url ∷ args) w = connect-Launched f url w

  fresh-Launched : IsFresh m n inv begun → (w : World) → Answers Started (run_with m n inv none w)
  unfolding run_with debug_enroll
  fresh-Launched f w =
      by_command (inv.command == codes "connect")
        (inv.options.token_file != [] || inv.options.name != []) (inv.command == codes "enroll")
    where
      by_command :
          (a b c : Bool)
          → Answers Started (
              (if a
                  then (if b
                      then raise (message connect_options)
                      else connect_argument m n inv.options inv.args)
                  else if c
                  then debug_enroll m n inv.options none
                  else raise (message not_connected))
                w)
      by_command true true c = tt
      by_command true false c = connect_argument-Launched f inv.args w
      by_command false b true = enroll_node-Launched f w
      by_command false b false = tt

  saved-Launched :
      (s : Saved)
      → (loading m n begun).0 ≡ ok (some s)
      → IsAccepted m.codec m.urls m.is_ip s
      → Answers Started (run_with m n inv (some s) (loading m n begun).1)
  unfolding run_with debug_enroll
  saved-Launched s r a = by_command (inv.command == codes "connect") (inv.command == codes "enroll")
    where
      by_command :
          (b c : Bool)
          → Answers Started (
              (if b
                  then raise (message already_connected)
                  else if c
                  then debug_enroll m n inv.options (some s)
                  else launch_as m n inv s)
                (loading m n begun).1)
      by_command true c = tt
      by_command false true = (r, a)
      by_command false false = user-Launched s r a _ refl

  abbrev ready : World
  ready = (map_err (wrap prepare_state) (ensure_state_dir n.root) begun).1

  loaded-Launched :
      Answers Started
        ((load_state m.codec m.urls m.is_ip (state_file m n) >>= run_with m n inv) ready)
  loaded-Launched =
      bind-Answers Started (run_with m n inv) (load_state m.codec m.urls m.is_ip (state_file m n))
        ready
        (λ o h. by_state o h (
          subst
            (λ (x : Outcome (Option Saved)).
              Answers (AcceptedIf m.codec m.urls m.is_ip) (x, (loading m n begun).1))
            h (load_state-IsAccepted m.codec m.urls m.is_ip (state_file m n) ready)))
    where
      by_state :
          (o : Option Saved)
          → (loading m n begun).0 ≡ ok o
          → AcceptedIf m.codec m.urls m.is_ip o (loading m n begun).1
          → Answers Started (run_with m n inv o (loading m n begun).1)
      by_state none h a = fresh-Launched h _
      by_state (some s) h a = saved-Launched s h a

  runtime-Launched :
      inv.command ≡ codes "runtime"
      → (args : List Text) (w : World) → Answers Started (runtime_command m n inv.options args w)
  unfolding runtime_command
  runtime-Launched e [] w = tt
  runtime-Launched e (c ∷ args) w =
      by_command (c == codes "status") (c == codes "rollback") (c == codes "apply") args
    where
      status-Launched :
          (s : Status) (o : Option Error) (v : World) → Answers Started (status_result m s o v)
      status-Launched s none v = e
      status-Launched s (some x) v = tt

      argument-Launched :
          (args : List Text) → Answers Started (apply_argument m n inv.options args w)
      argument-Launched [] = tt
      argument-Launched (i ∷ _) =
          bind-Answers Started _ (apply m.tools (applier m n inv.options) i) w (λ r _. e)

      rolled_back : Answers Started (
          (rollback (runtime_store n) >>= λ target.
          map_err (wrap rolled_back_unpruned) (prune_gc_roots (runtime_store n)) >>= λ _.
          pure (runtime_rolled_back target))
            w)
      rolled_back = bind-Answers Started _ (rollback (runtime_store n)) w (λ t _.
          bind-Answers Started _
            (map_err (wrap rolled_back_unpruned) (prune_gc_roots (runtime_store n))) _ (λ _ _. e))

      by_command :
          (a b c : Bool) (args : List Text)
          → Answers Started (
              (if a
                  then (status (runtime_store n) >>= λ s. status_result m s s.current.problem)
                  else if b
                  then (rollback (runtime_store n) >>= λ target.
                      map_err (wrap rolled_back_unpruned) (prune_gc_roots (runtime_store n))
                      >>= λ _. pure (runtime_rolled_back target))
                  else if c
                  then apply_argument m n inv.options args
                  else raise (message unknown_subcommand))
                w)
      by_command true b c args =
          bind-Answers Started _ (status (runtime_store n)) w
            (λ s _. status-Launched s s.current.problem _)
      by_command false true c args = rolled_back
      by_command false false true args = argument-Launched args
      by_command false false false args = tt

  prepared-Launched : Answers Started (run_prepared m n inv ready)
  unfolding run_prepared
  prepared-Launched = by_runtime (inv.command == codes "runtime") refl
    where
      by_stop :
          (b : Bool)
          → (inv.command == codes "stop") ≡ b
          → Answers Started (
              (if b
                  then (find_binary m inv.options.herdr >>= λ herdr. pure (stop_session herdr))
                  else (load_state m.codec m.urls m.is_ip (state_file m n) >>= run_with m n inv))
                ready)
      by_stop true e =
          bind-Answers Started _ (find_binary m inv.options.herdr) ready
            (λ herdr _. (eq_iff inv.command (codes "stop")).0 e)
      by_stop false e = loaded-Launched

      by_runtime :
          (b : Bool)
          → (inv.command == codes "runtime") ≡ b
          → Answers Started (
              (if b
                  then runtime_command m n inv.options inv.args
                  else if inv.command == codes "stop"
                  then (find_binary m inv.options.herdr >>= λ herdr. pure (stop_session herdr))
                  else (load_state m.codec m.urls m.is_ip (state_file m n) >>= run_with m n inv))
                ready)
      by_runtime true e =
          runtime-Launched ((eq_iff inv.command (codes "runtime")).0 e) inv.args ready
      by_runtime false e = by_stop (inv.command == codes "stop") refl

  pub run_in-Launched : Answers Started (run_in m n inv begun)
  unfolding run_in
  run_in-Launched =
      bind-Answers Started _ (map_err (wrap prepare_state) (ensure_state_dir n.root)) begun
        (λ _ _. prepared-Launched)

module _ (m : Machine) (inv : Invocation) (p : Paths) where
  -- What `run` starts, in the state directory of its paths, where "the state" is what this run reads
  -- there once it has made the directory. The TUI or the service: only where the state was read and
  -- accepted, for the user that it is of, and after a true-up to the runtime of its enrollment that
  -- succeeded, in the world that the reading left, with an environment that the preflight prepared in
  -- the world which the true-up left, and that has the runtime which the true-up reported. The tunnel:
  -- only with such a state, for such a user. The browser or a debugging enrollment: only where the
  -- reading found no state; `already enrolled` only with the accepted state that it found.
  pub run-Launched :
      (w : World)
      → state_paths m.absolute inv.options.state_dir m.euid m.xdg_state_home m.home ≡ some p
      → Answers (Launched m (node_at m p) inv w) (run m inv w)
  unfolding run
  run-Launched w h = by_version (inv.command == codes "version") refl
    where
      by_version :
          (b : Bool)
          → (inv.command == codes "version") ≡ b
          → Answers (Launched m (node_at m p) inv w) (
              (if b
                  then pure version_printed
                  else run_at m inv
                      (state_paths m.absolute inv.options.state_dir m.euid m.xdg_state_home m.home))
                w)
      by_version true e = (eq_iff inv.command (codes "version")).0 e
      by_version false e =
          subst (λ (o : Option Paths). Answers (Launched m (node_at m p) inv w) (run_at m inv o w))
            (sym h) (run_in-Launched m (node_at m p) inv w)
