-- ===== src/Cli/Node/Started.antt =====
-- What holds of what `run` starts, and that each launch has it.
use familiar_fleet.Base.{
  Bool, true, false, refl, Option, ◌≡◌, ◌⊎◌, subst, none, some, Text, codes, text_eq, arith,
  if◌then◌else◌,
}
use familiar_fleet.Host.{Error, prepare_state, World, Outcome, ok, map_err, pure, wrap, bad_log}
use familiar_fleet.Host.Answers.{Answers, bind-Answers}
use familiar_fleet.FilePath.{clean}
use familiar_fleet.Applier.{RuntimeApplyResult, true_up}
use familiar_fleet.Applier.Aimed.{Aimed, true_up-Aimed}
use familiar_fleet.State.Files.{Saved, load_state}
use familiar_fleet.State.Files.Accepted.{IsAccepted}
use familiar_fleet.Environment.Prepare.{Node, HerdrEnvironment, prepare_herdr_environment}
use familiar_fleet.Environment.Prepare.Effects.{IsPrepared, Ended, prepare_herdr_environment-Ended}
use familiar_fleet.Cli.{Invocation}
use familiar_fleet.Cli.Node.{
  Error, prepare_state, Machine, Launch, version_printed, runtime_status, runtime_rolled_back,
  runtime_applied, stop_session, require, ensure_state_dir, open_browser, already_enrolled,
  enrolled, run_tunnel, run_herdr, run_interactive, state_file, find_binary, applier, open_log,
  launch_tunnel, launch_interactive, launch_node,
}

module _ {A : Type 0} where
  pub require-world : (o : Option A) (e : Error) (w : World) → (require o e w).1 ≡ w
  require-world none e w = refl
  require-world (some a) e w = refl

-- What this invocation finds when it reads the state, after it made the state directory in the world
-- that it began in.
abbrev pub loading : Machine → Node → World → Outcome (Option Saved) × World
loading m n begun =
    load_state m.codec m.urls m.is_ip (state_file m n)
      (map_err (wrap prepare_state) (ensure_state_dir n.root) begun).1

module _ (m : Machine) (n : Node) (inv : Invocation) (begun : World) where
  -- The state that was read is one that the program goes on with, and it is of the user who runs the
  -- program.
  pub record IsOwned (s : Saved) : Type 0 where
    pub read : (loading m n begun).0 ≡ ok (some s)
    pub accepted : IsAccepted m.codec m.urls m.is_ip s
    pub user : m.user ≡ some s.ssh_user

  -- The true-up of the enrolled runtime was done in the world that the reading of the state left, and
  -- the preflight passed in the world that the true-up left, with the runtime that it reported.
  pub record IsConverged (s : Saved) (env : HerdrEnvironment) : Type 0 where
    pub herdr : Text
    pub between : World
    pub applied : RuntimeApplyResult
    pub trued_up :
        true_up m.tools (applier m n inv.options) s.enrollment.runtime (loading m n begun).1
        ≡ (ok applied, between)
    pub prepared : IsPrepared n m.around herdr m.environ between env
    pub runtime_is : (env.runtime ≡ applied.target) ⊎ (env.runtime ≡ clean applied.target)

  -- No state was there.
  abbrev pub IsFresh : Type 0
  IsFresh = (loading m n begun).0 ≡ ok none

  abbrev pub Launched : Launch → World → Type 0
  Launched (run_interactive s env ssh sshd) w = IsOwned s × IsConverged s env
  Launched (run_herdr s env) w = IsOwned s × IsConverged s env
  Launched (run_tunnel s ssh sshd) w = IsOwned s
  Launched (open_browser endpoint name username request) w = IsFresh
  Launched (enrolled e) w = IsFresh
  Launched (already_enrolled s) w =
      ((loading m n begun).0 ≡ ok (some s)) × IsAccepted m.codec m.urls m.is_ip s
  Launched (runtime_status s) w = inv.command ≡ codes "runtime"
  Launched (runtime_rolled_back t) w = inv.command ≡ codes "runtime"
  Launched (runtime_applied r) w = inv.command ≡ codes "runtime"
  Launched (stop_session herdr) w = inv.command ≡ codes "stop"
  Launched version_printed w = inv.command ≡ codes "version"

  module _ (s : Saved) (owned : IsOwned s) where
    pub launch_tunnel-Launched : (w : World) → Answers Launched (launch_tunnel m n inv.options s w)
    unfolding launch_tunnel
    launch_tunnel-Launched w = bind-Answers Launched _ (find_binary m inv.options.ssh) w (λ ssh _.
        bind-Answers Launched _ (find_binary m inv.options.sshd) _ (λ sshd _.
          bind-Answers Launched _ (map_err (wrap bad_log) (open_log m n)) _ (λ _ _. owned)))

    launch_interactive-Launched :
        (env : HerdrEnvironment) (w : World)
        → IsConverged s env
        → Answers Launched (launch_interactive m n inv.options s env w)
    unfolding launch_interactive
    launch_interactive-Launched env w c =
        bind-Answers Launched _ (find_binary m inv.options.ssh) w (λ ssh _.
          bind-Answers Launched _ (find_binary m inv.options.sshd) _ (λ sshd _.
            bind-Answers Launched _ (map_err (wrap bad_log) (open_log m n)) _ (λ _ _. (owned, c))))

    converged :
        (herdr : Text) (w : World) (r : RuntimeApplyResult)
        → (w ≡ (loading m n begun).1)
        → (true_up m.tools (applier m n inv.options) s.enrollment.runtime w).0 ≡ ok r
        → (env : HerdrEnvironment)
        → (prepare_herdr_environment n m.around herdr m.environ
            (true_up m.tools (applier m n inv.options) s.enrollment.runtime w).1).0
          ≡ ok env
        → IsConverged s env
    converged herdr w r same h env e =
        let v = (true_up m.tools (applier m n inv.options) s.enrollment.runtime w).1 in
        let aimed : Answers (Aimed m.tools (applier m n inv.options)) (ok r, v) =
          subst
            (λ (o : Outcome RuntimeApplyResult).
              Answers (Aimed m.tools (applier m n inv.options)) (o, v))
            h (true_up-Aimed m.tools (applier m n inv.options) s.enrollment.runtime w) in
        let p : IsPrepared n m.around herdr m.environ v env =
          subst
            (λ (o : Outcome HerdrEnvironment).
              Ended n m.around herdr m.environ v o
                (prepare_herdr_environment n m.around herdr m.environ v).1)
            e (prepare_herdr_environment-Ended n m.around herdr m.environ v) in
        record {
          herdr = herdr;
          between = v;
          applied = r;
          trued_up =
              subst
                (λ (u : World).
                  true_up m.tools (applier m n inv.options) s.enrollment.runtime u ≡ (ok r, v))
                same (ground (arith, h));
          prepared = p;
          runtime_is = ground (arith, aimed, p.passed.active.entry);
        }

    chosen :
        (env : HerdrEnvironment) (w : World) (b : Bool)
        → IsConverged s env
        → Answers Launched
            ((if b then pure (run_herdr s env) else launch_interactive m n inv.options s env) w)
    chosen env w true c = (owned, c)
    chosen env w false c = launch_interactive-Launched env w c

    pub launch_node-Launched :
        (herdr : Text) (w : World)
        → w ≡ (loading m n begun).1
        → Answers Launched (launch_node m n inv s herdr w)
    unfolding launch_node
    launch_node-Launched herdr w same =
        bind-Answers Launched _ (true_up m.tools (applier m n inv.options) s.enrollment.runtime) w
          (λ r h.
            bind-Answers Launched _ (prepare_herdr_environment n m.around herdr m.environ) _
              (λ env e. chosen env _ _ (converged herdr w r same h env e)))
