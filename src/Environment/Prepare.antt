-- ===== src/Environment/Prepare.antt =====
-- `PrepareHerdrEnvironment` and `WritePaneShell`: the preflight before the Herdr server starts.
pub mod Effects
use familiar_fleet.Base.{
  ℕ, Bool, true, false, not, ◌&&◌, Option, none, some, List, [], ◌∷◌, ◌++◌, Text, codes, text_eq,
  ◌==◌, if◌then◌else◌, ◌⊎◌, inl, inr,
}
use familiar_fleet.Text.{split}
use familiar_fleet.FilePath.{join}
use familiar_fleet.Host.{
  Io, pure, raise, map_err, guard, ◌>>=◌, ◌>>◌, mkdir_all, remove_all, FilePath, Info, Result, done,
  failed, Error, message, wrap, is_not_exist, tiamat_failed, shell_failed, write_launcher,
  pi_profile, pi_template, pi_extension, read_herdr_config, herdr_config_nul, write_herdr_config,
  herdr_config_rejected,
}
use familiar_fleet.Store.{Store, ready}
use familiar_fleet.State.{Paths}
use familiar_fleet.State.Files.{atomic_write}
use familiar_fleet.PaneShell.{
  UserShell, ShellError, ShellFamily, unknown, classify_shell, resolve_user_shell,
  merge_herdr_config,
}
use familiar_fleet.PaneShell.Launcher.{PaneShellSpec, generate_pane_shell}
use familiar_fleet.Tiamat.{Stat, TiamatError, TiamatPreflight, resolve_tiamat}
use familiar_fleet.Environment.{
  env_value, user_herdr_config_path, server_env, Managed, tiamat_url_env, tiamat_token_file_env,
}

-- What the preflight finds outside the state directory: the files, the user's configuration, the
-- profile of the active runtime (the template, its projection, and whether the extension is there),
-- and the verdict of `herdr config check`, where it is run.
pub record Surroundings : Type 0 where
  pub stat : Text → Stat
  pub info : Text → Option Info
  pub read_config : Text → Result Text
  pub template : Option Text
  pub project : Text → Option Text
  pub has_extension : Bool
  pub config_accepted : Text → List Text → Bool

-- The state directory, by components, with its paths.
pub record Node : Type 0 where
  pub root : FilePath
  pub paths : Paths
  pub is_darwin : Bool

abbrev pub runtime_store : Node → Store
runtime_store n = record { dir = n.root ++ codes "runtime" ∷ [] }

-- CurrentBin
abbrev pub current_bin : Node → Text
current_bin n = join (n.paths.runtime_dir ∷ codes "current" ∷ codes "bin" ∷ [])

pub record HerdrEnvironment : Type 0 where
  pub runtime : Text
  pub user_shell : Text
  pub tiamat : TiamatPreflight
  pub shell_unset : Bool
  pub shell_unsupported : Bool
  pub env : List Text

abbrev pub require_tiamat : TiamatError ⊎ TiamatPreflight → Io TiamatPreflight
require_tiamat (inl e) = raise (message tiamat_failed)
require_tiamat (inr t) = pure t

abbrev pub require_shell : ShellError ⊎ UserShell → Io UserShell
require_shell (inl e) = raise (message shell_failed)
require_shell (inr s) = pure s

abbrev mode_of : Text → ℕ
mode_of rel = if rel == codes "pane-shell" then 0o700 else 0o600

unfoldable pub write_files : FilePath → List (Text × Text) → Io (Unit {0})
write_files root [] = pure tt
write_files root ((rel, text) ∷ files) =
    map_err (wrap write_launcher) (atomic_write (root ++ split b'/' rel) text (mode_of rel))
    >>= λ _. write_files root files

abbrev pub write_generated : Node → Option (List (Text × Text)) → Io (Unit {0})
write_generated n none = raise (message write_launcher)
write_generated n (some files) = do
  remove_all (n.root ++ codes "shell" ∷ [])
  mkdir_all (n.root ++ codes "shell" ∷ codes "zdotdir" ∷ [])
  write_files n.root files

-- WritePaneShell
unfoldable pub write_pane_shell : Node → PaneShellSpec → Io (Unit {0})
write_pane_shell n spec = write_generated n (generate_pane_shell n.paths spec)

abbrev pub project_template : (Text → Option Text) → Option Text → Io Text
project_template project none = raise (message pi_template)
project_template project (some t) = elim (project t) [
  | none ↦ raise (message pi_template)
  | some p ↦ pure p
]

-- writePiProfile; `project` sets the extensions, and its error is that of a template that is no JSON
unfoldable pub write_pi_profile : Node → Surroundings → Io (Unit {0})
write_pi_profile n around = do
  profile ← project_template around.project around.template
  guard around.has_extension pi_extension
  mkdir_all (n.root ++ codes "runtime" ∷ codes "pi" ∷ [])
  atomic_write (n.root ++ codes "runtime" ∷ codes "pi" ∷ codes "settings.json" ∷ [])
      (profile ++ 10 ∷ []) 0o600

-- a configuration that does not exist is empty
abbrev pub user_config : Result Text → Io Text
user_config (done t) = pure t
user_config (failed e) = if is_not_exist e then pure [] else raise (wrap read_herdr_config e)

abbrev pub require_merged : Option Text → Io Text
require_merged none = raise (message herdr_config_nul)
require_merged (some t) = pure t

abbrev is_unknown : ShellFamily → Bool
is_unknown unknown = true
is_unknown _ = false

module _ (n : Node) (around : Surroundings) (herdr : Text) (environ : List Text) where
  abbrev pub managed_by : TiamatPreflight → Managed
  managed_by t = record {
    bin = current_bin n;
    herdr_config = n.paths.herdr_config;
    pi_dir = n.paths.pi_dir;
    url = t.url;
    token_file = t.token_file;
  }

  abbrev pub config_fine : List Text → Bool
  config_fine env = if herdr == [] then true else around.config_accepted herdr env

  -- the three tests, before anything is generated
  unfoldable pub preflight : Io (Text × (TiamatPreflight × UserShell))
  preflight = do
    current ← ready (runtime_store n)
    tiamat ← require_tiamat (
        resolve_tiamat around.stat n.paths.tiamat_url_file n.paths.tiamat_token_file
          (env_value environ tiamat_url_env) (env_value environ tiamat_token_file_env))
    shell ←
        require_shell (resolve_user_shell n.paths around.info (env_value environ (codes "SHELL")))
    pure (current, (tiamat, shell))

  -- what is generated
  unfoldable pub generate : Text → Io (Unit {0})
  generate shell = do
    write_pane_shell n
        (record { user_shell = shell; runtime_bin = current_bin n; login = n.is_darwin })
    map_err (wrap pi_profile) (write_pi_profile n around)
    config ← user_config (around.read_config (user_herdr_config_path environ))
    merged ← require_merged (merge_herdr_config config n.paths.pane_shell)
    map_err (wrap write_herdr_config)
        (atomic_write (n.root ++ codes "herdr-config.toml" ∷ []) merged 0o600)

  abbrev pub environment_of : Text → TiamatPreflight → UserShell → HerdrEnvironment
  environment_of current tiamat shell = record {
    runtime = current;
    user_shell = shell.shell;
    tiamat = tiamat;
    shell_unset = shell.is_fallback;
    shell_unsupported = is_unknown (classify_shell shell.shell);
    env = server_env environ (managed_by tiamat);
  }

  abbrev pub finish : Text × (TiamatPreflight × UserShell) → Io HerdrEnvironment
  finish (current, (tiamat, shell)) = do
    generate shell.shell
    guard (config_fine (server_env environ (managed_by tiamat))) herdr_config_rejected
    pure (environment_of current tiamat shell)

  -- PrepareHerdrEnvironment
  unfoldable pub prepare_herdr_environment : Io HerdrEnvironment
  prepare_herdr_environment = preflight >>= finish
