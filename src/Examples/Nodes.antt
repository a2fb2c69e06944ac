-- ===== src/Examples/Nodes.antt =====
-- The theorems on the command line, the Herdr environment and sshd, at concrete inputs.
use familiar_fleet.Base.{
  true, false, ◌≡◌, ◌≢◌, ◌↔◌, Text, inl, inr, refl, none, some, List, [], ◌∷◌, ◌++◌, codes, text_eq,
}
use familiar_fleet.Host.{FilePath, World, regular, raw, failed, not_exist}
use familiar_fleet.Host.Answers.{Answers}
use familiar_fleet.Store.{Store, current, gc_roots}
use familiar_fleet.Store.Paths.{root_of}
use familiar_fleet.State.{paths_in, resolve_state_dir, state_paths}
use familiar_fleet.Environment.{Managed, server_env}
use familiar_fleet.Environment.Server.{managed_values, Sets, server_env-Sets}
use familiar_fleet.Environment.Prepare.{Node, Surroundings, prepare_herdr_environment}
use familiar_fleet.Environment.Prepare.Effects.{Ended, prepare_herdr_environment-Ended}
use familiar_fleet.Cli.{Invocation, Flag, default_options, set_option}
use familiar_fleet.Cli.Parsed.{Setting, applied_to}
use familiar_fleet.Cli.Node.{Machine, node_at, run}
use familiar_fleet.Cli.Node.Started.{Launched}
use familiar_fleet.Cli.Node.Guarded.{run-Launched}
use familiar_fleet.Cli.HostKey.{apply_host_key, IsTrusted, apply_host_key_iff}
use familiar_fleet.Session.Sshd.{Attempt, exits, tick, waiting, start_sshd_all}
use familiar_fleet.Session.Sshd.Bounded.{
  IsBounded, start_sshd_all-IsBounded, start_sshd_all-returns,
}
use familiar_fleet.Examples.Machine.{world, tools, dir_of, link_of, old_runtime}
use familiar_fleet.Examples.Clients.{enrollment, key, no_ip, secrets, bash_file}
use familiar_fleet.Examples.Flows.{urls, codec, enrollment_codec, keygen, send}

-- A free port; sshd answers at the second tick, or it exits.
abbrev pub answering : Attempt
answering = record {
  port = some 4022;
  writes = true;
  starts = true;
  wakes = tick false ∷ tick true ∷ exits ∷ [];
}

abbrev pub exiting : Attempt
exiting = record answering { wakes = exits ∷ [] }

abbrev pub attempts : List Attempt
attempts = exiting ∷ exiting ∷ answering ∷ exiting ∷ exiting ∷ []

start_sshd_all-IsBounded_example : IsBounded 5 (start_sshd_all attempts)
start_sshd_all-IsBounded_example = start_sshd_all-IsBounded attempts

start_sshd_all-returns_example : (start_sshd_all attempts).0 ≢ waiting
start_sshd_all-returns_example =
    start_sshd_all-returns attempts
      (inl refl, (inl refl, (inr (inr (inl refl)), (inl refl, (inl refl, tt)))))

abbrev pub managed : Managed
managed = record {
  bin = codes "/s/bin";
  herdr_config = codes "/s/h";
  pi_dir = codes "/s/pi";
  url = codes "https://router";
  token_file = codes "/t";
}

server_env-Sets_example :
    Sets
      (server_env (codes "PATH=/bin" ∷ []) managed)
      (managed_values (codes "PATH=/bin" ∷ []) managed)
server_env-Sets_example = server_env-Sets (codes "PATH=/bin" ∷ []) managed

abbrev pub around : Surroundings
around = record {
  stat = secrets;
  info = bash_file;
  read_config = λ path. failed not_exist;
  template = some (codes "{}");
  project = λ t. some t;
  has_extension = true;
  config_accepted = λ herdr env. true;
}

abbrev pub node : Node
node = record { root = []; paths = paths_in (codes "/s"); is_darwin = false }

prepare_herdr_environment-Ended_example :
    Ended node around
      (codes "/bin/herdr")
      (codes "SHELL=/bin/bash" ∷ [])
      world
      (prepare_herdr_environment node around
        (codes "/bin/herdr")
        (codes "SHELL=/bin/bash" ∷ [])
        world).0
      (prepare_herdr_environment node around
        (codes "/bin/herdr")
        (codes "SHELL=/bin/bash" ∷ [])
        world).1
prepare_herdr_environment-Ended_example =
    prepare_herdr_environment-Ended node around (codes "/bin/herdr") (codes "SHELL=/bin/bash" ∷ [])
      world

abbrev pub settings : List Setting
settings =
    record { setting = Flag.state_dir; value = codes "/s"; is_separate = true; is_double = true }
    ∷ record {
      setting = Flag.ssh;
      value = codes "/bin/ssh";
      is_separate = false;
      is_double = false;
    }
    ∷ []

abbrev pub machine : Machine
machine = record {
  tools = tools;
  codec = codec;
  enrollment_codec = enrollment_codec;
  urls = urls;
  is_ip = no_ip;
  keygen = λ path. keygen;
  send = send;
  absolute = λ t. some t;
  look_path = λ t. some t;
  eval_symlinks = λ t. some t;
  euid = 1000;
  xdg_state_home = [];
  home = codes "/home/ada";
  is_darwin = false;
  user = some (codes "ada");
  hostname = some (codes "worker.example.org");
  environ = codes "SHELL=/bin/bash" ∷ [];
  token_variable = [];
  token_entry = λ path. none;
  around = around;
}

abbrev pub plain : Invocation
plain = record {
  options = applied_to settings (default_options [] []);
  command = codes "interactive";
  args = [];
}

state_dir_is :
    state_paths machine.absolute plain.options.state_dir machine.euid machine.xdg_state_home
      machine.home
    ≡ some (paths_in (codes "/s"))
unfolding state_paths resolve_state_dir applied_to default_options set_option
state_dir_is = refl

abbrev pub home : FilePath
home = [] ∷ codes "s" ∷ []

abbrev pub runtimes : Store
runtimes = record { dir = home ++ codes "runtime" ∷ [] }

-- The state directory, with a state that is of `ada`, and with a runtime: `interactive` gets as far as
-- the TUI there.
abbrev pub enrolled_world : World
enrolled_world = record world {
  entries =
      dir_of ([] ∷ [])
      ∷ dir_of home
      ∷ (home ++ codes "state.json" ∷ [], regular 0o600 (raw (codes "{}")))
      ∷ dir_of runtimes.dir
      ∷ link_of (current runtimes) old_runtime
      ∷ dir_of (gc_roots runtimes)
      ∷ link_of (root_of runtimes (codes "a-old")) old_runtime
      ∷ [];
}

run-Launched_example :
    Answers
      (Launched machine (node_at machine (paths_in (codes "/s"))) plain enrolled_world)
      (run machine plain enrolled_world)
run-Launched_example =
    run-Launched machine plain (paths_in (codes "/s")) enrolled_world state_dir_is

-- A supplied key, with a comment, and the same key from the server.
apply_host_key_iff_example : apply_host_key enrollment (key ++ codes " ada") ≡ inr enrollment ↔ (
    (k : Text) × IsTrusted (key ++ codes " ada") enrollment.tunnel_host_key k
    × (enrollment ≡ record enrollment { tunnel_host_key = k }))
apply_host_key_iff_example = apply_host_key_iff enrollment enrollment (key ++ codes " ada")
