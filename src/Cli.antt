-- ===== src/Cli.antt =====
-- cmd/familiar-fleet/main.go: the command line, as package flag reads it, and `parseInvocation`.
-- What it prints is not modelled.
pub mod Binary
pub mod Parsed
pub mod HostKey
pub mod Node
use familiar_fleet.Base.{
  ℕ, Bool, true, false, not, ◌&&◌, ◌||◌, Option, none, some, List, [], ◌∷◌, ◌++◌, Text, codes,
  text_eq, nat_eq, ◌==◌, if◌then◌else◌, ◌⊎◌, inl, inr,
}

-- options
pub record Options : Type 0 where
  pub endpoint : Text
  pub name : Text
  pub token_file : Text
  pub host_key : Text
  pub state_dir : Text
  pub herdr : Text
  pub ssh : Text
  pub sshd : Text
  pub keygen : Text
  pub nix : Text
  pub nix_store : Text

-- invocation
pub record Invocation : Type 0 where
  pub options : Options
  pub command : Text
  pub args : List Text

-- The flags that `parseInvocation` declares.
pub data Flag : Type 0 where
  endpoint name token_file host_key state_dir herdr ssh sshd keygen nix nix_store : Flag

abbrev pub flag_name : Flag → Text
flag_name endpoint = codes "endpoint"
flag_name name = codes "name"
flag_name token_file = codes "token-file"
flag_name host_key = codes "rendezvous-host-key"
flag_name state_dir = codes "state-dir"
flag_name herdr = codes "herdr"
flag_name ssh = codes "ssh"
flag_name sshd = codes "sshd"
flag_name keygen = codes "ssh-keygen"
flag_name nix = codes "nix"
flag_name nix_store = codes "nix-store"

abbrev pub all_flags : List Flag
all_flags =
    endpoint ∷ name ∷ token_file ∷ host_key ∷ state_dir ∷ herdr ∷ ssh ∷ sshd ∷ keygen ∷ nix
    ∷ nix_store ∷ []

-- The variable that a flag sets.
unfoldable pub set_option : Flag → Text → Options → Options
set_option endpoint v o = record o { endpoint = v }
set_option name v o = record o { name = v }
set_option token_file v o = record o { token_file = v }
set_option host_key v o = record o { host_key = v }
set_option state_dir v o = record o { state_dir = v }
set_option herdr v o = record o { herdr = v }
set_option ssh v o = record o { ssh = v }
set_option sshd v o = record o { sshd = v }
set_option keygen v o = record o { keygen = v }
set_option nix v o = record o { nix = v }
set_option nix_store v o = record o { nix_store = v }

-- The defaults, two of them from the environment.
unfoldable pub default_options : (environment_endpoint environment_host_key : Text) → Options
default_options e k = record {
  endpoint = e;
  name = [];
  token_file = [];
  host_key = k;
  state_dir = [];
  herdr = codes "herdr";
  ssh = codes "ssh";
  sshd = codes "sshd";
  keygen = codes "ssh-keygen";
  nix = codes "nix";
  nix_store = codes "nix-store";
}

pub data UsageError : Type 0 where
  help : UsageError
  bad_flag_syntax : UsageError
  undefined_flag : Text → UsageError
  needs_argument : Flag → UsageError
  connect_usage runtime_usage : UsageError
  takes_no_arguments unknown_command : Text → UsageError

-- One argument as package flag reads it: no flag, the end of the flags, bad syntax, or a flag's name
-- with the value behind its `=`.
pub data Token : Type 0 where
  positional terminator malformed : Token
  flag : Text → Option Text → Token

unfoldable pub cut_equals : Text → Text × Option Text
cut_equals [] = ([], none)
cut_equals (c ∷ t) =
    let (before, after) = cut_equals t in if c == b'=' then ([], some t) else (c ∷ before, after)

abbrev flag_of : ℕ → Text × Option Text → Token
flag_of c (before, after) = flag (c ∷ before) after

-- a name, which starts with neither `-` nor `=`
abbrev pub named : Text → Token
named [] = malformed
named (c ∷ t) = if c == b'-' || c == b'=' then malformed else flag_of c (cut_equals t)

abbrev after_minus : Text → Token
after_minus [] = positional
after_minus (c ∷ t) = if c == b'-' then (if t == [] then terminator else named t) else named (c ∷ t)

unfoldable pub classify : Text → Token
classify [] = positional
classify (c ∷ t) = if c == b'-' then after_minus t else positional

unfoldable pub find_flag : List Flag → Text → Option Flag
find_flag [] t = none
find_flag (f ∷ fs) t = let rest = find_flag fs t in if flag_name f == t then some f else rest

-- What an argument makes of the parse: it ends before or after this argument or fails, or a flag has
-- its value, or waits for it.
pub data Next : Type 0 where
  ends_before ends_after : Next
  fails : UsageError → Next
  sets : Flag → Text → Next
  wants : Flag → Next

abbrev value_of : Flag → Option Text → Next
value_of f none = wants f
value_of f (some v) = sets f v

abbrev known : Text → Option Text → Option Flag → Next
known t v none =
    if t == codes "help" || t == codes "h" then fails help else fails (undefined_flag t)
known t v (some f) = value_of f v

unfoldable pub next : Token → Next
next positional = ends_before
next terminator = ends_after
next malformed = fails bad_flag_syntax
next (flag t v) = known t v (find_flag all_flags t)

-- fs.Parse: the options, and the arguments that are left; `wanting` is a flag that waits for its value
unfoldable pub parse_flags :
    (wanting : Option Flag) → Options → List Text → UsageError ⊎ (Options × List Text)
parse_flags none o [] = inr (o, [])
parse_flags (some f) o [] = inl (needs_argument f)
parse_flags (some f) o (v ∷ args) = parse_flags none (set_option f v o) args
parse_flags none o (s ∷ args) = elim (next (classify s)) [
  | ends_before ↦ inr (o, s ∷ args)
  | ends_after ↦ inr (o, args)
  | fails e ↦ inl e
  | sets f v ↦ parse_flags none (set_option f v o) args
  | wants f ↦ parse_flags (some f) o args
]

abbrev pub takes_nothing : List Text
takes_nothing =
    codes "interactive"
    ∷ codes "run"
    ∷ codes "herdr"
    ∷ codes "tunnel"
    ∷ codes "stop"
    ∷ codes "version"
    ∷ codes "enroll"
    ∷ []

abbrev pub check_runtime : List Text → Option UsageError
check_runtime (a ∷ b ∷ []) = if a == codes "apply" then none else some runtime_usage
check_runtime (a ∷ []) =
    if a == codes "rollback" || a == codes "status" then none else some runtime_usage
check_runtime _ = some runtime_usage

abbrev pub check_connect : List Text → Option UsageError
check_connect (a ∷ []) = none
check_connect _ = some connect_usage

abbrev pub check_no_args : Text → List Text → Option UsageError
check_no_args command [] = none
check_no_args command _ = some (takes_no_arguments command)

unfoldable pub is_in : Text → List Text → Bool
is_in t [] = false
is_in t (s ∷ ss) = t == s || is_in t ss

-- the switch over the command
unfoldable pub check_command : Text → List Text → Option UsageError
check_command command args =
    if command == codes "connect"
    then check_connect args
    else if command == codes "runtime"
    then check_runtime args
    else if is_in command takes_nothing
    then check_no_args command args
    else some (unknown_command command)

abbrev pub checked : Options → Text → List Text → Option UsageError → UsageError ⊎ Invocation
checked o command args none = inr (record { options = o; command = command; args = args })
checked o command args (some e) = inl e

abbrev pub invocation_of : Options → List Text → UsageError ⊎ Invocation
invocation_of o [] = checked o (codes "interactive") [] (check_command (codes "interactive") [])
invocation_of o (command ∷ args) = checked o command args (check_command command args)

abbrev pub invocation_from : UsageError ⊎ (Options × List Text) → UsageError ⊎ Invocation
invocation_from (inl e) = inl e
invocation_from (inr (o, args)) = invocation_of o args

-- parseInvocation
unfoldable pub parse_invocation :
    (environment_endpoint environment_host_key : Text) → List Text → UsageError ⊎ Invocation
parse_invocation e k args = invocation_from (parse_flags none (default_options e k) args)
