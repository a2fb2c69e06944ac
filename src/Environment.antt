-- ===== src/Environment.antt =====
-- internal/client/herdrenv.go: the environment of the Herdr server. Environments are lists of
-- `key=value` texts.
pub mod Prepare
pub mod Server
use familiar_fleet.Base.{
  ℕ, Bool, true, false, not, ◌&&◌, ◌||◌, Option, none, some, List, [], ◌∷◌, ◌++◌, Text, codes,
  nat_eq, text_eq, ◌==◌, ◌!=◌, contains, if◌then◌else◌,
}
use familiar_fleet.FilePath.{join}

-- The key and the value of a text with an equals sign that is not its first byte.
abbrev onto_key : ℕ → Option (Text × Text) → Option (Text × Text)
onto_key c none = none
onto_key c (some (k, v)) = some (c ∷ k, v)

-- the key and the value around the first equals sign
unfoldable pub split_at_equals : Text → Option (Text × Text)
split_at_equals [] = none
split_at_equals (c ∷ s) =
    let rest = split_at_equals s in if c == b'=' then some ([], s) else onto_key c rest

abbrev pub non_empty_key : Option (Text × Text) → Option (Text × Text)
non_empty_key (some (c ∷ k, v)) = some (c ∷ k, v)
non_empty_key _ = none

unfoldable pub split_variable : Text → Option (Text × Text)
unfolding split_at_equals
split_variable kv = non_empty_key (split_at_equals kv)

abbrev pub value_if : Text → Option (Text × Text) → Option Text
value_if key none = none
value_if key (some (k, v)) = if k == key then some v else none

abbrev pub first_some : Option Text → Option Text → Option Text
first_some none b = b
first_some (some a) b = some a

-- environMap, as a function: of equal keys the last one counts
unfoldable pub env_find : List Text → Text → Option Text
env_find [] key = none
env_find (kv ∷ environ) key = first_some (env_find environ key) (value_if key (split_variable kv))

abbrev pub or_empty : Option Text → Text
or_empty none = []
or_empty (some v) = v

-- reading a Go map: a missing key is an empty text
unfoldable pub env_value : List Text → Text → Text
env_value environ key = or_empty (env_find environ key)

-- UserHerdrConfigPath
unfoldable pub user_herdr_config_path : List Text → Text
user_herdr_config_path environ =
    if env_value environ (codes "HERDR_CONFIG_PATH") != []
    then env_value environ (codes "HERDR_CONFIG_PATH")
    else if env_value environ (codes "XDG_CONFIG_HOME") != []
    then join
        (env_value environ (codes "XDG_CONFIG_HOME") ∷ codes "herdr" ∷ codes "config.toml" ∷ [])
    else join (
        env_value environ (codes "HOME")
        ∷ codes ".config"
        ∷ codes "herdr"
        ∷ codes "config.toml"
        ∷ [])

-- TiamatURLEnv and TiamatTokenFileEnv
abbrev pub tiamat_url_env : Text
tiamat_url_env = codes "FAMILIAR_TIAMAT_URL"

abbrev pub tiamat_token_file_env : Text
tiamat_token_file_env = codes "FAMILIAR_TIAMAT_TOKEN_FILE"

abbrev pub managed_keys : List Text
managed_keys =
    codes "PATH"
    ∷ codes "HERDR_CONFIG_PATH"
    ∷ codes "PI_CODING_AGENT_DIR"
    ∷ codes "FAMILIAR_RUNTIME_BIN"
    ∷ tiamat_url_env
    ∷ tiamat_token_file_env
    ∷ []

abbrev pub key_or_all : Text → Option (Text × Text) → Text
key_or_all kv none = kv
key_or_all kv (some (k, v)) = k

-- prefixed
abbrev pub prefixed : Text → Text
prefixed [] = []
prefixed (c ∷ path) = b':' ∷ c ∷ path

-- the loop over the parent's environment
unfoldable pub unmanaged : List Text → List Text
unmanaged [] = []
unmanaged (kv ∷ environ) =
    let rest = unmanaged environ in
    if contains managed_keys (key_or_all kv (split_variable kv)) then rest else kv ∷ rest

-- What the managed variables are set from.
pub record Managed : Type 0 where
  pub bin : Text
  pub herdr_config : Text
  pub pi_dir : Text
  pub url : Text
  pub token_file : Text

abbrev pub managed_variables : Managed → Text → List Text
managed_variables m path =
    (codes "PATH=" ++ (m.bin ++ prefixed path))
    ∷ (codes "HERDR_CONFIG_PATH=" ++ m.herdr_config)
    ∷ (codes "PI_CODING_AGENT_DIR=" ++ m.pi_dir)
    ∷ (codes "FAMILIAR_RUNTIME_BIN=" ++ m.bin)
    ∷ (codes "FAMILIAR_TIAMAT_URL=" ++ m.url)
    ∷ (codes "FAMILIAR_TIAMAT_TOKEN_FILE=" ++ m.token_file)
    ∷ []

-- the environment that `PrepareHerdrEnvironment` returns
unfoldable pub server_env : List Text → Managed → List Text
server_env environ m = unmanaged environ ++ managed_variables m (env_value environ (codes "PATH"))
