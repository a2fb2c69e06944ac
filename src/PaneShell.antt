-- ===== src/PaneShell.antt =====
-- internal/client/paneshell.go: the user's shell, and the configuration of the Herdr server, which is
-- the user's with the managed settings of its table `terminal`.
pub mod Chosen
pub mod Launcher
pub mod Present
use familiar_fleet.Base.{
  ℕ, Bool, true, false, not, ◌&&◌, ◌||◌, Option, none, some, List, [], ◌∷◌, ◌++◌, Text, codes,
  nat_eq, text_eq, ◌==◌, ◌!=◌, contains, take, drop, if◌then◌else◌, ◌⊎◌, inl, inr,
}
use familiar_fleet.Text.{
  contains_any, trim_space, trim_right, has_prefix, index_byte, split, join_with,
}
use familiar_fleet.FilePath.{is_abs, base, dir}
use familiar_fleet.Host.{Info}
use familiar_fleet.Store.{is_executable}
use familiar_fleet.State.{Paths}
use familiar_fleet.Config.{sshd_quote}

pub data ShellFamily : Type 0 where
  bash zsh fish posix unknown : ShellFamily

abbrev pub posix_names : List Text
posix_names =
    codes "sh"
    ∷ codes "dash"
    ∷ codes "ksh"
    ∷ codes "ksh93"
    ∷ codes "mksh"
    ∷ codes "oksh"
    ∷ codes "ash"
    ∷ codes "busybox"
    ∷ []

-- ClassifyShell
unfoldable pub classify_shell : Text → ShellFamily
classify_shell shell =
    let name = base shell in
    if name == codes "bash"
    then bash
    else if name == codes "zsh"
    then zsh
    else if name == codes "fish"
    then fish
    else if contains posix_names name
    then posix
    else unknown

pub data ShellError : Type 0 where
  shell_not_absolute : ShellError
  shell_unsupported_characters : ShellError
  shell_is_launcher : ShellError
  shell_not_found : ShellError
  shell_not_executable : ShellError

-- A shell, and whether it is the fallback, which comes with a note.
pub record UserShell : Type 0 where
  pub shell : Text
  pub is_fallback : Bool

abbrev shell_of : Text → Option Info → ShellError ⊎ UserShell
shell_of shell none = inl shell_not_found
shell_of shell (some info) =
    if not (is_executable info)
    then inl shell_not_executable
    else inr (record { shell = shell; is_fallback = false })

abbrev resolve_trimmed : Paths → (Text → Option Info) → Text → ShellError ⊎ UserShell
resolve_trimmed paths stat shell =
    if shell == []
    then inr (record { shell = codes "/bin/sh"; is_fallback = true })
    else if not (is_abs shell)
    then inl shell_not_absolute
    else if contains_any shell (13 ∷ 10 ∷ 39 ∷ [])
    then inl shell_unsupported_characters
    else if shell == paths.pane_shell || dir shell == paths.dir
    then inl shell_is_launcher
    else shell_of shell (stat shell)

-- ResolveUserShell
unfoldable pub resolve_user_shell : Paths → (Text → Option Info) → Text → ShellError ⊎ UserShell
resolve_user_shell paths stat env_shell = resolve_trimmed paths stat (trim_space env_shell)

-- the text between the bracket and its end
abbrev header_to : Text → Option ℕ → Option Text
header_to trimmed none = none
header_to trimmed (some end) = some (trim_space (drop 1 (take end trimmed)))

-- tomlTableHeader
unfoldable pub toml_table_header : Text → Option Text
toml_table_header trimmed =
    if not (has_prefix trimmed (codes "[")) || has_prefix trimmed (codes "[[")
    then none
    else header_to trimmed (index_byte b']' trimmed)

abbrev key_to : Text → Option ℕ → Text
key_to trimmed none = []
key_to trimmed (some eq) = trim_space (take eq trimmed)

-- tomlKey
unfoldable pub toml_key : Text → Text
toml_key trimmed =
    if trimmed == [] || has_prefix trimmed (codes "#")
    then []
    else key_to trimmed (index_byte b'=' trimmed)

abbrev pub terminal : Text
terminal = codes "terminal"

unfoldable pub managed : Text → List Text
managed pane_shell =
    codes "# Managed by familiar-fleet: environment adapter around the user's shell."
    ∷ (codes "default_shell = " ++ sshd_quote pane_shell)
    ∷ codes "shell_mode = \"non_login\""
    ∷ []

abbrev pub is_setting : Text → Bool
is_setting key = key == codes "default_shell" || key == codes "shell_mode"

abbrev pub is_dotted_setting : Text → Bool
is_dotted_setting key = key == codes "terminal.default_shell" || key == codes "terminal.shell_mode"

-- The lines that the loop of `MergeHerdrConfig` appends, and whether it has found the table.
abbrev pub keep_line : Text → List Text × Bool → List Text × Bool
keep_line line (out, found) = (line ∷ out, found)

abbrev pub keep_header : List Text → Text → Bool → List Text × Bool → List Text × Bool
keep_header lines line false (out, found) = (line ∷ out, found)
keep_header lines line true (out, found) = (line ∷ (lines ++ out), true)

-- one line of the loop, with the rest for either table
abbrev pub merge_line :
    List Text → Bool → Text → Option Text → (Bool → List Text × Bool) → List Text × Bool
merge_line lines in_terminal line (some name) rest =
    keep_header lines line (name == terminal) (rest (name == terminal))
merge_line lines in_terminal line none rest =
    if in_terminal && is_setting (toml_key (trim_space line))
      || not in_terminal && is_dotted_setting (toml_key (trim_space line))
    then rest in_terminal
    else keep_line line (rest in_terminal)

-- the loop of `MergeHerdrConfig`
unfoldable pub merge_lines : List Text → Bool → List Text → List Text × Bool
merge_lines lines in_terminal [] = ([], false)
merge_lines lines in_terminal (line ∷ rest) =
    merge_line lines in_terminal line (toml_table_header (trim_space line))
      (λ b. merge_lines lines b rest)

abbrev pub new_table : List Text → List Text
new_table lines = (b'[' ∷ (terminal ++ b']' ∷ [])) ∷ lines

abbrev pub with_table : List Text → List Text × Bool → List Text
with_table lines (out, true) = out
with_table lines ([], false) = new_table lines
with_table lines (l ∷ out, false) = (l ∷ out) ++ ([] ∷ new_table lines)

abbrev pub user_lines : Text → List Text
user_lines config = if config == [] then [] else split 10 (trim_right (λ c. c == 10) config)

-- the lines of the result
unfoldable pub merged : Text → Text → List Text
merged user_config pane_shell =
    with_table (managed pane_shell)
      (merge_lines (managed pane_shell) false (user_lines user_config))

-- MergeHerdrConfig: `none` for a configuration with a NUL
unfoldable pub merge_herdr_config : Text → Text → Option Text
merge_herdr_config user_config pane_shell =
    if contains user_config 0
    then none
    else some (join_with (10 ∷ []) (merged user_config pane_shell) ++ 10 ∷ [])
