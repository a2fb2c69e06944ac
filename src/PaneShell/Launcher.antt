-- ===== src/PaneShell/Launcher.antt =====
-- internal/client/paneshell.go: the startup files of the pane's shell, and its launcher.
pub mod Order
use familiar_fleet.Base.{
  Bool, true, false, not, ◌||◌, Option, none, some, List, [], ◌∷◌, ◌++◌, Text, codes, if◌then◌else◌,
}
use familiar_fleet.Text.{contains_any, join_with}
use familiar_fleet.FilePath.{is_abs, join}
use familiar_fleet.State.{Paths}
use familiar_fleet.Config.{shell_quote}
use familiar_fleet.PaneShell.{ShellFamily, bash, zsh, fish, posix, unknown, classify_shell}

-- strings.Join(…, "\n")
abbrev pub lines_of : List Text → Text
lines_of = join_with (10 ∷ [])

abbrev pub path_assertion_sh_lines : Text → List Text
path_assertion_sh_lines bin =
    codes "# Familiar: runtime/current/bin must win over anything the startup files above did."
    ∷ codes "case \":$PATH:\" in"
    ∷ (codes "  " ++ (shell_quote (b':' ∷ (bin ++ b':' ∷ [])) ++ codes "*) ;;"))
    ∷ (codes "  *) PATH=" ++ (shell_quote bin ++ codes "${PATH:+:$PATH} ;;"))
    ∷ codes "esac"
    ∷ codes "export PATH"
    ∷ codes "hash -r 2>/dev/null"
    ∷ []

unfoldable pub path_assertion_sh : Text → Text
path_assertion_sh bin = lines_of (path_assertion_sh_lines bin)

unfoldable pub path_assertion_fish : Text → Text
path_assertion_fish bin =
    codes "if test (count $PATH) -eq 0 -o \"$PATH[1]\" != "
    ++ (shell_quote bin ++ (codes "; set -gx PATH " ++ (shell_quote bin ++ codes " $PATH; end")))

abbrev pub bashrc_lines : Text → List Text
bashrc_lines bin =
    codes "# Generated by familiar-fleet. Sourced via `bash --rcfile` so the user's own"
    ∷ codes "# startup files run first (emulating bash's login/interactive selection);"
    ∷ codes "# the Familiar PATH assertion is the final statement."
    ∷ codes "if [ -n \"${FAMILIAR_LOGIN:-}\" ]; then"
    ∷ codes "  unset FAMILIAR_LOGIN"
    ∷ codes "  [ -r /etc/profile ] && . /etc/profile"
    ∷ codes "  if [ -r \"$HOME/.bash_profile\" ]; then . \"$HOME/.bash_profile\""
    ∷ codes "  elif [ -r \"$HOME/.bash_login\" ]; then . \"$HOME/.bash_login\""
    ∷ codes "  elif [ -r \"$HOME/.profile\" ]; then . \"$HOME/.profile\""
    ∷ codes "  fi"
    ∷ codes "  # Login bash does not read ~/.bashrc itself, but most ~/.bash_profile files"
    ∷ codes "  # source it. Do not source it here a second time."
    ∷ codes "else"
    ∷ codes "  [ -r \"$HOME/.bashrc\" ] && . \"$HOME/.bashrc\""
    ∷ codes "fi"
    ∷ path_assertion_sh bin
    ∷ []
    ∷ []

unfoldable pub bashrc : Text → Text
bashrc bin = lines_of (bashrc_lines bin)

abbrev pub zshenv_lines : Text → List Text
zshenv_lines zdot =
    codes "# Generated by familiar-fleet. ZDOTDIR shim: user's files run first,"
    ∷ codes "# Familiar's PATH assertion runs last (in .zshrc or, for login shells, .zlogin)."
    ∷ (codes "typeset -g _familiar_zdot=" ++ shell_quote zdot)
    ∷ codes "typeset -g _familiar_user_zdot=\"${FAMILIAR_USER_ZDOTDIR:-${HOME:-/}}\""
    ∷ codes "unset FAMILIAR_USER_ZDOTDIR"
    ∷ codes "# Expose the user's ZDOTDIR while their files run so they see what they expect."
    ∷ codes
        "if [[ \"$_familiar_user_zdot\" == \"${HOME:-/}\" ]]; then unset ZDOTDIR; else export ZDOTDIR=\"$_familiar_user_zdot\"; fi"
    ∷ codes "[[ -r \"$_familiar_user_zdot/.zshenv\" ]] && source \"$_familiar_user_zdot/.zshenv\""
    ∷ codes "# Their .zshenv may have moved ZDOTDIR; follow it for the remaining files."
    ∷ codes
        "[[ -n \"${ZDOTDIR:-}\" && \"$ZDOTDIR\" != \"$_familiar_zdot\" ]] && _familiar_user_zdot=\"$ZDOTDIR\""
    ∷ codes "export ZDOTDIR=\"$_familiar_zdot\""
    ∷ []
    ∷ []

unfoldable pub zshenv : Text → Text
zshenv zdot = lines_of (zshenv_lines zdot)

abbrev pub zprofile_lines : List Text
zprofile_lines =
    codes "# Generated by familiar-fleet. Login shells only."
    ∷ codes
        "if [[ \"$_familiar_user_zdot\" == \"${HOME:-/}\" ]]; then unset ZDOTDIR; else export ZDOTDIR=\"$_familiar_user_zdot\"; fi"
    ∷ codes
        "[[ -r \"$_familiar_user_zdot/.zprofile\" ]] && source \"$_familiar_user_zdot/.zprofile\""
    ∷ codes "export ZDOTDIR=\"$_familiar_zdot\""
    ∷ []
    ∷ []

unfoldable pub zprofile : Text
zprofile = lines_of zprofile_lines

abbrev pub zsh_finalize_lines : Text → List Text
zsh_finalize_lines bin =
    codes "# Restore the user's ZDOTDIR so nested shells and .zlogout behave normally."
    ∷ codes
        "if [[ \"$_familiar_user_zdot\" == \"${HOME:-/}\" ]]; then unset ZDOTDIR; else export ZDOTDIR=\"$_familiar_user_zdot\"; fi"
    ∷ codes "unset _familiar_zdot _familiar_user_zdot"
    ∷ path_assertion_sh bin
    ∷ []

unfoldable pub zsh_finalize : Text → Text
zsh_finalize bin = lines_of (zsh_finalize_lines bin)

abbrev pub zshrc_lines : Text → List Text
zshrc_lines bin =
    codes "# Generated by familiar-fleet. Interactive shells."
    ∷ codes
        "if [[ \"$_familiar_user_zdot\" == \"${HOME:-/}\" ]]; then unset ZDOTDIR; else export ZDOTDIR=\"$_familiar_user_zdot\"; fi"
    ∷ codes "[[ -r \"$_familiar_user_zdot/.zshrc\" ]] && source \"$_familiar_user_zdot/.zshrc\""
    ∷ codes "if [[ -o login ]]; then"
    ∷ codes "  # .zlogin still has to run (and may touch PATH); it finalizes instead."
    ∷ codes "  export ZDOTDIR=\"$_familiar_zdot\""
    ∷ codes "else"
    ∷ zsh_finalize bin
    ∷ codes "fi"
    ∷ []
    ∷ []

unfoldable pub zshrc : Text → Text
zshrc bin = lines_of (zshrc_lines bin)

abbrev pub zlogin_lines : Text → List Text
zlogin_lines bin =
    codes "# Generated by familiar-fleet. Login shells, after .zshrc."
    ∷ codes
        "if [[ \"$_familiar_user_zdot\" == \"${HOME:-/}\" ]]; then unset ZDOTDIR; else export ZDOTDIR=\"$_familiar_user_zdot\"; fi"
    ∷ codes "[[ -r \"$_familiar_user_zdot/.zlogin\" ]] && source \"$_familiar_user_zdot/.zlogin\""
    ∷ zsh_finalize bin
    ∷ []
    ∷ []

unfoldable pub zlogin : Text → Text
zlogin bin = lines_of (zlogin_lines bin)

abbrev pub posix_env_lines : Text → List Text
posix_env_lines bin =
    codes "# Generated by familiar-fleet. Sourced by interactive POSIX shells via $ENV."
    ∷ codes "# The user's original $ENV runs first; the Familiar PATH assertion is last."
    ∷ codes "if [ -n \"${FAMILIAR_USER_ENV:-}\" ]; then"
    ∷ codes "  ENV=\"$FAMILIAR_USER_ENV\"; export ENV"
    ∷ codes "  unset FAMILIAR_USER_ENV"
    ∷ codes "  [ -r \"$ENV\" ] && . \"$ENV\""
    ∷ codes "else"
    ∷ codes "  unset ENV"
    ∷ codes "fi"
    ∷ path_assertion_sh bin
    ∷ []
    ∷ []

unfoldable pub posix_env : Text → Text
posix_env bin = lines_of (posix_env_lines bin)

pub record PaneShellSpec : Type 0 where
  pub user_shell : Text
  pub runtime_bin : Text
  pub login : Bool

-- what every launcher begins with
unfoldable pub launcher_head : (bin sh : Text) → List Text
launcher_head bin sh =
    codes "#!/bin/sh"
    ∷ codes "# Generated by familiar-fleet. Environment adapter around the user's shell,"
    ∷ codes "# not a replacement shell. Regenerated every time the Herdr server starts."
    ∷ (codes "FAMILIAR_RUNTIME_BIN=" ++ shell_quote bin)
    ∷ codes "export FAMILIAR_RUNTIME_BIN"
    ∷ (codes "SHELL=" ++ shell_quote sh)
    ∷ codes "export SHELL"
    ∷ codes "if [ ! -x \"$FAMILIAR_RUNTIME_BIN/pi\" ]; then"
    ∷ codes
        "  echo 'familiar-fleet: warning: no activated Familiar runtime at '\"$FAMILIAR_RUNTIME_BIN\"'; run: familiar-fleet runtime apply <installable>' >&2"
    ∷ codes "fi"
    ∷ []

abbrev login_flag : Bool → Text
login_flag login = if login then codes " -l" else []

unfoldable pub exec_line : Text → Bool → Text
exec_line sh login = codes "exec " ++ (shell_quote sh ++ (login_flag login ++ codes " \"$@\""))

abbrev bash_login : Bool → List Text
bash_login login =
    if login then codes "FAMILIAR_LOGIN=1" ∷ codes "export FAMILIAR_LOGIN" ∷ [] else []

-- the cases of the switch on the family: the lines of the launcher behind its head
unfoldable pub launcher_rest : ShellFamily → (shell_dir bin sh : Text) → Bool → List Text
launcher_rest bash shell_dir bin sh login =
    bash_login login
    ++ (codes "exec "
        ++ (shell_quote sh
            ++ (codes " --rcfile "
                ++ (shell_quote (join (shell_dir ∷ codes "bashrc" ∷ [])) ++ codes " -i \"$@\""))))
      ∷ []
launcher_rest zsh shell_dir bin sh login =
    let zdot = join (shell_dir ∷ codes "zdotdir" ∷ []) in
    (codes "if [ -n \"${ZDOTDIR:-}\" ] && [ \"$ZDOTDIR\" != "
      ++ (shell_quote zdot ++ codes " ]; then"))
    ∷ codes "  FAMILIAR_USER_ZDOTDIR=\"$ZDOTDIR\""
    ∷ (codes "elif [ \"${ZDOTDIR:-}\" != "
        ++ (shell_quote zdot ++ codes " ] || [ -z \"${FAMILIAR_USER_ZDOTDIR:-}\" ]; then"))
    ∷ codes "  FAMILIAR_USER_ZDOTDIR=\"${HOME:-/}\""
    ∷ codes "fi"
    ∷ codes "export FAMILIAR_USER_ZDOTDIR"
    ∷ (codes "ZDOTDIR=" ++ shell_quote zdot)
    ∷ codes "export ZDOTDIR"
    ∷ exec_line sh login
    ∷ []
launcher_rest fish shell_dir bin sh login =
    (codes "exec "
      ++ (shell_quote sh
          ++ (login_flag login
              ++ (codes " -C " ++ (shell_quote (path_assertion_fish bin) ++ codes " \"$@\"")))))
    ∷ []
launcher_rest posix shell_dir bin sh login =
    let env = join (shell_dir ∷ codes "posix-env" ∷ []) in
    (codes "if [ -n \"${ENV:-}\" ] && [ \"$ENV\" != " ++ (shell_quote env ++ codes " ]; then"))
    ∷ codes "  FAMILIAR_USER_ENV=\"$ENV\""
    ∷ codes "  export FAMILIAR_USER_ENV"
    ∷ codes "fi"
    ∷ (codes "ENV=" ++ shell_quote env)
    ∷ codes "export ENV"
    ∷ exec_line sh login
    ∷ []
launcher_rest unknown shell_dir bin sh login =
    (codes "echo 'familiar-fleet: warning: unsupported shell '"
      ++ (shell_quote sh
          ++ codes
              "'; PATH is pre-set and its startup files may override the Familiar runtime' >&2"))
    ∷ path_assertion_sh bin
    ∷ exec_line sh login
    ∷ []

-- the startup files of a family, by their paths in the state directory
unfoldable pub startup_files : ShellFamily → (shell_dir bin : Text) → List (Text × Text)
startup_files bash shell_dir bin = (codes "shell/bashrc", bashrc bin) ∷ []
startup_files zsh shell_dir bin =
    (codes "shell/zdotdir/.zshenv", zshenv (join (shell_dir ∷ codes "zdotdir" ∷ [])))
    ∷ (codes "shell/zdotdir/.zprofile", zprofile)
    ∷ (codes "shell/zdotdir/.zshrc", zshrc bin)
    ∷ (codes "shell/zdotdir/.zlogin", zlogin bin)
    ∷ []
startup_files fish shell_dir bin = []
startup_files posix shell_dir bin = (codes "shell/posix-env", posix_env bin) ∷ []
startup_files unknown shell_dir bin = []

abbrev pub generated : Text → PaneShellSpec → ShellFamily → List (Text × Text)
generated shell_dir spec family =
    startup_files family shell_dir spec.runtime_bin
    ++ (
      codes "pane-shell",
      lines_of (
          launcher_head spec.runtime_bin spec.user_shell
          ++ (launcher_rest family shell_dir spec.runtime_bin spec.user_shell spec.login
              ++ [] ∷ [])),
    )
      ∷ []

-- GeneratePaneShell: the files by their paths in the state directory, or `none` for the error
unfoldable pub generate_pane_shell : Paths → PaneShellSpec → Option (List (Text × Text))
generate_pane_shell paths spec =
    if not (is_abs spec.user_shell) || contains_any spec.user_shell (13 ∷ 10 ∷ 39 ∷ [])
    then none
    else if not (is_abs spec.runtime_bin)
        || contains_any spec.runtime_bin (b':' ∷ 13 ∷ 10 ∷ 39 ∷ [])
    then none
    else some
        (generated (join (paths.dir ∷ codes "shell" ∷ [])) spec (classify_shell spec.user_shell))
