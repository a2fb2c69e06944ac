-- ===== src/PaneShell/Chosen.antt =====
-- Which shell the pane launcher may be made around.
use familiar_fleet.Base.{
  true, false, ◌≡◌, inl, inr, Option, some, [], ◌∷◌, Text, text_eq, ◌==◌, arith, Option-cases,
}
use familiar_fleet.Text.{contains_any, trim_space}
use familiar_fleet.FilePath.{is_abs, dir}
use familiar_fleet.Host.{Info}
use familiar_fleet.Store.{is_executable}
use familiar_fleet.State.{Paths}
use familiar_fleet.PaneShell.{resolve_user_shell, UserShell}

-- A shell that is chosen, and is not the fallback, is an executable file at an absolute path without
-- line ends and single quotes, and is not the launcher nor a file beside it.
pub resolve_user_shell_lem :
    (paths : Paths) (stat : Text → Option Info) (env_shell : Text) (r : UserShell)
    → resolve_user_shell paths stat env_shell ≡ inr r
    → r.is_fallback ≡ false
    → (is_abs r.shell ≡ true)
      × (contains_any r.shell (13 ∷ 10 ∷ 39 ∷ []) ≡ false)
      × ((r.shell == paths.pane_shell) ≡ false)
      × ((dir r.shell == paths.dir) ≡ false)
      × ((info : Info) × (stat r.shell ≡ some info) × (is_executable info ≡ true))
unfolding resolve_user_shell
resolve_user_shell_lem paths stat env_shell r h k =
    elim (Option-cases (stat (trim_space env_shell))) [
      | inl e ↦ absurd (ground arith)
      | inr (info, e) ↦ (
        ground arith,
        ground arith,
        ground arith,
        ground arith,
        (info, ground arith, ground arith),
      )
    ]
