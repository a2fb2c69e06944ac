-- ===== src/Store/Replace.antt =====
-- Replacing a symlink is atomic: at every outcome, a crash included, the entry is the old one or
-- the new one, and no other entry differs.
use familiar_fleet.Base.{◌≡◌, ◌⊎◌, Text, arith}
use familiar_fleet.Host.{
  World, symlink, put, FilePath, Outcome, ok, err, crash, lstat, make_temp, fill_temp, rename_temp,
  remove_temp, attempt, finally, perform, ◌>>=◌,
}
use familiar_fleet.Store.{replace_symlink}

-- The entries before and after, by the outcome.
abbrev pub Replaced {ℓ} : {A : Type ℓ} → FilePath → Text → Outcome A → World → World → Type 0
Replaced link target (ok _) w w' = w'.entries ≡ put link (symlink target) w.entries
Replaced link target (err _) w w' = w'.entries ≡ w.entries
Replaced link target crash w w' =
    (w'.entries ≡ w.entries) ⊎ (w'.entries ≡ put link (symlink target) w.entries)

module _ (link : FilePath) (target : Text) (w : World) where
  pub outside-replace_symlink : (replace_symlink link target w).1.outside ≡ w.outside
  unfolding replace_symlink lstat make_temp fill_temp rename_temp remove_temp attempt finally
      perform ◌>>=◌
  outside-replace_symlink = ground arith

  -- `replaceSymlink` for every schedule: success writes the link and nothing else, an error writes
  -- nothing, and a crash leaves one or the other.
  pub replace_symlink_atomic :
      Replaced link target (replace_symlink link target w).0 w (replace_symlink link target w).1
  unfolding replace_symlink lstat make_temp fill_temp rename_temp remove_temp attempt finally
      perform ◌>>=◌
  replace_symlink_atomic = ground arith
