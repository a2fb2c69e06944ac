-- ===== src/Applier/Aimed.antt =====
-- Where `current` points after a successful `Apply` or `TrueUp`.
use familiar_fleet.Base.{◌≡◌, ◌⊎◌, inl, inr, Option, none, some, Text, arith}
use familiar_fleet.Host.{World, ok, symlink, lookup}
use familiar_fleet.Host.Answers.{Answers, bind-Answers, Answers-by, map_err-Answers}
use familiar_fleet.FilePath.{clean}
use familiar_fleet.Descriptor.{RuntimeDescriptor}
use familiar_fleet.Descriptor as Descriptor
use familiar_fleet.Store.{current}
use familiar_fleet.Applier.{
  wrap, Tools, RuntimeApplier, RuntimeApplyResult, satisfied_by, build, vet, commit, apply,
  apply_unless, nix_for, true_up, refuse_descriptor, true_up_failed,
}
use familiar_fleet.Applier.Commit.{commit_ok}
use familiar_fleet.Applier.Satisfied.{satisfied_by-SameFiles, satisfied_by_sound}

module _ (tools : Tools) (a : RuntimeApplier) where
  -- `current` points at the target that was reported, or at its clean path.
  abbrev pub Aimed : RuntimeApplyResult → World → Type 0
  Aimed r w =
      (lookup (current a.store) w.entries ≡ some (symlink r.target))
      ⊎ (lookup (current a.store) w.entries ≡ some (symlink (clean r.target)))

  commit-Aimed : (i t : Text) (w : World) → Answers Aimed (commit tools a i t w)
  commit-Aimed i t w = Answers-by Aimed _ (λ r h.
      let (moved, recorded, same, skipped) = commit_ok tools a i t w h in
      inr (ground (arith, moved, same)))

  apply_unless-Aimed :
      (i : Text) (o : Option Text) (w : World)
      → (satisfied_by tools a i w).0 ≡ ok o
      → Answers Aimed (apply_unless tools a i o (satisfied_by tools a i w).1)
  unfolding apply_unless
  apply_unless-Aimed i (some t) w h =
      inl (ground (arith, satisfied_by_sound tools a i w h, satisfied_by-SameFiles tools a i w))
  apply_unless-Aimed i none w h = bind-Answers Aimed _ (nix_for tools a i) _ (λ nix _.
      bind-Answers Aimed _ (build tools nix i) _ (λ built _.
        bind-Answers Aimed _ (vet tools a built) _ (λ target _. commit-Aimed i target _)))

  pub apply-Aimed : (i : Text) (w : World) → Answers Aimed (apply tools a i w)
  unfolding apply
  apply-Aimed i w =
      bind-Answers Aimed _ (satisfied_by tools a i) w (λ o h. apply_unless-Aimed i o w h)

  pub true_up-Aimed : (d : RuntimeDescriptor) (w : World) → Answers Aimed (true_up tools a d w)
  unfolding true_up
  true_up-Aimed d w =
      bind-Answers Aimed _ (refuse_descriptor tools a (Descriptor.validate d)) w (λ _ _.
        map_err-Answers Aimed (wrap true_up_failed) (apply tools a d.installable) _
          (apply-Aimed d.installable _))
