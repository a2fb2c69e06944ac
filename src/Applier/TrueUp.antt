-- ===== src/Applier/TrueUp.antt =====
-- `TrueUp`: what an enrolled descriptor lets happen.
use familiar_fleet.Base.{◌≡◌, ◌⊎◌, inl, inr, refl, Option, none, some, Text, text_eq, texts_eq}
use familiar_fleet.FilePath.{clean}
use familiar_fleet.Host.{wrap, true_up_failed, World, symlink, lookup, map_err, ◌>>=◌}
use familiar_fleet.Descriptor
use familiar_fleet.Descriptor.{RuntimeDescriptor, DescriptorError}
use familiar_fleet.Descriptor.Laws.{NamesCommit, validate_iff}
use familiar_fleet.Store.{current}
use familiar_fleet.Applier.{Tools, RuntimeApplier, refuse_descriptor, apply, true_up}
use familiar_fleet.Applier.Vetted.{Vetted}
use familiar_fleet.Applier.Safety.{Activated, apply-Activated}

module _ (tools : Tools) (a : RuntimeApplier) where
  -- `current` moves only for a descriptor that names one commit of the runtime.
  abbrev pub TruedUp : RuntimeDescriptor → (before after : World) → Type 0
  TruedUp d w w' =
      (lookup (current a.store) w'.entries ≡ lookup (current a.store) w.entries)
      ⊎ (NamesCommit d.installable
          × (target : Text) × (lookup (current a.store) w'.entries ≡ some (symlink (clean target)))
          × Vetted tools a target w')

  -- `TrueUp` at every outcome and for every schedule: `current` is as before, or the descriptor names
  -- one commit of the runtime by its 40 hexadecimal digits, and `current` points at a target that is a
  -- runtime, whose tool has run, and that has its root if it is a store output.
  pub true_up-TruedUp : (d : RuntimeDescriptor) (w : World) → TruedUp d w (true_up tools a d w).1
  unfolding true_up map_err ◌>>=◌
  true_up-TruedUp d w = by_error (Descriptor.validate d) refl
    where
      activated :
          Descriptor.validate d ≡ none
          → Activated tools a w (apply tools a d.installable w).1
          → TruedUp d w (apply tools a d.installable w).1
      activated e (inl same) = inl same
      activated e (inr (target, moved, vetted)) =
          inr (((validate_iff d).0 e).1, target, moved, vetted)

      by_error :
          (o : Option DescriptorError)
          → Descriptor.validate d ≡ o
          → TruedUp d w
              ((refuse_descriptor tools a o >>= λ _.
                  map_err (wrap true_up_failed) (apply tools a d.installable))
                w).1
      by_error none e = activated e (apply-Activated tools a d.installable w)
      by_error (some x) e = inl refl
