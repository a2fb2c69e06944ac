-- ===== src/Applier/Vetted.antt =====
-- A target that was vetted: it is a runtime, its tool has run, and a store output has its root.
use familiar_fleet.Base.{arith, ap, sym, subst, ◌∙◌, true, ◌≡◌, some, Text}
use familiar_fleet.FilePath.{clean, base}
use familiar_fleet.Host.{map_err, ◌>>=◌, World, ok, symlink, lookup}
use familiar_fleet.Store.Paths.{root_of}
use familiar_fleet.Store.{Store, tool_of, validate}
use familiar_fleet.Store.Reads.{IsRuntime, validate_sound, validate-SameFiles}
use familiar_fleet.Store.GcRoots.{is_store_path}
use familiar_fleet.Applier.Prepare.{outside-retain, outside-smoke, smoke_sound, retain_made}
use familiar_fleet.Applier.{Tools, RuntimeApplier, smoke, retain, vet}

-- The root of a store output.
abbrev pub HasRoot : Store → Text → World → Type 0
HasRoot s target w =
    is_store_path target ≡ true
    → lookup (root_of s (base (clean target))) w.entries ≡ some (symlink (clean target))

-- What holds of a target, and of the world, once the target may be activated.
pub record Vetted (tools : Tools) (a : RuntimeApplier) (target : Text) (w : World) : Type 0 where
  pub runtime : IsRuntime w.outside target
  pub ran : tools.runs (tool_of target) ≡ true
  pub root : HasRoot a.store target w

module _ (tools : Tools) (a : RuntimeApplier) (target : Text) (w : World) where
  vet_parts :
      {t : Text}
      → (vet tools a target w).0 ≡ ok t
      → (u v x : Unit {0}) × ((validate target w).0 ≡ ok u)
        × ((smoke tools target (validate target w).1).0 ≡ ok v)
        × ((retain tools a target (smoke tools target (validate target w).1).1).0 ≡ ok x)
        × (t ≡ target)
        × ((vet tools a target w).1
            ≡ (retain tools a target (smoke tools target (validate target w).1).1).1)
  unfolding vet map_err ◌>>=◌
  vet_parts h = (tt, tt, tt, ground arith, ground arith, ground arith, ground arith, ground arith)

  -- Vetting succeeds only with its own target, and then the target is vetted.
  pub vet-Vetted :
      {t : Text}
      → (vet tools a target w).0 ≡ ok t
      → (t ≡ target) × Vetted tools a target (vet tools a target w).1
  vet-Vetted h =
      let (u, v, x, validated, smoked, retained, same, last) = vet_parts h in
      let w₁ = (validate target w).1 in
      let w₂ = (smoke tools target w₁).1 in
      let kept : (vet tools a target w).1.outside ≡ w.outside =
        ap (λ v. v.outside) last
        ∙ outside-retain tools a target w₂
        ∙ outside-smoke tools target w₁
        ∙ (validate-SameFiles target w).outside in
      (
        same,
        record {
          runtime = subst (λ o. IsRuntime o target) (sym kept) (validate_sound target w validated);
          ran = smoke_sound tools target w₁ smoked;
          root = λ k.
              ap (λ v. lookup (root_of a.store (base (clean target))) v.entries) last
              ∙ retain_made tools a target w₂ retained k;
        },
      )
