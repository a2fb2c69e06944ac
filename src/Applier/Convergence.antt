-- ===== src/Applier/Convergence.antt =====
-- An `Apply` that succeeded needs no work the next time.
use familiar_fleet.Base.{
  ap, sym, subst, ◌∙◌, ◌≡◌, ◌≢◌, refl, true, false, Option, none, some, [], Text, arith,
}
use familiar_fleet.FilePath.{clean}
use familiar_fleet.Host.{
  World, Outcome, ok, err, crash, symlink, regular, applied, continue, ◌>>=◌, resume, Io,
}
use familiar_fleet.Store.Reads.{SameFiles, IsRuntime}
use familiar_fleet.Store.Provenance.{owner_only, as_json}
use familiar_fleet.Text.Json.{json_text}
use familiar_fleet.Applier.{
  Tools, RuntimeApplier, RuntimeApplyResult, satisfied_by, build, vet, commit, apply, apply_unless,
  nix_for,
}
use familiar_fleet.Applier.Vetted.{Vetted, vet-Vetted}
use familiar_fleet.Applier.Commit.{commit_ok}
use familiar_fleet.Applier.Satisfied.{
  Satisfied, satisfied_by-SameFiles, satisfied_by_sound, satisfied_by_complete,
}
use familiar_fleet.Applier.Safety.{commit-outside}

module _ (tools : Tools) (a : RuntimeApplier) (installable : Text)
    (plain : json_text installable ≡ installable) where
  -- A success whose target is a clean path leaves a satisfied descriptor.
  abbrev Settled : Outcome RuntimeApplyResult → World → Type 0
  Settled (ok r) w =
      clean r.target ≡ r.target → json_text r.target ≡ r.target → Satisfied a installable r.target w
  Settled (err _) w = Unit
  Settled crash w = Unit

  Satisfied-SameFiles :
      (target : Text) (w v : World)
      → SameFiles w v
      → Satisfied a installable target w
      → Satisfied a installable target v
  Satisfied-SameFiles target w v same s = record {
    mode = s.mode;
    recorded = ground (arith, s.recorded, same);
    active = ground (arith, s.active, same);
    runtime = subst (λ o. IsRuntime o target) (sym same.outside) s.runtime;
  }

  -- A record of valid UTF-8 is what encoding/json keeps of it.
  kept :
      {target : Text}
      → json_text target ≡ target
      → some (
          regular owner_only
            (applied (as_json (record { installable = installable; target = target }))))
        ≡ some
            (regular owner_only (applied (record { installable = installable; target = target })))
  kept j = cc (plain, j)

  commit-Settled :
      (target : Text) (w : World)
      → Vetted tools a target w
      → Settled (commit tools a installable target w).0 (commit tools a installable target w).1
  commit-Settled target w vetted = by_outcome (commit tools a installable target w).0 refl
    where
      by_outcome :
          (o : Outcome RuntimeApplyResult)
          → (commit tools a installable target w).0 ≡ o
          → Settled o (commit tools a installable target w).1
      by_outcome (ok r) e = λ k j.
          let v = (commit tools a installable target w).1 in
          let (moved, recorded, same, _) = commit_ok tools a installable target w e in
          let made : Satisfied a installable target v = record {
            mode = owner_only;
            recorded = recorded ∙ kept (subst (λ t. json_text t ≡ t) same j);
            active = moved ∙ ap (λ t. some (symlink t)) (subst (λ t. clean t ≡ t) same k);
            runtime =
                subst (λ o. IsRuntime o target) (sym (commit-outside tools a installable target w))
                  vetted.runtime;
          } in
          subst (λ t. Satisfied a installable t v) (sym same) made
      by_outcome (err x) e = tt
      by_outcome crash e = tt

  vet-Settled :
      (target : Text) (w : World)
      → Settled
          ((vet tools a target >>= commit tools a installable) w).0
          ((vet tools a target >>= commit tools a installable) w).1
  unfolding ◌>>=◌
  vet-Settled target w = by_outcome (vet tools a target w).0 refl
    where
      by_outcome :
          (o : Outcome Text)
          → (vet tools a target w).0 ≡ o
          → Settled
              (continue o (commit tools a installable) (vet tools a target w).1).0
              (continue o (commit tools a installable) (vet tools a target w).1).1
      by_outcome (ok t) e =
          let v = (vet tools a target w).1 in
          let (same, vetted) = vet-Vetted tools a target w e in
          commit-Settled t v (subst (λ x. Vetted tools a x v) (sym same) vetted)
      by_outcome (err x) e = tt
      by_outcome crash e = tt

  build-Settled :
      (o : Outcome Text) (v : World)
      → Settled
          (continue o (λ built. vet tools a built >>= commit tools a installable) v).0
          (continue o (λ built. vet tools a built >>= commit tools a installable) v).1
  build-Settled (ok built) v = vet-Settled built v
  build-Settled (err e) v = tt
  build-Settled crash v = tt

  abbrev pub rest : Text → Io RuntimeApplyResult
  rest nix =
      build tools nix installable >>= λ built. vet tools a built >>= commit tools a installable

  nix_for-Settled :
      (o : Outcome Text) (v : World) → Settled (continue o rest v).0 (continue o rest v).1
  unfolding ◌>>=◌
  nix_for-Settled (ok nix) v = let (o, u) = build tools nix installable v in build-Settled o u
  nix_for-Settled (err e) v = tt
  nix_for-Settled crash v = tt

  pub apply-Settled :
      (w : World) → Settled (apply tools a installable w).0 (apply tools a installable w).1
  unfolding apply apply_unless ◌>>=◌
  apply-Settled w = by_outcome (satisfied_by tools a installable w).0 refl
    where
      by_outcome :
          (o : Outcome (Option Text))
          → (satisfied_by tools a installable w).0 ≡ o
          → Settled
              (continue o
                (apply_unless tools a installable)
                (satisfied_by tools a installable w).1).0
              (continue o
                (apply_unless tools a installable)
                (satisfied_by tools a installable w).1).1
      by_outcome (ok (some t)) e = λ k j.
          Satisfied-SameFiles t w (satisfied_by tools a installable w).1
            (satisfied_by-SameFiles tools a installable w)
            (satisfied_by_sound tools a installable w e)
      by_outcome (ok none) e =
          let v = (satisfied_by tools a installable w).1 in
          let (o, u) = nix_for tools a installable v in nix_for-Settled o u
      by_outcome (err x) e = tt
      by_outcome crash e = tt

  skip :
      {v : World} {t : Text}
      → satisfied_by tools a installable v ≡ (ok (some t), v)
      → apply tools a installable v
        ≡ (ok (record { target = t; changed = false; skipped = true }), v)
  unfolding apply apply_unless ◌>>=◌
  skip e = ground (arith, e)

  -- After an `Apply` of an installable that is not empty, which succeeded with a clean target, where
  -- encoding/json keeps both of them, as it keeps every text that is valid UTF-8,
  -- whatever the schedule was, a second one in which no system call fails skips: it returns the
  -- same target, reports no change, and leaves the world as it is.
  pub apply_again :
      (w : World) (r : RuntimeApplyResult)
      → installable ≢ []
      → clean r.target ≡ r.target
      → json_text r.target ≡ r.target
      → (apply tools a installable w).0 ≡ ok r
      → apply tools a installable (resume (apply tools a installable w).1 []) ≡ (
        ok (record { target = r.target; changed = false; skipped = true }),
        resume (apply tools a installable w).1 [],
      )
  apply_again w r ne k j h =
      let v = (apply tools a installable w).1 in
      skip (
        satisfied_by_complete tools a installable r.target v ne
          (subst (λ o. Settled o v) h (apply-Settled w) k j))
