-- ===== src/Applier/Safety.antt =====
-- `Apply` and `TrueUp` at every outcome, errors and crashes included.
use familiar_fleet.Base.{
  ap, sym, subst, ◌∙◌, ◌≡◌, ◌⊎◌, inl, inr, refl, Option, none, some, Text, text_eq, texts_eq, arith,
}
use familiar_fleet.FilePath.{clean, base}
use familiar_fleet.Host.{World, Outcome, ok, err, crash, symlink, lookup, map_err, continue, ◌>>=◌}
use familiar_fleet.Store.{current, current_name}
use familiar_fleet.Store.Reads.{IsRuntime}
use familiar_fleet.Store.Outside.{outside-activate, outside-prune_gc_roots, outside-record_applied}
use familiar_fleet.Applier.{
  prune_gc_roots, activate, Tools, RuntimeApplier, satisfied_by, build, vet, commit, apply,
  apply_unless, nix_for,
}
use familiar_fleet.Applier.Satisfied.{satisfied_by-SameFiles}
use familiar_fleet.Applier.Prepare.{in_store-IsApart, lookup-vet, entries-build}
use familiar_fleet.Applier.Vetted.{Vetted, vet-Vetted}
use familiar_fleet.Applier.Commit.{commit_current, commit_root}

module _ (tools : Tools) (a : RuntimeApplier) where
  pub commit-outside :
      (installable target : Text) (w : World)
      → (commit tools a installable target w).1.outside ≡ w.outside
  unfolding commit map_err ◌>>=◌
  commit-outside installable target w =
      let w₁ = (activate a.store target w).1 in
      let w₂ = (prune_gc_roots a.store w₁).1 in
      ground (
        arith,
        outside-activate a.store target w,
        outside-prune_gc_roots a.store w₁,
        outside-record_applied a.store (record { installable = installable; target = target }) w₂,
      )

  -- The result of a commit on a vetted target.
  abbrev pub Activated : (before after : World) → Type 0
  Activated w w' =
      (lookup (current a.store) w'.entries ≡ lookup (current a.store) w.entries)
      ⊎ ((target : Text) × (lookup (current a.store) w'.entries ≡ some (symlink (clean target)))
          × Vetted tools a target w')

  commit-Activated :
      (installable target : Text) (w : World)
      → Vetted tools a target w
      → Activated w (commit tools a installable target w).1
  commit-Activated installable target w v = elim (commit_current tools a installable target w) [
    | inl same ↦ inl same
    | inr moved ↦ inr (
      target,
      moved,
      record {
        runtime =
            subst (λ o. IsRuntime o target) (sym (commit-outside installable target w)) v.runtime;
        ran = v.ran;
        root = λ k. commit_root tools a installable target w (base (clean target)) (v.root k) moved;
      },
    )
  ]

  vet_commit-Activated :
      (installable target : Text) (w : World)
      → Activated w ((vet tools a target >>= commit tools a installable) w).1
  unfolding ◌>>=◌
  vet_commit-Activated installable target w = by_outcome (vet tools a target w).0 refl
    where
      kept :
          lookup (current a.store) (vet tools a target w).1.entries
          ≡ lookup (current a.store) w.entries
      kept =
          lookup-vet tools a target w (current a.store) (in_store-IsApart a.store current_name refl)

      by_outcome :
          (o : Outcome Text)
          → (vet tools a target w).0 ≡ o
          → Activated w (continue o (commit tools a installable) (vet tools a target w).1).1
      by_outcome (ok t) e =
          let v = (vet tools a target w).1 in
          let (same, vetted) = vet-Vetted tools a target w e in
          elim (commit-Activated installable t v
            (subst (λ x. Vetted tools a x v) (sym same) vetted)) [
              | inl old ↦ inl (old ∙ kept)
              | inr new ↦ inr new
            ]
      by_outcome (err x) e = inl kept
      by_outcome crash e = inl kept

  -- An outcome that comes with a world of the same entries.
  build-Activated :
      (installable : Text) (o : Outcome Text) (w v : World)
      → v.entries ≡ w.entries
      → Activated w (continue o (λ built. vet tools a built >>= commit tools a installable) v).1
  build-Activated installable (ok built) w v same =
      elim (vet_commit-Activated installable built v) [
        | inl old ↦ inl (old ∙ ap (lookup (current a.store)) same)
        | inr new ↦ inr new
      ]
  build-Activated installable (err e) w v same = inl (ap (lookup (current a.store)) same)
  build-Activated installable crash w v same = inl (ap (lookup (current a.store)) same)

  nix_for-Activated :
      (installable : Text) (o : Outcome Text) (w v : World)
      → v.entries ≡ w.entries
      → Activated w
          (continue o
            (λ nix. build tools nix installable >>= λ built.
              vet tools a built >>= commit tools a installable)
            v).1
  unfolding ◌>>=◌
  nix_for-Activated installable (ok nix) w v same =
      let (o, u) = build tools nix installable v in
      build-Activated installable o w u (entries-build tools nix installable v ∙ same)
  nix_for-Activated installable (err e) w v same = inl (ap (lookup (current a.store)) same)
  nix_for-Activated installable crash w v same = inl (ap (lookup (current a.store)) same)

  nix_for-entries :
      (installable : Text) (w : World) → (nix_for tools a installable w).1.entries ≡ w.entries
  nix_for-entries installable w = ground arith

  apply_unless-Activated :
      (installable : Text) (o : Outcome (Option Text)) (w v : World)
      → v.entries ≡ w.entries
      → Activated w (continue o (apply_unless tools a installable) v).1
  unfolding apply_unless ◌>>=◌
  apply_unless-Activated installable (ok (some t)) w v same =
      inl (ap (lookup (current a.store)) same)
  apply_unless-Activated installable (ok none) w v same =
      let (o, u) = nix_for tools a installable v in
      nix_for-Activated installable o w u (nix_for-entries installable v ∙ same)
  apply_unless-Activated installable (err e) w v same = inl (ap (lookup (current a.store)) same)
  apply_unless-Activated installable crash w v same = inl (ap (lookup (current a.store)) same)

  -- `Apply` at every outcome and for every schedule: `current` is as before, or it points at a
  -- target that is a runtime, whose tool has run, and that has its root if it is a store output.
  pub apply-Activated :
      (installable : Text) (w : World) → Activated w (apply tools a installable w).1
  unfolding apply ◌>>=◌
  apply-Activated installable w =
      let (o, v) = satisfied_by tools a installable w in
      apply_unless-Activated installable o w v
        (satisfied_by-SameFiles tools a installable w).entries
