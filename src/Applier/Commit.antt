-- ===== src/Applier/Commit.antt =====
-- Moving the pointers to a vetted target: what a commit leaves at every outcome, and when it
-- succeeds.
use familiar_fleet.Base.{
  subst, ◌∙◌, ◌≡◌, ◌⊎◌, inl, inr, refl, Bool, true, false, some, Text, eq_iff, text_eq, texts_eq,
  ◌==◌, arith,
}
use familiar_fleet.FilePath.{clean}
use familiar_fleet.Host.{
  World, Outcome, ok, err, crash, regular, applied, AppliedRecord, symlink, lookup, lookup-put,
  map_err, ◌>>=◌, mkdir_all, FilePath,
}
use familiar_fleet.Store.Paths.{
  append-ne, root_of, dir-ne-in_store, dir-ne-root_of, in_store-ne-root_of, root_of-ne-in_store,
}
use familiar_fleet.Host.Inversion.{bind-eq-ok}
use familiar_fleet.Store.{
  previous_name, applied_name, Store, current, previous, current_name, applied_path, activate,
}
use familiar_fleet.Store.Activation.{activate-Moved, Moved, lookup-mkdir_all}
use familiar_fleet.Store.Safety.{IsOther, lookup-activate}
use familiar_fleet.Store.GcRoots.{prune_gc_roots}
use familiar_fleet.Store.GcRoots.Prune.{prune_gc_roots_keeps}
use familiar_fleet.Store.GcRoots.Apart.{lookup-prune_gc_roots}
use familiar_fleet.Store.Provenance.{
  record_applied_runtime, record_applied_atomic, owner_only, as_json,
}
use familiar_fleet.Applier.{Tools, RuntimeApplier, RuntimeApplyResult, commit}

module _ (s : Store) (r : AppliedRecord) (p : FilePath) (w : World) where
  -- Writing the record changes no other path.
  lookup-record :
      (s.dir == p) ≡ false
      → (applied_path s == p) ≡ false
      → lookup p (record_applied_runtime s r w).1.entries ≡ lookup p w.entries
  lookup-record d q = ground (
    arith,
    record_applied_atomic s r w,
    lookup-mkdir_all s.dir p w d,
    lookup-put (applied_path s) p (regular owner_only (applied (as_json r)))
        (mkdir_all s.dir w).1.entries,
  )

root_of-IsOther : (s : Store) (name : Text) → IsOther s (root_of s name)
root_of-IsOther s name = (
  dir-ne-root_of s name,
  in_store-ne-root_of s current_name name,
  in_store-ne-root_of s previous_name name,
)

module _ (s : Store) (w : World) where
  lookup-prune_current :
      lookup (current s) (prune_gc_roots s w).1.entries ≡ lookup (current s) w.entries
  lookup-prune_current =
      lookup-prune_gc_roots s (current s) (λ root. root_of-ne-in_store s current_name root) w

  lookup-record_current :
      (r : AppliedRecord)
      → lookup (current s) (record_applied_runtime s r w).1.entries ≡ lookup (current s) w.entries
  lookup-record_current r =
      lookup-record s r (current s) w (dir-ne-in_store s current_name)
        (append-ne s.dir applied_name current_name refl)

  lookup-record_root :
      (r : AppliedRecord) (name : Text)
      → lookup (root_of s name) (record_applied_runtime s r w).1.entries
        ≡ lookup (root_of s name) w.entries
  lookup-record_root r name =
      lookup-record s r (root_of s name) w (dir-ne-root_of s name)
        (in_store-ne-root_of s applied_name name)

  activate_current :
      (target : Text)
      → (lookup (current s) (activate s target w).1.entries ≡ lookup (current s) w.entries)
        ⊎ (lookup (current s) (activate s target w).1.entries ≡ some (symlink (clean target)))
  activate_current target = by_outcome (activate s target w).0 (activate-Moved s target w)
    where
      by_outcome :
          (o : Outcome Bool)
          → Moved
              (clean target)
              o
              (lookup (current s) w.entries)
              (lookup (previous s) w.entries)
              (lookup (current s) (activate s target w).1.entries)
              (lookup (previous s) (activate s target w).1.entries)
          → (lookup (current s) (activate s target w).1.entries ≡ lookup (current s) w.entries)
            ⊎ (lookup (current s) (activate s target w).1.entries ≡ some (symlink (clean target)))
      by_outcome (ok true) m = inr m.0
      by_outcome (ok false) m = inl m.1
      by_outcome (err e) m = inl m.0
      by_outcome crash (inl m) = inl m.0
      by_outcome crash (inr m) = inr m.0

  activate_ok_current :
      (target : Text) {b : Bool}
      → (activate s target w).0 ≡ ok b
      → lookup (current s) (activate s target w).1.entries ≡ some (symlink (clean target))
  activate_ok_current target {b} h = by_value b (
      subst
        (λ o.
          Moved (clean target) o (lookup (current s) w.entries) (lookup (previous s) w.entries)
            (lookup (current s) (activate s target w).1.entries)
            (lookup (previous s) (activate s target w).1.entries))
        h (activate-Moved s target w))
    where
      by_value :
          (b : Bool)
          → Moved
              (clean target)
              (ok b)
              (lookup (current s) w.entries)
              (lookup (previous s) w.entries)
              (lookup (current s) (activate s target w).1.entries)
              (lookup (previous s) (activate s target w).1.entries)
          → lookup (current s) (activate s target w).1.entries ≡ some (symlink (clean target))
      by_value true m = m.0
      by_value false m = m.1 ∙ m.0

module _ (tools : Tools) (a : RuntimeApplier) (installable target : Text) (w : World) where
  abbrev record_of : AppliedRecord
  record_of = record { installable = installable; target = target }

  -- At every outcome `current` is as before, or the cleaned target.
  pub commit_current :
      (lookup (current a.store) (commit tools a installable target w).1.entries
        ≡ lookup (current a.store) w.entries)
      ⊎ (lookup (current a.store) (commit tools a installable target w).1.entries
          ≡ some (symlink (clean target)))
  unfolding commit map_err ◌>>=◌
  commit_current =
      let w₁ = (activate a.store target w).1 in
      let w₂ = (prune_gc_roots a.store w₁).1 in
      ground (
        arith,
        activate_current a.store w target,
        lookup-prune_current a.store w₁,
        lookup-record_current a.store w₂ record_of,
      )

  -- If `current` is then the target, a root that the target had is still there.
  pub commit_root :
      (name : Text)
      → lookup (root_of a.store name) w.entries ≡ some (symlink (clean target))
      → lookup (current a.store) (commit tools a installable target w).1.entries
        ≡ some (symlink (clean target))
      → lookup (root_of a.store name) (commit tools a installable target w).1.entries
        ≡ some (symlink (clean target))
  unfolding commit map_err ◌>>=◌
  commit_root name h c =
      let w₁ = (activate a.store target w).1 in
      let w₂ = (prune_gc_roots a.store w₁).1 in
      ground (
        arith,
        lookup-activate a.store (root_of a.store name) target w (root_of-IsOther a.store name),
        lookup-prune_current a.store w₁,
        lookup-record_current a.store w₂ record_of,
        prune_gc_roots_keeps a.store w₁ name (clean target),
        lookup-record_root a.store w₂ record_of name,
      )

  -- A commit that succeeds has moved `current` to the target and recorded where it came from.
  pub commit_ok :
      {r : RuntimeApplyResult}
      → (commit tools a installable target w).0 ≡ ok r
      → (lookup (current a.store) (commit tools a installable target w).1.entries
          ≡ some (symlink (clean target)))
        × (lookup (applied_path a.store) (commit tools a installable target w).1.entries
            ≡ some (regular owner_only (applied (as_json record_of))))
        × (r.target ≡ target)
        × (r.skipped ≡ false)
  unfolding commit map_err ◌>>=◌
  commit_ok h =
      let w₁ = (activate a.store target w).1 in
      let w₂ = (prune_gc_roots a.store w₁).1 in
      let (b, moved) = bind-eq-ok (activate a.store target) _ w h in
      let p = applied_path a.store in
      (
        ground (
          arith,
          activate_ok_current a.store w target moved,
          lookup-prune_current a.store w₁,
          lookup-record_current a.store w₂ record_of,
        ),
        ground (
          arith,
          record_applied_atomic a.store record_of w₂,
          eq_iff p p,
          lookup-put p p (regular owner_only (applied (as_json record_of)))
              (mkdir_all a.store.dir w₂).1.entries,
        ),
        ground arith,
        ground arith,
      )
