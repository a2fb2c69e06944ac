-- ===== src/Store/Outside.antt =====
-- No operation of the store changes a file outside the state directory.
use familiar_fleet.Base.{◌≡◌, refl, [], ◌∷◌, List, Text, arith, text_eq}
use familiar_fleet.FilePath.{clean}
use familiar_fleet.Host.{
  World, Outcome, ok, err, crash, AppliedRecord, continue, settle, attempt, finally, perform,
  map_err, ◌>>=◌, readlink, remove_file, read_dir, make_temp, fill_temp, rename_temp, remove_temp,
  no_op, mkdir_all,
}
use familiar_fleet.Store.{
  Store, current_name, gc_roots, current, previous, validate, pointer, replace_symlink, repoint,
  activate_from, activate,
}
use familiar_fleet.Store.Reads.{validate-SameFiles, pointer-SameFiles}
use familiar_fleet.Store.Replace.{outside-replace_symlink}
use familiar_fleet.Store.Activation.{outside-mkdir_all}
use familiar_fleet.Store.GcRoots.{keep_set, prune_one, prune_each, prune_listed, prune_gc_roots}
use familiar_fleet.Store.GcRoots.Prune.{keep_set-SameFiles, read_dir-SameFiles}
use familiar_fleet.Store.Provenance.{record_applied_runtime}

module _ (s : Store) where
  outside-repoint : (old target : Text) (w : World) → (repoint s old target w).1.outside ≡ w.outside
  unfolding repoint map_err ◌>>=◌
  outside-repoint [] target w = ground (arith, outside-replace_symlink (current s) target w)
  outside-repoint (c ∷ old) target w = ground (
    arith,
    outside-replace_symlink (previous s) (c ∷ old) w,
    outside-replace_symlink (current s) target (replace_symlink (previous s) (c ∷ old) w).1,
  )

  outside-activate_from :
      (o : Outcome Text) (target : Text) (w : World)
      → (continue (settle o) (activate_from s target) w).1.outside ≡ w.outside
  unfolding activate_from
  outside-activate_from (ok t) target w = ground (arith, outside-repoint t target w)
  outside-activate_from (err e) target w = ground (arith, outside-repoint [] target w)
  outside-activate_from crash target w = refl

  pub outside-activate : (given : Text) (w : World) → (activate s given w).1.outside ≡ w.outside
  unfolding activate attempt ◌>>=◌
  outside-activate given w =
      let target = clean given in
      let w₁ = (validate target w).1 in
      let w₂ = (mkdir_all s.dir w₁).1 in
      let w₃ = (pointer s current_name w₂).1 in
      ground (
        arith,
        validate-SameFiles target w,
        outside-mkdir_all s.dir w₁,
        pointer-SameFiles s current_name w₂,
        outside-activate_from (pointer s current_name w₂).0 target w₃,
      )

  outside-prune_one :
      (keep : List Text) (name : Text) (w : World) → (prune_one s keep name w).1.outside ≡ w.outside
  unfolding prune_one readlink remove_file map_err perform ◌>>=◌
  outside-prune_one keep name w = ground arith

  outside-prune_each :
      (keep names : List Text) (w : World) → (prune_each s keep names w).1.outside ≡ w.outside
  unfolding prune_each ◌>>=◌
  outside-prune_each keep [] w = refl
  outside-prune_each keep (name ∷ names) w =
      let w' = (prune_one s keep name w).1 in
      ground (arith, outside-prune_one keep name w, outside-prune_each keep names w')

  outside-prune_kept :
      (o : Outcome (List Text)) (keep : List Text) (w : World)
      → (continue (settle o) (prune_listed s keep) w).1.outside ≡ w.outside
  unfolding prune_listed
  outside-prune_kept (ok names) keep w = outside-prune_each keep names w
  outside-prune_kept (err e) keep w = ground arith
  outside-prune_kept crash keep w = refl

  outside-prune_listed :
      (o : Outcome (List Text)) (w : World)
      → (continue o
          (λ keep. λ v.
            continue
              (settle (read_dir (gc_roots s) v).0)
              (prune_listed s keep)
              (read_dir (gc_roots s) v).1)
          w).1.outside
        ≡ w.outside
  outside-prune_listed (ok keep) w =
      let l = read_dir (gc_roots s) w in
      ground (arith, read_dir-SameFiles s w (gc_roots s) w, outside-prune_kept l.0 keep l.1)
  outside-prune_listed (err e) w = refl
  outside-prune_listed crash w = refl

  pub outside-prune_gc_roots : (w : World) → (prune_gc_roots s w).1.outside ≡ w.outside
  unfolding prune_gc_roots attempt ◌>>=◌
  outside-prune_gc_roots w =
      ground (arith, keep_set-SameFiles s w, outside-prune_listed (keep_set s w).0 (keep_set s w).1)

  pub outside-record_applied :
      (r : AppliedRecord) (w : World) → (record_applied_runtime s r w).1.outside ≡ w.outside
  unfolding record_applied_runtime make_temp fill_temp no_op rename_temp remove_temp attempt finally
      perform ◌>>=◌
  outside-record_applied r w = ground (arith, outside-mkdir_all s.dir w)
