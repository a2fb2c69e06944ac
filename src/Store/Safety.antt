-- ===== src/Store/Safety.antt =====
-- What an activation leaves alone, and when it moves `current` at all.
use familiar_fleet.Base.{◌≡◌, ◌≢◌, refl, false, [], Text, text_eq, texts_eq, ◌==◌, arith}
use familiar_fleet.FilePath.{clean}
use familiar_fleet.Host.{
  World, Outcome, ok, err, crash, symlink, lookup, lookup-put, FilePath, attempt, mkdir_all,
  continue, settle, ◌>>=◌,
}
use familiar_fleet.Store.{
  Store, current, previous, current_name, validate, pointer, repoint, activate_from, activate,
}
use familiar_fleet.Store.Reads.{validate-SameFiles, pointer-SameFiles, IsRuntime, validate_sound}
use familiar_fleet.Store.Activation.{lookup-mkdir_all, set_previous, repoint_lem}

-- Where `Activate` changes `current`, at any outcome, the cleaned target is a runtime.
pub activate_valid :
    (s : Store) (given : Text) (w : World)
    → lookup (current s) (activate s given w).1.entries ≢ lookup (current s) w.entries
    → IsRuntime w.outside (clean given)
unfolding activate ◌>>=◌
activate_valid s given w h = by_outcome (validate (clean given) w).0 refl
  where
    by_outcome :
        (o : Outcome (Unit {0}))
        → (validate (clean given) w).0 ≡ o
        → IsRuntime w.outside (clean given)
    by_outcome (ok u) e = validate_sound (clean given) w e
    by_outcome (err x) e = absurd (h (ground (arith, validate-SameFiles (clean given) w)))
    by_outcome crash e = absurd (h (ground (arith, validate-SameFiles (clean given) w)))

module _ (s : Store) (p : FilePath) where
  -- A path that is neither pointer.
  abbrev pub IsOther : Type 0
  IsOther = ((s.dir == p) ≡ false) × ((current s == p) ≡ false) × ((previous s == p) ≡ false)

  lookup-repoint :
      (old target : Text) (w : World)
      → IsOther
      → lookup p (repoint s old target w).1.entries ≡ lookup p w.entries
  lookup-repoint old target w (_, c, q) = ground (
    arith,
    repoint_lem s old target w,
    lookup-put (current s) p (symlink target) (set_previous s old w.entries),
    lookup-put (previous s) p (symlink old) w.entries,
  )

  lookup-activate_from :
      (o : Outcome Text) (target : Text) (w : World)
      → IsOther
      → lookup p (continue (settle o) (activate_from s target) w).1.entries ≡ lookup p w.entries
  unfolding activate_from
  lookup-activate_from (ok t) target w h = ground (arith, lookup-repoint t target w h)
  lookup-activate_from (err e) target w h = ground (arith, lookup-repoint [] target w h)
  lookup-activate_from crash target w h = refl

  -- `Activate`, at every outcome and for every schedule, changes no entry but the runtime
  -- directory, `current` and `previous`.
  pub lookup-activate :
      (given : Text) (w : World)
      → IsOther
      → lookup p (activate s given w).1.entries ≡ lookup p w.entries
  unfolding activate attempt ◌>>=◌
  lookup-activate given w h =
      let target = clean given in
      let w₁ = (validate target w).1 in
      let w₂ = (mkdir_all s.dir w₁).1 in
      let w₃ = (pointer s current_name w₂).1 in
      ground (
        arith,
        validate-SameFiles target w,
        lookup-mkdir_all s.dir p w₁ h.0,
        pointer-SameFiles s current_name w₂,
        lookup-activate_from (pointer s current_name w₂).0 target w₃ h,
      )
